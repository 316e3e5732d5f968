-- ===== src/ThreadPool/History.antt =====
-- Any history of a server: turns of serve(), tasks that end, stops, and the shutdown.
use async_thrift.Prelude.{
  ℕ, ◌-◌, ◌<◌, ◌≡◌, refl, sym, ap, ◌∙◌, subst, List, [], ◌∷◌, ◌++◌, Bool, true, false, Option, none,
  some, ◌==◌, not, if◌then◌else◌, arith, count, count-append,
}
use async_thrift.ThreadPool
use async_thrift.ThreadPool.{
  BaseServer, new_base_server, Outcome, Serving, turn, erase, finish, stop_listen, join, joined,
  shutdown,
}
use async_thrift.ThreadPool.Turns.{after, took, served, turn-served}

-- With the clients accepted so far.
pub data Serves : List ℕ → Serving → Type 0 where
  begins : Serves [] (record { base = new_base_server; tasks = []; closed = [] })
  turns :
      {clients : List ℕ} {t : Serving} (pending pending_max : ℕ) (listens closes : Bool)
      (outcome : Outcome) (client : Option ℕ)
      → Serves clients t
      → t.base.stop ≡ false
      → Serves
          (took pending pending_max listens t client ++ clients)
          (after (turn pending pending_max listens closes outcome client t))
  ends :
      {clients : List ℕ} {t : Serving} (task : ℕ)
      → Serves clients t
      → 0 < count task t.tasks
      → Serves clients (finish task t)
  stops :
      {clients : List ℕ} {t : Serving}
      → Serves clients t
      → Serves clients (record t { base = ThreadPool.stop t.base })
  shuts :
      {clients : List ℕ} {t : Serving} (closes : Bool)
      → Serves clients t
      → Serves clients (shutdown closes t)

count-erase :
    (j task : ℕ) (ts : List ℕ) → count j (erase task ts) ≡ count j ts - (if j == task then 1 else 0)
unfolding erase
count-erase j task [] = ground arith
count-erase j task (t ∷ ts) = ground (arith, count-erase j task ts)

finish-served :
    (j task : ℕ) (t : Serving) → 0 < count task t.tasks → served j (finish task t) ≡ served j t
unfolding finish
finish-served j task t h = ground (arith, count-erase j task t.tasks)

-- Joining runs the tasks that there are, in any order.
join-served :
    (tasks : List ℕ) (t : Serving)
    → t.tasks ≡ tasks
    → ((j : ℕ) → served j (join tasks t) ≡ served j t)
      × ((join tasks t).tasks ≡ [])
      × ((join tasks t).base ≡ t.base)
unfolding join finish erase
join-served [] t q = (λ j. refl, q, refl)
join-served (task ∷ tasks) t q =
    let (e, e', e'') = join-served tasks (finish task t) (ap (erase task) q ∙ here task tasks) in
    (
      λ j. e j ∙ finish-served j task t (subst (λ ts. 0 < count task ts) (sym q) (ground arith)),
      e',
      e'',
    )
  where
    here : (x : ℕ) (xs : List ℕ) → erase x (x ∷ xs) ≡ xs
    here x xs = ground arith

shutdown-served : (closes : Bool) (t : Serving) (j : ℕ) → served j (shutdown closes t) ≡ served j t
unfolding shutdown
shutdown-served closes t j = by_stop t.base.stop
  where
    by_joined : (x : Option BaseServer) → served j (joined x t) ≡ served j t
    by_joined none = refl
    by_joined (some b) = (join-served t.tasks (record t { base = b }) refl).0 j

    by_stop :
        (b : Bool)
        → served j (
            if b
            then (let r = joined (stop_listen closes t.base) t in
                let base = r.base in record r { base = record base { stop = false } })
            else t)
          ≡ served j t
    by_stop true = by_joined (stop_listen closes t.base)
    by_stop false = refl

stop_listen-closes :
    (b : BaseServer) → (c : BaseServer) × (stop_listen true b ≡ some c) × (c.is_listen ≡ false)
unfolding stop_listen
stop_listen-closes b = by_listen b.is_listen refl
  where
    by_listen :
        (l : Bool)
        → b.is_listen ≡ l
        → (c : BaseServer) × (stop_listen true b ≡ some c) × (c.is_listen ≡ false)
    by_listen true h = (
      record b { is_listen = false },
      ap (λ x. if not x then some b else some (record b { is_listen = false })) h,
      refl,
    )
    by_listen false h =
        (b, ap (λ x. if not x then some b else some (record b { is_listen = false })) h, h)

abbrev pub stopped : Serving → Serving
stopped t = record t { base = ThreadPool.stop t.base }

shutdown-stopped :
    (t : Serving)
    → let r = shutdown true (stopped t) in
      (r.tasks ≡ []) × (r.base.is_listen ≡ false) × (r.base.stop ≡ false)
unfolding shutdown ThreadPool.stop
shutdown-stopped t =
    let (c, e, silent) = stop_listen-closes (ThreadPool.stop t.base) in
    let (s, none_left, same) = join-served t.tasks (record t { base = c }) refl in
    (
      ap (λ x. (joined x (stopped t)).tasks) e ∙ none_left,
      ap (λ x. (joined x (stopped t)).base.is_listen) e ∙ ap (λ b. b.is_listen) same ∙ silent,
      refl,
    )

history-served :
    {clients : List ℕ} {t : Serving} → Serves clients t → (j : ℕ) → served j t ≡ count j clients
history-served begins j = refl
history-served (turns {clients} {t} pending pending_max listens closes outcome client s running) j =
    omega (
      arith,
      history-served s j,
      (turn-served pending pending_max listens closes outcome client t).0 j,
      count-append j (took pending pending_max listens t client) clients,
    )
history-served (ends {t} task s h) j = finish-served j task t h ∙ history-served s j
history-served (stops s) j = history-served s j
history-served (shuts {t} closes s) j = shutdown-served closes t j ∙ history-served s j

-- In every history each client accepted, and no other, is a task or has been closed, and that once;
-- and if the server is then stopped and shut down, with its socket closing, no task is left, each
-- client accepted has been closed once, and the server does not listen.
pub Serves-served :
    {clients : List ℕ} {t : Serving}
    → Serves clients t
    → ((j : ℕ) → served j t ≡ count j clients)
      × (let r = shutdown true (stopped t) in
          (r.tasks ≡ [])
          × ((j : ℕ) → count j r.closed ≡ count j clients)
          × (r.base.is_listen ≡ false)
          × (r.base.stop ≡ false))
Serves-served {clients} {t} s =
    let (none_left, silent, goes) = shutdown-stopped t in
    (
      history-served s,
      (
        none_left,
        λ j.
            omega (
              arith,
              history-served s j,
              shutdown-served true (stopped t) j,
              ap (count j) none_left,
            ),
        silent,
        goes,
      ),
    )
