-- ===== src/Threaded/Leak.antt =====
-- A task whose thread does not start, and a shutdown that the flag of listening does not follow.
use async_thrift.Prelude.{
  ℕ, ◌-◌, ◌≤◌, ◌<◌, ◌≡◌, refl, sym, ap, ◌∙◌, subst, List, [], ◌∷◌, Bool, true, false, Option, none,
  some, leb, ◌==◌, if◌then◌else◌, arith, count, length,
}
use async_thrift.ThreadPool.{BaseServer, clients, start_listen, safe_stop_listen}
use async_thrift.ThreadPool
use async_thrift.Threaded.{
  ThreadedServer, erase, finish, Outcome, starts, fails_before, fails_to_start, Failure,
  transport_error, thrift_error, unknown_error, Turned, goes_on, returns, breaks, handled,
  insert_task, handle_client, listening, silenced, listened, turn, is_none, shutdown,
}

pub data Step (s : ThreadedServer) : ThreadedServer → Type 0 where
  turns :
      {t : ThreadedServer} (worker_thread_count_max : ℕ) (listens closes : Bool) (outcome : Outcome)
      (client : Option ℕ)
      → s.base.stop ≡ false
      → turn worker_thread_count_max listens closes outcome client s ≡ goes_on t
      → Step s t
  ends : (task : ℕ) → 0 < count task s.started → Step s (finish task s)
  stops : Step s (record s { base = ThreadPool.stop s.base })

pub data Steps (s : ThreadedServer) : ThreadedServer → Type 0 where
  none_yet : Steps s s
  next : {t u : ThreadedServer} → Steps s t → Step t u → Steps s u

count-erase :
    (j task : ℕ) (ts : List ℕ) → count j (erase task ts) ≡ count j ts - (if j == task then 1 else 0)
unfolding erase
count-erase j task [] = ground arith
count-erase j task (t ∷ ts) = ground (arith, count-erase j task ts)

-- The task `j` is in the set, and no thread will end it.
abbrev pub Leaks : ℕ → ThreadedServer → Type 0
Leaks j s = (count j s.started ≡ 0) × (1 ≤ count j s.tasks)

abbrev LeaksAfter : ℕ → Turned → Type 0
LeaksAfter j (goes_on t) = Leaks j t
LeaksAfter j (returns t) = Leaks j t
LeaksAfter j (breaks t) = Leaks j t

abbrev pub IsOther : ℕ → Option ℕ → Type 0
IsOther j none = Unit
IsOther j (some task) = (j == task) ≡ false

-- The turn starts no thread for a task at the address `j`.
abbrev pub SparesTurn : ℕ → Outcome → Option ℕ → Type 0
SparesTurn j starts client = IsOther j client
SparesTurn j (fails_before failure) client = Unit
SparesTurn j (fails_to_start failure) client = Unit

abbrev pub Spares : {s t : ThreadedServer} → ℕ → Step s t → Type 0
Spares j (turns worker_thread_count_max listens closes outcome client running e) =
    SparesTurn j outcome client
Spares j (ends task h) = Unit
Spares j stops = Unit

abbrev pub AllSpare : {s t : ThreadedServer} → ℕ → Steps s t → Type 0
AllSpare j none_yet = Unit
AllSpare j (next steps step) = AllSpare j steps × Spares j step

insert_task-Leaks :
    (j : ℕ) (client : Option ℕ) (s : ThreadedServer) → Leaks j s → Leaks j (insert_task client s)
insert_task-Leaks j none s l = l
insert_task-Leaks j (some task) s l = (l.0, ground (arith, l.1))

module _ (j : ℕ) (client : Option ℕ) where
  handled-Leaks :
      (failure : Failure) (s : ThreadedServer) → Leaks j s → LeaksAfter j (handled failure client s)
  handled-Leaks transport_error s l = l
  handled-Leaks thrift_error s l = l
  handled-Leaks unknown_error s l = l

  handle_client-Leaks :
      (outcome : Outcome) (s : ThreadedServer)
      → SparesTurn j outcome client
      → Leaks j s
      → LeaksAfter j (handle_client outcome client s)
  handle_client-Leaks starts s other l = started client other
    where
      started : (c : Option ℕ) → IsOther j c → LeaksAfter j (handle_client starts c s)
      started none h = l
      started (some task) h = (ground (arith, l.0, h), (insert_task-Leaks j (some task) s l).1)
  handle_client-Leaks (fails_before failure) s other l = handled-Leaks failure s l
  handle_client-Leaks (fails_to_start failure) s other l =
      handled-Leaks failure (insert_task client s) (insert_task-Leaks j client s l)

  listened-Leaks :
      (outcome : Outcome) (r : Bool × ThreadedServer)
      → SparesTurn j outcome client
      → Leaks j r.1
      → LeaksAfter j (listened r (handle_client outcome client))
  listened-Leaks outcome (true, s) other l = handle_client-Leaks outcome s other l
  listened-Leaks outcome (false, s) other l = l

  turn-Leaks :
      (worker_thread_count_max : ℕ) (listens closes : Bool) (outcome : Outcome) (s : ThreadedServer)
      → SparesTurn j outcome client
      → Leaks j s
      → LeaksAfter j (turn worker_thread_count_max listens closes outcome client s)
  unfolding turn
  turn-Leaks worker_thread_count_max listens closes outcome s other l =
      by_room (leb worker_thread_count_max (length s.tasks))
    where
      by_room :
          (b : Bool)
          → LeaksAfter j (
              if b
              then goes_on (silenced closes s)
              else listened (listening listens s) (handle_client outcome client))
      by_room true = l
      by_room false = listened-Leaks outcome (listening listens s) other l

Step-Leaks :
    {s t : ThreadedServer} (j : ℕ) (step : Step s t) → Spares j step → Leaks j s → Leaks j t
unfolding finish
Step-Leaks {s} j (turns worker_thread_count_max listens closes outcome client running e) h l =
    subst (LeaksAfter j) e
      (turn-Leaks j client worker_thread_count_max listens closes outcome s h l)
Step-Leaks {s} j (ends task h) spared l = (ground (arith, l.0, count-erase j task s.started), kept)
  where
    kept : 1 ≤ count j (erase task s.tasks)
    kept = ground (arith, l.0, l.1, h, count-erase j task s.tasks)
Step-Leaks {s} j stops h l = l

pub Steps-Leaks :
    {s t : ThreadedServer} (j : ℕ) (steps : Steps s t) → AllSpare j steps → Leaks j s → Leaks j t
Steps-Leaks j none_yet h l = l
Steps-Leaks j (next steps step) h l = Step-Leaks j step h.1 (Steps-Leaks j steps h.0 l)

-- If the start of a client's thread throws, where there was room and the server listened and no
-- thread ran a task of that address, its task stays in the set: whatever happens then, as long as no
-- thread is started for a later task at the same address, the shutdown waits for ever.
pub start_failure-shutdown :
    (worker_thread_count_max : ℕ) (listens closes closes' : Bool) (failure : Failure) (j : ℕ)
    (s : ThreadedServer) {t u : ThreadedServer}
    → count j s.started ≡ 0
    → length s.tasks < worker_thread_count_max
    → s.base.is_listen ≡ true
    → turn worker_thread_count_max listens closes (fails_to_start failure) (some j) s ≡ goes_on t
    → (later : Steps t u) → AllSpare j later
    → u.base.stop ≡ true
    → shutdown closes' u ≡ none
unfolding turn shutdown start_listen
start_failure-shutdown worker_thread_count_max listens closes closes' failure j s {t} {u} idle room
      listen failed later spared stopped =
    waits u stopped
      (Steps-Leaks j later spared (subst (LeaksAfter j) (sym runs ∙ failed) (leaks failure)))
  where
    s' : ThreadedServer
    s' = (listening listens s).1

    runs :
        turn worker_thread_count_max listens closes (fails_to_start failure) (some j) s
        ≡ handled failure (some j) (insert_task (some j) s')
    runs =
        ap
          (λ b.
            if b
            then goes_on (silenced closes s)
            else listened (listening listens s) (handle_client (fails_to_start failure) (some j)))
          (no_room room)
        ∙ ap (λ b. listened (b, s') (handle_client (fails_to_start failure) (some j))) listens_on
      where
        no_room :
            length s.tasks < worker_thread_count_max
            → leb worker_thread_count_max (length s.tasks) ≡ false
        no_room h = ground arith

        listens_on : (listening listens s).0 ≡ true
        listens_on = by_listen s.base.is_listen listen
          where
            by_listen :
                (b : Bool)
                → b ≡ true
                → (if◌then◌else◌ {A = Bool × BaseServer} b
                    (true, s.base)
                    (if listens
                      then (true, record s.base { is_listen = true })
                      else (false, s.base))).0
                  ≡ true
            by_listen true h = refl
            by_listen false h = cc

    one_more : Leaks j (insert_task (some j) s')
    one_more = (idle, ground arith)

    leaks : (f : Failure) → LeaksAfter j (handled f (some j) (insert_task (some j) s'))
    leaks transport_error = one_more
    leaks thrift_error = one_more
    leaks unknown_error = one_more

    waits : (v : ThreadedServer) → v.base.stop ≡ true → Leaks j v → shutdown closes' v ≡ none
    waits v h l = ground (arith, l.1)

-- After a shutdown in which the server listened and no task is left, its socket is closed, but the
-- next serve() believes that it listens and opens none.
pub shutdown-listening :
    (listens : Bool) (s : ThreadedServer)
    → s.base.stop ≡ true
    → s.base.is_listen ≡ true
    → s.tasks ≡ []
    → (t : ThreadedServer) × (shutdown true s ≡ some t)
      × (t.transport ≡ false)
      × (listening listens t ≡ (true, t))
unfolding shutdown start_listen
shutdown-listening listens s stopped listen none_left = (
  t,
  ap (λ b. if b then if is_none s.tasks then some t else none else some s) stopped
      ∙ ap (λ ts. if is_none ts then some t else none) none_left,
  refl,
  ap
      (λ b.
        let r : Bool × BaseServer =
          if b
          then (true, t.base)
          else if listens
          then (true, record t.base { is_listen = true })
          else (false, t.base) in
        (
          r.0,
          record t {
            base = r.1;
            transport = if b then t.transport else if listens then true else t.transport;
          },
        ))
      listen,
)
  where
    t : ThreadedServer
    t = record s { base = base'; transport = false }
      where
        base' : BaseServer
        base' = record { is_listen = s.base.is_listen; stop = false }
