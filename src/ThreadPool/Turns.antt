-- ===== src/ThreadPool/Turns.antt =====
-- What the turns of serve() do with clients and with listening.
use async_thrift.Prelude.{
  ℕ, ◌+◌, ◌≤◌, ◌≡◌, refl, ap, ◌∙◌, List, [], Bool, true, false, Option, leb, le→leb, not,
  if◌then◌else◌, arith, count, count-append,
}
use async_thrift.ThreadPool.{
  start_listen, safe_stop_listen, Outcome, added, too_many_tasks, transport_error, thrift_error,
  unknown_error, Serving, Turned, goes_on, returns, breaks, clients, handle_client, listened, turn,
}

abbrev pub after : Turned → Serving
after (goes_on t) = t
after (returns t) = t
after (breaks t) = t

-- The clients of a turn: none if the pool is full or the server cannot listen.
abbrev pub took : ℕ → ℕ → Bool → Serving → Option ℕ → List ℕ
took pending pending_max listens t client =
    if leb pending_max pending
    then []
    else if t.base.is_listen
    then clients client
    else if listens
    then clients client
    else []

abbrev pub served : ℕ → Serving → ℕ
served client t = count client t.tasks + count client t.closed

handle-served :
    (closes : Bool) (outcome : Outcome) (client : Option ℕ) (t : Serving) (j : ℕ)
    → served j (after (handle_client closes outcome client t))
      ≡ served j t + count j (clients client)
handle-served closes added client t j = omega (arith, count-append j (clients client) t.tasks)
handle-served closes too_many_tasks client t j =
    omega (arith, count-append j (clients client) t.closed)
handle-served closes transport_error client t j =
    omega (arith, count-append j (clients client) t.closed)
handle-served closes thrift_error client t j =
    omega (arith, count-append j (clients client) t.closed)
handle-served closes unknown_error client t j =
    omega (arith, count-append j (clients client) t.closed)

-- However a turn ends, the client that it accepted has become a task or has been closed, once, and
-- no other has; and where the pool is full no client is accepted, and the server has stopped
-- listening unless closing failed.
pub turn-served :
    (pending pending_max : ℕ) (listens closes : Bool) (outcome : Outcome) (client : Option ℕ)
    (t : Serving)
    → let r = after (turn pending pending_max listens closes outcome client t) in
      ((j : ℕ) → served j r ≡ served j t + count j (took pending pending_max listens t client))
      × (pending_max ≤ pending → closes ≡ true → r.base.is_listen ≡ false)
unfolding turn start_listen safe_stop_listen
turn-served pending pending_max listens closes outcome client t =
    (λ j. by_full j (leb pending_max pending), λ full. silent (le→leb pending_max pending full))
  where
    by_full :
        (j : ℕ) (b : Bool)
        → served j (
            after (
              if b
              then goes_on (record t { base = safe_stop_listen closes t.base })
              else listened (start_listen listens t.base) (handle_client closes outcome client) t))
          ≡ served j t
            + count j (
                if b
                then []
                else if t.base.is_listen
                then clients client
                else if listens
                then clients client
                else [])
    by_full j true = omega arith
    by_full j false = by_listening j t.base.is_listen listens
      where
        by_listening :
            (j : ℕ) (b c : Bool)
            → served j (
                after (
                  listened
                    (if b
                      then (true, t.base)
                      else if c
                      then (true, record t.base { is_listen = true })
                      else (false, t.base))
                    (handle_client closes outcome client)
                    t))
              ≡ served j t
                + count j (if b then clients client else if c then clients client else [])
        by_listening j true c = handle-served closes outcome client t j
        by_listening j false true =
            handle-served closes outcome client
              (record t { base = record t.base { is_listen = true } }) j
        by_listening j false false = omega arith

    stopped : (l : Bool) → t.base.is_listen ≡ l → (safe_stop_listen true t.base).is_listen ≡ false
    stopped true h =
        ap (λ b. (if not b then t.base else record t.base { is_listen = false }).is_listen) h
    stopped false h =
        ap (λ b. (if not b then t.base else record t.base { is_listen = false }).is_listen) h ∙ h

    silent :
        leb pending_max pending ≡ true
        → closes ≡ true
        → (after (turn pending pending_max listens closes outcome client t)).base.is_listen ≡ false
    silent full c =
        ap
          (λ b.
            (after (
              if b
              then goes_on (record t { base = safe_stop_listen closes t.base })
              else listened (start_listen listens t.base) (handle_client closes outcome client)
                  t)).base.is_listen)
          full
        ∙ ap (λ b. (safe_stop_listen b t.base).is_listen) c
        ∙ stopped t.base.is_listen refl
