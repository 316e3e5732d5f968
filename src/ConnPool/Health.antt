-- ===== src/ConnPool/Health.antt =====
-- The status that update_status and quick_update_status find.
use async_thrift.Prelude.{
  ℕ, zero, suc, ◌≡◌, refl, ap, ◌∙◌, [], Bool, true, false, arith, ◌&&◌, not, if◌then◌else◌,
}
use async_thrift.ConnPool.{
  Status, closed, connected, is_connected, Connection, is_open, close_connection, Answer, alive,
  other, threw, after_answer, ConnPool, Held, take_free, is_empty,
}
use async_thrift.ConnPool.Probe.{
  try_status, set_status, try_times, update_status, quick_update_status,
}
use async_thrift.ConnPool.Owner.{Owned, take_free-IsHeld}
use async_thrift.ConnPool.Outcome.{is_ready, take_free-is_ready}

-- Is the server alive by the first n answers? After one that throws none is heard.
abbrev pub hears : ℕ → ℕ → (ℕ → Answer) → Bool
hears zero i answers = false
hears (suc n) i answers =
    let rest = hears n (suc i) answers in
    elim (answers i) [ alive ↦ true | other ↦ rest | threw ↦ false ]

try_status-closed :
    (n i : ℕ) (answers : ℕ → Answer) (c : Connection)
    → is_open c ≡ false
    → (try_status n i answers c).0 ≡ false
unfolding try_status
try_status-closed zero i answers c h = refl
try_status-closed (suc n) i answers c h =
    ap
      (λ b.
        (if◌then◌else◌ {A = Bool × Connection} b
          (let (ok, d) = after_answer (answers i) c in
            if ok then (true, d) else try_status n (suc i) answers d)
          (try_status n (suc i) answers c)).0)
      h
    ∙ try_status-closed n (suc i) answers c h

-- A connection that was closed is not open.
close_connection-is_open : (c : Connection) → is_open (close_connection c) ≡ false
close_connection-is_open c = by_status c.status
  where
    by_status :
        (s : Status)
        → is_open (
            if is_connected s
            then record { status = closed; opened = false; in_use = c.in_use }
            else record { status = s; opened = c.opened; in_use = c.in_use })
          ≡ false
    by_status closed = refl
    by_status connected = refl

try_status-hears :
    (n i : ℕ) (answers : ℕ → Answer) (c : Connection)
    → is_open c ≡ true
    → (try_status n i answers c).0 ≡ hears n i answers
unfolding try_status
try_status-hears zero i answers c h = refl
try_status-hears (suc n) i answers c h =
    ap
      (λ b.
        (if◌then◌else◌ {A = Bool × Connection} b
          (let (ok, d) = after_answer (answers i) c in
            if ok then (true, d) else try_status n (suc i) answers d)
          (try_status n (suc i) answers c)).0)
      h
    ∙ by_answer (answers i) (try_status-hears n (suc i) answers c h)
        (try_status-closed n (suc i) answers (close_connection c) (close_connection-is_open c))
  where
    by_answer :
        (a : Answer)
        → (try_status n (suc i) answers c).0 ≡ hears n (suc i) answers
        → (try_status n (suc i) answers (close_connection c)).0 ≡ false
        → (let (ok, d) = after_answer a c in
            if◌then◌else◌ {A = Bool × Connection} ok (true, d) (try_status n (suc i) answers d)).0
          ≡ elim a as (λ x. Bool) [ alive ↦ true | other ↦ hears n (suc i) answers | threw ↦ false ]
    by_answer alive e e' = refl
    by_answer other e e' = e
    by_answer threw e e' = e'

-- What both find with n tries.
module _ (opens : Bool) (answers : ℕ → Answer) (p : ConnPool) (o : Owned p []) where
  held : Held
  held = take_free opens p.free_connections p

  -- Is there an open connection to try?
  can_ask : Bool
  can_ask = if is_empty p.free_connections then opens else true

  held-is_open : is_open held.conn ≡ can_ask
  unfolding held can_ask is_ready
  held-is_open =
      only (is_open held.conn) held.conn.in_use (take_free-IsHeld opens p o).1
      ∙ take_free-is_ready opens p.free_connections p o.free_ready o.closed_idle
    where
      only : (a b : Bool) → b ≡ false → a ≡ (a && not b)
      only a b h = ground arith

  tried : (n : ℕ) → (try_status n 0 answers held.conn).0 ≡ (can_ask && hears n 0 answers)
  tried n = by_open can_ask held-is_open
    where
      by_open :
          (b : Bool)
          → is_open held.conn ≡ b
          → (try_status n 0 answers held.conn).0 ≡ (b && hears n 0 answers)
      by_open true e = try_status-hears n 0 answers held.conn e
      by_open false e = try_status-closed n 0 answers held.conn e

set_status-status :
    (id : ℕ) (r : Bool × Connection) (p : ConnPool)
    → (set_status id r p).status ≡ (if r.0 then connected else closed)
unfolding set_status
set_status-status id (ok, c) p = refl

-- With a free connection, or one that opens, the pool is found connected exactly if the server
-- answers that it is alive before an answer fails: within three tries if the pool was connected, else
-- and in the quick update at the first; without an open connection it is closed.
pub update_status-hears :
    (opens : Bool) (answers : ℕ → Answer) (p : ConnPool)
    → Owned p []
    → let can_ask = if is_empty p.free_connections then opens else true in
      ((update_status opens answers p).status ≡ (
        if can_ask && hears (if is_connected p.status then 3 else 1) 0 answers
        then connected
        else closed))
      × ((quick_update_status opens answers p).status
          ≡ (if can_ask && hears 1 0 answers then connected else closed))
unfolding update_status quick_update_status held can_ask
update_status-hears opens answers p o = (
  set_status-status held'.id (try_status (try_times p.status) 0 answers held'.conn) held'.pool
      ∙ ap (λ b. if b then connected else closed) (tried opens answers p o (try_times p.status))
      ∙ ap
          (λ n.
            if (if is_empty p.free_connections then opens else true) && hears n 0 answers
            then connected
            else closed)
          (times p.status),
  set_status-status held'.id (try_status 1 0 answers held'.conn) held'.pool
      ∙ ap (λ b. if b then connected else closed) (tried opens answers p o 1),
)
  where
    held' : Held
    held' = take_free opens p.free_connections p

    times : (s : Status) → try_times s ≡ (if is_connected s then 3 else 1)
    times closed = refl
    times connected = refl
