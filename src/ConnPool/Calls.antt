-- ===== src/ConnPool/Calls.antt =====
-- Any history of calls of a pool, with what the holders of its connections do to them.
use async_thrift.Prelude.{
  ℕ, zero, suc, ◌≡◌, refl, ap, ◌∙◌, [], ◌∷◌, Bool, true, false, Option, none, some, arith, ◌&&◌,
  not, if◌then◌else◌,
}
use async_thrift.Map.{find, insert, erase}
use async_thrift.Map.Laws.{insert-IsSorted, erase-IsSorted, Every-insert, Every-find, Every-erase}
use async_thrift.Map.Places.{in_table-insert, in_table-erase, in_table-found}
use async_thrift.ConnPool.{
  Connection, closed, is_open, is_connected, close_connection, add_reference, Answer, after_answer,
  alive, other, threw, ConnPool, Held, put_connection, take_free, is_empty, allocate, get, put_back,
  put_found, put, close_found, close,
}
use async_thrift.ConnPool.Probe.{try_status, set_status}
use async_thrift.ConnPool.Owner.{
  IsIdle, IsUsed, Owned, IsHeld, take_free-IsHeld, put_connection-Owned, counters-Owned,
}

-- The allocated connection `id` with a new state, still in use.
abbrev pub used_as : ℕ → Connection → ConnPool → ConnPool
used_as id c p = record p { allocated_connections = insert id c p.allocated_connections }

pub used_as-Owned :
    (id : ℕ) (old c : Connection) (p : ConnPool)
    → find id p.allocated_connections ≡ some old
    → IsUsed c
    → Owned p []
    → Owned (used_as id c p) []
used_as-Owned id old c p found u o = record {
  free_sorted = o.free_sorted;
  allocated_sorted = insert-IsSorted id c p.allocated_connections o.allocated_sorted;
  closed_sorted = o.closed_sorted;
  free_ready = o.free_ready;
  allocated_used = Every-insert IsUsed id c p.allocated_connections u o.allocated_used;
  closed_idle = o.closed_idle;
  placed = λ j. ground (
    arith,
    o.placed j,
    in_table-insert id p.allocated_connections j c,
    in_table-found id p.allocated_connections j old found,
  );
}

-- get
allocate-Owned :
    (from_free : Bool) (held : Held)
    → IsHeld held
    → Owned (allocate from_free held (add_reference held.conn)).1 []
allocate-Owned from_free held (o, i) = by_state (is_open held.conn && not held.conn.in_use)
  where
    used : Connection
    used = record held.conn { in_use = true }

    by_state : (b : Bool) → Owned (allocate from_free held (if b then some used else none)).1 []
    by_state false = put_connection-Owned held.id held.conn held.pool o i
    by_state true = counters-Owned (used_as held.id used held.pool) held.pool.status _ (record {
      free_sorted = o.free_sorted;
      allocated_sorted =
          insert-IsSorted held.id used held.pool.allocated_connections o.allocated_sorted;
      closed_sorted = o.closed_sorted;
      free_ready = o.free_ready;
      allocated_used =
          Every-insert IsUsed held.id used held.pool.allocated_connections refl o.allocated_used;
      closed_idle = o.closed_idle;
      placed = λ j.
          ground
            (arith, o.placed j, in_table-insert held.id held.pool.allocated_connections j used);
    })

pub get-Owned : (opens : Bool) (p : ConnPool) → Owned p [] → Owned (get opens p).1 []
unfolding get
get-Owned opens p o =
    allocate-Owned (not (is_empty p.free_connections)) (take_free opens p.free_connections p)
      (take_free-IsHeld opens p o)

-- put
erased-Owned :
    (id : ℕ) (c : Connection) (p : ConnPool)
    → find id p.allocated_connections ≡ some c
    → Owned p []
    → Owned (record p { allocated_connections = erase id p.allocated_connections }) (id ∷ [])
erased-Owned id c p found o = record {
  free_sorted = o.free_sorted;
  allocated_sorted = erase-IsSorted id p.allocated_connections o.allocated_sorted;
  closed_sorted = o.closed_sorted;
  free_ready = o.free_ready;
  allocated_used = Every-erase IsUsed id p.allocated_connections o.allocated_used;
  closed_idle = o.closed_idle;
  placed = λ j. ground (
    arith,
    o.placed j,
    in_table-erase id p.allocated_connections j o.allocated_sorted,
    in_table-found id p.allocated_connections j c found,
  );
}

-- Putting back an allocated connection fails no assertion.
pub put-Owned :
    (id : ℕ) (c : Connection) (p : ConnPool)
    → find id p.allocated_connections ≡ some c
    → Owned p []
    → (q : ConnPool) × (put id p ≡ some q) × Owned q []
unfolding put
put-Owned id c p found o = (
  put_connection id idle taken,
  ap (λ x. put_found id x p) found
      ∙ ap (λ b. put_back id (if b then some idle else none) taken)
          (Every-find IsUsed id p.allocated_connections o.allocated_used found),
  put_connection-Owned id idle taken (erased-Owned id c p found o) refl,
)
  where
    idle : Connection
    idle = record c { in_use = false }

    taken : ConnPool
    taken = record p { allocated_connections = erase id p.allocated_connections }

-- close
close_connection-IsUsed : (c : Connection) → IsUsed c → IsUsed (close_connection c)
close_connection-IsUsed c u = by_status (is_connected c.status)
  where
    by_status : (b : Bool) → IsUsed (if b then record c { status = closed; opened = false } else c)
    by_status true = u
    by_status false = u

pub close-Owned : (id : ℕ) (p : ConnPool) → Owned p [] → Owned (close id p) []
unfolding close
close-Owned id p o = by_found (find id p.allocated_connections) refl
  where
    by_found :
        (x : Option Connection)
        → find id p.allocated_connections ≡ x
        → Owned (close_found id x p) []
    by_found none h = o
    by_found (some c) h =
        used_as-Owned id c (close_connection c) p h
          (close_connection-IsUsed c
            (Every-find IsUsed id p.allocated_connections o.allocated_used h))
          o

-- update_status and quick_update_status
after_answer-IsIdle : (a : Answer) (c : Connection) → IsIdle c → IsIdle (after_answer a c).1
after_answer-IsIdle alive c i = i
after_answer-IsIdle other c i = i
after_answer-IsIdle threw c i = by_status (is_connected c.status)
  where
    by_status : (b : Bool) → IsIdle (if b then record c { status = closed; opened = false } else c)
    by_status true = i
    by_status false = i

try_status-IsIdle :
    (n i : ℕ) (answers : ℕ → Answer) (c : Connection)
    → IsIdle c
    → IsIdle (try_status n i answers c).1
unfolding try_status
try_status-IsIdle zero i answers c h = h
try_status-IsIdle (suc n) i answers c h =
    by_state (is_open c) (after_answer (answers i) c).0 (after_answer (answers i) c).1
      (try_status n (suc i) answers (after_answer (answers i) c).1) (try_status n (suc i) answers c)
      (after_answer-IsIdle (answers i) c h)
      (try_status-IsIdle n (suc i) answers (after_answer (answers i) c).1
        (after_answer-IsIdle (answers i) c h))
      (try_status-IsIdle n (suc i) answers c h)
  where
    by_state :
        (b ok : Bool) (d : Connection) (x y : Bool × Connection)
        → IsIdle d
        → IsIdle x.1
        → IsIdle y.1
        → IsIdle (if b then if ok then (true, d) else x else y).1
    by_state true true d x y h h' h'' = h
    by_state true false d x y h h' h'' = h'
    by_state false ok d x y h h' h'' = h''

set_status-Owned :
    (id : ℕ) (r : Bool × Connection) (p : ConnPool)
    → Owned p (id ∷ [])
    → IsIdle r.1
    → Owned (set_status id r p) []
unfolding set_status
set_status-Owned id (ok, c) p o i =
    counters-Owned (put_connection id c p) _ _ (put_connection-Owned id c p o i)

pub tried-Owned :
    (n : ℕ) (opens : Bool) (answers : ℕ → Answer) (p : ConnPool)
    → Owned p []
    → let held = take_free opens p.free_connections p in
      Owned (set_status held.id (try_status n 0 answers held.conn) held.pool) []
tried-Owned n opens answers p o =
    let held = take_free opens p.free_connections p in
    let (h, i) = take_free-IsHeld opens p o in
    set_status-Owned held.id (try_status n 0 answers held.conn) held.pool h
      (try_status-IsIdle n 0 answers held.conn i)
