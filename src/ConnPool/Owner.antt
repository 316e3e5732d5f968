-- ===== src/ConnPool/Owner.antt =====
-- Who owns the connections of a pool: one of its sets, a call that is running, or nobody any more.
use async_thrift.Prelude.{
  ℕ, zero, suc, ◌+◌, ◌≡◌, refl, ap, ◌∙◌, subst, List, [], ◌∷◌, Bool, true, false, arith, ltb, ◌==◌,
  if◌then◌else◌, count,
}
use async_thrift.Map.{Map, find, insert, IsSorted}
use async_thrift.Map.Laws.{insert-IsSorted, Every, Every-insert}
use async_thrift.Map.Places.{in_table, in_table-insert, in_table-head}
use async_thrift.ConnPool.{
  Connection, closed, is_open, connect, Status, Counters, ConnPool, Held, take_closed,
  create_connection, put_connection, create_free, inner_init, new_pool, take_free,
}

abbrev pub IsIdle : Connection → Type 0
IsIdle c = c.in_use ≡ false

abbrev pub IsUsed : Connection → Type 0
IsUsed c = c.in_use ≡ true

abbrev pub places : ℕ → ConnPool → ℕ
places j p =
    in_table (find j p.free_connections)
    + in_table (find j p.allocated_connections)
    + in_table (find j p.closed_connections)
    + count j p.deleted

abbrev pub IsReady : Connection → Type 0
IsReady c = (c.in_use ≡ false) × (is_open c ≡ true)

-- The connections in `held` are those of the running call.
pub record Owned (p : ConnPool) (held : List ℕ) : Type 0 where
  pub free_sorted : IsSorted p.free_connections
  pub allocated_sorted : IsSorted p.allocated_connections
  pub closed_sorted : IsSorted p.closed_connections
  pub free_ready : Every IsReady p.free_connections
  pub allocated_used : Every IsUsed p.allocated_connections
  pub closed_idle : Every IsIdle p.closed_connections
  pub placed : (j : ℕ) → places j p + count j held ≡ (if ltb j p.next then 1 else 0)

abbrev pub IsHeld : Held → Type 0
IsHeld h = Owned h.pool (h.id ∷ []) × IsIdle h.conn

connect-IsIdle : (opens : Bool) (c : Connection) → IsIdle c → IsIdle (connect opens c)
connect-IsIdle true c i = i
connect-IsIdle false c i = i

-- The facts on a set's first element and on the others.
module _ {m others : Map Connection} {id : ℕ} {c : Connection} (q : m ≡ (id, c) ∷ others) where
  pub others-IsSorted : IsSorted m → IsSorted others
  others-IsSorted s = (subst IsSorted q s).1

  pub head-Every : (P : Connection → Type 0) → Every P m → P c × Every P others
  head-Every P e = subst (Every P) q e

  pub in_table-others :
      IsSorted m
      → (j : ℕ) → in_table (find j m) ≡ (if j == id then 1 else 0) + in_table (find j others)
  in_table-others s j =
      ap (λ x. in_table (find j x)) q ∙ in_table-head id others j c (subst IsSorted q s)

take_closed-IsHeld :
    (opens : Bool) (m : Map Connection) (p : ConnPool)
    → p.closed_connections ≡ m
    → Owned p []
    → IsHeld (take_closed opens m p)
unfolding take_closed
take_closed-IsHeld opens [] p q o = (
  record {
    free_sorted = o.free_sorted;
    allocated_sorted = o.allocated_sorted;
    closed_sorted = o.closed_sorted;
    free_ready = o.free_ready;
    allocated_used = o.allocated_used;
    closed_idle = o.closed_idle;
    placed = λ j. ground (arith, o.placed j);
  },
  connect-IsIdle opens (record { status = closed; opened = false; in_use = false }) refl,
)
take_closed-IsHeld opens ((id, c) ∷ others) p q o = (
  record {
    free_sorted = o.free_sorted;
    allocated_sorted = o.allocated_sorted;
    closed_sorted = others-IsSorted q o.closed_sorted;
    free_ready = o.free_ready;
    allocated_used = o.allocated_used;
    closed_idle = (head-Every q IsIdle o.closed_idle).1;
    placed = λ j. omega (arith, o.placed j, in_table-others q o.closed_sorted j);
  },
  connect-IsIdle opens c (head-Every q IsIdle o.closed_idle).0,
)

pub create-IsHeld : (opens : Bool) (p : ConnPool) → Owned p [] → IsHeld (create_connection opens p)
unfolding create_connection
create-IsHeld opens p o = take_closed-IsHeld opens p.closed_connections p refl o

take_first-IsHeld :
    (opens : Bool) (m : Map Connection) (p : ConnPool)
    → p.free_connections ≡ m
    → Owned p []
    → IsHeld (take_free opens m p)
unfolding take_free
take_first-IsHeld opens [] p q o = create-IsHeld opens p o
take_first-IsHeld opens ((id, c) ∷ others) p q o = (
  record {
    free_sorted = others-IsSorted q o.free_sorted;
    allocated_sorted = o.allocated_sorted;
    closed_sorted = o.closed_sorted;
    free_ready = (head-Every q IsReady o.free_ready).1;
    allocated_used = o.allocated_used;
    closed_idle = o.closed_idle;
    placed = λ j. omega (arith, o.placed j, in_table-others q o.free_sorted j);
  },
  (head-Every q IsReady o.free_ready).0.0,
)

pub take_free-IsHeld :
    (opens : Bool) (p : ConnPool) → Owned p [] → IsHeld (take_free opens p.free_connections p)
take_free-IsHeld opens p o = take_first-IsHeld opens p.free_connections p refl o

-- A held connection goes into the set that its transport's state asks for.
pub put_connection-Owned :
    (id : ℕ) (c : Connection) (p : ConnPool)
    → Owned p (id ∷ [])
    → IsIdle c
    → Owned (put_connection id c p) []
unfolding put_connection
put_connection-Owned id c p o i = by_state (is_open c) refl
  where
    by_state :
        (b : Bool)
        → is_open c ≡ b
        → Owned
            (if b
              then record p { free_connections = insert id c p.free_connections }
              else record p { closed_connections = insert id c p.closed_connections })
            []
    by_state true h = record {
      free_sorted = insert-IsSorted id c p.free_connections o.free_sorted;
      allocated_sorted = o.allocated_sorted;
      closed_sorted = o.closed_sorted;
      free_ready = Every-insert IsReady id c p.free_connections (i, h) o.free_ready;
      allocated_used = o.allocated_used;
      closed_idle = o.closed_idle;
      placed = λ j. ground (arith, o.placed j, in_table-insert id p.free_connections j c);
    }
    by_state false h = record {
      free_sorted = o.free_sorted;
      allocated_sorted = o.allocated_sorted;
      closed_sorted = insert-IsSorted id c p.closed_connections o.closed_sorted;
      free_ready = o.free_ready;
      allocated_used = o.allocated_used;
      closed_idle = Every-insert IsIdle id c p.closed_connections i o.closed_idle;
      placed = λ j. ground (arith, o.placed j, in_table-insert id p.closed_connections j c);
    }

-- A change of the counters or the status.
pub counters-Owned :
    (p : ConnPool) (status : Status) (n : Counters) {held : List ℕ}
    → Owned p held
    → Owned (record p { status = status; counters = n }) held
counters-Owned p status n o = record {
  free_sorted = o.free_sorted;
  allocated_sorted = o.allocated_sorted;
  closed_sorted = o.closed_sorted;
  free_ready = o.free_ready;
  allocated_used = o.allocated_used;
  closed_idle = o.closed_idle;
  placed = o.placed;
}

pub create_free-Owned :
    (n i : ℕ) (opens : ℕ → Bool) (p : ConnPool) → Owned p [] → Owned (create_free n i opens p) []
create_free-Owned zero i opens p o = o
create_free-Owned (suc n) i opens p o =
    let held = create_connection (opens i) p in
    let (owned, idle) = create-IsHeld (opens i) p o in
    create_free-Owned n (suc i) opens (put_connection held.id held.conn held.pool)
      (put_connection-Owned held.id held.conn held.pool owned idle)

inner_init-Owned :
    (n i : ℕ) (opens : ℕ → Bool) (p : ConnPool) → Owned p [] → Owned (inner_init n i opens p) []
unfolding inner_init
inner_init-Owned zero i opens p o = o
inner_init-Owned (suc n) i opens p o =
    let held = create_connection (opens i) p in
    let (owned, idle) = create-IsHeld (opens i) p o in
    let q = put_connection-Owned held.id held.conn held.pool owned idle in
    by_state (is_open held.conn) q (inner_init-Owned n (suc i) opens _ q)
  where
    by_state : (b : Bool) {x y : ConnPool} → Owned y [] → Owned x [] → Owned (if b then x else y) []
    by_state true h h' = h'
    by_state false h h' = h

pub new_pool-Owned :
    (min_free_conn max_conn : ℕ) (opens : ℕ → Bool)
    → Owned (new_pool min_free_conn max_conn opens) []
unfolding new_pool find
new_pool-Owned min_free_conn max_conn opens = inner_init-Owned min_free_conn 0 opens _ (record {
  free_sorted = tt;
  allocated_sorted = tt;
  closed_sorted = tt;
  free_ready = tt;
  allocated_used = tt;
  closed_idle = tt;
  placed = λ j. ground arith;
})
