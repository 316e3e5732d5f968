-- ===== src/ConnPool/Probe.antt =====
-- The probe thread of ThriftConnectionPool: update_status, quick_update_status, reclaim_connections.
use async_thrift.Prelude.{
  Option, some, none, ℕ, zero, suc, ◌+◌, ◌-◌, [], ◌∷◌, Bool, true, false, ltb, leb, ◌==◌,
  if◌then◌else◌, length,
}
use async_thrift.Map.{Map}
use async_thrift.Asio.{u64}
use async_thrift.ConnPool.{
  can_be_destroyed, Status, closed, connected, Connection, is_open, Answer, after_answer, Counters,
  ConnPool, create_connection, put_connection, create_free, take_free,
}

-- Up to n calls of getStatus.
unfoldable pub try_status : ℕ → ℕ → (ℕ → Answer) → Connection → Bool × Connection
try_status zero i answers c = (false, c)
try_status (suc n) i answers c =
    if is_open c
    then (let (ok, d) = after_answer (answers i) c in
        if ok then (true, d) else try_status n (suc i) answers d)
    else try_status n (suc i) answers c

abbrev pub count_status : Bool → Counters → Counters
count_status true n = record n { status_connected = u64 (n.status_connected + 1) }
count_status false n = record n { status_closed = u64 (n.status_closed + 1) }

-- The end of both: the connection goes back, and the status is set.
unfoldable pub set_status : ℕ → Bool × Connection → ConnPool → ConnPool
unfolding put_connection
set_status id (ok, c) p =
    let q = put_connection id c p in
    record q { status = if ok then connected else closed; counters = count_status ok q.counters }

-- try_times
abbrev pub try_times : Status → ℕ
try_times closed = 1
try_times connected = 3

unfoldable pub update_status : Bool → (ℕ → Answer) → ConnPool → ConnPool
unfolding take_free try_status set_status
update_status opens answers p =
    let held = take_free opens p.free_connections p in
    set_status held.id (try_status (try_times p.status) 0 answers held.conn) held.pool

unfoldable pub quick_update_status : Bool → (ℕ → Answer) → ConnPool → ConnPool
unfolding take_free try_status set_status
quick_update_status opens answers p =
    let held = take_free opens p.free_connections p in
    set_status held.id (try_status 1 0 answers held.conn) held.pool

abbrev pub destroy_first_free : Map Connection → ConnPool → ConnPool
destroy_first_free [] p = p
destroy_first_free ((id, c) ∷ others) p = record p {
  free_connections = others;
  deleted = id ∷ p.deleted;
}

abbrev pub destroy_first_closed : Map Connection → ConnPool → ConnPool
destroy_first_closed [] p = p
destroy_first_closed ((id, c) ∷ others) p = record p {
  closed_connections = others;
  deleted = id ∷ p.deleted;
}

unfoldable pub destroy_free : ℕ → ConnPool → ConnPool
destroy_free zero p = p
destroy_free (suc n) p = destroy_free n (destroy_first_free p.free_connections p)

unfoldable pub destroy_closed : ℕ → ConnPool → ConnPool
destroy_closed zero p = p
destroy_closed (suc n) p = destroy_closed n (destroy_first_closed p.closed_connections p)

-- The counters of reclaim_connections, which count the rounds that have something to do.
abbrev pub count_created : ℕ → ConnPool → ConnPool
count_created n p =
    if n == 0
    then p
    else record p { counters = record c { create_free_conn = u64 (c.create_free_conn + 1) } }
  where
    open p use {counters as c}

abbrev pub count_free : ℕ → ConnPool → ConnPool
count_free n p =
    if n == 0
    then p
    else record p { counters = record c { reclaim_free_conn = u64 (c.reclaim_free_conn + 1) } }
  where
    open p use {counters as c}

abbrev pub count_closed : ℕ → ConnPool → ConnPool
count_closed n p =
    if n == 0
    then p
    else record p { counters = record c { reclaim_closed_conn = u64 (c.reclaim_closed_conn + 1) } }
  where
    open p use {counters as c}

abbrev pub at_most : ℕ → ℕ → ℕ
at_most n m = if ltb m n then m else n

-- The free connections: those missing are created, or those in excess destroyed.
abbrev pub reclaim_free : (ℕ → Bool) → ℕ → ConnPool → ConnPool
reclaim_free opens to_be_freed p =
    let fs = length p.free_connections in
    if leb fs p.min_free_conn
    then create_free (p.min_free_conn - fs) 0 opens (count_created (p.min_free_conn - fs) p)
    else (let n = at_most to_be_freed (fs - p.min_free_conn) in destroy_free n (count_free n p))

-- What the closed ones cover is taken off the number first; they are destroyed last.
abbrev pub reclaim_excess : (ℕ → Bool) → ℕ → ConnPool → ConnPool
reclaim_excess opens to_be_freed p =
    let n = at_most to_be_freed (length p.closed_connections) in
    destroy_closed n (count_closed n (reclaim_free opens (to_be_freed - n) p))

abbrev pub total_connections : ConnPool → ℕ
total_connections p =
    length p.allocated_connections + length p.free_connections + length p.closed_connections

unfoldable pub reclaim_connections : (ℕ → Bool) → ConnPool → ConnPool
unfolding create_connection put_connection destroy_free destroy_closed
reclaim_connections opens p =
    if ltb (total_connections p) p.max_conn
    then p
    else reclaim_excess opens (total_connections p - p.max_conn) p

-- The destructor, `none` for its failed assertion.
unfoldable pub destroy_pool : ConnPool → Option ConnPool
unfolding destroy_free destroy_closed can_be_destroyed
destroy_pool p =
    if can_be_destroyed p
    then some
        (destroy_closed (length p.closed_connections) (destroy_free (length p.free_connections) p))
    else none
