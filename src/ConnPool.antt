-- ===== src/ConnPool.antt =====
-- sync/thrift_pool.h: ThriftConnection and ThriftConnectionPool. A connection is numbered when it is
-- allocated, in place of its address, and stands in the set that owns it; the sets are in the order
-- of the numbers, where the code's are in that of the addresses. What the transport and the remote
-- server answer is an argument; `opens` says whether open() succeeds. min_free_conn and max_conn are
-- not negative. The calls of one pool do not interleave.
pub mod Probe
pub mod Owner
pub mod Calls
pub mod History
pub mod Outcome
pub mod Return
pub mod Allocated
pub mod Health
pub mod Reclaim
mod Examples
use async_thrift.Prelude.{
  ℕ, zero, suc, ◌+◌, ◌-◌, List, [], ◌∷◌, Bool, true, false, Option, none, some, ltb, leb, ◌==◌,
  ◌&&◌, not, if◌then◌else◌, length,
}
use async_thrift.Map.{Map, find, insert, erase}
use async_thrift.Asio.{u64}

-- kTCStatus
pub data Status : Type 0 where
  closed connected : Status

abbrev pub is_connected : Status → Bool
is_connected closed = false
is_connected connected = true

-- `opened`: what the transport's isOpen() says.
pub record Connection : Type 0 where
  pub status : Status
  pub opened : Bool
  pub in_use : Bool

abbrev pub is_open : Connection → Bool
is_open c = is_connected c.status && c.opened

abbrev pub close_connection : Connection → Connection
close_connection c =
    if is_connected c.status then record c { status = closed; opened = false } else c

abbrev pub connect : Bool → Connection → Connection
connect opens c =
    if opens
    then record c { status = connected; opened = true }
    else record c { status = closed; opened = false }

pub reconnect : Bool → Connection → Connection
reconnect opens c = if is_open c then c else connect opens c

-- ThriftConnection::get: none if it returns false.
abbrev pub add_reference : Connection → Option Connection
add_reference c = if is_open c && not c.in_use then some (record c { in_use = true }) else none

-- ThriftConnection::put: none for the failed assertion.
abbrev pub release_reference : Connection → Option Connection
release_reference c = if c.in_use then some (record c { in_use = false }) else none

-- What getStatus comes to.
pub data Answer : Type 0 where
  alive other threw : Answer

abbrev pub after_answer : Answer → Connection → Bool × Connection
after_answer alive c = (true, c)
after_answer other c = (false, c)
after_answer threw c = (false, close_connection c)

pub keep_alive : Answer → Connection → Bool × Connection
keep_alive answer c = if is_open c then after_answer answer c else (false, c)

-- The constructor, with auto_connect.
abbrev pub new_connection : Bool → Connection
new_connection opens = connect opens (record { status = closed; opened = false; in_use = false })

pub record Counters : Type 0 where
  pub got_from_free_conn : ℕ
  pub got_from_created_conn : ℕ
  pub status_connected : ℕ
  pub status_closed : ℕ
  pub reclaim_closed_conn : ℕ
  pub reclaim_free_conn : ℕ
  pub create_free_conn : ℕ

abbrev pub no_counts : Counters
no_counts = record {
  got_from_free_conn = 0;
  got_from_created_conn = 0;
  status_connected = 0;
  status_closed = 0;
  reclaim_closed_conn = 0;
  reclaim_free_conn = 0;
  create_free_conn = 0;
}

pub record ConnPool : Type 0 where
  pub min_free_conn : ℕ
  pub max_conn : ℕ
  pub status : Status
  pub free_connections : Map Connection
  pub allocated_connections : Map Connection
  pub closed_connections : Map Connection
  pub counters : Counters
  pub next : ℕ
  pub deleted : List ℕ

-- A connection that a call holds, which no set owns.
pub record Held : Type 0 where
  pub id : ℕ
  pub conn : Connection
  pub pool : ConnPool

unfoldable pub take_closed : Bool → Map Connection → ConnPool → Held
take_closed opens [] p = record {
  id = p.next;
  conn = new_connection opens;
  pool = record p { next = p.next + 1 };
}
take_closed opens ((id, c) ∷ others) p = record {
  id = id;
  conn = connect opens c;
  pool = record p { closed_connections = others };
}

-- `begin()` is the first element, which erasing leaves the others of.
unfoldable pub create_connection : Bool → ConnPool → Held
unfolding take_closed
create_connection opens p = take_closed opens p.closed_connections p

unfoldable pub put_connection : ℕ → Connection → ConnPool → ConnPool
put_connection id c p =
    if is_open c
    then record p { free_connections = insert id c p.free_connections }
    else record p { closed_connections = insert id c p.closed_connections }

abbrev pub create_free : ℕ → ℕ → (ℕ → Bool) → ConnPool → ConnPool
create_free zero i opens p = p
create_free (suc n) i opens p =
    let held = create_connection (opens i) p in
    create_free n (suc i) opens (put_connection held.id held.conn held.pool)

-- inner_init stops at the first connection that does not open.
unfoldable pub inner_init : ℕ → ℕ → (ℕ → Bool) → ConnPool → ConnPool
unfolding create_connection put_connection
inner_init zero i opens p = p
inner_init (suc n) i opens p =
    let held = create_connection (opens i) p in
    let q = put_connection held.id held.conn held.pool in
    if is_open held.conn then inner_init n (suc i) opens q else q

unfoldable pub new_pool : ℕ → ℕ → (ℕ → Bool) → ConnPool
unfolding inner_init
new_pool min_free_conn max_conn opens = inner_init min_free_conn 0 opens (record {
  min_free_conn = min_free_conn;
  max_conn = max_conn;
  status = closed;
  free_connections = [];
  allocated_connections = [];
  closed_connections = [];
  counters = no_counts;
  next = 0;
  deleted = [];
})

unfoldable pub can_be_destroyed : ConnPool → Bool
can_be_destroyed p = length p.allocated_connections == 0

-- The first free connection, or one created.
unfoldable pub take_free : Bool → Map Connection → ConnPool → Held
unfolding create_connection
take_free opens [] p = create_connection opens p
take_free opens ((id, c) ∷ others) p = record {
  id = id;
  conn = c;
  pool = record p { free_connections = others };
}

abbrev pub is_empty : Map Connection → Bool
is_empty [] = true
is_empty (x ∷ xs) = false

abbrev pub count_got : Bool → Counters → Counters
count_got true n = record n { got_from_free_conn = u64 (n.got_from_free_conn + 1) }
count_got false n = record n { got_from_created_conn = u64 (n.got_from_created_conn + 1) }

abbrev pub allocate : Bool → Held → Option Connection → Option ℕ × ConnPool
allocate from_free held none = (none, put_connection held.id held.conn held.pool)
allocate from_free held (some c) = (
  some held.id,
  record held.pool {
    allocated_connections = insert held.id c held.pool.allocated_connections;
    counters = count_got from_free held.pool.counters;
  },
)

unfoldable pub get : Bool → ConnPool → Option ℕ × ConnPool
unfolding take_free put_connection
get opens p =
    let held = take_free opens p.free_connections p in
    allocate (not (is_empty p.free_connections)) held (add_reference held.conn)

abbrev pub put_back : ℕ → Option Connection → ConnPool → Option ConnPool
put_back id none p = none
put_back id (some c) p = some (put_connection id c p)

abbrev pub put_found : ℕ → Option Connection → ConnPool → Option ConnPool
put_found id none p = none
put_found id (some c) p =
    put_back id (release_reference c)
      (record p { allocated_connections = erase id p.allocated_connections })

-- A connection that is not allocated is not in use either, and fails the assertion.
unfoldable pub put : ℕ → ConnPool → Option ConnPool
unfolding put_connection
put id p = put_found id (find id p.allocated_connections) p

abbrev pub close_found : ℕ → Option Connection → ConnPool → ConnPool
close_found id none p = p
close_found id (some c) p = record p {
  allocated_connections = insert id (close_connection c) p.allocated_connections;
}

-- `close` of a connection that its caller has got.
unfoldable pub close : ℕ → ConnPool → ConnPool
close id p = close_found id (find id p.allocated_connections) p
