-- ===== src/Pools.antt =====
-- sync/thrift_pool.h: ThriftPool, the pools of connections to a set of servers. A vector of pools is
-- a list of the pools themselves, each with its address; localhost_pool_ and the values of
-- conn_pool_map_ are addresses, and following one that neither vector has is `none`. `opens` says
-- which connections of a new pool open. The calls do not interleave, since they hold the mutex of
-- ThriftPool; remove_thread does not hold it, and put_through is a put in which it has its pass. A host
-- is a number, 0 the empty one.
pub mod Renewal
pub mod Update
pub mod Removal
pub mod Pick
pub mod Inv
pub mod Holders
pub mod Returning
pub mod Loops
pub mod Servers
pub mod History
mod Examples
use async_thrift.Prelude.{
  ℕ, zero, suc, ◌+◌, ◌*◌, ◌/◌, ◌%◌, List, [], ◌∷◌, ◌++◌, Bool, true, false, Option, none, some,
  ◌==◌, ◌&&◌, not, if◌then◌else◌, length,
}
use async_thrift.Asio.{u64}
use async_thrift.ConnPool.{
  Connection, put_connection, release_reference, Status, closed, connected, is_connected, ConnPool,
  new_pool, can_be_destroyed,
}
use async_thrift.Map.{find, erase}
use async_thrift.ConnPool

pub record Backend : Type 0 where
  pub address : ℕ
  pub host : ℕ
  pub port : ℕ
  pub pool : ConnPool

-- A connection's address: the pool that allocated it, and its number there.
pub record Client : Type 0 where
  pub owner : ℕ
  pub id : ℕ

abbrev pub same_client : Client → Client → Bool
same_client c d = (c.owner == d.owner) && (c.id == d.id)

pub record ThriftPool : Type 0 where
  pub min_free_conn : ℕ
  pub max_conn : ℕ
  pub localhost_name : ℕ
  pub index : ℕ
  pub conn_pool_map : List (Client × ℕ)
  pub pools : List Backend
  pub localhost_pool : Option ℕ
  pub remove_queue : List Backend
  pub next : ℕ

-- conn_pool_map_, in any order.
unfoldable pub find_client : Client → List (Client × ℕ) → Option ℕ
find_client c [] = none
find_client c ((d, a) ∷ m) = if same_client c d then some a else find_client c m

unfoldable pub erase_client : Client → List (Client × ℕ) → List (Client × ℕ)
erase_client c [] = []
erase_client c ((d, a) ∷ m) =
    let rest = erase_client c m in if same_client c d then rest else (d, a) ∷ rest

abbrev pub insert_client : Client → ℕ → List (Client × ℕ) → List (Client × ℕ)
insert_client c a m = (c, a) ∷ erase_client c m

unfoldable pub find_pool : ℕ → List Backend → Option ConnPool
find_pool a [] = none
find_pool a (b ∷ bs) = if a == b.address then some b.pool else find_pool a bs

unfoldable pub write_pool : ℕ → ConnPool → List Backend → List Backend
write_pool a q [] = []
write_pool a q (b ∷ bs) = (if a == b.address then record b { pool = q } else b) ∷ write_pool a q bs

-- Following a pointer, and a call through it.
abbrev pub deref : ℕ → ThriftPool → Option ConnPool
deref a s = find_pool a (s.pools ++ s.remove_queue)

abbrev pub write : ℕ → ConnPool → ThriftPool → ThriftPool
write a q s = record s {
  pools = write_pool a q s.pools;
  remove_queue = write_pool a q s.remove_queue;
}

-- The constructor without servers.
abbrev pub no_servers : ℕ → ℕ → ℕ → ThriftPool
no_servers min_free_conn max_conn localhost_name = record {
  min_free_conn = min_free_conn;
  max_conn = max_conn;
  localhost_name = localhost_name;
  index = 0;
  conn_pool_map = [];
  pools = [];
  localhost_pool = none;
  remove_queue = [];
  next = 0;
}

-- One pass of remove_thread over remove_queue_, without the wait that follows.
unfoldable pub destroyed : List Backend → List Backend
unfolding can_be_destroyed
destroyed [] = []
destroyed (b ∷ bs) = let rest = destroyed bs in if can_be_destroyed b.pool then rest else b ∷ rest

abbrev pub remove_pass : ThriftPool → ThriftPool
remove_pass s = record s { remove_queue = destroyed s.remove_queue }

abbrev pub is_nil : List Backend → Bool
is_nil [] = true
is_nil (b ∷ bs) = false

-- Does remove_thread end after this pass?
abbrev pub remove_thread_ends : Bool → ThriftPool → Bool
remove_thread_ends remove_thread_stop_flag s = not remove_thread_stop_flag && is_nil s.remove_queue

-- remove_thread for at most n rounds, `none` if it runs on; `others` is what other threads do while
-- it sleeps.
unfoldable pub remove_thread :
    ℕ → ℕ → (ℕ → Bool) → (ℕ → ThriftPool → ThriftPool) → ThriftPool → Option ThriftPool
unfolding destroyed
remove_thread zero i remove_thread_stop_flag others s = none
remove_thread (suc n) i remove_thread_stop_flag others s =
    let t = remove_pass s in
    let rest = remove_thread n (suc i) remove_thread_stop_flag others (others i t) in
    if remove_thread_ends (remove_thread_stop_flag i) t then some t else rest

abbrev pub is_up : Backend → Bool
is_up b = is_connected b.pool.status

abbrev pub get_elem? : List Backend → ℕ → Option Backend
get_elem? [] i = none
get_elem? (b ∷ bs) zero = some b
get_elem? (b ∷ bs) (suc i) = get_elem? bs i

abbrev pub is_up? : Option Backend → Bool
is_up? none = false
is_up? (some b) = is_up b

-- The loop of get, with the rounds left: the last pool tried, and index_.
unfoldable pub seek : ℕ → List Backend → ℕ → Option Backend → Option Backend × ℕ
seek zero pools index pool = (pool, index)
seek (suc n) pools index pool =
    let i = index % length pools in
    let rest = seek n pools (u64 (i + 1)) (get_elem? pools i) in
    if is_up? (get_elem? pools i) then (get_elem? pools i, u64 (i + 1)) else rest

-- The pool that get calls; `none` outside for a dangling pointer.
abbrev pub chosen : Option Backend × ℕ → ThriftPool → Option ℕ × ThriftPool
chosen (none, index) s = (none, record s { index = index })
chosen (some b, index) s = (if is_up b then some b.address else none, record s { index = index })

unfoldable pub choose_remote : ThriftPool → Option ℕ × ThriftPool
unfolding seek
choose_remote s = chosen (seek (length s.pools) s.pools s.index none) s

abbrev pub choose_at : ℕ → Option ConnPool → ThriftPool → Option (Option ℕ × ThriftPool)
choose_at a none s = none
choose_at a (some q) s = if is_connected q.status then some (some a, s) else some (choose_remote s)

unfoldable pub choose : Option ℕ → ThriftPool → Option (Option ℕ × ThriftPool)
unfolding find_pool choose_remote
choose none s = some (choose_remote s)
choose (some a) s = choose_at a (deref a s) s

-- The connection that the chosen pool has got.
abbrev pub register : ℕ → Option ℕ × ConnPool → ThriftPool → Option Client × ThriftPool
register a (none, q) s = (none, write a q s)
register a (some id, q) s =
    let client : Client = record { owner = a; id = id } in
    let t = write a q s in
    (some client, record t { conn_pool_map = insert_client client a t.conn_pool_map })

abbrev pub get_at : Bool → ℕ → Option ConnPool → ThriftPool → Option (Option Client × ThriftPool)
get_at opens a none s = none
get_at opens a (some q) s = some (register a (ConnPool.get opens q) s)

abbrev pub get_from : Bool → Option (Option ℕ × ThriftPool) → Option (Option Client × ThriftPool)
get_from opens none = none
get_from opens (some (none, s)) = some (none, s)
get_from opens (some (some a, s)) = get_at opens a (deref a s) s

-- `opens` for a connection that the pool creates.
unfoldable pub get : Bool → ThriftPool → Option (Option Client × ThriftPool)
unfolding choose find_pool write_pool erase_client
get opens s = get_from opens (choose s.localhost_pool s)

abbrev pub put_at : Client → ℕ → Option ConnPool → ThriftPool → Option (Bool × ThriftPool)
put_at c a none s = none
put_at c a (some q) s = elim (ConnPool.put c.id q) [
  | none ↦ none
  | some q' ↦
      let t = write a q' s in
      some (true, record t { conn_pool_map = erase_client c t.conn_pool_map })
]

abbrev pub put_found : Client → Option ℕ → ThriftPool → Option (Bool × ThriftPool)
put_found c none s = some (false, s)
put_found c (some a) s = put_at c a (deref a s) s

-- The end of the pool's put, which has the pool's mutex for the second time.
abbrev pub put_end :
    Client → ℕ → Connection → Option ConnPool → ThriftPool → Option (Bool × ThriftPool)
put_end c a conn none s = none
put_end c a conn (some q) s =
    let t = write a (put_connection c.id conn q) s in
    some (true, record t { conn_pool_map = erase_client c t.conn_pool_map })

abbrev pub released : Option Connection → Option Connection
released none = none
released (some conn) = release_reference conn

abbrev pub put_released :
    Client → ℕ → Option Connection → ConnPool → ThriftPool → Option (Bool × ThriftPool)
put_released c a none q s = none
put_released c a (some conn) q s =
    let erased = record q { allocated_connections = erase c.id q.allocated_connections } in
    let t = remove_pass (write a erased s) in put_end c a conn (deref a t) t

abbrev pub put_through_at : Client → ℕ → Option ConnPool → ThriftPool → Option (Bool × ThriftPool)
put_through_at c a none s = none
put_through_at c a (some q) s = put_released c a (released (find c.id q.allocated_connections)) q s

abbrev pub put_through_found : Client → Option ℕ → ThriftPool → Option (Bool × ThriftPool)
put_through_found c none s = some (false, s)
put_through_found c (some a) s = put_through_at c a (deref a s) s

-- put, when a pass of remove_thread comes after the pool has erased the connection, where it does not
-- hold its mutex, and before it goes on.
unfoldable pub put_through : Client → ThriftPool → Option (Bool × ThriftPool)
unfolding find_client find_pool write_pool erase_client destroyed put_connection
put_through c s = put_through_found c (find_client c s.conn_pool_map) s

-- put, when no pass of remove_thread comes within it.
unfoldable pub put : Client → ThriftPool → Option (Bool × ThriftPool)
unfolding find_client find_pool write_pool erase_client
put c s = put_found c (find_client c s.conn_pool_map) s

abbrev pub close_at : Client → ℕ → Option ConnPool → ThriftPool → Option (Bool × ThriftPool)
close_at c a none s = none
close_at c a (some q) s = some (true, write a (ConnPool.close c.id q) s)

abbrev pub close_found : Client → Option ℕ → ThriftPool → Option (Bool × ThriftPool)
close_found c none s = some (false, s)
close_found c (some a) s = close_at c a (deref a s) s

unfoldable pub close : Client → ThriftPool → Option (Bool × ThriftPool)
unfolding find_client find_pool write_pool
close c s = close_found c (find_client c s.conn_pool_map) s

unfoldable pub count_up : List Backend → ℕ
count_up [] = 0
count_up (b ∷ bs) = (if is_up b then 1 else 0) + count_up bs

unfoldable pub any_up : List Backend → Bool
any_up [] = false
any_up (b ∷ bs) = let rest = any_up bs in if is_up b then true else rest

unfoldable pub get_status : ThriftPool → Status
unfolding any_up
get_status s = if any_up s.pools then connected else closed

-- `none` for the division by zero. The product stays below 2 ^ 64.
unfoldable pub get_health : ThriftPool → Option ℕ
unfolding count_up
get_health s = if is_nil s.pools then none else some (count_up s.pools * 100 / length s.pools)
