-- ===== src/Asio.antt =====
-- async/asio_pool.cpp: AsioPool::Impl. An endpoint and a socket are numbers: the code compares the
-- first and hands the second on. What the operating system says (does `recv` find a socket closed,
-- what does `connect` return) is an argument. `closed` records the sockets that the pool has closed
-- or whose last reference it has dropped. The head of a list of sockets is the back of the vector.
pub mod Probe
pub mod Inv
pub mod Sockets
pub mod Flow
pub mod Threads
pub mod Entries
pub mod Calls
pub mod Cycle
pub mod Round
pub mod Table
pub mod Adding
mod Examples
use async_thrift.Prelude.{
  ℕ, ◌+◌, ◌-◌, ◌%◌, ◌^◌, List, [], ◌∷◌, ◌++◌, Bool, true, false, Option, none, some, ltb, ◌==◌,
  ◌&&◌, not, if◌then◌else◌, length, take, drop,
}
use async_thrift.Map.{Map, find, or_fresh, insert}

-- kAdding, kConnected, kDisConnected, kDeleting, kDeleted
pub data Status : Type 0 where
  adding connected disconnected deleting deleted : Status

pub record EndPointPool : Type 0 where
  pub status : Status
  pub pool : List ℕ

abbrev pub fresh : EndPointPool
fresh = record { status = deleted; pool = [] }

-- uint64_t counters
pub record Stats : Type 0 where
  pub got_conn_failure : ℕ
  pub got_from_pool_conn : ℕ
  pub got_from_created_conn : ℕ
  pub connected_count : ℕ
  pub disconnected_count : ℕ

abbrev pub cleared : Stats
cleared = record {
  got_conn_failure = 0;
  got_from_pool_conn = 0;
  got_from_created_conn = 0;
  connected_count = 0;
  disconnected_count = 0;
}

abbrev pub u64 : ℕ → ℕ
u64 n = n % 2 ^ 64

pub record AsioPool : Type 0 where
  pub max_conn : ℕ
  pub min_conn : ℕ
  pub map : Map EndPointPool
  pub stats : Stats
  pub closed : List ℕ

pub init : ℕ → ℕ → AsioPool
init max_conn min_conn = record {
  max_conn = max_conn;
  min_conn = min_conn;
  map = [];
  stats = cleared;
  closed = [];
}

-- map_[endpoint]
abbrev pub entry : ℕ → AsioPool → EndPointPool
entry ep p = or_fresh fresh (find ep p.map)

pub put_entry : ℕ → EndPointPool → AsioPool → AsioPool
put_entry ep e p = record p { map = insert ep e p.map }

pub close_all : List ℕ → AsioPool → AsioPool
close_all sockets p = record p { closed = sockets ++ p.closed }

abbrev pub is_connected : Status → Bool
is_connected connected = true
is_connected _ = false

abbrev pub is_deleting : Status → Bool
is_deleting deleting = true
is_deleting _ = false

-- `pool.resize(max)` once a socket is pushed: what is cut off is the back.
abbrev pub kept : ℕ → List ℕ → List ℕ
kept max_conn pool =
    if not (max_conn == 0) && ltb max_conn (length pool)
    then drop (length pool - max_conn) pool
    else pool

abbrev pub cut : ℕ → List ℕ → List ℕ
cut max_conn pool =
    if not (max_conn == 0) && ltb max_conn (length pool)
    then take (length pool - max_conn) pool
    else []

-- Pushes sockets at the back, and cuts the pool to its bound.
pub push_back : ℕ → Status → List ℕ → AsioPool → AsioPool
unfolding put_entry close_all
push_back ep status sockets p =
    let pool = sockets ++ (entry ep p).pool in
    close_all (cut p.max_conn pool)
      (put_entry ep (record { status = status; pool = kept p.max_conn pool }) p)

-- A new status, with the pool swapped out and closed.
pub empty_into : ℕ → Status → AsioPool → AsioPool
unfolding put_entry close_all
empty_into ep status p =
    close_all (entry ep p).pool (put_entry ep (record { status = status; pool = [] }) p)

-- The locked part of `add`.
abbrev pub add_by : Status → ℕ → AsioPool → AsioPool
add_by deleting ep p = empty_into ep adding p
add_by deleted ep p = empty_into ep adding p
add_by _ ep p = put_entry ep (entry ep p) p

pub mark_adding : ℕ → AsioPool → AsioPool
unfolding empty_into put_entry
mark_adding ep p = add_by (entry ep p).status ep p

abbrev pub del_by : Status → ℕ → AsioPool → AsioPool
del_by deleting ep p = p
del_by deleted ep p = p
del_by _ ep p = empty_into ep deleting p

abbrev pub del_found : Option EndPointPool → ℕ → AsioPool → AsioPool
del_found none ep p = p
del_found (some e) ep p = del_by e.status ep p

pub del : ℕ → AsioPool → AsioPool
unfolding empty_into
del ep p = del_found (find ep p.map) ep p

-- The counters of `get`.
pub count_failure : AsioPool → AsioPool
count_failure p = record p {
  stats = record stats { got_conn_failure = u64 (stats.got_conn_failure + 1) };
}
  where
    open p use {stats}

pub count_pooled : AsioPool → AsioPool
count_pooled p = record p {
  stats = record stats { got_from_pool_conn = u64 (stats.got_from_pool_conn + 1) };
}
  where
    open p use {stats}

pub count_created : AsioPool → AsioPool
count_created p = record p {
  stats = record stats { got_from_created_conn = u64 (stats.got_from_created_conn + 1) };
}
  where
    open p use {stats}

-- The reference that an overwritten pointer held.
abbrev pub held : Option ℕ → List ℕ
held none = []
held (some s) = s ∷ []

pub data Picked : Type 0 where
  refused : AsioPool → Picked
  pooled : ℕ → AsioPool → Picked
  must_connect : AsioPool → Picked

-- The pool of a connected endpoint. The swap leaves the caller's old pointer in the vector's last
-- place, where pop_back drops it.
abbrev pub pick_from : (ℕ → Bool) → ℕ → Option ℕ → List ℕ → AsioPool → Picked
pick_from is_closed ep slot [] p = must_connect p
pick_from is_closed ep slot (s ∷ rest) p =
    if is_closed s
    then must_connect (empty_into ep connected p)
    else pooled s (
        close_all (held slot)
          (put_entry ep (record { status = connected; pool = rest }) (count_pooled p)))

-- The first locked part of `get`.
pub pick : (ℕ → Bool) → ℕ → Option ℕ → AsioPool → Picked
unfolding empty_into put_entry close_all count_failure count_pooled
pick is_closed ep slot p =
    if is_connected (entry ep p).status
    then pick_from is_closed ep slot (entry ep p).pool p
    else refused (count_failure (put_entry ep (entry ep p) p))

-- What `get` returns, and what the caller's pointer then holds.
pub record Got : Type 0 where
  pub after : AsioPool
  pub slot : Option ℕ
  pub success : Bool

-- The rest of `get`, once `socket_connect` has returned.
abbrev pub finish_connect : ℕ → Option ℕ → Option ℕ → AsioPool → Got
finish_connect ep slot none p = record {
  after = close_all (held slot) (count_failure (empty_into ep disconnected p));
  slot = none;
  success = false;
}
finish_connect ep slot (some s) p = record {
  after = close_all (held slot) (count_created p);
  slot = some s;
  success = true;
}

abbrev pub get_rest : ℕ → Option ℕ → Option ℕ → Picked → Got
get_rest ep slot dialled (refused p) = record { after = p; slot = slot; success = false }
get_rest ep slot dialled (pooled s p) = record { after = p; slot = some s; success = true }
get_rest ep slot dialled (must_connect p) = finish_connect ep slot dialled p

pub get : (ℕ → Bool) → Option ℕ → ℕ → Option ℕ → AsioPool → Got
unfolding pick
get is_closed dialled ep slot p = get_rest ep slot dialled (pick is_closed ep slot p)

-- `left`: the socket is closed already and stays with the caller. `threw`: remote_endpoint() has
-- failed, and the exception leaves `put`. `took`: the caller's pointer is reset.
pub data PutResult : Type 0 where
  left threw : PutResult
  took : AsioPool → PutResult

abbrev pub take_back : Status → ℕ → ℕ → AsioPool → AsioPool
take_back connected s ep p = push_back ep connected (s ∷ []) p
take_back _ s ep p = close_all (s ∷ []) (put_entry ep (entry ep p) p)

pub put_locked : ℕ → ℕ → AsioPool → AsioPool
unfolding push_back close_all put_entry
put_locked s ep p = take_back (entry ep p).status s ep p

abbrev pub put_at : Option ℕ → ℕ → AsioPool → PutResult
put_at none s p = threw
put_at (some ep) s p = took (put_locked s ep p)

pub put : Bool → Option ℕ → ℕ → AsioPool → PutResult
unfolding put_locked
put is_open remote s p = if is_open then put_at remote s p else left

-- Every socket that a pool holds.
abbrev pub pooled_sockets : Map EndPointPool → List ℕ
pooled_sockets [] = []
pooled_sockets ((ep, e) ∷ m) = e.pool ++ pooled_sockets m

pub clear : AsioPool → AsioPool
clear p = record p { map = []; stats = cleared; closed = pooled_sockets p.map ++ p.closed }
