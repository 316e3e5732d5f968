-- ===== src/Pools/Renewal.antt =====
-- update_servers and add_server of ThriftPool. That no host of an update is empty and no port 0,
-- which a new pool asserts, is left to the caller.
use async_thrift.Prelude.{
  ℕ, ◌+◌, List, [], ◌∷◌, ◌++◌, Bool, true, false, Option, none, some, ◌==◌, ◌&&◌, ◌||◌, not,
  if◌then◌else◌, length,
}
use async_thrift.ConnPool.{new_pool}
use async_thrift.Pools.{Backend, ThriftPool}

-- One host and port of an update, with its flag in hosts_found.
pub record Wanted : Type 0 where
  pub host : ℕ
  pub port : ℕ
  pub found : Bool

-- The loop over hosts: marks the first that is the backend's and not yet found.
unfoldable pub find_host : Backend → List Wanted → Bool × List Wanted
find_host b [] = (false, [])
find_host b (w ∷ ws) =
    let (found, rest) = find_host b ws in
    if (b.host == w.host) && (b.port == w.port) && not w.found
    then (true, record w { found = true } ∷ ws)
    else (found, w ∷ rest)

-- What the loops of update_servers change.
pub record Updating : Type 0 where
  pub wanted : List Wanted
  pub kept : List Backend
  pub queue : List Backend
  pub local : Option ℕ

abbrev pub keep_or_queue : ℕ → Backend → Bool × List Wanted → Updating → Updating
keep_or_queue localhost_name b (true, ws) u = record u { wanted = ws; kept = u.kept ++ (b ∷ []) }
keep_or_queue localhost_name b (false, ws) u = record u {
  wanted = ws;
  queue = u.queue ++ (b ∷ []);
  local = if localhost_name == b.host then none else u.local;
}

unfoldable pub update_pools : ℕ → List Backend → Updating → Updating
unfolding find_host
update_pools localhost_name [] u = u
update_pools localhost_name (b ∷ bs) u =
    update_pools localhost_name bs (keep_or_queue localhost_name b (find_host b u.wanted) u)

abbrev pub restore_or_leave : ℕ → Backend → Bool × List Wanted → Updating → Updating
restore_or_leave localhost_name b (true, ws) u = record u {
  wanted = ws;
  kept = u.kept ++ (b ∷ []);
  local = if localhost_name == b.host then some b.address else u.local;
}
restore_or_leave localhost_name b (false, ws) u = record u {
  wanted = ws;
  queue = u.queue ++ (b ∷ []);
}

unfoldable pub update_remove_queue : ℕ → List Backend → Updating → Updating
unfolding find_host
update_remove_queue localhost_name [] u = u
update_remove_queue localhost_name (b ∷ bs) u =
    update_remove_queue localhost_name bs
      (restore_or_leave localhost_name b (find_host b u.wanted) u)

-- A new pool behind the others.
unfoldable pub push_server : ℕ → ℕ → (ℕ → ℕ → Bool) → ThriftPool → ThriftPool
unfolding new_pool
push_server host port opens s = record s {
  pools =
      s.pools
      ++ (record {
        address = s.next;
        host = host;
        port = port;
        pool = new_pool s.min_free_conn s.max_conn (opens s.next);
      }
          ∷ []);
  localhost_pool = if s.localhost_name == host then some s.next else s.localhost_pool;
  next = s.next + 1;
}

unfoldable pub add_remaining : List Wanted → (ℕ → ℕ → Bool) → ThriftPool → ThriftPool
unfolding push_server
add_remaining [] opens s = s
add_remaining (w ∷ ws) opens s =
    add_remaining ws opens (if w.found then s else push_server w.host w.port opens s)

abbrev pub loops : ThriftPool → List Wanted → Updating
loops s wanted =
    let u =
      update_pools s.localhost_name s.pools
        (record { wanted = wanted; kept = []; queue = s.remove_queue; local = s.localhost_pool }) in
    update_remove_queue s.localhost_name u.queue (record u { queue = [] })

abbrev pub want : List ℕ → List ℕ → List Wanted
want (h ∷ hosts) (p ∷ ports) = record { host = h; port = p; found = false } ∷ want hosts ports
want hosts ports = []

unfoldable pub update_servers : List ℕ → List ℕ → (ℕ → ℕ → Bool) → ThriftPool → Bool × ThriftPool
unfolding update_pools update_remove_queue add_remaining
update_servers hosts ports opens s =
    if length hosts == length ports
    then (
      true,
      (let u = loops s (want hosts ports) in
          add_remaining u.wanted opens
            (record s { pools = u.kept; remove_queue = u.queue; localhost_pool = u.local })),
    )
    else (false, s)

unfoldable pub has_server : ℕ → ℕ → List Backend → Bool
has_server host port [] = false
has_server host port (b ∷ bs) =
    let rest = has_server host port bs in
    if (b.host == host) && (b.port == port) then true else rest

-- With the assertion that the host is not empty and the port is not 0.
unfoldable pub add_server : ℕ → ℕ → (ℕ → ℕ → Bool) → ThriftPool → Option (Bool × ThriftPool)
unfolding has_server push_server
add_server host port opens s =
    if (host == 0) || (port == 0)
    then none
    else some
        (if has_server host port s.pools then (false, s) else (true, push_server host port opens s))
