-- ===== src/Asio/Probe.antt =====
-- async/asio_pool.cpp: __probe, in its locked parts, and `add`, which runs it.
use async_thrift.Prelude.{
  ℕ, zero, suc, ◌+◌, ◌-◌, List, [], ◌∷◌, ◌++◌, Bool, true, false, Option, none, some, if◌then◌else◌,
  length,
}
use async_thrift.Map.{Map}
use async_thrift.Asio.{
  Status, adding, connected, disconnected, deleting, deleted, EndPointPool, AsioPool, u64, entry,
  put_entry, close_all, is_connected, is_deleting, push_back, empty_into, mark_adding,
}

-- What the first pass does with one endpoint: its entry, the sockets to close, and whether it goes
-- into `probe_map`.
pub record Scanned : Type 0 where
  pub entry : EndPointPool
  pub dropped : List ℕ
  pub probed : Bool

abbrev pub scan_connected : (ℕ → Bool) → List ℕ → Scanned
scan_connected is_closed [] = record {
  entry = record { status = connected; pool = [] };
  dropped = [];
  probed = true;
}
scan_connected is_closed (s ∷ rest) =
    if is_closed s
    then record {
      entry = record { status = connected; pool = [] };
      dropped = s ∷ rest;
      probed = true;
    }
    else record {
      entry = record { status = connected; pool = s ∷ rest };
      dropped = [];
      probed = false;
    }

abbrev pub scan : Bool → (ℕ → Bool) → Status → List ℕ → Scanned
scan quick is_closed adding pool = record {
  entry = record { status = adding; pool = pool };
  dropped = [];
  probed = true;
}
scan quick is_closed disconnected pool = record {
  entry = record { status = disconnected; pool = pool };
  dropped = [];
  probed = true;
}
scan quick is_closed connected pool =
    if quick
    then record { entry = record { status = connected; pool = pool }; dropped = []; probed = false }
    else scan_connected is_closed pool
scan quick is_closed deleting pool = record {
  entry = record { status = deleted; pool = [] };
  dropped = pool;
  probed = false;
}
scan quick is_closed deleted pool = record {
  entry = record { status = deleted; pool = pool };
  dropped = [];
  probed = false;
}

-- The first pass over map_: what it becomes, the sockets to close, and probe_map.
pub record Pass : Type 0 where
  pub map : Map EndPointPool
  pub dropped : List ℕ
  pub probe_map : List (ℕ × Status)

abbrev pub note : Bool → ℕ × Status → List (ℕ × Status) → List (ℕ × Status)
note true x xs = x ∷ xs
note false x xs = xs

unfoldable pub first_pass : Bool → (ℕ → Bool) → Map EndPointPool → Pass
first_pass quick is_closed [] = record { map = []; dropped = []; probe_map = [] }
first_pass quick is_closed ((ep, e) ∷ m) =
    let rest = first_pass quick is_closed m in
    let scanned = scan quick is_closed e.status e.pool in
    record {
      map = (ep, scanned.entry) ∷ rest.map;
      dropped = scanned.dropped ++ rest.dropped;
      probe_map = note scanned.probed (ep, e.status) rest.probe_map;
    }

unfoldable pub scan_all : Bool → (ℕ → Bool) → AsioPool → AsioPool × List (ℕ × Status)
unfolding first_pass close_all
scan_all quick is_closed p =
    let pass = first_pass quick is_closed p.map in
    (close_all pass.dropped (record p { map = pass.map }), pass.probe_map)

unfoldable pub count_disconnected : Status → AsioPool → AsioPool
count_disconnected status p =
    if is_connected status
    then record p {
      stats = record stats { disconnected_count = u64 (stats.disconnected_count + 1) };
    }
    else p
  where
    open p use {stats}

unfoldable pub count_connected : Status → AsioPool → AsioPool
count_connected status p =
    if is_connected status
    then p
    else record p { stats = record stats { connected_count = u64 (stats.connected_count + 1) } }
  where
    open p use {stats}

-- The locked part after a failed connect.
unfoldable pub probe_failed : ℕ → AsioPool → AsioPool
unfolding empty_into put_entry
probe_failed ep p =
    if is_deleting (entry ep p).status
    then put_entry ep (entry ep p) p
    else empty_into ep disconnected p

-- The locked part after a connect; a socket that is not pushed is dropped at the end of its scope.
unfoldable pub probe_connected : ℕ → ℕ → AsioPool → AsioPool
unfolding push_back put_entry close_all
probe_connected ep s p =
    if is_deleting (entry ep p).status
    then close_all (s ∷ []) (put_entry ep (entry ep p) p)
    else push_back ep connected (s ∷ []) p

-- need_conn, as that part leaves it.
abbrev pub need_conn : ℕ → AsioPool → ℕ
need_conn ep p =
    if is_deleting (entry ep p).status then 0 else p.min_conn - length (entry ep p).pool

-- Up to `need` more connects, until one fails. `dial i` is what the i-th connect returns.
unfoldable pub connect_more : ℕ → ℕ → (ℕ → Option ℕ) → List ℕ → List ℕ
connect_more zero i dial sockets = sockets
connect_more (suc need) i dial sockets = elim (dial i) [
  | none ↦ sockets
  | some s ↦ connect_more need (suc i) dial (s ∷ sockets)
]

-- The locked part that adds them.
unfoldable pub replenish : ℕ → List ℕ → AsioPool → AsioPool
unfolding push_back put_entry close_all
replenish ep sockets p =
    if is_connected (entry ep p).status
    then push_back ep connected sockets p
    else close_all sockets (put_entry ep (entry ep p) p)

abbrev pub replenish_if : ℕ → ℕ → (ℕ → Option ℕ) → AsioPool → AsioPool
replenish_if zero ep dial p = p
replenish_if (suc n) ep dial p = replenish ep (connect_more (suc n) 1 dial []) p

abbrev pub same_status : Status → Status → Bool
same_status adding adding = true
same_status connected connected = true
same_status disconnected disconnected = true
same_status deleting deleting = true
same_status deleted deleted = true
same_status _ _ = false

abbrev pub dialled : ℕ → Status → Option ℕ → (ℕ → Option ℕ) → AsioPool → AsioPool
dialled ep status none dial p = probe_failed ep (count_disconnected status p)
dialled ep status (some s) dial p =
    let q = probe_connected ep s (count_connected status p) in
    replenish_if (need_conn ep q) ep dial q

-- The second pass over one endpoint of probe_map.
unfoldable pub probe_one : (ℕ → Option ℕ) → ℕ × Status → AsioPool → AsioPool
unfolding put_entry probe_failed probe_connected connect_more replenish count_connected
    count_disconnected
probe_one dial (ep, status) p =
    let q = put_entry ep (entry ep p) p in
    if same_status status (entry ep p).status then dialled ep status (dial 0) dial q else q

unfoldable pub probe_each : (ℕ → ℕ → Option ℕ) → List (ℕ × Status) → AsioPool → AsioPool
probe_each dial [] p = p
probe_each dial ((ep, status) ∷ rest) p = probe_each dial rest (probe_one (dial ep) (ep, status) p)

-- __probe, when no other thread comes between its locked parts.
unfoldable pub probe : Bool → (ℕ → Bool) → (ℕ → ℕ → Option ℕ) → AsioPool → AsioPool
unfolding scan_all probe_each probe_one
probe quick is_closed dial p =
    let (q, probe_map) = scan_all quick is_closed p in probe_each dial probe_map q

-- add(endpoint)
unfoldable pub add : (ℕ → Bool) → (ℕ → ℕ → Option ℕ) → ℕ → AsioPool → AsioPool
unfolding probe mark_adding
add is_closed dial ep p = probe true is_closed dial (mark_adding ep p)

unfoldable pub mark_all : List ℕ → AsioPool → AsioPool
mark_all [] p = p
mark_all (ep ∷ eps) p = mark_all eps (mark_adding ep p)

-- add(endpoints)
unfoldable pub add_all : (ℕ → Bool) → (ℕ → ℕ → Option ℕ) → List ℕ → AsioPool → AsioPool
unfolding probe mark_all mark_adding
add_all is_closed dial eps p = probe true is_closed dial (mark_all eps p)
