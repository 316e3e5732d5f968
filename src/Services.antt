-- ===== src/Services.antt =====
-- async/service_manager.cpp: ServiceManager::Impl over a pool of connections. A host, a port and a
-- service id are numbers. boost::split has cut a string of backends into its entries, and each into
-- its parts. A `node` is the address of an element of a std::set: `sep_select_vec` holds addresses.
pub mod Address
pub mod Select
pub mod Stale
mod Examples
use async_thrift.Prelude.{
  ℕ, zero, suc, ◌+◌, ◌-◌, ◌%◌, ◌^◌, List, [], ◌∷◌, ◌++◌, map, Bool, true, false, Option, none, some,
  ltb, ◌==◌, ◌&&◌, ◌||◌, not, if◌then◌else◌, length, take, drop,
}
use async_thrift.Map.{Map, find, or_fresh, insert}
use async_thrift.Asio.{u64}

-- What the manager uses of AsioPool.
pub record Reply (P : Type 0) : Type 0 where
  pub pool : P
  pub slot : Option ℕ
  pub success : Bool

pub record PoolOps (P : Type 0) : Type 0 where
  pub add : ℕ → P → P
  pub del : ℕ → P → P
  pub get : ℕ → Option ℕ → P → Reply P
  pub put : ℕ → P → P

pub record ServiceEndPoint : Type 0 where
  pub node : ℕ
  pub host : ℕ
  pub port : ℕ
  pub endpoint : ℕ
  pub local_host : Bool
  pub success : ℕ
  pub failure : ℕ

-- ServiceEndPointLess
abbrev pub less : ServiceEndPoint → ServiceEndPoint → Bool
less a b =
    if a.local_host && not b.local_host
    then true
    else if not a.local_host && b.local_host
    then false
    else ltb a.endpoint b.endpoint

-- std::set, in the order of `less`: find, insert (which keeps an equivalent element) and erase.
unfoldable pub find_sep : ServiceEndPoint → List ServiceEndPoint → Option ServiceEndPoint
find_sep a [] = none
find_sep a (b ∷ seps) = if less b a then find_sep a seps else if less a b then none else some b

unfoldable pub insert_sep : ServiceEndPoint → List ServiceEndPoint → List ServiceEndPoint
insert_sep a [] = a ∷ []
insert_sep a (b ∷ seps) =
    if less b a then b ∷ insert_sep a seps else if less a b then a ∷ b ∷ seps else b ∷ seps

unfoldable pub erase_sep : ServiceEndPoint → List ServiceEndPoint → List ServiceEndPoint
erase_sep a [] = []
erase_sep a (b ∷ seps) =
    if less b a then b ∷ erase_sep a seps else if less a b then b ∷ seps else seps

pub record Service : Type 0 where
  pub sep_set : List ServiceEndPoint
  pub local_host_index : ℕ
  pub sep_select_vec : List ℕ
  pub sep_select_vec_count : ℕ

abbrev pub new_service : Service
new_service = record {
  sep_set = [];
  local_host_index = 0;
  sep_select_vec = [];
  sep_select_vec_count = 0;
}

-- The names that count as this host, and the resolver: `none` for an error.
pub record Hosts : Type 0 where
  pub localhost : ℕ
  pub local_host_name : ℕ
  pub resolve : ℕ → ℕ → Option ℕ

abbrev pub parsed_sep : Hosts → ℕ → ℕ → ℕ → ℕ → ServiceEndPoint
parsed_sep hosts node host port endpoint = record {
  node = node;
  host = host;
  port = port;
  endpoint = endpoint;
  local_host = host == hosts.local_host_name || host == hosts.localhost;
  success = 0;
  failure = 0;
}

-- One entry: skipped, unless it has two parts that resolve.
abbrev pub parse_entry : Hosts → ℕ → List ℕ → List ServiceEndPoint → List ServiceEndPoint
parse_entry hosts node (host ∷ port ∷ []) seps = elim (hosts.resolve host port) [
  | none ↦ seps
  | some endpoint ↦ insert_sep (parsed_sep hosts node host port endpoint) seps
]
parse_entry hosts node _ seps = seps

-- parse_backends; the nodes that it allocates are numbered from `node` on.
unfoldable pub parse_backends :
    Hosts → ℕ → List (List ℕ) → List ServiceEndPoint → List ServiceEndPoint
unfolding insert_sep
parse_backends hosts node [] seps = seps
parse_backends hosts node (entry ∷ entries) seps =
    parse_backends hosts (suc node) entries (parse_entry hosts node entry seps)

pub record Manager (P : Type 0) : Type 0 where
  pub services : Map Service
  pub pool : P
  pub nodes : ℕ

-- map_[id]
abbrev pub service_of : {P : Type 0} → ℕ → Manager P → Service
service_of id m = or_fresh new_service (find id m.services)

abbrev pub is_found : Option ServiceEndPoint → Bool
is_found none = false
is_found (some sep) = true

-- The address of an element, looked up: `none` for one that the set no longer has.
unfoldable pub find_node : ℕ → List ServiceEndPoint → Option ServiceEndPoint
find_node node [] = none
find_node node (sep ∷ seps) = if node == sep.node then some sep else find_node node seps

unfoldable pub get_elem? : List ℕ → ℕ → Option ℕ
get_elem? [] i = none
get_elem? (x ∷ xs) zero = some x
get_elem? (x ∷ xs) (suc i) = get_elem? xs i

-- The counters of one element.
abbrev pub counted : Bool → ServiceEndPoint → ServiceEndPoint
counted true sep = record sep { success = u64 (sep.success + 1) }
counted false sep = record sep { failure = u64 (sep.failure + 1) }

unfoldable pub count_node : Bool → ℕ → List ServiceEndPoint → List ServiceEndPoint
count_node success node [] = []
count_node success node (sep ∷ seps) =
    (if node == sep.node then counted success sep else sep) ∷ count_node success node seps

abbrev pub must_select : Service → Bool
must_select s = not (length s.sep_select_vec == length s.sep_set) || ltb 4096 s.sep_select_vec_count

-- The new selection. With local_host_index 0 the first shuffle has nothing to do.
unfoldable pub select : (List ℕ → List ℕ) → Service → Service
select shuffle s =
    if must_select s
    then record s {
      local_host_index = 0;
      sep_select_vec = shuffle (map (λ (sep : ServiceEndPoint). sep.node) s.sep_set);
      sep_select_vec_count = 0;
    }
    else s

-- Where a loop of `get` stands.
pub record Tried (P : Type 0) : Type 0 where
  pub service : Service
  pub reply : Reply P

module _ {P : Type 0} (ops : PoolOps P) where
  abbrev pub add_missing : List ServiceEndPoint → List ServiceEndPoint → P → P
  add_missing old [] p = p
  add_missing old (sep ∷ seps) p =
      add_missing old seps (if is_found (find_sep sep old) then p else ops.add sep.endpoint p)

  abbrev pub del_missing : List ServiceEndPoint → List ServiceEndPoint → P → P
  del_missing new [] p = p
  del_missing new (sep ∷ seps) p =
      del_missing new seps (if is_found (find_sep sep new) then p else ops.del sep.endpoint p)

  unfoldable pub set_backend : Hosts → ℕ → List (List ℕ) → Manager P → Manager P
  unfolding find_sep parse_backends
  set_backend hosts id entries m =
      let parsed = parse_backends hosts m.nodes entries [] in
      let s = service_of id m in
      record {
        services = insert id (record s { sep_set = parsed }) m.services;
        pool = del_missing parsed s.sep_set (add_missing s.sep_set parsed m.pool);
        nodes = m.nodes + length entries;
      }

  -- The loop of add_backend: each new element is copied into a node of the old set.
  abbrev pub add_each :
      List ServiceEndPoint → List ServiceEndPoint → P → ℕ → List ServiceEndPoint × P × ℕ
  add_each [] old p node = (old, p, node)
  add_each (sep ∷ seps) old p node =
      if is_found (find_sep sep old)
      then add_each seps old p node
      else add_each seps (insert_sep (record sep { node = node }) old) (ops.add sep.endpoint p)
          (suc node)

  unfoldable pub add_backend : Hosts → ℕ → List (List ℕ) → Manager P → Manager P
  unfolding find_sep insert_sep parse_backends
  add_backend hosts id entries m =
      let parsed = parse_backends hosts m.nodes entries [] in
      let s = service_of id m in
      let (new, p, node) = add_each parsed s.sep_set m.pool (m.nodes + length entries) in
      record {
        services = insert id (record s { sep_set = new }) m.services;
        pool = p;
        nodes = node;
      }

  abbrev pub del_each : List ServiceEndPoint → List ServiceEndPoint → P → List ServiceEndPoint × P
  del_each [] old p = (old, p)
  del_each (sep ∷ seps) old p =
      if is_found (find_sep sep old)
      then del_each seps (erase_sep sep old) (ops.del sep.endpoint p)
      else del_each seps old p

  unfoldable pub del_backend : Hosts → ℕ → List (List ℕ) → Manager P → Manager P
  unfolding find_sep erase_sep parse_backends
  del_backend hosts id entries m =
      let parsed = parse_backends hosts m.nodes entries [] in
      let s = service_of id m in
      let (new, p) = del_each parsed s.sep_set m.pool in
      record {
        services = insert id (record s { sep_set = new }) m.services;
        pool = p;
        nodes = m.nodes + length entries;
      }

  -- One turn of a loop: `none` if it follows the address of an element that is gone.
  abbrev pub try_sep : ℕ → Option ServiceEndPoint → Tried P → Option (Tried P)
  try_sep node none t = none
  try_sep node (some sep) t =
      let reply = ops.get sep.endpoint t.reply.slot t.reply.pool in
      some (record {
        service = record t.service {
          sep_set = count_node reply.success node t.service.sep_set;
          sep_select_vec_count = u64 (t.service.sep_select_vec_count + 1);
        };
        reply = reply;
      })

  abbrev pub try_node : Option ℕ → Tried P → Option (Tried P)
  try_node none t = none
  try_node (some node) t = try_sep node (find_node node t.service.sep_set) t

  abbrev pub try_at : ℕ → ℕ → Tried P → Option (Tried P)
  try_at base size t =
      try_node (get_elem? t.service.sep_select_vec (base + t.service.sep_select_vec_count % size)) t

  abbrev pub until : Option (Tried P) → (Tried P → Option (Tried P)) → Option (Tried P)
  until none more = none
  until (some t) more = if t.reply.success then some t else more t

  unfoldable pub try_each : ℕ → ℕ → ℕ → Tried P → Option (Tried P)
  unfolding count_node find_node get_elem?
  try_each zero base size t = some t
  try_each (suc turns) base size t = until (try_at base size t) (try_each turns base size)

  abbrev pub try_all : Tried P → Option (Tried P)
  try_all t =
      let i = t.service.local_host_index in
      let size = length t.service.sep_select_vec in
      until (try_each i 0 i t) (try_each (size - i) i (size - i))

  -- `get`, from what the caller's pointer holds.
  unfoldable pub get : (List ℕ → List ℕ) → ℕ → Option ℕ → Manager P → Option (Manager P × Reply P)
  unfolding select try_each
  get shuffle id slot m =
      let s = select shuffle (service_of id m) in
      elim (try_all
        (record { service = s; reply = record { pool = m.pool; slot = slot; success = false } })) [
          | none ↦ none
          | some t ↦
              some (
                record m { services = insert id t.service m.services; pool = t.reply.pool },
                t.reply,
              )
        ]

  pub put : ℕ → ℕ → Manager P → Manager P
  put id socket m = record m { pool = ops.put socket m.pool }
