-- ===== src/Services/Stale.antt =====
-- The selection of a service after set_backend has replaced its set.
use native.Mathlib.Nat.{mod-lt}
use async_thrift.Prelude.{
  ℕ, zero, suc, ◌+◌, ◌%◌, ◌≤◌, ◌<◌, ◌≡◌, refl, ap, ◌∙◌, List, [], ◌∷◌, map, Bool, true, false,
  Option, none, some, arith, ◌==◌, if◌then◌else◌, length,
}
use async_thrift.Map.{find, insert, or_fresh}
use async_thrift.Map.Laws.{find-insert}
use async_thrift.Services.Select.{try_all-plain, finish}
use async_thrift.Services.{
  PoolOps, ServiceEndPoint, Service, new_service, Hosts, parsed_sep, Manager, service_of, less,
  insert_sep, parse_entry, parse_backends, find_node, get_elem?, must_select, select, Tried,
  try_node, try_at, try_sep, until, try_each, try_all, set_backend, get,
}

-- Every element has been allocated at `k` or later.
abbrev AllFrom : ℕ → List ServiceEndPoint → Type 0
AllFrom k [] = Unit
AllFrom k (sep ∷ seps) = (k ≤ sep.node) × AllFrom k seps

insert_sep-AllFrom :
    (k : ℕ) (a : ServiceEndPoint) (seps : List ServiceEndPoint)
    → k ≤ a.node
    → AllFrom k seps
    → AllFrom k (insert_sep a seps)
unfolding insert_sep
insert_sep-AllFrom k a [] h all = (h, tt)
insert_sep-AllFrom k a (b ∷ seps) h all =
    by_order (less b a) (less a b) (insert_sep-AllFrom k a seps h all.1)
  where
    by_order :
        (x y : Bool)
        → AllFrom k (insert_sep a seps)
        → AllFrom k (if x then b ∷ insert_sep a seps else if y then a ∷ b ∷ seps else b ∷ seps)
    by_order true y rest = (all.0, rest)
    by_order false true rest = (h, all)
    by_order false false rest = all

parse_entry-AllFrom :
    (hosts : Hosts) (k node : ℕ) (entry : List ℕ) (seps : List ServiceEndPoint)
    → k ≤ node
    → AllFrom k seps
    → AllFrom k (parse_entry hosts node entry seps)
parse_entry-AllFrom hosts k node [] seps h all = all
parse_entry-AllFrom hosts k node (host ∷ []) seps h all = all
parse_entry-AllFrom hosts k node (host ∷ port ∷ []) seps h all =
    by_outcome (hosts.resolve host port)
  where
    by_outcome :
        (o : Option ℕ)
        → AllFrom k (elim o [
          | none ↦ seps
          | some endpoint ↦ insert_sep (parsed_sep hosts node host port endpoint) seps
        ])
    by_outcome none = all
    by_outcome (some endpoint) =
        insert_sep-AllFrom k (parsed_sep hosts node host port endpoint) seps h all
parse_entry-AllFrom hosts k node (host ∷ port ∷ x ∷ xs) seps h all = all

parse_backends-AllFrom :
    (hosts : Hosts) (k node : ℕ) (entries : List (List ℕ)) (seps : List ServiceEndPoint)
    → k ≤ node
    → AllFrom k seps
    → AllFrom k (parse_backends hosts node entries seps)
unfolding parse_backends
parse_backends-AllFrom hosts k node [] seps h all = all
parse_backends-AllFrom hosts k node (entry ∷ entries) seps h all =
    parse_backends-AllFrom hosts k (suc node) entries (parse_entry hosts node entry seps)
      (omega (arith, h)) (parse_entry-AllFrom hosts k node entry seps h all)

find_node-AllFrom :
    (k node : ℕ) (seps : List ServiceEndPoint)
    → node < k
    → AllFrom k seps
    → find_node node seps ≡ none
unfolding find_node
find_node-AllFrom k node [] h all = refl
find_node-AllFrom k node (sep ∷ seps) h all =
    ap (λ b. if b then some sep else find_node node seps) apart
    ∙ find_node-AllFrom k node seps h all.1
  where
    apart : (node == sep.node) ≡ false
    apart = ground (arith, h, all.0)

module _ {P : Type 0} (ops : PoolOps P) where
  try_each-none :
      (n size : ℕ) (t : Tried P)
      → 0 < n
      → try_at ops 0 size t ≡ none
      → try_each ops n 0 size t ≡ none
  unfolding try_each
  try_each-none zero size t pos h = elim pos [ ]
  try_each-none (suc n) size t pos h = ap (λ o. until ops o (try_each ops n 0 size)) h

  try_at-none :
      (t : Tried P) (n node : ℕ)
      → get_elem? t.service.sep_select_vec (t.service.sep_select_vec_count % n) ≡ some node
      → find_node node t.service.sep_set ≡ none
      → try_at ops 0 n t ≡ none
  try_at-none t n node p q =
      ap (λ i. try_node ops (get_elem? t.service.sep_select_vec i) t) zero_add
      ∙ ap (λ o. try_node ops o t) p
      ∙ ap (λ o. try_sep ops node o t) q
    where
      zero_add : 0 + t.service.sep_select_vec_count % n ≡ t.service.sep_select_vec_count % n
      zero_add = omega arith

  start : Service → Option ℕ → P → Tried P
  start s slot p = record { service = s; reply = record { pool = p; slot = slot; success = false } }

  get-none :
      (shuffle : List ℕ → List ℕ) (id node : ℕ) (slot : Option ℕ) (m : Manager P) (s : Service)
      → service_of id m ≡ s
      → must_select s ≡ false
      → s.local_host_index ≡ 0
      → 0 < length s.sep_select_vec
      → get_elem? s.sep_select_vec (s.sep_select_vec_count % length s.sep_select_vec) ≡ some node
      → find_node node s.sep_set ≡ none
      → get ops shuffle id slot m ≡ none
  unfolding get select start
  get-none shuffle id node slot m s is keeps plain pos at gone =
      ap (λ x. finish id m (try_all ops (start (select shuffle x) slot m.pool))) is
      ∙ ap (λ b. finish id m (try_all ops (start (if b then renewed else s) slot m.pool))) keeps
      ∙ ap (finish id m) (
          try_all-plain ops (start s slot m.pool) plain refl
          ∙ try_each-none (length s.sep_select_vec) (length s.sep_select_vec) (start s slot m.pool)
              pos (try_at-none (start s slot m.pool) (length s.sep_select_vec) node at gone))
    where
      renewed : Service
      renewed = record s {
        local_host_index = 0;
        sep_select_vec = shuffle (map (λ (sep : ServiceEndPoint). sep.node) s.sep_set);
        sep_select_vec_count = 0;
      }

  -- For a service with a selection of addresses allocated before, no local ones first, and a counter
  -- up to 4096: a set_backend that leaves the service with as many backends as it had selected, be they the same
  -- ones, makes its next `get` follow the address of an element that is gone: the selection, which
  -- holds the old addresses, is not renewed.
  pub get-set_backend :
      (hosts : Hosts) (shuffle : List ℕ → List ℕ) (id : ℕ) (slot : Option ℕ)
      (entries : List (List ℕ)) (m : Manager P)
      → let s = service_of id m in
        let m' = set_backend ops hosts id entries m in
        s.local_host_index ≡ 0
        → 0 < length s.sep_select_vec
        → ((j : ℕ)
            → j < length s.sep_select_vec
            → (node : ℕ) × (get_elem? s.sep_select_vec j ≡ some node) × (node < m.nodes))
        → length (service_of id m').sep_set ≡ length s.sep_select_vec
        → s.sep_select_vec_count ≤ 4096
        → get ops shuffle id slot m' ≡ none
  unfolding get set_backend select try_each
  get-set_backend hosts shuffle id slot entries m plain pos old same few =
      let (node, at, early) =
        old (s.sep_select_vec_count % length s.sep_select_vec)
          (mod-lt s.sep_select_vec_count {m = length s.sep_select_vec} (omega (arith, pos))) in
      get-none shuffle id node slot (set_backend ops hosts id entries m)
        (record s { sep_set = parsed }) is keeps plain pos at
        (find_node-AllFrom m.nodes node parsed early
          (parse_backends-AllFrom hosts m.nodes m.nodes entries [] (omega arith) tt))
    where
      s : Service
      s = service_of id m

      parsed : List ServiceEndPoint
      parsed = parse_backends hosts m.nodes entries []

      entered :
          find id (insert id (record s { sep_set = parsed }) m.services)
          ≡ some (record s { sep_set = parsed })
      entered = find-insert id id (record s { sep_set = parsed }) m.services ∙ ground arith

      is : service_of id (set_backend ops hosts id entries m) ≡ record s { sep_set = parsed }
      is = ap (or_fresh new_service) entered

      keeps : must_select (record s { sep_set = parsed }) ≡ false
      keeps = ground (arith, same ∙ refl, few, ap (λ (x : Service). length x.sep_set) is)
