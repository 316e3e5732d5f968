-- ===== src/Services/Select.antt =====
-- What `get` of the manager finds.
use native.Mathlib.Nat.{mod-lt, mod-eq_of_lt}
use async_thrift.Prelude.{
  ℕ, zero, suc, ◌+◌, ◌-◌, ◌%◌, ◌^◌, ◌≤◌, ◌<◌, ◌≡◌, ◌⊎◌, ◌↔◌, refl, sym, ap, ◌∙◌, subst, List, Bool,
  true, false, Option, none, some, arith, if◌then◌else◌, length, Bool-cases, inl, inr,
}
use async_thrift.Map.{insert}
use async_thrift.Asio.{u64}
use async_thrift.Services.{
  Reply, PoolOps, ServiceEndPoint, Service, Manager, service_of, get_elem?, count_node, select,
  Tried, try_sep, try_node, try_at, until, try_each, try_all, get,
}
use async_thrift.Services.Address.{endpoint_at, AllLive, Element, element, reach, endpoint_at-count}

-- Some backend of the selection answers.
abbrev pub SomeWorks : (ℕ → Bool) → Service → Type 0
SomeWorks works s =
    (j ep : ℕ) × (j < length s.sep_select_vec)
    × (endpoint_at s.sep_select_vec s.sep_set j ≡ some ep)
    × (works ep ≡ true)

module _ {P : Type 0} (ops : PoolOps P) where
  -- The two loops of `get`, from a given local_host_index.
  abbrev try_from : ℕ → Tried P → Option (Tried P)
  try_from i t =
      let size = length t.service.sep_select_vec in
      until ops (try_each ops i 0 i t) (try_each ops (size - i) i (size - i))

  pub try_all-plain :
      (t : Tried P)
      → t.service.local_host_index ≡ 0
      → t.reply.success ≡ false
      → try_all ops t
        ≡ try_each ops (length t.service.sep_select_vec) 0 (length t.service.sep_select_vec) t
  unfolding try_each
  try_all-plain t h fails =
      ap (λ i. try_from i t) h
      ∙ ap (λ b. if b then some t else try_each ops (size - 0) 0 (size - 0) t) fails
      ∙ ap (λ n. try_each ops n 0 n t) (omega arith)
    where
      size : ℕ
      size = length t.service.sep_select_vec

-- How `get` ends.
module _ {P : Type 0} where
  abbrev pub finish : ℕ → Manager P → Option (Tried P) → Option (Manager P × Reply P)
  finish id m none = none
  finish id m (some t) =
      some (record m { services = insert id t.service m.services; pool = t.reply.pool }, t.reply)

module _ {P : Type 0} (ops : PoolOps P) (works : ℕ → Bool)
    (steady : (ep : ℕ) (slot : Option ℕ) (p : P) → (ops.get ep slot p).success ≡ works ep) where
  -- What k turns from the count c on come to.
  abbrev Ends : (ℕ → Option ℕ) → ℕ → ℕ → ℕ → Bool → Type 0
  Ends E c n k true = (j ep : ℕ) × (j < n) × (E j ≡ some ep) × (works ep ≡ true)
  Ends E c n k false = (i : ℕ) → i < k → (ep : ℕ) → E ((c + i) % n) ≡ some ep → works ep ≡ false

  abbrev endpoints : Service → ℕ → Option ℕ
  endpoints s = endpoint_at s.sep_select_vec s.sep_set

  -- A turn that finds its element.
  abbrev turn : ℕ → ServiceEndPoint → Tried P → Tried P
  turn node sep t =
      let reply = ops.get sep.endpoint t.reply.slot t.reply.pool in
      record {
        service = record t.service {
          sep_set = count_node reply.success node t.service.sep_set;
          sep_select_vec_count = u64 (t.service.sep_select_vec_count + 1);
        };
        reply = reply;
      }

  try_at-turn :
      (t : Tried P) (n ep : ℕ)
      → (e : Element t.service.sep_select_vec t.service.sep_set
          (t.service.sep_select_vec_count % n)
          ep)
      → try_at ops 0 n t ≡ some (turn e.node e.sep t)
  try_at-turn t n ep e =
      ap (λ i. try_node ops (get_elem? t.service.sep_select_vec i) t) zero_add
      ∙ ap (λ o. try_node ops o t) e.address
      ∙ ap (λ o. try_sep ops e.node o t) e.found
    where
      zero_add : 0 + t.service.sep_select_vec_count % n ≡ t.service.sep_select_vec_count % n
      zero_add = omega arith

  -- A turn that is refused, before the others.
  more-Ends :
      (E E' : ℕ → Option ℕ) (c c' n k : ℕ) (b : Bool) (ep : ℕ)
      → ((j : ℕ) → E' j ≡ E j)
      → c' ≡ c + 1
      → E (c % n) ≡ some ep
      → works ep ≡ false
      → Ends E' c' n k b
      → Ends E c n (suc k) b
  more-Ends E E' c c' n k true ep same q at w (j, x, l, h, w') = (j, x, l, sym (same j) ∙ h, w')
  more-Ends E E' c c' n k false ep same q at w r = go
    where
      go : (i : ℕ) → i < suc k → (x : ℕ) → E ((c + i) % n) ≡ some x → works x ≡ false
      go zero h x e = cc (w, at, same_index, e)
        where
          same_index : E ((c + 0) % n) ≡ E (c % n)
          same_index = ap (λ (t : ℕ). E (t % n)) (omega arith)
      go (suc i) h x e =
          r i (omega (arith, h)) x
            (same ((c' + i) % n) ∙ ap (λ (t : ℕ). E (t % n)) (omega (arith, q)) ∙ e)

  -- The result of k turns.
  abbrev Comes : ℕ → Tried P → Type 0
  Comes k t =
      (r : Tried P) × (try_each ops k 0 (length t.service.sep_select_vec) t ≡ some r)
      × Ends (endpoints t.service) t.service.sep_select_vec_count (length t.service.sep_select_vec)
          k r.reply.success

  try_each-Ends :
      (k : ℕ) (t : Tried P)
      → k ≤ length t.service.sep_select_vec
      → AllLive t.service
      → t.service.sep_select_vec_count + k < 2 ^ 64
      → t.reply.success ≡ false
      → Comes k t
  unfolding try_each
  try_each-Ends zero t pos live small fails =
      (t, refl, subst (Ends (endpoints t.service) _ _ 0) (sym fails) (λ i h. elim h [ ]))
  try_each-Ends (suc k) t pos live small fails = by_works (Bool-cases (works e.sep.endpoint)) (λ w.
      try_each-Ends k t' (omega (arith, pos)) (λ j h. let (ep, at) = live j h in (ep, same j ∙ at))
        (omega (arith, counts, small)) (replied ∙ w))
    where
      n : ℕ
      n = length t.service.sep_select_vec

      c : ℕ
      c = t.service.sep_select_vec_count

      found : (ep : ℕ) × (endpoints t.service (c % n) ≡ some ep)
      found = live (c % n) (mod-lt c {m = n} (omega (arith, pos)))

      e : Element t.service.sep_select_vec t.service.sep_set (c % n) found.0
      e = element _ _ (c % n) found.0 found.1

      t' : Tried P
      t' = turn e.node e.sep t

      replied : t'.reply.success ≡ works e.sep.endpoint
      replied = steady e.sep.endpoint t.reply.slot t.reply.pool

      first : try_each ops (suc k) 0 n t ≡ until ops (some t') (try_each ops k 0 n)
      first = ap (λ o. until ops o (try_each ops k 0 n)) (try_at-turn t n found.0 e)

      same : (j : ℕ) → endpoints t'.service j ≡ endpoints t.service j
      same j =
          endpoint_at-count t'.reply.success e.node t.service.sep_set t.service.sep_select_vec j

      counts : u64 (c + 1) ≡ c + 1
      counts = mod-eq_of_lt (omega (arith, small))

      by_works :
          (works e.sep.endpoint ≡ true) ⊎ (works e.sep.endpoint ≡ false)
          → (works e.sep.endpoint ≡ false → Comes k t')
          → Comes (suc k) t
      by_works (inl w) later = (
        t',
        first ∙ ap (λ b. if b then some t' else try_each ops k 0 n t') (replied ∙ w),
        subst (Ends (endpoints t.service) c n (suc k)) (sym (replied ∙ w)) (
          c % n,
          found.0,
          mod-lt c {m = n} (omega (arith, pos)),
          found.1,
          ap works (sym e.endpoint) ∙ w,
        ),
      )
      by_works (inr w) later =
          let (r, eq, ends) = later w in
          (
            r,
            first ∙ ap (λ b. if b then some t' else try_each ops k 0 n t') (replied ∙ w) ∙ eq,
            more-Ends (endpoints t.service) (endpoints t'.service) c t'.service.sep_select_vec_count
                n k r.reply.success found.0 same counts found.1 (ap works (sym e.endpoint) ∙ w)
                ends,
          )

  Ends-SomeWorks :
      (s : Service) (b : Bool)
      → AllLive s
      → Ends
          (endpoints s)
          s.sep_select_vec_count
          (length s.sep_select_vec)
          (length s.sep_select_vec)
          b
      → (b ≡ true) ↔ SomeWorks works s
  Ends-SomeWorks s true live ends = (λ _. ends, λ _. refl)
  Ends-SomeWorks s false live ends = (λ h. cc, λ (j, ep, l, at, w). refuted j ep l at w)
    where
      refuted :
          (j ep : ℕ)
          → j < length s.sep_select_vec
          → endpoints s j ≡ some ep
          → works ep ≡ true
          → false ≡ true
      refuted j ep l at w =
          let (i, h, there) = reach s.sep_select_vec_count (length s.sep_select_vec) j l in
          cc (ends i h ep (ap (endpoints s) there ∙ at), w)

  -- With backends that answer the same way throughout: if the selection that `get` works with holds
  -- addresses of elements only, no local ones first, and its counter does not wrap, then `get`
  -- follows no dangling address, and it succeeds exactly when some backend of the selection answers.
  pub get-SomeWorks :
      (shuffle : List ℕ → List ℕ) (id : ℕ) (slot : Option ℕ) (m : Manager P)
      → let s = select shuffle (service_of id m) in
        s.local_host_index ≡ 0
        → AllLive s
        → s.sep_select_vec_count + length s.sep_select_vec < 2 ^ 64
        → (m' : Manager P) × (r : Reply P) × (get ops shuffle id slot m ≡ some (m', r))
          × ((r.success ≡ true) ↔ SomeWorks works s)
  unfolding get
  get-SomeWorks shuffle id slot m plain live small =
      let s = select shuffle (service_of id m) in
      let start : Tried P = record {
        service = s;
        reply = record { pool = m.pool; slot = slot; success = false };
      } in
      let (t, eq, ends) =
        try_each-Ends (length s.sep_select_vec) start (omega arith) live small refl in
      (
        record m { services = insert id t.service m.services; pool = t.reply.pool },
        t.reply,
        ap (finish id m) (try_all-plain ops start plain refl ∙ eq),
        Ends-SomeWorks s t.reply.success live ends,
      )
