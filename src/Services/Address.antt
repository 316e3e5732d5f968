-- ===== src/Services/Address.antt =====
-- The addresses that a selection holds, and the endpoints behind them.
use native.Mathlib.Nat.{div-add-mod', mul-add-mod_self_right, mod-lt, mod-eq_of_lt}
use async_thrift.Prelude.{
  ℕ, ◌+◌, ◌-◌, ◌/◌, ◌%◌, ◌<◌, ◌≡◌, refl, sym, ap, ◌∙◌, subst, List, [], ◌∷◌, Bool, true, false,
  Option, none, some, arith, leb, ◌==◌, if◌then◌else◌, length, leb→le, Bool-cases, inl, inr,
}
use async_thrift.Services.{ServiceEndPoint, Service, find_node, get_elem?, counted, count_node}

abbrev pub endpoint_of : Option ServiceEndPoint → Option ℕ
endpoint_of none = none
endpoint_of (some sep) = some sep.endpoint

abbrev pub endpoint_by : List ServiceEndPoint → Option ℕ → Option ℕ
endpoint_by seps none = none
endpoint_by seps (some node) = endpoint_of (find_node node seps)

-- The endpoint behind the i-th address of a selection.
abbrev pub endpoint_at : List ℕ → List ServiceEndPoint → ℕ → Option ℕ
endpoint_at vec seps i = endpoint_by seps (get_elem? vec i)

counted-endpoint : (b : Bool) (sep : ServiceEndPoint) → (counted b sep).endpoint ≡ sep.endpoint
counted-endpoint true sep = refl
counted-endpoint false sep = refl

counted-node : (b : Bool) (sep : ServiceEndPoint) → (counted b sep).node ≡ sep.node
counted-node true sep = refl
counted-node false sep = refl

chosen :
    (b c : Bool) (sep : ServiceEndPoint)
    → let x = if c then counted b sep else sep in (x.node ≡ sep.node) × (x.endpoint ≡ sep.endpoint)
chosen b true sep = (counted-node b sep, counted-endpoint b sep)
chosen b false sep = (refl, refl)

head-endpoint :
    (c : Bool) (x y : ServiceEndPoint) (r s : Option ServiceEndPoint)
    → x.endpoint ≡ y.endpoint
    → endpoint_of r ≡ endpoint_of s
    → endpoint_of (if c then some x else r) ≡ endpoint_of (if c then some y else s)
head-endpoint true x y r s p q = ap some p
head-endpoint false x y r s p q = q

-- Counting changes no endpoint.
count_node-endpoint :
    (b : Bool) (k node : ℕ) (seps : List ServiceEndPoint)
    → endpoint_of (find_node node (count_node b k seps)) ≡ endpoint_of (find_node node seps)
unfolding find_node count_node
count_node-endpoint b k node [] = refl
count_node-endpoint b k node (sep ∷ seps) =
    let x = if k == sep.node then counted b sep else sep in
    let (same, same') = chosen b (k == sep.node) sep in
    subst
      (λ n.
        endpoint_of (if node == n then some x else find_node node (count_node b k seps))
        ≡ endpoint_of (if node == sep.node then some sep else find_node node seps))
      (sym same)
      (head-endpoint (node == sep.node) x sep _ _ same' (count_node-endpoint b k node seps))

pub endpoint_at-count :
    (b : Bool) (k : ℕ) (seps : List ServiceEndPoint) (vec : List ℕ) (j : ℕ)
    → endpoint_at vec (count_node b k seps) j ≡ endpoint_at vec seps j
endpoint_at-count b k seps vec j = by_node (get_elem? vec j)
  where
    by_node : (o : Option ℕ) → endpoint_by (count_node b k seps) o ≡ endpoint_by seps o
    by_node none = refl
    by_node (some node) = count_node-endpoint b k node seps

-- `size` turns in a row reach every index.
pub reach : (c n j : ℕ) → j < n → (i : ℕ) × (i < n) × ((c + i) % n ≡ j)
reach c n j h = elim (Bool-cases (leb (c % n) j)) [
  | inl e ↦ (
    j - c % n,
    omega (arith, leb→le _ _ e),
    ap (λ t. t % n) (omega (arith, leb→le _ _ e, div-add-mod' c n))
        ∙ mul-add-mod_self_right (c / n) n j
        ∙ mod-eq_of_lt h,
  )
  | inr e ↦ (
    n + j - c % n,
    ground (arith, mod-lt c {m = n} (omega (arith, h))),
    ap (λ t. t % n) (ground (arith, mod-lt c {m = n} (omega (arith, h)), div-add-mod' c n))
        ∙ mul-add-mod_self_right (c / n + 1) n j
        ∙ mod-eq_of_lt h,
  )
]

-- Every address of the selection leads to an element.
abbrev pub AllLive : Service → Type 0
AllLive s =
    (j : ℕ)
    → j < length s.sep_select_vec
    → (ep : ℕ) × (endpoint_at s.sep_select_vec s.sep_set j ≡ some ep)

pub record Element (vec : List ℕ) (seps : List ServiceEndPoint) (i ep : ℕ) : Type 0 where
  pub node : ℕ
  pub sep : ServiceEndPoint
  pub address : get_elem? vec i ≡ some node
  pub found : find_node node seps ≡ some sep
  pub endpoint : sep.endpoint ≡ ep

pub element :
    (vec : List ℕ) (seps : List ServiceEndPoint) (i ep : ℕ)
    → endpoint_at vec seps i ≡ some ep
    → Element vec seps i ep
element vec seps i ep h = by_node (get_elem? vec i) refl h
  where
    by_sep :
        (node : ℕ) (o : Option ServiceEndPoint)
        → get_elem? vec i ≡ some node
        → find_node node seps ≡ o
        → endpoint_of o ≡ some ep
        → Element vec seps i ep
    by_sep node none p q h = cc
    by_sep node (some sep) p q h = record {
      node = node;
      sep = sep;
      address = p;
      found = q;
      endpoint = same h;
    }
      where
        same : some sep.endpoint ≡ some ep → sep.endpoint ≡ ep
        same q = cc

    by_node :
        (o : Option ℕ) → get_elem? vec i ≡ o → endpoint_by seps o ≡ some ep → Element vec seps i ep
    by_node none p h = cc
    by_node (some node) p h = by_sep node (find_node node seps) p refl h
