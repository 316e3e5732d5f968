-- ===== src/Pools/Pick.antt =====
-- Which pool get calls, and what get_status and get_health say.
use async_thrift.Prelude.{
  ℕ, zero, suc, ◌+◌, ◌-◌, ◌*◌, ◌/◌, ◌%◌, ◌^◌, ◌≤◌, ◌<◌, ◌≡◌, ◌↔◌, ◌⊎◌, inl, inr, refl, sym, ap,
  subst, ◌∙◌, List, [], ◌∷◌, Bool, true, false, Option, none, some, arith, if◌then◌else◌, length,
  Bool-cases,
}
use native.Mathlib.Nat.{mod-add-mod, add-mod-mod, add-mod_right, mod-eq_of_lt, mod-lt}
use async_thrift.Asio.{u64}
use async_thrift.ConnPool.{closed, connected}
use async_thrift.Pools.{
  Backend, ThriftPool, is_up, is_up?, get_elem?, seek, chosen, choose_remote, any_up, get_status,
  count_up, get_health, is_nil,
}

count_up-le : (bs : List Backend) → count_up bs ≤ length bs
unfolding count_up
count_up-le [] = omega arith
count_up-le (b ∷ bs) = ground (arith, count_up-le bs)

-- Division on the range that the degrees have.
div_le : (n d : ℕ) → 0 < d → n ≤ d → n * 100 / d ≤ 100
div_le n d h h' = grind arith

div_hundred : (n d : ℕ) → 0 < d → n ≤ d → (n * 100 / d ≡ 100) ↔ (n ≡ d)
div_hundred n d h h' = grind arith

-- The degree of health is at most 100, and 100 exactly if every server is connected; without
-- servers it is a division by zero.
pub get_health_bounds :
    (s : ThriftPool) (degree : ℕ)
    → get_health s ≡ some degree
    → (0 < length s.pools) × (degree ≤ 100) × ((degree ≡ 100) ↔ (count_up s.pools ≡ length s.pools))
unfolding get_health
get_health_bounds s degree h = by_pools s.pools h
  where
    by_pools :
        (bs : List Backend)
        → (if is_nil bs then none else some (count_up bs * 100 / length bs)) ≡ some degree
        → (0 < length bs) × (degree ≤ 100) × ((degree ≡ 100) ↔ (count_up bs ≡ length bs))
    by_pools [] q = cc
    by_pools (b ∷ bs) q =
        let e : count_up (b ∷ bs) * 100 / length (b ∷ bs) ≡ degree = injected q in
        subst
          (λ d.
            (0 < length (b ∷ bs)) × (d ≤ 100) × ((d ≡ 100) ↔ (count_up (b ∷ bs) ≡ length (b ∷ bs))))
          e
          (
            omega arith,
            div_le (count_up (b ∷ bs)) (length (b ∷ bs)) (omega arith) (count_up-le (b ∷ bs)),
            div_hundred (count_up (b ∷ bs)) (length (b ∷ bs)) (omega arith) (count_up-le (b ∷ bs)),
          )
      where
        injected : {x y : ℕ} → some x ≡ some y → x ≡ y
        injected w = cc

-- Arithmetic of the turn.
turn_next : (i j l : ℕ) → (i % l + 1 + j) % l ≡ (i + suc j) % l
turn_next i j l = ap (λ x. x % l) add ∙ mod-add-mod i l (suc j)
  where
    add : i % l + 1 + j ≡ i % l + suc j
    add = omega arith

turn_covers : (i j l : ℕ) → j < l → (i + (j + l - i % l) % l) % l ≡ j
turn_covers i j l h =
    add-mod-mod i (j + l - i % l) l
    ∙ sym (mod-add-mod i l (j + l - i % l))
    ∙ ap (λ x. x % l) add
    ∙ add-mod_right j l
    ∙ mod-eq_of_lt h
  where
    add : i % l + (j + l - i % l) ≡ j + l
    add = omega (arith, mod-lt i {m = l} (omega arith))

-- Is the pool connected at which the round that starts at `index` is after j others?
abbrev pub up_after : ℕ → ℕ → List Backend → Bool
up_after index j pools = is_up? (get_elem? pools ((index + j) % length pools))

-- The first connected one of n rounds, and none after as many.
abbrev Seeks : ℕ → ℕ → List Backend → Option Backend × ℕ → Type 0
Seeks n index pools r =
    ((k : ℕ) × (k < n)
      × (r.0 ≡ get_elem? pools ((index + k) % length pools))
      × (up_after index k pools ≡ true)
      × (r.1 ≡ (index + k) % length pools + 1)
      × ((j : ℕ) → j < k → up_after index j pools ≡ false))
    ⊎ ((is_up? r.0 ≡ false) × ((j : ℕ) → j < n → up_after index j pools ≡ false))

-- A round from the next place is the rest of the round from this one.
module _ (index : ℕ) (pools : List Backend) (h : length pools < 2 ^ 64) where
  unwrapped : 0 < length pools → u64 (index % length pools + 1) ≡ index % length pools + 1
  unwrapped h' = mod-eq_of_lt (omega (arith, mod-lt index h'))

  place_next :
      0 < length pools
      → (j : ℕ)
      → (u64 (index % length pools + 1) + j) % length pools ≡ (index + suc j) % length pools
  place_next h' j =
      ap (λ x. (x + j) % length pools) (unwrapped h') ∙ turn_next index j (length pools)

  before_next :
      0 < length pools
      → up_after index 0 pools ≡ false
      → (n : ℕ) → ((j : ℕ) → j < n → up_after (u64 (index % length pools + 1)) j pools ≡ false)
      → (j : ℕ) → j < suc n
      → up_after index j pools ≡ false
  before_next h' e n f zero l = e
  before_next h' e n f (suc j) l =
      ap (λ x. is_up? (get_elem? pools x)) (sym (place_next h' j)) ∙ f j (omega arith)

  Seeks-next :
      0 < length pools
      → up_after index 0 pools ≡ false
      → (n : ℕ) (r : Option Backend × ℕ) → Seeks n (u64 (index % length pools + 1)) pools r
      → Seeks (suc n) index pools r
  Seeks-next h' e n r (inl (k, l, q, up, i, f)) = inl (
    suc k,
    omega arith,
    q ∙ ap (get_elem? pools) (place_next h' k),
    ap (λ x. is_up? (get_elem? pools x)) (sym (place_next h' k)) ∙ up,
    i ∙ ap (λ x. x + 1) (place_next h' k),
    before_next h' e k f,
  )
  Seeks-next h' e n r (inr (q, f)) = inr (q, before_next h' e n f)

seek-Seeks :
    (n index : ℕ) (pools : List Backend) (last : Option Backend)
    → length pools < 2 ^ 64
    → 0 < length pools
    → is_up? last ≡ false
    → Seeks n index pools (seek n pools index last)
unfolding seek
seek-Seeks zero index pools last h h' q = inr (q, λ j l. absurd (omega arith))
seek-Seeks (suc n) index pools last h h' q =
    by_up (is_up? now) refl (λ e. seek-Seeks n (u64 (index % length pools + 1)) pools now h h' e)
  where
    now : Option Backend
    now = get_elem? pools (index % length pools)

    from_zero : index ≡ index + 0
    from_zero = omega arith

    here : up_after index 0 pools ≡ is_up? now
    here = ap (λ x. is_up? (get_elem? pools (x % length pools))) (sym from_zero)

    rest : Option Backend × ℕ
    rest = seek n pools (u64 (index % length pools + 1)) now

    by_up :
        (b : Bool)
        → is_up? now ≡ b
        → (is_up? now ≡ false → Seeks n (u64 (index % length pools + 1)) pools rest)
        → Seeks (suc n) index pools (if b then (now, u64 (index % length pools + 1)) else rest)
    by_up true e ih = inl (
      0,
      omega arith,
      ap (λ x. get_elem? pools (x % length pools)) from_zero,
      here ∙ e,
      unwrapped index pools h h' ∙ ap (λ x. x % length pools + 1) from_zero,
      λ j l. absurd (omega arith),
    )
    by_up false e ih = Seeks-next index pools h h' (here ∙ e) n rest (ih e)

-- Some pool of a list is connected.
any_up-get_elem? :
    (bs : List Backend)
    → any_up bs ≡ true
    → (j : ℕ) × (j < length bs) × (is_up? (get_elem? bs j) ≡ true)
unfolding any_up
any_up-get_elem? [] h = cc
any_up-get_elem? (b ∷ bs) h = elim (Bool-cases (is_up b)) [
  | inl e ↦ (0, omega arith, e)
  | inr e ↦
      let (j, l, up) = any_up-get_elem? bs (ap (λ x. if x then true else any_up bs) (sym e) ∙ h) in
      (suc j, omega arith, up)
]

get_elem?-any_up : (bs : List Backend) (j : ℕ) → is_up? (get_elem? bs j) ≡ true → any_up bs ≡ true
unfolding any_up
get_elem?-any_up [] j h = cc
get_elem?-any_up (b ∷ bs) zero h = ap (λ x. if x then true else any_up bs) h
get_elem?-any_up (b ∷ bs) (suc j) h = by_up (is_up b) (get_elem?-any_up bs j h)
  where
    by_up : (x : Bool) → any_up bs ≡ true → (if x then true else any_up bs) ≡ true
    by_up true e = refl
    by_up false e = e

-- A whole round without a connected pool has seen all pools.
round-any_up :
    (index : ℕ) (pools : List Backend)
    → ((j : ℕ) → j < length pools → up_after index j pools ≡ false)
    → any_up pools ≡ false
round-any_up index pools f = elim (Bool-cases (any_up pools)) [
  | inl e ↦
      let (j, l, up) = any_up-get_elem? pools e in
      let turn = (j + length pools - index % length pools) % length pools in
      let covers = turn_covers index j (length pools) l in
      absurd (
        contradiction (
          sym (ap (λ x. is_up? (get_elem? pools x)) covers ∙ up)
          ∙ f turn
              (mod-lt (j + length pools - index % length pools) {m = length pools} (omega arith))))
  | inr e ↦ e
]
  where
    contradiction : true ≡ false → ⊥
    contradiction h = cc

-- Where get does not take localhost's pool, it picks a pool if get_status says that one is connected,
-- and none otherwise: the first connected one in the round from index_, which then stands behind
-- it. The size of the vector is below 2 ^ 64.
pub choose_remote_lem :
    (s : ThriftPool)
    → length s.pools < 2 ^ 64
    → ((get_status s ≡ connected)
        × ((k : ℕ) × (b : Backend) × (k < length s.pools)
            × (get_elem? s.pools ((s.index + k) % length s.pools) ≡ some b)
            × (is_up b ≡ true)
            × ((choose_remote s).0 ≡ some b.address)
            × ((choose_remote s).1.index ≡ (s.index + k) % length s.pools + 1)
            × ((j : ℕ) → j < k → up_after s.index j s.pools ≡ false)))
      ⊎ ((get_status s ≡ closed) × ((choose_remote s).0 ≡ none))
unfolding choose_remote get_status
choose_remote_lem s h = by_size s.pools refl
  where
    r : Option Backend × ℕ
    r = seek (length s.pools) s.pools s.index none

    found : (o : Option Backend) → is_up? o ≡ true → (b : Backend) × (o ≡ some b) × (is_up b ≡ true)
    found none e = cc
    found (some b) e = (b, refl, e)

    failed : (o : Option Backend) → is_up? o ≡ false → (chosen (o, r.1) s).0 ≡ none
    failed none e = refl
    failed (some b) e = ap (λ x. if x then some b.address else none) e

    Spec : Type 0
    Spec =
        ((get_status s ≡ connected)
          × ((k : ℕ) × (b : Backend) × (k < length s.pools)
              × (get_elem? s.pools ((s.index + k) % length s.pools) ≡ some b)
              × (is_up b ≡ true)
              × ((choose_remote s).0 ≡ some b.address)
              × ((choose_remote s).1.index ≡ (s.index + k) % length s.pools + 1)
              × ((j : ℕ) → j < k → up_after s.index j s.pools ≡ false)))
        ⊎ ((get_status s ≡ closed) × ((choose_remote s).0 ≡ none))

    by_seek : Seeks (length s.pools) s.index s.pools r → Spec
    by_seek (inl (k, l, q, up, i, f)) =
        let (b, e, e') = found (get_elem? s.pools ((s.index + k) % length s.pools)) up in
        let runs : chosen r s ≡ (some b.address, record s { index = r.1 }) =
          ap (λ o. chosen (o, r.1) s) (q ∙ e)
          ∙ ap (λ x. (if x then some b.address else none, record s { index = r.1 })) e' in
        inl (
          ap (λ x. if x then connected else closed) (get_elem?-any_up s.pools _ up),
          (k, b, l, e, e', ap (λ x. x.0) runs, ap (λ x. x.1.index) runs ∙ i, f),
        )
    by_seek (inr (q, f)) =
        inr
          (ap (λ x. if x then connected else closed) (round-any_up s.index s.pools f), failed r.0 q)

    by_size : (m : List Backend) → s.pools ≡ m → Spec
    by_size [] e = inr (
      ap (λ m. if any_up m then connected else closed) e,
      ap (λ m. (chosen (seek (length m) m s.index none) s).0) e,
    )
    by_size (b ∷ bs) e = by_seek (
        seek-Seeks (length s.pools) s.index s.pools none h
          (subst (λ m. 0 < length m) (sym e) (omega arith)) refl)
