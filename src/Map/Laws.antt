-- ===== src/Map/Laws.antt =====
-- What lookups see after a write, and that the order of the keys is kept.
use async_thrift.Prelude.{
  ℕ, ◌+◌, ◌<◌, ◌≡◌, refl, sym, subst, [], ◌∷◌, Option, none, some, arith, ltb, ◌==◌, if◌then◌else◌,
  Bool-cases, ==_iff, ltb→lt, inl, inr,
}
use async_thrift.Map.{Map, find, insert, erase, Above, IsSorted}

module _ {ℓ} {V : Type ℓ} where
  pub find-insert :
      (k j : ℕ) (v : V) (m : Map V) → find j (insert k v m) ≡ (if j == k then some v else find j m)
  unfolding find insert
  find-insert k j v [] = refl
  find-insert k j v ((i, w) ∷ m) = ground (arith, find-insert k j v m)

  pub Above-lt : (k j : ℕ) (m : Map V) → k < j → Above j m → Above k m
  Above-lt k j [] h a = tt
  Above-lt k j ((i, w) ∷ m) h a = (omega arith, Above-lt k j m h a.1)

  pub Above-insert : (k j : ℕ) (v : V) (m : Map V) → k < j → Above k m → Above k (insert j v m)
  unfolding insert
  Above-insert k j v [] h a = (h, tt)
  Above-insert k j v ((i, w) ∷ m) h a = ground (arith, Above-insert k j v m h a.1)

  pub insert-IsSorted : (k : ℕ) (v : V) (m : Map V) → IsSorted m → IsSorted (insert k v m)
  unfolding insert
  insert-IsSorted k v [] s = (tt, tt)
  insert-IsSorted k v ((j, w) ∷ m) s = elim (Bool-cases (k == j)) [
    | inl e ↦ rw e (subst (λ i. Above i m) (sym ((==_iff k j).0 e)) s.0, s.1)
    | inr e ↦ rw e (elim (Bool-cases (ltb k j)) [
      | inl h ↦ rw h ((ltb→lt k j h, Above-lt k j m (ltb→lt k j h) s.0), s)
      | inr h ↦ rw h (Above-insert j k v m (ground arith) s.0, insert-IsSorted k v m s.1)
    ])
  ]

  pub find-Above : (k : ℕ) (m : Map V) → Above k m → find k m ≡ none
  unfolding find
  find-Above k [] a = refl
  find-Above k ((j, w) ∷ m) a = ground (arith, find-Above k m a.1)

-- Removal.
module _ {ℓ} {V : Type ℓ} where
  pub find-erase :
      (k j : ℕ) (m : Map V) → IsSorted m → find j (erase k m) ≡ (if j == k then none else find j m)
  unfolding find erase
  find-erase k j [] s = ground arith
  find-erase k j ((i, w) ∷ m) s =
      ground
        (arith, find-erase k j m s.1, λ (h : i ≡ j). find-Above j m (subst (λ x. Above x m) h s.0))

  Above-erase : (k j : ℕ) (m : Map V) → Above k m → IsSorted m → Above k (erase j m)
  unfolding erase
  Above-erase k j [] a s = tt
  Above-erase k j ((i, w) ∷ m) a s = elim (Bool-cases (j == i)) [
    | inl e ↦ rw e a.1
    | inr e ↦ rw e (a.0, Above-erase k j m a.1 s.1)
  ]

  pub erase-IsSorted : (k : ℕ) (m : Map V) → IsSorted m → IsSorted (erase k m)
  unfolding erase
  erase-IsSorted k [] s = tt
  erase-IsSorted k ((i, w) ∷ m) s = elim (Bool-cases (k == i)) [
    | inl e ↦ rw e s.1
    | inr e ↦ rw e (Above-erase i k m s.0 s.1, erase-IsSorted k m s.1)
  ]

-- A measure summed over the values.
module _ {ℓ} {V : Type ℓ} (weight : V → ℕ) where
  abbrev pub total : Map V → ℕ
  total [] = 0
  total ((k, v) ∷ m) = weight v + total m

  abbrev pub weight_of : Option V → ℕ
  weight_of none = 0
  weight_of (some v) = weight v

  -- A write replaces the old value's share.
  pub total-insert :
      (k : ℕ) (v : V) (m : Map V)
      → IsSorted m
      → total (insert k v m) + weight_of (find k m) ≡ total m + weight v
  unfolding insert find
  total-insert k v [] s = omega arith
  total-insert k v ((j, w) ∷ m) s =
      ground (arith, total-insert k v m s.1, λ (h : k < j). find-Above k m (Above-lt k j m h s.0))

module _ {ℓ κ} {V : Type ℓ} (P : V → Type κ) where
  -- Every value has the property.
  abbrev pub Every : Map V → Type κ
  Every [] = Unit
  Every ((k, v) ∷ m) = P v × Every m

  pub Every-insert : (k : ℕ) (v : V) (m : Map V) → P v → Every m → Every (insert k v m)
  unfolding insert
  Every-insert k v [] h a = (h, tt)
  Every-insert k v ((j, w) ∷ m) h a = elim (Bool-cases (k == j)) [
    | inl e ↦ rw e (h, a.1)
    | inr e ↦ rw e (elim (Bool-cases (ltb k j)) [
      | inl l ↦ rw l (h, a)
      | inr l ↦ rw l (a.0, Every-insert k v m h a.1)
    ])
  ]

  pub Every-find : (k : ℕ) (m : Map V) {v : V} → Every m → find k m ≡ some v → P v
  unfolding find
  Every-find k [] a e = cc
  Every-find k ((j, w) ∷ m) {v} a e = elim (Bool-cases (k == j)) [
    | inl h ↦ subst P (same (rw h at e)) a.0
    | inr h ↦ Every-find k m a.1 (rw h at e)
  ]
    where
      same : some w ≡ some v → w ≡ v
      same q = cc

  pub Every-erase : (k : ℕ) (m : Map V) → Every m → Every (erase k m)
  unfolding erase
  Every-erase k [] a = tt
  Every-erase k ((j, w) ∷ m) a = elim (Bool-cases (k == j)) [
    | inl e ↦ rw e a.1
    | inr e ↦ rw e (a.0, Every-erase k m a.1)
  ]
