-- ===== src/Map/Places.antt =====
-- Whether a map has a key, as a number.
use async_thrift.Prelude.{
  ℕ, ◌+◌, ◌≡◌, refl, ap, ◌∙◌, sym, ◌∷◌, Bool, true, false, Option, none, some, arith, ◌==◌,
  if◌then◌else◌, Bool-cases, ==_iff, inl, inr,
}
use async_thrift.Map.{Map, find, insert, erase, IsSorted}
use async_thrift.Map.Laws.{find-insert, find-erase, find-Above}

module _ {ℓ} {V : Type ℓ} where
  abbrev pub in_table : Option V → ℕ
  in_table none = 0
  in_table (some v) = 1

  module _ (k : ℕ) (m : Map V) (j : ℕ) where
    pub in_table-insert :
        (v : V) → in_table (find j (insert k v m)) ≡ (if j == k then 1 else in_table (find j m))
    in_table-insert v = ap in_table (find-insert k j v m) ∙ by_key (j == k)
      where
        by_key :
            (b : Bool)
            → in_table (if b then some v else find j m) ≡ (if b then 1 else in_table (find j m))
        by_key true = refl
        by_key false = refl

    pub in_table-erase :
        IsSorted m → in_table (find j (erase k m)) ≡ (if j == k then 0 else in_table (find j m))
    in_table-erase s = ap in_table (find-erase k j m s) ∙ by_key (j == k)
      where
        by_key :
            (b : Bool)
            → in_table (if b then none else find j m) ≡ (if b then 0 else in_table (find j m))
        by_key true = refl
        by_key false = refl

    pub in_table-found : (v : V) → find k m ≡ some v → j ≡ k → in_table (find j m) ≡ 1
    in_table-found v h q = ap (λ x. in_table (find x m)) q ∙ ap in_table h

    -- The first key is in the map once.
    pub in_table-head :
        (v : V)
        → IsSorted ((k, v) ∷ m)
        → in_table (find j ((k, v) ∷ m)) ≡ (if j == k then 1 else 0) + in_table (find j m)
    unfolding find
    in_table-head v s = elim (Bool-cases (j == k)) [
      | inl e ↦ rw e (ap (λ o. 1 + in_table o) (sym (absent ((==_iff j k).0 e))))
      | inr e ↦ rw e (omega arith)
    ]
      where
        absent : j ≡ k → find j m ≡ none
        absent q = ap (λ x. find x m) q ∙ find-Above k m s.0
