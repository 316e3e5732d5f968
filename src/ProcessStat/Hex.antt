-- ===== src/ProcessStat/Hex.antt =====
-- Reading the range of a mapping.
use async_thrift.Prelude.{
  ℕ, ◌+◌, ◌-◌, ◌*◌, ◌%◌, ◌^◌, ◌≤◌, ◌<◌, ◌≡◌, refl, ap, ◌∙◌, List, [], ◌∷◌, ◌++◌, map, false, Option,
  none, some, ltb, ◌==◌, arith, if◌then◌else◌,
}
use native.Mathlib.Nat.{mod-eq_of_lt}
use async_thrift.Asio.{u64}
use async_thrift.ProcessStat.{digit, fast_strtou64_16, cut_dash, mapping_size}

-- How the system writes a digit.
abbrev pub hex_digit : ℕ → ℕ
hex_digit d = if ltb d 10 then 48 + d else 87 + d

abbrev pub AreDigits : List ℕ → Type 0
AreDigits [] = Unit
AreDigits (d ∷ ds) = (d < 16) × AreDigits ds

-- The number that digits write, behind n.
abbrev pub value : ℕ → List ℕ → ℕ
value n [] = n
value n (d ∷ ds) = value (n * 16 + d) ds

digit-hex : (d : ℕ) → d < 16 → digit (hex_digit d) ≡ d
digit-hex d h = ground arith

hex-not_space : (d : ℕ) → d < 16 → (hex_digit d == 32) ≡ false
hex-not_space d h = ground arith

hex-not_dash : (d : ℕ) → d < 16 → (hex_digit d == 45) ≡ false
hex-not_dash d h = ground arith

hex-not_end : (d : ℕ) → d < 16 → (hex_digit d == 0) ≡ false
hex-not_end d h = ground arith

value-le : (n : ℕ) (ds : List ℕ) → n ≤ value n ds
value-le n [] = omega arith
value-le n (d ∷ ds) = omega (arith, value-le (n * 16 + d) ds)

-- A number in hexadecimal digits, with a space behind it.
strtou_hex :
    (ds rest : List ℕ) (n : ℕ)
    → AreDigits ds
    → value n ds < 2 ^ 64
    → fast_strtou64_16 (map hex_digit ds ++ 32 ∷ rest) n ≡ some (value n ds, rest)
unfolding fast_strtou64_16
strtou_hex [] rest n a h = refl
strtou_hex (d ∷ ds) rest n a h =
    ap
      (λ b.
        if b
        then some (n, map hex_digit ds ++ 32 ∷ rest)
        else fast_strtou64_16 (map hex_digit ds ++ 32 ∷ rest) (u64 (n * 16 + digit (hex_digit d))))
      (hex-not_space d a.0)
    ∙ ap (λ x. fast_strtou64_16 (map hex_digit ds ++ 32 ∷ rest) (u64 (n * 16 + x)))
        (digit-hex d a.0)
    ∙ ap (fast_strtou64_16 (map hex_digit ds ++ 32 ∷ rest)) (mod-eq_of_lt small)
    ∙ strtou_hex ds rest (n * 16 + d) a.1 h
  where
    small : n * 16 + d < 2 ^ 64
    small = omega (arith, value-le (n * 16 + d) ds)

cut_dash-hex :
    (ds rest : List ℕ)
    → AreDigits ds
    → cut_dash (map hex_digit ds ++ 45 ∷ rest) ≡ some (map hex_digit ds ++ 32 ∷ rest)
unfolding cut_dash
cut_dash-hex [] rest a = refl
cut_dash-hex (d ∷ ds) rest a =
    ap
      (λ b.
        if b
        then none
        else if hex_digit d == 45
        then some (32 ∷ line)
        else elim (cut_dash line) as (λ x. Option (List ℕ)) [
          | none ↦ none
          | some l ↦ some (hex_digit d ∷ l)
        ])
      (hex-not_end d a.0)
    ∙ ap
        (λ b. if b then some (32 ∷ line) else elim (cut_dash line) as (λ x. Option (List ℕ)) [
          | none ↦ none
          | some l ↦ some (hex_digit d ∷ l)
        ])
        (hex-not_dash d a.0)
    ∙ ap (λ x. elim x as (λ y. Option (List ℕ)) [ none ↦ none | some l ↦ some (hex_digit d ∷ l) ])
        (cut_dash-hex ds rest a.1)
  where
    line : List ℕ
    line = map hex_digit ds ++ 45 ∷ rest

-- The range of a mapping, from one address to another not below it, both of 64 bits and written in
-- hexadecimal digits with a '-' between and a space behind, is read as its size.
pub mapping_size-hex :
    (ds es rest : List ℕ)
    → AreDigits ds
    → AreDigits es
    → value 0 ds ≤ value 0 es
    → value 0 es < 2 ^ 64
    → (line : List ℕ) × (cut_dash (map hex_digit ds ++ 45 ∷ (map hex_digit es ++ 32 ∷ rest))
        ≡ some line)
      × (mapping_size line ≡ some (value 0 es - value 0 ds, rest))
unfolding mapping_size
mapping_size-hex ds es rest a b le h = (
  map hex_digit ds ++ 32 ∷ tp,
  cut_dash-hex ds tp a,
  ap
        (λ x. elim x as (λ y. Option (ℕ × List ℕ)) [
          | none ↦ none
          | some (start, tp') ↦ elim (fast_strtou64_16 tp' 0) as (λ y. Option (ℕ × List ℕ)) [
            | none ↦ none
            | some (end, tp'') ↦ some ((end + 2 ^ 64 - start) % 2 ^ 64, tp'')
          ]
        ])
        (strtou_hex ds tp 0 a (omega arith))
      ∙ ap
          (λ x. elim x as (λ y. Option (ℕ × List ℕ)) [
            | none ↦ none
            | some (end, tp'') ↦ some ((end + 2 ^ 64 - value 0 ds) % 2 ^ 64, tp'')
          ])
          (strtou_hex es rest 0 b h)
      ∙ ap (λ x. some (x, rest)) size,
)
  where
    tp : List ℕ
    tp = map hex_digit es ++ 32 ∷ rest

    size : (value 0 es + 2 ^ 64 - value 0 ds) % 2 ^ 64 ≡ value 0 es - value 0 ds
    size = omega arith
