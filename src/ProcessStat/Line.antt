-- ===== src/ProcessStat/Line.antt =====
-- Reading a whole line for a mapping.
use async_thrift.Prelude.{
  Bool, ℕ, zero, suc, ◌+◌, ◌%◌, ◌-◌, ◌≤◌, ◌<◌, ◌^◌, ◌≡◌, refl, sym, ap, ◌∙◌, List, [], ◌∷◌, ◌++◌,
  map, replicate, true, false, Option, none, some, ◌==◌, ◌||◌, not, arith, if◌then◌else◌,
}
use async_thrift.ProcessStat.{
  isspace, skip_whitespace, skip_field, skip_fields, starts_with, cut_dash, Mapped, dev, dev_zero,
  count_mapping, count_named, skipped, scan_mapping, scan_cut, details, is_detail, scan_line,
}
use async_thrift.Asio.{u64}
use async_thrift.ProcessStat.Hex.{hex_digit, AreDigits, value, mapping_size-hex}

abbrev pub NoSpace : List ℕ → Type 0
NoSpace [] = Unit
NoSpace (c ∷ cs) = ((c == 32) ≡ false) × NoSpace cs

skip_field-lem : (cs rest : List ℕ) → NoSpace cs → skip_field (cs ++ 32 ∷ rest) ≡ some rest
unfolding skip_field
skip_field-lem [] rest h = refl
skip_field-lem (c ∷ cs) rest h =
    ap (λ b. if b then some (cs ++ 32 ∷ rest) else skip_field (cs ++ 32 ∷ rest)) h.0
    ∙ skip_field-lem cs rest h.1

skip_fields-suc :
    (n : ℕ) (cs rest : List ℕ)
    → NoSpace cs
    → skip_fields (suc n) (cs ++ 32 ∷ rest) ≡ skip_fields n rest
unfolding skip_fields
skip_fields-suc n cs rest h =
    ap (λ x. elim x as (λ y. Option (List ℕ)) [ none ↦ none | some s ↦ skip_fields n s ])
      (skip_field-lem cs rest h)

skip_whitespace-lem :
    (n c : ℕ) (s : List ℕ)
    → isspace c ≡ false
    → skip_whitespace (replicate n 32 ++ c ∷ s) ≡ some (c ∷ s)
unfolding skip_whitespace
skip_whitespace-lem zero c s h = ap (λ b. if b then skip_whitespace s else some (c ∷ s)) h
skip_whitespace-lem (suc n) c s h = skip_whitespace-lem n c s h

-- No hexadecimal digit is a capital letter.
abbrev DiffersFrom : ℕ → List (List ℕ) → Type 0
DiffersFrom c [] = Unit
DiffersFrom c ([] ∷ strs) = ⊥
DiffersFrom c ((x ∷ str) ∷ strs) = ((c == x) ≡ false) × DiffersFrom c strs

is_detail-DiffersFrom :
    (c : ℕ) (line : List ℕ) (strs : List (List ℕ))
    → DiffersFrom c strs
    → is_detail (c ∷ line) strs ≡ false
unfolding starts_with
is_detail-DiffersFrom c line [] h = refl
is_detail-DiffersFrom c line ([] ∷ strs) h = absurd h
is_detail-DiffersFrom c line ((x ∷ str) ∷ strs) h =
    ap
      (λ b. if (if b then starts_with line str else false) then true else is_detail (c ∷ line) strs)
      h.0
    ∙ is_detail-DiffersFrom c line strs h.1

not_S : (d : ℕ) → d < 16 → (hex_digit d == b'S') ≡ false
not_S d h = ground arith

not_P : (d : ℕ) → d < 16 → (hex_digit d == b'P') ≡ false
not_P d h = ground arith

is_detail-hex : (d : ℕ) (line : List ℕ) → d < 16 → is_detail (hex_digit d ∷ line) details ≡ false
is_detail-hex d line h =
    is_detail-DiffersFrom (hex_digit d) line details
      (not_S d h, (not_S d h, (not_P d h, (not_P d h, tt))))

-- What follows the range: the letters, three more fields and a name, after any number of spaces.
abbrev pub after_range : ℕ → ℕ → ℕ → ℕ → List ℕ → List ℕ → List ℕ → ℕ → List ℕ → List ℕ
after_range r w x p offset device inode n name =
    (r ∷ w ∷ x ∷ p ∷ [])
    ++ 32 ∷ (offset ++ 32 ∷ (device ++ 32 ∷ (inode ++ 32 ∷ (replicate n 32 ++ name))))

count_mapping_lem :
    (w sz : ℕ) (m : Mapped)
    → count_mapping w sz m ≡ record {
      mapped_rw = if w == 119 then (m.mapped_rw + sz) % 2 ^ 64 else m.mapped_rw;
      mapped_ro = if w == 45 then (m.mapped_ro + sz) % 2 ^ 64 else m.mapped_ro;
    }
count_mapping_lem w sz m = by_tests (w == 119) refl
  where
    not_dash : (w == 119) ≡ true → (w == 45) ≡ false
    not_dash h = ground arith

    by_dash :
        (b : Bool)
        → (if b then record m { mapped_ro = u64 (m.mapped_ro + sz) } else m) ≡ record {
          mapped_rw = m.mapped_rw;
          mapped_ro = if b then (m.mapped_ro + sz) % 2 ^ 64 else m.mapped_ro;
        }
    by_dash true = refl
    by_dash false = refl

    by_tests :
        (b : Bool)
        → (w == 119) ≡ b
        → (if b
            then record m { mapped_rw = u64 (m.mapped_rw + sz) }
            else if w == 45
            then record m { mapped_ro = u64 (m.mapped_ro + sz) }
            else m)
          ≡ record {
            mapped_rw = if b then (m.mapped_rw + sz) % 2 ^ 64 else m.mapped_rw;
            mapped_ro = if w == 45 then (m.mapped_ro + sz) % 2 ^ 64 else m.mapped_ro;
          }
    by_tests true h =
        ap
          (λ b. record {
            mapped_rw = (m.mapped_rw + sz) % 2 ^ 64;
            mapped_ro = if b then (m.mapped_ro + sz) % 2 ^ 64 else m.mapped_ro;
          })
          (sym (not_dash h))
    by_tests false h = by_dash (w == 45)

-- The line of a mapping, its range written in hexadecimal digits as addresses of 64 bits in order,
-- with four fields and then a name that begins with no blank and not with /dev/: its size is added
-- to the writable mappings if the letter behind the first is 'w' (119), to the others if it is '-'
-- (45), modulo 2 ^ 64, and neither sum changes else.
pub scan_line-mapping :
    (d : ℕ) (ds es : List ℕ) (r w x p : ℕ) (offset device inode : List ℕ) (n c : ℕ) (name : List ℕ)
    (m : Mapped)
    → AreDigits (d ∷ ds)
    → AreDigits es
    → value 0 (d ∷ ds) ≤ value 0 es
    → value 0 es < 2 ^ 64
    → NoSpace (r ∷ w ∷ x ∷ p ∷ [])
    → NoSpace offset
    → NoSpace device
    → NoSpace inode
    → isspace c ≡ false
    → starts_with (c ∷ name) dev ≡ false
    → scan_line
        (map hex_digit (d ∷ ds)
          ++ 45 ∷ (map hex_digit es ++ 32 ∷ after_range r w x p offset device inode n (c ∷ name)))
        m
      ≡ some (record {
        mapped_rw =
            if w == 119
            then (m.mapped_rw + (value 0 es - value 0 (d ∷ ds))) % 2 ^ 64
            else m.mapped_rw;
        mapped_ro =
            if w == 45
            then (m.mapped_ro + (value 0 es - value 0 (d ∷ ds))) % 2 ^ 64
            else m.mapped_ro;
      })
unfolding scan_line
scan_line-mapping d ds es r w x p offset device inode n c name m a b le h letters off dev_field node
      blank named =
    let (line, cut, size) = mapping_size-hex (d ∷ ds) es tail a b le h in
    ap (λ t. if t then some m else scan_cut (cut_dash whole) m)
      (is_detail-hex d (map hex_digit ds ++ 45 ∷ (map hex_digit es ++ 32 ∷ tail)) a.0)
    ∙ ap (λ o. scan_cut o m) cut
    ∙ ap (λ o. scan_mapping o m) size
    ∙ ap (λ o. count_named w sz (skipped o) m) fields
    ∙ ap (λ o. count_named w sz o m) (skip_whitespace-lem n c name blank)
    ∙ ap (λ t. some (if not t || starts_with (c ∷ name) dev_zero then count_mapping w sz m else m))
        named
    ∙ ap some (count_mapping_lem w sz m)
  where
    sz : ℕ
    sz = value 0 es - value 0 (d ∷ ds)

    tail : List ℕ
    tail = after_range r w x p offset device inode n (c ∷ name)

    whole : List ℕ
    whole = map hex_digit (d ∷ ds) ++ 45 ∷ (map hex_digit es ++ 32 ∷ tail)

    fields : skip_fields 4 tail ≡ some (replicate n 32 ++ c ∷ name)
    fields =
        skip_fields-suc 3 (r ∷ w ∷ x ∷ p ∷ []) _ letters
        ∙ skip_fields-suc 2 offset _ off
        ∙ skip_fields-suc 1 device _ dev_field
        ∙ skip_fields-suc 0 inode _ node
