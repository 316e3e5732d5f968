-- ===== src/ProcessStat.antt =====
-- fb303/process_stat.c: get_pmemory_usage, which sums the sizes of the mappings in /proc/PID/smaps. A
-- text is the list of the bytes from a pointer to the end of its buffer, and reading past that is
-- `none`; char is signed. The lines that fgets reads are an argument.
pub mod Hex
pub mod Line
mod Examples
use async_thrift.Prelude.{
  ℕ, zero, suc, ◌+◌, ◌-◌, ◌*◌, ◌/◌, ◌%◌, ◌^◌, List, [], ◌∷◌, Bool, true, false, Option, none, some,
  ltb, leb, ◌==◌, ◌&&◌, ◌||◌, not, if◌then◌else◌,
}
use async_thrift.Asio.{u64}

-- c | 0x20 of a byte.
abbrev pub lower : ℕ → ℕ
lower c = if c / 32 % 2 == 1 then c else c + 32

-- The digit of a byte, in unsigned char.
abbrev pub digit : ℕ → ℕ
digit c = let d = (lower c + 256 - 48) % 256 in if ltb 9 d then (d + 256 - 39) % 256 else d

-- The number read so far, and the text behind the space.
unfoldable pub fast_strtou64_16 : List ℕ → ℕ → Option (ℕ × List ℕ)
fast_strtou64_16 [] n = none
fast_strtou64_16 (c ∷ str) n =
    let rest = fast_strtou64_16 str (u64 (n * 16 + digit c)) in
    if c == 32 then some (n, str) else rest

abbrev pub isspace : ℕ → Bool
isspace c = (c == 32) || leb c 13 || leb 128 c

unfoldable pub skip_whitespace : List ℕ → Option (List ℕ)
skip_whitespace [] = none
skip_whitespace (c ∷ s) = let rest = skip_whitespace s in if isspace c then rest else some (c ∷ s)

unfoldable pub skip_field : List ℕ → Option (List ℕ)
skip_field [] = none
skip_field (c ∷ str) = let rest = skip_field str in if c == 32 then some str else rest

-- `count` is not 0.
unfoldable pub skip_fields : ℕ → List ℕ → Option (List ℕ)
unfolding skip_field
skip_fields zero str = some str
skip_fields (suc count) str = elim (skip_field str) [ none ↦ none | some s ↦ skip_fields count s ]

-- strncmp(line, str, length of str) == 0, for a text without a zero byte; with the zero byte that ends
-- it, strcmp(line, str) == 0.
unfoldable pub starts_with : List ℕ → List ℕ → Bool
starts_with line [] = true
starts_with [] (c ∷ str) = false
starts_with (d ∷ line) (c ∷ str) = let rest = starts_with line str in if d == c then rest else false

-- strchr finds a '-' and it is overwritten; `none` if there is none before the end of the text.
unfoldable pub cut_dash : List ℕ → Option (List ℕ)
cut_dash [] = none
cut_dash (c ∷ line) =
    let rest = cut_dash line in
    if c == 0
    then none
    else if c == 45
    then some (32 ∷ line)
    else elim rest [ none ↦ none | some l ↦ some (c ∷ l) ]

-- end - start, and what follows.
unfoldable pub mapping_size : List ℕ → Option (ℕ × List ℕ)
unfolding fast_strtou64_16
mapping_size line = elim (fast_strtou64_16 line 0) [
  | none ↦ none
  | some (start, tp) ↦ elim (fast_strtou64_16 tp 0) [
    | none ↦ none
    | some (end, tp') ↦ some ((end + 2 ^ 64 - start) % 2 ^ 64, tp')
  ]
]

pub record Mapped : Type 0 where
  pub mapped_rw : ℕ
  pub mapped_ro : ℕ

abbrev pub dev : List ℕ
dev = b'/' ∷ b'd' ∷ b'e' ∷ b'v' ∷ b'/' ∷ []

abbrev pub dev_zero : List ℕ
dev_zero = b'/' ∷ b'd' ∷ b'e' ∷ b'v' ∷ b'/' ∷ b'z' ∷ b'e' ∷ b'r' ∷ b'o' ∷ 10 ∷ 0 ∷ []

-- By the letter behind the 'r'.
abbrev pub count_mapping : ℕ → ℕ → Mapped → Mapped
count_mapping w sz m =
    if w == b'w'
    then record m { mapped_rw = u64 (m.mapped_rw + sz) }
    else if w == 45
    then record m { mapped_ro = u64 (m.mapped_ro + sz) }
    else m

abbrev pub count_named : ℕ → ℕ → Option (List ℕ) → Mapped → Option Mapped
count_named w sz none m = none
count_named w sz (some tp) m =
    some (if not (starts_with tp dev) || starts_with tp dev_zero then count_mapping w sz m else m)

abbrev pub skipped : Option (List ℕ) → Option (List ℕ)
skipped none = none
skipped (some tp) = skip_whitespace tp

abbrev pub scan_mapping : Option (ℕ × List ℕ) → Mapped → Option Mapped
scan_mapping none m = none
scan_mapping (some (sz, [])) m = none
scan_mapping (some (sz, r ∷ [])) m = none
scan_mapping (some (sz, r ∷ w ∷ tp)) m = count_named w sz (skipped (skip_fields 4 (r ∷ w ∷ tp))) m

abbrev pub scan_cut : Option (List ℕ) → Mapped → Option Mapped
scan_cut none m = some m
scan_cut (some line) m = scan_mapping (mapping_size line) m

-- The names that SCAN tests for.
abbrev pub details : List (List ℕ)
details =
    (b'S' ∷ b'h' ∷ b'a' ∷ b'r' ∷ b'e' ∷ b'd' ∷ b'_' ∷ b'C' ∷ b'l' ∷ b'e' ∷ b'a' ∷ b'n' ∷ b':' ∷ [])
    ∷ (b'S' ∷ b'h' ∷ b'a' ∷ b'r' ∷ b'e' ∷ b'd' ∷ b'_' ∷ b'D' ∷ b'i' ∷ b'r' ∷ b't' ∷ b'y' ∷ b':'
        ∷ [])
    ∷ (b'P' ∷ b'r' ∷ b'i' ∷ b'v' ∷ b'a' ∷ b't' ∷ b'e' ∷ b'_' ∷ b'C' ∷ b'l' ∷ b'e' ∷ b'a' ∷ b'n'
        ∷ b':' ∷ [])
    ∷ (b'P' ∷ b'r' ∷ b'i' ∷ b'v' ∷ b'a' ∷ b't' ∷ b'e' ∷ b'_' ∷ b'D' ∷ b'i' ∷ b'r' ∷ b't' ∷ b'y'
        ∷ b':' ∷ [])
    ∷ []

-- Does the line begin with one of them?
abbrev pub is_detail : List ℕ → List (List ℕ) → Bool
is_detail line [] = false
is_detail line (str ∷ strs) =
    let rest = is_detail line strs in if starts_with line str then true else rest

-- A round of the loop, on line_buf.
unfoldable pub scan_line : List ℕ → Mapped → Option Mapped
unfolding cut_dash mapping_size skip_fields skip_whitespace starts_with
scan_line line m = if is_detail line details then some m else scan_cut (cut_dash line) m

unfoldable pub scan_lines : List (List ℕ) → Mapped → Option Mapped
unfolding scan_line
scan_lines [] m = some m
scan_lines (line ∷ lines) m = elim (scan_line line m) [
  | none ↦ none
  | some m' ↦ scan_lines lines m'
]

-- What *mem becomes.
unfoldable pub get_pmemory_usage : List (List ℕ) → Option ℕ
unfolding scan_lines
get_pmemory_usage lines = elim (scan_lines lines (record { mapped_rw = 0; mapped_ro = 0 })) [
  | none ↦ none
  | some m ↦ some (u64 (m.mapped_rw + m.mapped_ro))
]
