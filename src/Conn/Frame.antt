-- ===== src/Conn/Frame.antt =====
-- What the byte stream means, apart from any buffer: a frame is a four-byte big-endian length,
-- positive and below 100 MiB, and that many bytes.
use async_thrift.Prelude.{
  ℕ, suc, ◌+◌, ◌/◌, ◌%◌, ◌^◌, ◌≤◌, ◌<◌, ◌≡◌, ◌⊎◌, sym, ap, ◌∙◌, subst, true, List, [], ◌∷◌, ◌++◌,
  arith, leb, ◌==◌, ◌||◌, if◌then◌else◌, length, take, drop, length-append, take-append_len,
  drop-append_len, take-append-drop, length-take,
}
use async_thrift.Conn.{CloseReason, get_frame_size, header_size, max_frame_size, size_error}
use async_thrift.Conn.Buffer.{get_frame_size-take, get_frame_size-append}

pub data Parsed : Type 0 where
  incomplete : Parsed
  illegal : CloseReason → Parsed
  complete : List ℕ → List ℕ → Parsed

pub parse : List ℕ → Parsed
parse bytes =
    let size = get_frame_size bytes in
    if leb header_size (length bytes)
    then if leb max_frame_size size || size == 0
      then illegal (size_error size)
      else if leb (size + header_size) (length bytes)
      then complete (take (size + header_size) bytes) (drop (size + header_size) bytes)
      else incomplete
    else incomplete

-- A message as a peer sends it.
abbrev pub encode : List ℕ → List ℕ
encode payload =
    let n = length payload in n / 2 ^ 24 ∷ n / 2 ^ 16 % 256 ∷ n / 2 ^ 8 % 256 ∷ n % 256 ∷ payload

abbrev pub encode_all : List (List ℕ) → List ℕ
encode_all [] = []
encode_all (p ∷ ps) = encode p ++ encode_all ps

abbrev pub Sendable : List ℕ → Type 0
Sendable p = (0 < length p) × (length p < max_frame_size)

pub get_frame_size-encode : (p rest : List ℕ) → get_frame_size (encode p ++ rest) ≡ length p
unfolding get_frame_size
get_frame_size-encode p rest = omega arith

-- A message at the front of the stream is split off exactly, whatever follows it.
pub parse-encode :
    (p rest : List ℕ) → Sendable p → parse (encode p ++ rest) ≡ complete (encode p) rest
unfolding parse
parse-encode p rest s =
    rw (get_frame_size-encode p rest) (ground (arith, length-append p rest, cut, cut'))
  where
    cut : take (length p + 4) (encode p ++ rest) ≡ encode p
    cut = rw (four (length p)) (take-append_len (encode p) rest)
      where
        four : (n : ℕ) → n + 4 ≡ suc (suc (suc (suc n)))
        four n = omega arith

    cut' : drop (length p + 4) (encode p ++ rest) ≡ rest
    cut' = rw (four (length p)) (drop-append_len (encode p) rest)
      where
        four : (n : ℕ) → n + 4 ≡ suc (suc (suc (suc n)))
        four n = omega arith

pub parse_short : (bytes : List ℕ) → length bytes < 4 → parse bytes ≡ incomplete
unfolding parse
parse_short bytes h = ground arith

pub parse_illegal :
    (bytes : List ℕ)
    → 4 ≤ length bytes
    → (leb max_frame_size (get_frame_size bytes) || get_frame_size bytes == 0) ≡ true
    → parse bytes ≡ illegal (size_error (get_frame_size bytes))
unfolding parse
parse_illegal bytes h e = ground arith

module _ (bytes : List ℕ) {size : ℕ} (is : size ≡ get_frame_size bytes) (pos : 0 < size)
    (small : size < max_frame_size) where
  pub parse_partial : 4 ≤ length bytes → length bytes < size + 4 → parse bytes ≡ incomplete
  unfolding parse
  parse_partial h h' = ground arith

  pub parse_whole :
      size + 4 ≤ length bytes
      → parse bytes ≡ complete (take (size + 4) bytes) (drop (size + 4) bytes)
  unfolding parse
  parse_whole h = rw is (ground arith)

-- A frame: a header and as many bytes as it announces, within the limits.
pub record IsFrame (frame : List ℕ) : Type 0 where
  pub announced : length frame ≡ get_frame_size frame + 4
  pub positive : 0 < get_frame_size frame
  pub limited : get_frame_size frame < max_frame_size

parse-complete :
    (bytes frame rest : List ℕ)
    → parse bytes ≡ complete frame rest
    → let size = get_frame_size bytes in
      (take (size + 4) bytes ≡ frame)
      × (drop (size + 4) bytes ≡ rest)
      × (size + 4 ≤ length bytes)
      × (0 < size)
      × (size < max_frame_size)
unfolding parse
parse-complete bytes frame rest h = ground arith

-- `parse` splits off frames only, and loses nothing.
pub parse-IsFrame :
    (bytes frame rest : List ℕ)
    → parse bytes ≡ complete frame rest
    → (bytes ≡ frame ++ rest) × IsFrame frame
parse-IsFrame bytes frame rest h =
    let (front, back, room, pos, small) = parse-complete bytes frame rest h in
    let size = get_frame_size bytes in
    let same : get_frame_size frame ≡ size =
      ap get_frame_size (sym front) ∙ get_frame_size-take (size + 4) bytes (omega arith) in
    (
      sym (take-append-drop (size + 4) bytes) ∙ cc (front, back),
      record {
        announced = omega (arith, same, ap length front, length-take (size + 4) bytes room);
        positive = omega (arith, same, pos);
        limited = omega (arith, same, small);
      },
    )

-- The converse, whatever follows the frame.
pub IsFrame-parse :
    (frame rest : List ℕ) → IsFrame frame → parse (frame ++ rest) ≡ complete frame rest
IsFrame-parse frame rest h =
    parse_whole (frame ++ rest) {size = get_frame_size frame}
      (sym (get_frame_size-append frame rest (omega (arith, h.announced)))) h.positive h.limited
      (omega (arith, h.announced, length-append frame rest))
    ∙ subst (λ n. complete (take n (frame ++ rest)) (drop n (frame ++ rest)) ≡ complete frame rest)
        h.announced (λ i. complete (take-append_len frame rest i) (drop-append_len frame rest i))

-- `parse` refuses a header that has come in whole, and only for its size.
pub parse-illegal :
    (bytes : List ℕ) (e : CloseReason)
    → parse bytes ≡ illegal e
    → (4 ≤ length bytes) × ((max_frame_size ≤ get_frame_size bytes) ⊎ (get_frame_size bytes ≡ 0))
unfolding parse
parse-illegal bytes e h = (ground arith, ground arith)
