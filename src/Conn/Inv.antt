-- ===== src/Conn/Inv.antt =====
-- The connection between two completions: its invariant, and each handler against `parse` of the
-- bytes that wait in the buffer.
use async_thrift.Prelude.{
  ℕ, ◌+◌, ◌-◌, ◌≤◌, ◌<◌, ◌≡◌, refl, sym, ap, ◌∙◌, List, arith, leb, ◌==◌, ◌||◌, length, take, drop,
  length-take, Bool-cases, subst, take-take, leb→le, inl, inr, true, false,
}
use async_thrift.Conn.{
  Conn, ReadState, read_frame_size, read_frame, Action, reads, frame_ready, closes, get_frame_size,
  continue_recv, handle_frame, handle_header, handle_buffer, max_frame_size, size_error, size_sub,
  resize, dispatch,
}
use async_thrift.Conn.Buffer.{
  length-resize, take-resize, get_frame_size-take, get_frame_size-resize,
}
use async_thrift.Conn.Frame.{
  Parsed, incomplete, illegal, complete, parse, parse_short, parse_illegal, parse_partial,
  parse_whole,
}

-- The bytes received and not yet consumed.
abbrev pub pending : Conn → List ℕ
pending c = take c.bytes_recv c.recv_buffer

-- What the state kReadFrame promises.
pub record HeaderRead (c : Conn) : Type 0 where
  pub header_in : 4 ≤ c.bytes_recv
  pub header_is : c.frame_size ≡ get_frame_size c.recv_buffer
  pub positive : 0 < c.frame_size
  pub limited : c.frame_size < max_frame_size

abbrev pub Header : ReadState → Conn → Type 0
Header read_frame_size c = Unit
Header read_frame c = HeaderRead c

pub record IsSound (c : Conn) : Type 0 where
  pub roomy : 4 < length c.recv_buffer
  pub limited : length c.recv_buffer < max_frame_size + 4
  pub within : c.bytes_recv ≤ length c.recv_buffer
  pub header : Header c.state c

-- What a handler has to return, given the meaning of the bytes that wait.
abbrev pub Meets : List ℕ → Parsed → Conn × Action → Type 0
Meets bytes incomplete (c, a) =
    IsSound c
    × (pending c ≡ bytes)
    × (a ≡ reads c.bytes_recv (length c.recv_buffer - c.bytes_recv))
    × (c.bytes_recv < length c.recv_buffer)
Meets bytes (illegal e) (c, a) = a ≡ closes e
Meets bytes (complete frame rest) (c, a) =
    IsSound c
    × (pending c ≡ bytes)
    × (a ≡ frame_ready frame)
    × (c.state ≡ read_frame)
    × (c.frame_size + 4 ≡ length frame)

pub length-pending :
    (c : Conn) → c.bytes_recv ≤ length c.recv_buffer → length (pending c) ≡ c.bytes_recv
length-pending c h = length-take c.bytes_recv c.recv_buffer h

-- A connection in the state kReadFrameSize, and in the state kReadFrame, by its other fields.
module _ (buffer : List ℕ) (n size : ℕ) where
  abbrev in_header : Conn
  in_header = record {
    recv_buffer = buffer;
    bytes_recv = n;
    frame_size = size;
    state = read_frame_size;
  }

  abbrev in_frame : Conn
  in_frame = record { recv_buffer = buffer; bytes_recv = n; frame_size = size; state = read_frame }

pub size_sub_le : (a b : ℕ) → b ≤ a → size_sub a b ≡ a - b
size_sub_le a b h = ground arith

continue_frame :
    (buffer : List ℕ) (n size : ℕ)
    → IsSound (in_frame buffer n size)
    → n < size + 4
    → Meets (take n buffer) incomplete (continue_recv (in_frame buffer n size))
unfolding continue_recv
continue_frame buffer n size s h = (
  record {
    roomy = omega (arith, grown, s.header.positive);
    limited = omega (arith, grown, s.header.limited);
    within = omega (arith, grown);
    header = record {
      header_in = s.header.header_in;
      header_is =
          s.header.header_is
          ∙ sym (get_frame_size-resize (size + 4) buffer (omega arith) (omega arith));
      positive = s.header.positive;
      limited = s.header.limited;
    };
  },
  take-resize 0 n (size + 4) buffer (omega arith) s.within,
  ap (reads n) (size_sub_le (length (resize 0 (size + 4) buffer)) n (omega (arith, grown))),
  omega (arith, grown),
)
  where
    grown : length (resize 0 (size + 4) buffer) ≡ size + 4
    grown = length-resize 0 (size + 4) buffer

-- Case kReadFrame: a whole frame is handed over, anything less is read on.
handle_frame-Meets :
    (buffer : List ℕ) (n size : ℕ)
    → IsSound (in_frame buffer n size)
    → Meets (take n buffer) (parse (take n buffer)) (handle_frame (in_frame buffer n size))
unfolding handle_frame
handle_frame-Meets buffer n size s = elim (Bool-cases (leb (size + 4) n)) [
  | inl e ↦
      rw (whole e, e)
        (
          s,
          refl,
          ap frame_ready (sym (take-take (size + 4) n buffer (leb→le _ _ e))),
          refl,
          sym (length-take (size + 4) (take n buffer) (omega (arith, here, leb→le (size + 4) n e))),
        )
  | inr e ↦ rw (part e, e) (continue_frame buffer n size s (ground arith))
]
  where
    here : length (take n buffer) ≡ n
    here = length-take n buffer s.within

    is : size ≡ get_frame_size (take n buffer)
    is = s.header.header_is ∙ sym (get_frame_size-take n buffer s.header.header_in)

    whole :
        leb (size + 4) n ≡ true
        → parse (take n buffer)
          ≡ complete (take (size + 4) (take n buffer)) (drop (size + 4) (take n buffer))
    whole e =
        parse_whole (take n buffer) is s.header.positive s.header.limited
          (omega (arith, here, leb→le (size + 4) n e))

    part : leb (size + 4) n ≡ false → parse (take n buffer) ≡ incomplete
    part e =
        parse_partial (take n buffer) is s.header.positive s.header.limited
          (omega (arith, here, s.header.header_in)) (ground (arith, here))

-- Case kReadFrameSize: read on for the header, refuse its size, or fall through.
handle_header-Meets :
    (buffer : List ℕ) (n size : ℕ)
    → IsSound (in_header buffer n size)
    → Meets (take n buffer) (parse (take n buffer)) (handle_header (in_header buffer n size))
unfolding handle_header continue_recv
handle_header-Meets buffer n size s = elim (Bool-cases (leb 4 n)) [
  | inr e ↦
      rw (parse_short (take n buffer) (ground (arith, here)), e)
        (s, refl, ap (reads n) (size_sub_le (length buffer) n s.within), ground arith)
  | inl e ↦
      elim (Bool-cases (leb max_frame_size (get_frame_size buffer) || get_frame_size buffer == 0)) [
        | inl bad ↦ rw (refused (leb→le 4 n e) bad, e, bad) refl
        | inr good ↦
            rw (e, good)
              (handle_frame-Meets buffer n (get_frame_size buffer) (framed (leb→le 4 n e) good))
      ]
]
  where
    here : length (take n buffer) ≡ n
    here = length-take n buffer s.within

    refused :
        4 ≤ n
        → (leb max_frame_size (get_frame_size buffer) || get_frame_size buffer == 0) ≡ true
        → parse (take n buffer) ≡ illegal (size_error (get_frame_size buffer))
    refused h bad =
        subst
          (λ k.
            (leb max_frame_size k || k == 0) ≡ true
            → parse (take n buffer) ≡ illegal (size_error k))
          (get_frame_size-take n buffer h) (parse_illegal (take n buffer) (omega (arith, here))) bad

    framed :
        4 ≤ n
        → (leb max_frame_size (get_frame_size buffer) || get_frame_size buffer == 0) ≡ false
        → IsSound (in_frame buffer n (get_frame_size buffer))
    framed h good = record {
      roomy = s.roomy;
      limited = s.limited;
      within = s.within;
      header = record {
        header_in = h;
        header_is = refl;
        positive = ground arith;
        limited = ground arith;
      };
    }

-- The whole of handle_buffer, in either state.
pub handle_buffer-Meets :
    (c : Conn) → IsSound c → Meets (pending c) (parse (pending c)) (handle_buffer c)
unfolding handle_buffer
handle_buffer-Meets c s = by_state c.state s
  where
    by_state :
        (st : ReadState)
        → IsSound (record c { state = st })
        → Meets (pending c) (parse (pending c)) (dispatch st (record c { state = st }))
    by_state read_frame_size s = handle_header-Meets c.recv_buffer c.bytes_recv c.frame_size s
    by_state read_frame s = handle_frame-Meets c.recv_buffer c.bytes_recv c.frame_size s
