-- ===== src/Conn/Handlers.antt =====
-- The completion handlers: each continues the byte stream where the last one left it.
use async_thrift.Prelude.{
  ℕ, ◌+◌, ◌-◌, ◌≤◌, ◌≡◌, refl, sym, ap, ◌∙◌, subst, List, [], ◌++◌, Option, none, some, arith, ltb,
  le→leb, false, ◌<◌, ◌⊎◌, if◌then◌else◌, ◌==◌, length, take, drop, drop-append_len, drop-take,
  length-append, Bool-cases, nil_of_length, ==_iff, inl, inr,
}
use async_thrift.Conn.{
  Conn, ReadState, read_frame_size, read_frame, reads, get_frame_size, common_init, fresh_buffer,
  Action, restart_recv, handle_buffer, store, on_handle_read, move_front, consume, handle_rest,
  on_handle_write, max_frame_size, write_at,
}
use async_thrift.Conn.Buffer.{
  length-write_at, take-write_at, get_frame_size-take, get_frame_size-append, length-fresh_buffer,
}
use async_thrift.Conn.Frame.{incomplete, parse, parse_short}
use async_thrift.Conn.Inv.{Header, IsSound, Meets, pending, length-pending, handle_buffer-Meets}

module _ (c : Conn) (s : IsSound c) (xs : List ℕ)
    (fits : length xs ≤ length c.recv_buffer - c.bytes_recv) where
  room : c.bytes_recv + length xs ≤ length c.recv_buffer
  room = omega (arith, s.within)

  -- The counter is below 2 ^ 32, so the addition does not wrap.
  bytes_recv-store : (store c xs).bytes_recv ≡ c.bytes_recv + length xs
  unfolding store
  bytes_recv-store = omega (arith, room, s.limited)

  pub pending-store : pending (store c xs) ≡ pending c ++ xs
  unfolding store
  pending-store =
      ap (λ n. take n (write_at c.bytes_recv xs c.recv_buffer)) bytes_recv-store
      ∙ take-write_at c.bytes_recv xs c.recv_buffer room

  header_kept :
      4 ≤ c.bytes_recv
      → get_frame_size (write_at c.bytes_recv xs c.recv_buffer) ≡ get_frame_size c.recv_buffer
  header_kept h =
      sym (get_frame_size-take (c.bytes_recv + length xs) _ (omega arith))
      ∙ ap get_frame_size (take-write_at c.bytes_recv xs c.recv_buffer room)
      ∙ get_frame_size-append (pending c) xs (omega (arith, length-pending c s.within))
      ∙ get_frame_size-take c.bytes_recv c.recv_buffer h

  store-Header : (st : ReadState) → Header st c → Header st (store c xs)
  unfolding store
  store-Header read_frame_size h = tt
  store-Header read_frame h = record {
    header_in = omega (arith, bytes_recv-store, h.header_in);
    header_is = h.header_is ∙ sym (header_kept h.header_in);
    positive = h.positive;
    limited = h.limited;
  }

  pub store-IsSound : IsSound (store c xs)
  unfolding store
  store-IsSound = record {
    roomy = omega (arith, length-write_at c.bytes_recv xs c.recv_buffer room, s.roomy);
    limited = omega (arith, length-write_at c.bytes_recv xs c.recv_buffer room, s.limited);
    within =
        omega (arith, length-write_at c.bytes_recv xs c.recv_buffer room, bytes_recv-store, room);
    header = store-Header c.state s.header;
  }

  pub on_handle_read-some : on_handle_read c none xs ≡ some (handle_buffer (store c xs))
  unfolding on_handle_read
  on_handle_read-some =
      ap (λ b. if b then some (handle_buffer (store c xs)) else none)
        (le→leb _ _ store-IsSound.within)

  -- At a sound connection, a completed read of no more bytes than there is room for fails no
  -- assertion and ends the way that `parse` says of the bytes that waited followed by the bytes that
  -- came, and keeps the connection sound unless it closes it.
  pub on_handle_read-Meets :
      (r : Conn × Action) × (on_handle_read c none xs ≡ some r)
      × Meets (pending c ++ xs) (parse (pending c ++ xs)) r
  on_handle_read-Meets = (
    handle_buffer (store c xs),
    on_handle_read-some,
    subst (λ bytes. Meets bytes (parse bytes) (handle_buffer (store c xs))) pending-store
        (handle_buffer-Meets (store c xs) store-IsSound),
  )

sub_zero : (n : ℕ) → n ≡ n - 0
sub_zero n = omega arith

restart-Meets : (c : Conn) → IsSound c → Meets [] incomplete (restart_recv c)
unfolding restart_recv
restart-Meets c s = elim (Bool-cases (ltb max_frame_size (length c.recv_buffer))) [
  | inl e ↦ rw e (
    record {
      roomy = omega (arith, length-fresh_buffer);
      limited = omega (arith, length-fresh_buffer);
      within = omega arith;
      header = tt;
    },
    refl,
    ap (reads 0) (sub_zero (length fresh_buffer)),
    omega (arith, length-fresh_buffer),
  )
  | inr e ↦ rw e (
    record { roomy = s.roomy; limited = s.limited; within = omega arith; header = tt },
    refl,
    ap (reads 0) (sub_zero (length c.recv_buffer)),
    omega (arith, s.roomy),
  )
]

pub common_init-Meets : Meets [] incomplete (restart_recv common_init)
unfolding common_init
common_init-Meets = restart-Meets common_init (record {
  roomy = omega (arith, length-fresh_buffer);
  limited = omega (arith, length-fresh_buffer);
  within = omega arith;
  header = tt;
})

module _ (c : Conn) (s : IsSound c) (frame rest : List ℕ) (waits : pending c ≡ frame ++ rest)
    (whole : c.frame_size + 4 ≡ length frame) where
  counted : c.bytes_recv ≡ length frame + length rest
  counted = sym (length-pending c s.within) ∙ ap length waits ∙ length-append frame rest

  left_over : take (c.bytes_recv - c.frame_size - 4) (drop (c.frame_size + 4) c.recv_buffer) ≡ rest
  left_over =
      ap (λ n. take n (drop (c.frame_size + 4) c.recv_buffer)) ungrouped
      ∙ sym (drop-take (c.frame_size + 4) c.bytes_recv c.recv_buffer)
      ∙ ap (drop (c.frame_size + 4)) waits
      ∙ ap (λ n. drop n (frame ++ rest)) whole
      ∙ drop-append_len frame rest
    where
      ungrouped : c.bytes_recv - c.frame_size - 4 ≡ c.bytes_recv - (c.frame_size + 4)
      ungrouped = omega arith

  moved : (ys : List ℕ) → ys ≡ rest → length (write_at 0 ys c.recv_buffer) ≡ length c.recv_buffer
  moved ys e = length-write_at 0 ys c.recv_buffer (omega (arith, ap length e, counted, s.within))

  bytes_recv-move_front : (move_front c).bytes_recv ≡ length rest
  unfolding move_front
  bytes_recv-move_front = omega (arith, counted, whole, s.within, s.limited)

  move_front-IsSound : IsSound (move_front c)
  unfolding move_front
  move_front-IsSound = record {
    roomy = omega (arith, moved _ left_over, s.roomy);
    limited = omega (arith, moved _ left_over, s.limited);
    within = omega (arith, moved _ left_over, bytes_recv-move_front, counted, s.within);
    header = tt;
  }

  pending-move_front : pending (move_front c) ≡ rest
  unfolding move_front
  pending-move_front =
      ap (λ ys. take (move_front c).bytes_recv (write_at 0 ys c.recv_buffer)) left_over
      ∙ ap (λ n. take n (write_at 0 rest c.recv_buffer)) from_zero
      ∙ take-write_at 0 rest c.recv_buffer (omega (arith, counted, s.within))
    where
      from_zero : (move_front c).bytes_recv ≡ 0 + length rest
      from_zero = omega (arith, bytes_recv-move_front)

  nothing_left : c.bytes_recv ≡ c.frame_size + 4 → rest ≡ []
  nothing_left e = nil_of_length rest (omega (arith, counted, whole))

  -- What the completion of the reply's write leads to.
  abbrev pub Continues : Option (Conn × Action) → Type 0
  Continues w =
      ((r : Conn × Action) × (w ≡ some r) × Meets rest (parse rest) r)
      ⊎ ((w ≡ none) × (length frame < length rest))

  left_is : c.bytes_recv - c.frame_size - 4 ≡ length rest
  left_is = omega (arith, counted, whole)

  consumed : Continues (handle_rest (consume c))
  unfolding consume
  consumed = elim (Bool-cases (ltb (c.frame_size + 4) (c.bytes_recv - c.frame_size - 4))) [
    | inl e ↦ inr (
      ap (λ b. handle_rest (if b then none else some (move_front c))) e,
      ground (arith, left_is, whole),
    )
    | inr e ↦ inl (
      handle_buffer (move_front c),
      ap (λ b. handle_rest (if b then none else some (move_front c))) e,
      subst (λ bytes. Meets bytes (parse bytes) (handle_buffer (move_front c))) pending-move_front
          (handle_buffer-Meets (move_front c) move_front-IsSound),
    )
  ]

  -- When the reply has been written, the handled frame is gone and `parse` says what is next, unless
  -- more waits behind the frame than the frame is long.
  pub on_handle_write-Continues : Continues (on_handle_write c none)
  unfolding on_handle_write
  on_handle_write-Continues =
      subst Continues
        (sym (
          ap
            (λ b.
              if b
              then none
              else if c.bytes_recv == c.frame_size + 4
              then some (restart_recv c)
              else handle_rest (consume c))
            (got_it c.bytes_recv (c.frame_size + 4) (omega (arith, counted, whole)))))
        (elim (Bool-cases (c.bytes_recv == c.frame_size + 4)) [
          | inl e ↦
              subst Continues
                (sym (ap (λ b. if b then some (restart_recv c) else handle_rest (consume c)) e))
                (inl (
                  restart_recv c,
                  refl,
                  subst (λ bytes. Meets bytes (parse bytes) (restart_recv c))
                      (sym (nothing_left ((==_iff _ _).0 e)))
                      (rw (parse_short [] (omega arith)) (restart-Meets c s)),
                ))
          | inr e ↦
              subst Continues
                (sym (ap (λ b. if b then some (restart_recv c) else handle_rest (consume c)) e))
                consumed
        ])
    where
      got_it : (m n : ℕ) → n ≤ m → ltb m n ≡ false
      got_it m n h = ground arith
