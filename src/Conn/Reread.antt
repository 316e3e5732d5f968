-- ===== src/Conn/Reread.antt =====
-- A read that is started while a handed over frame is still in the buffer.
use async_thrift.Prelude.{
  ℕ, ◌+◌, ◌^◌, ◌≤◌, ◌<◌, ◌≡◌, ap, ◌∙◌, List, [], append-nil, none, some, true, leb, arith, length,
  take, le→leb, if◌then◌else◌,
}
use async_thrift.Conn.{
  Conn, Action, read_frame, reads, frame_ready, continue_recv, handle_buffer, handle_frame, store,
  resize, write_at, u32, on_handle_read,
}
use async_thrift.Conn.Inv.{size_sub_le}
use async_thrift.Conn.Buffer.{length-resize, take-resize, take-write_at, length-write_at}

module _ (buffer : List ℕ) (size : ℕ) where
  -- A frame is handed over, and it is all that has come in.
  abbrev pub handed_over : Conn
  handed_over = record {
    recv_buffer = buffer;
    bytes_recv = size + 4;
    frame_size = size;
    state = read_frame;
  }

  -- The read has no room.
  pub room-handed_over : (continue_recv handed_over).1 ≡ reads (size + 4) 0
  unfolding continue_recv
  room-handed_over = ap (reads (size + 4)) (
      size_sub_le (length (resize 0 (size + 4) buffer)) (size + 4) (omega (arith, filled))
      ∙ omega (arith, filled))
    where
      filled : length (resize 0 (size + 4) buffer) ≡ size + 4
      filled = length-resize 0 (size + 4) buffer

  stored : List ℕ
  stored = write_at (size + 4) [] (resize 0 (size + 4) buffer)

  -- It hands the frame over again.
  pub frame-handed_over :
      size + 4 ≤ length buffer
      → size + 4 < 2 ^ 32
      → (r : Conn × Action) × (on_handle_read (continue_recv handed_over).0 none [] ≡ some r)
        × (r.1 ≡ frame_ready (take (size + 4) buffer))
  unfolding on_handle_read continue_recv handle_buffer store handle_frame stored
  frame-handed_over fits small = (
    handle_buffer (store (continue_recv handed_over).0 []),
    ap (λ b. if b then some (handle_buffer (store (continue_recv handed_over).0 [])) else none)
        within,
    ap
          (λ n.
            (handle_frame (record {
              recv_buffer = stored;
              bytes_recv = n;
              frame_size = size;
              state = read_frame;
            })).1)
          unwrapped
        ∙ ap
            (λ b.
              (if b
                then (at_end, frame_ready (take (size + 4) stored))
                else continue_recv at_end).1)
            (le→leb (size + 4) (size + 4) (omega arith))
        ∙ ap frame_ready kept,
  )
    where
      at_end : Conn
      at_end = record {
        recv_buffer = stored;
        bytes_recv = size + 4;
        frame_size = size;
        state = read_frame;
      }

      unwrapped : u32 (size + 4 + 0) ≡ size + 4
      unwrapped = omega (arith, small)

      within : leb (u32 (size + 4 + 0)) (length stored) ≡ true
      within = le→leb _ _ (
          omega (
            arith,
            unwrapped,
            length-write_at (size + 4) [] (resize 0 (size + 4) buffer)
                (omega (arith, length-resize 0 (size + 4) buffer)),
            length-resize 0 (size + 4) buffer,
          ))

      kept : take (size + 4) stored ≡ take (size + 4) buffer
      kept =
          ap (λ n. take n stored) (omega arith)
          ∙ take-write_at (size + 4) [] (resize 0 (size + 4) buffer)
              (omega (arith, length-resize 0 (size + 4) buffer))
          ∙ append-nil (take (size + 4) (resize 0 (size + 4) buffer))
          ∙ take-resize 0 (size + 4) (size + 4) buffer (omega arith) fits
