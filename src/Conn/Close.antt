-- ===== src/Conn/Close.antt =====
-- Why the receive side closes a connection after a read that succeeded.
use async_thrift.Prelude.{ℕ, ◌≡◌, refl, ◌⊎◌, List, none, arith}
use async_thrift.Conn.{
  Conn, ReadState, read_frame_size, read_frame, closes, CloseReason, proto_size_limit,
  proto_negative_size, get_frame_size, continue_recv, handle_frame, handle_header, handle_buffer,
  dispatch, handle_stored, on_handle_read, store,
}

abbrev pub IsSizeError : CloseReason → Type 0
IsSizeError x = (x ≡ proto_size_limit) ⊎ (x ≡ proto_negative_size)

frame-IsSizeError : (c : Conn) (x : CloseReason) → (handle_frame c).1 ≡ closes x → IsSizeError x
unfolding handle_frame continue_recv
frame-IsSizeError c x h = ground arith

header-IsSizeError : (c : Conn) (x : CloseReason) → (handle_header c).1 ≡ closes x → IsSizeError x
unfolding handle_header continue_recv
header-IsSizeError c x h = ground (
  arith,
  frame-IsSizeError (record c { frame_size = get_frame_size c.recv_buffer; state = read_frame }) x,
)

-- The bytes of a read lead to a close only for the size that a header announces.
pub handle_buffer-IsSizeError :
    (c : Conn) (x : CloseReason) → (handle_buffer c).1 ≡ closes x → IsSizeError x
unfolding handle_buffer
handle_buffer-IsSizeError c x = by_state c.state c
  where
    by_state : (st : ReadState) (d : Conn) → (dispatch st d).1 ≡ closes x → IsSizeError x
    by_state read_frame_size d h = header-IsSizeError d x h
    by_state read_frame d h = frame-IsSizeError d x h

pub on_handle_read_lem :
    (c : Conn) (xs : List ℕ) → on_handle_read c none xs ≡ handle_stored (store c xs)
unfolding on_handle_read
on_handle_read_lem c xs = refl
