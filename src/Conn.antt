-- ===== src/Conn.antt =====
-- async/async_connection.h: the receive side of AsyncConnection, as a state machine over read
-- and write completions. `recv_buffer` is the whole vector, so its length is the vector's size;
-- a read completion carries the bytes that asio stored at `&recv_buffer_[bytes_recv_]`. `none` is a
-- failed assertion, or a memcpy of ranges that overlap, whose result is undefined.
pub mod Buffer
pub mod Frame
pub mod Inv
pub mod Handlers
pub mod Stream
pub mod Progress
pub mod Close
pub mod Reread
mod Examples
use async_thrift.Prelude.{
  ℕ, ◌+◌, ◌-◌, ◌*◌, ◌%◌, ◌^◌, List, [], ◌∷◌, ◌++◌, Bool, true, false, leb, ltb, ◌==◌, ◌||◌,
  if◌then◌else◌, length, take, drop, replicate, Option, none, some,
}

abbrev pub buffer_capacity : ℕ
buffer_capacity = 4096

abbrev pub header_size : ℕ
header_size = 4

abbrev pub max_frame_size : ℕ
max_frame_size = 104857600

-- uint32_t
abbrev pub u32 : ℕ → ℕ
u32 n = n % 2 ^ 32

-- Subtraction of size_t, which wraps.
abbrev pub size_sub : ℕ → ℕ → ℕ
size_sub a b = if leb b a then a - b else a + 2 ^ 64 - b

pub data ReadState : Type 0 where
  read_frame_size read_frame : ReadState

-- The error codes that this layer makes or is handed.
pub data CloseReason : Type 0 where
  proto_size_limit proto_negative_size : CloseReason
  io_error : ℕ → CloseReason

pub record Conn : Type 0 where
  pub recv_buffer : List ℕ
  pub bytes_recv : ℕ
  pub frame_size : ℕ
  pub state : ReadState

-- What a handler ends with: an asynchronous read into `[offset, offset + room)`, a frame that is
-- handed to `on_handle_frame`, or `on_close`.
pub data Action : Type 0 where
  reads : ℕ → ℕ → Action
  frame_ready : List ℕ → Action
  closes : CloseReason → Action

module _ {ℓ} {A : Type ℓ} where
  -- std::vector::resize with a fill value.
  pub resize : A → ℕ → List A → List A
  resize fill n xs = take n xs ++ replicate (n - length xs) fill

  -- Stores `ys` over `xs` from position `off` on.
  pub write_at : ℕ → List A → List A → List A
  write_at off ys xs = take off xs ++ ys ++ drop (off + length ys) xs

-- ntohl of the first four bytes.
pub get_frame_size : List ℕ → ℕ
get_frame_size (a ∷ b ∷ c ∷ d ∷ _) = a * 2 ^ 24 + b * 2 ^ 16 + c * 2 ^ 8 + d
get_frame_size _ = 0

pub fresh_buffer : List ℕ
fresh_buffer = replicate buffer_capacity 0

pub common_init : Conn
common_init = record {
  recv_buffer = fresh_buffer;
  bytes_recv = 0;
  frame_size = 0;
  state = read_frame_size;
}

-- start_recv(true)
pub restart_recv : Conn → Conn × Action
restart_recv c =
    let buffer =
      if ltb max_frame_size (length c.recv_buffer) then fresh_buffer else c.recv_buffer in
    (
      record { recv_buffer = buffer; bytes_recv = 0; frame_size = 0; state = read_frame_size },
      reads 0 (length buffer),
    )

abbrev pub grow : ReadState → ℕ → List ℕ → List ℕ
grow read_frame frame_size buffer = resize 0 (frame_size + header_size) buffer
grow read_frame_size frame_size buffer = buffer

-- start_recv(false)
pub continue_recv : Conn → Conn × Action
continue_recv c =
    let buffer = grow c.state c.frame_size c.recv_buffer in
    (record c { recv_buffer = buffer }, reads c.bytes_recv (size_sub (length buffer) c.bytes_recv))

-- The case kReadFrame of handle_buffer.
pub handle_frame : Conn → Conn × Action
handle_frame c =
    if leb (c.frame_size + header_size) c.bytes_recv
    then (c, frame_ready (take (c.frame_size + header_size) c.recv_buffer))
    else continue_recv c

abbrev pub size_error : ℕ → CloseReason
size_error n = if leb max_frame_size n then proto_size_limit else proto_negative_size

-- The case kReadFrameSize, with its fall through.
pub handle_header : Conn → Conn × Action
handle_header c =
    let size = get_frame_size c.recv_buffer in
    if leb header_size c.bytes_recv
    then if leb max_frame_size size || size == 0
      then (record c { frame_size = size }, closes (size_error size))
      else handle_frame (record c { frame_size = size; state = read_frame })
    else continue_recv c

abbrev pub dispatch : ReadState → Conn → Conn × Action
dispatch read_frame_size c = handle_header c
dispatch read_frame c = handle_frame c

pub handle_buffer : Conn → Conn × Action
handle_buffer c = dispatch c.state c

-- The bytes that a completed read has stored.
pub store : Conn → List ℕ → Conn
store c xs = record c {
  recv_buffer = write_at c.bytes_recv xs c.recv_buffer;
  bytes_recv = u32 (c.bytes_recv + length xs);
}

-- The assertion before handle_buffer.
abbrev pub handle_stored : Conn → Option (Conn × Action)
handle_stored c = if leb c.bytes_recv (length c.recv_buffer) then some (handle_buffer c) else none

pub on_handle_read : Conn → Option ℕ → List ℕ → Option (Conn × Action)
on_handle_read c (some ec) xs = some (c, closes (io_error ec))
on_handle_read c none xs = handle_stored (store c xs)

-- Moves what follows the handled frame to the front, where the two ranges have no byte in common.
pub move_front : Conn → Conn
move_front c =
    let used = c.frame_size + header_size in
    let left = c.bytes_recv - c.frame_size - header_size in
    record {
      recv_buffer = write_at 0 (take left (drop used c.recv_buffer)) c.recv_buffer;
      bytes_recv = u32 (c.bytes_recv + 2 ^ 32 - used);
      frame_size = 0;
      state = read_frame_size;
    }

-- A memcpy of ranges that overlap has no result: more is left than the handled frame is long.
pub consume : Conn → Option Conn
unfolding move_front
consume c =
    let used = c.frame_size + header_size in
    if ltb used (c.bytes_recv - c.frame_size - header_size) then none else some (move_front c)

abbrev pub handle_rest : Option Conn → Option (Conn × Action)
handle_rest none = none
handle_rest (some c) = some (handle_buffer c)

-- What comes after the test for an error, with its assertion.
pub on_handle_write : Conn → Option ℕ → Option (Conn × Action)
on_handle_write c (some ec) = some (c, closes (io_error ec))
on_handle_write c none =
    if ltb c.bytes_recv (c.frame_size + header_size)
    then none
    else if c.bytes_recv == c.frame_size + header_size
    then some (restart_recv c)
    else handle_rest (consume c)
