-- ===== src/Client.antt =====
-- async/async_client.h and async_client.cpp, over the receive side of Conn, with the RPC stub that
-- the thrift generator emits (thrift_0.5.0_patch/t_cpp_generator.cc.inl). A callback is a number;
-- `completed` lists the callbacks invoked. `none` is a failed assertion.
pub mod Handlers
pub mod Once
pub mod Reply
mod Examples
use async_thrift.Prelude.{
  ℕ, List, [], ◌∷◌, ◌++◌, Bool, true, false, Option, none, some, ◌==◌, if◌then◌else◌,
}
use async_thrift.Conn.{
  Conn, CloseReason, Action, reads, frame_ready, closes, common_init, restart_recv,
}
use async_thrift.Conn
use async_thrift.Errors.{
  ErrorCode, Codes, Exception, failed, success, make_error_code, close_code, system_category,
  posix_category, thrift_category, thrift_has_pending_op,
}

pub record AsyncOp : Type 0 where
  pub callback : ℕ
  pub is_oneway : Bool

pub record Socket : Type 0 where
  pub handle : ℕ
  pub opened : Bool

-- The asynchronous operation in flight, if any.
pub data Outstanding : Type 0 where
  idle writing reading : Outstanding

pub record Client : Type 0 where
  pub socket : Option Socket
  pub strand : Option ℕ
  pub pending_op : Option AsyncOp
  pub conn : Conn
  pub outstanding : Outstanding
  pub completed : List (ℕ × ErrorCode)
  pub closed : List ℕ

pub new_client : Option ℕ → Client
new_client handle = record {
  socket = elim handle [ none ↦ none | some h ↦ some (record { handle = h; opened = true }) ];
  strand = none;
  pending_op = none;
  conn = common_init;
  outstanding = idle;
  completed = [];
  closed = [];
}

-- What fill_result does with a reply.
pub data Filled : Type 0 where
  filled : Filled
  threw : Exception → Filled

abbrev pub filled_code : Codes → Filled → ErrorCode
filled_code t filled = success
filled_code t (threw e) = make_error_code t e

abbrev pub complete_op : Option AsyncOp → ErrorCode → Client → Option Client
complete_op none ec c = none
complete_op (some op) ec c = some (record c {
  pending_op = none;
  outstanding = idle;
  completed = (op.callback, ec) ∷ c.completed;
})

-- The swap comes before the callback, so that the callback may start the next operation.
pub complete_pending_op : ErrorCode → Client → Option Client
complete_pending_op ec c = complete_op c.pending_op ec c

abbrev pub still_open : Option Socket → List ℕ
still_open none = []
still_open (some s) = if s.opened then s.handle ∷ [] else []

-- AsyncConnection::on_close
abbrev pub release_socket : Option Socket → Client → Client
release_socket none c = c
release_socket (some s) c = record c {
  socket = none;
  strand = none;
  closed = still_open (some s) ++ c.closed;
}

pub on_close : ErrorCode → Client → Option Client
unfolding complete_pending_op
on_close ec c = if failed ec then complete_pending_op ec (release_socket c.socket c) else none

pub on_handle_frame : Codes → Filled → Client → Option Client
unfolding complete_pending_op
on_handle_frame t r c = complete_pending_op (filled_code t r) c

abbrev pub after_read : Codes → Filled → Client → Option (Conn × Action) → Option Client
after_read t r c none = none
after_read t r c (some (conn, reads off room)) =
    some (record c { conn = conn; outstanding = reading })
after_read t r c (some (conn, frame_ready frame)) = on_handle_frame t r (record c { conn = conn })
after_read t r c (some (conn, closes reason)) =
    on_close (close_code t reason) (record c { conn = conn })

abbrev pub io_code : ℕ → ErrorCode
io_code n = record { category = system_category; value = n }

-- A read completes: with an error number, 0 for none, and the bytes that came.
abbrev pub read_with : Codes → ℕ → List ℕ → Filled → Option AsyncOp → Client → Option Client
read_with t ec bytes r none c = none
read_with t ec bytes r (some op) c =
    if failed (io_code ec)
    then on_close (io_code ec) c
    else after_read t r c (Conn.on_handle_read c.conn none bytes)

pub on_handle_read : Codes → ℕ → List ℕ → Filled → Client → Option Client
on_handle_read t ec bytes r c = read_with t ec bytes r c.pending_op c

abbrev pub start_reply : Client → Option Client
start_reply c =
    let (conn, _) = restart_recv c.conn in some (record c { conn = conn; outstanding = reading })

abbrev pub write_with : ℕ → Option AsyncOp → Client → Option Client
write_with ec none c = none
write_with ec (some op) c =
    if failed (io_code ec)
    then on_close (io_code ec) c
    else if op.is_oneway
    then complete_pending_op (io_code ec) c
    else start_reply c

pub on_handle_write : ℕ → Client → Option Client
on_handle_write ec c = write_with ec c.pending_op c

abbrev pub socket_is_open : Option Socket → Bool
socket_is_open none = false
socket_is_open (some s) = s.opened

abbrev pub send_op : Option AsyncOp → AsyncOp → Client → Option Client
send_op none op c = some (record c { pending_op = some op; outstanding = writing })
send_op (some p) op c = none

abbrev pub reject_op : Codes → AsyncOp → Client → Option Client
reject_op t op c = some (record c {
  completed =
      (op.callback, record { category = posix_category; value = t.not_connected }) ∷ c.completed;
})

-- An asynchronous call of the generated client.
pub call : Codes → AsyncOp → Client → Option Client
call t op c = if socket_is_open c.socket then send_op c.pending_op op c else reject_op t op c

-- AsyncConnection::close, which the user may call at any time.
abbrev pub close_socket : Option Socket → Client → Client
close_socket none c = c
close_socket (some s) c = record c {
  socket = some (record { handle = s.handle; opened = false });
  closed = still_open (some s) ++ c.closed;
}

pub close : Client → Client
close c = close_socket c.socket c

-- attach and detach throw kThriftHasPendingOp, or return.
pub data Attached : Type 0 where
  refused : ErrorCode → Attached
  done : Client → Attached

abbrev pub pending_code : ErrorCode
pending_code = record { category = thrift_category; value = thrift_has_pending_op }

-- Is it the socket that the client has?
abbrev pub is_own : Socket → Option Socket → Bool
is_own s none = false
is_own s (some old) = s.handle == old.handle

-- The client's own socket is closed before it is attached again.
abbrev pub attach_with : Option AsyncOp → Socket → Client → Attached
attach_with (some op) s c = refused pending_code
attach_with none s c = done (record (close c) {
  socket = some (if is_own s c.socket then record s { opened = false } else s);
  strand = none;
})

pub attach : Socket → Client → Attached
unfolding close
attach s c = attach_with c.pending_op s c

abbrev pub drop_socket : Option Socket → Client → Client
drop_socket none c = c
drop_socket (some s) c = record c { socket = none; strand = none }

abbrev pub detach_with : Option AsyncOp → Client → Attached
detach_with (some op) c = refused pending_code
detach_with none c = done (drop_socket c.socket c)

pub detach : Client → Attached
detach c = detach_with c.pending_op c
