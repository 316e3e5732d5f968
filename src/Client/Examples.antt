-- ===== src/Client/Examples.antt =====
-- One call and its reply, at a client with an open socket.
use async_thrift.Prelude.{
  ℕ, ◌+◌, ◌≡◌, ◌↔◌, refl, [], ◌∷◌, true, false, none, some, arith, count, ap, length,
}
use async_thrift.Conn.{common_init, restart_recv}
use async_thrift.Conn.Inv.{length-pending}
use async_thrift.Conn.Handlers.{common_init-Meets}
use async_thrift.Errors.{Codes, AreErrors, ErrorCode, thrift_exception, failed, system_category}
use async_thrift.Client.{
  AsyncOp, idle, writing, reading, Client, filled, threw, complete_pending_op, on_handle_frame,
  on_close, on_handle_read, on_handle_write, call,
}
use async_thrift.Client.Handlers.{Handles, on_handle_read-Handles, on_handle_write-Handles}
use async_thrift.Client.Once.{
  IsConsistent, Run, here, next, calls, wrote, read, accounted, Run-Keeps,
}
use async_thrift.Client.Reply.{IsReported, on_handle_frame-reports}

abbrev codes : Codes
codes = record { size_limit = 3; negative_size = 2; bad_message = 74; not_connected = 107 }

codes-AreErrors : AreErrors codes
codes-AreErrors = record {
  size_limit_ne = omega arith;
  negative_size_ne = omega arith;
  bad_message_ne = omega arith;
  not_connected_ne = omega arith;
}

abbrev echo : AsyncOp
echo = record { callback = 5; is_oneway = false }

abbrev start : Client
start = record {
  socket = some (record { handle = 9; opened = true });
  strand = none;
  pending_op = none;
  conn = common_init;
  outstanding = idle;
  completed = [];
  closed = [];
}

abbrev sent : Client
sent = record start { pending_op = some echo; outstanding = writing }

abbrev waits : Client
waits = record sent { conn = (restart_recv common_init).0; outstanding = reading }

on_handle_write-Handles_example : Handles echo sent (on_handle_write 0 sent)
on_handle_write-Handles_example = on_handle_write-Handles codes codes-AreErrors echo sent refl 0

on_handle_read-Handles_example :
    Handles echo waits (on_handle_read codes 0 (0 ∷ 0 ∷ 0 ∷ 1 ∷ 7 ∷ []) filled waits)
on_handle_read-Handles_example =
    let (sound, held, act, room) = common_init-Meets in
    on_handle_read-Handles codes codes-AreErrors echo waits refl 0 (0 ∷ 0 ∷ 0 ∷ 1 ∷ 7 ∷ []) filled
      refl sound
      (omega (
        arith,
        sound.roomy,
        ap length held,
        length-pending (restart_recv common_init).0 sound.within,
      ))

abbrev no_reply : Client
no_reply = record start {
  conn = (restart_recv common_init).0;
  completed = (5, record { category = system_category; value = 104 }) ∷ [];
  socket = none;
  closed = 9 ∷ [];
}

history : Run codes start (5 ∷ []) no_reply
unfolding call on_handle_write on_handle_read failed on_close complete_pending_op
history =
    next (next (next here (calls echo refl)) (wrote 0 refl refl)) (read 104 [] filled refl refl)

Run-Keeps_example :
    IsConsistent no_reply
    × ((id : ℕ) → accounted id no_reply ≡ accounted id start + count id (5 ∷ []))
Run-Keeps_example = Run-Keeps codes codes-AreErrors tt history

on_handle_frame-reports_example :
    (ec : ErrorCode) × (on_handle_frame codes (threw thrift_exception) waits
      ≡ some (record waits { pending_op = none; outstanding = idle; completed = (5, ec) ∷ [] }))
    × ((failed ec ≡ true) ↔ IsReported (threw thrift_exception))
on_handle_frame-reports_example =
    on_handle_frame-reports codes (threw thrift_exception) echo waits codes-AreErrors refl
