-- ===== src/Server/Examples.antt =====
-- One client that sends a message, and a oneway call of one byte.
use async_thrift.Prelude.{ℕ, ◌≡◌, refl, List, [], ◌∷◌, true, none, some, arith, take}
use async_thrift.Conn.{Conn, Action, reads, frame_ready, common_init, restart_recv, continue_recv}
use async_thrift.Conn
use async_thrift.Conn.Reread.{handed_over}
use async_thrift.Errors.{ErrorCode, success, failed, system_category}
use async_thrift.Server.{
  Peer, reading, processing, returns, on_close, Server, new_server, async_accept, keep,
  handle_accept, on_handle_frame, on_handle_read, async_process,
}
use async_thrift.Server.Lifetime.{next}
use async_thrift.Server.Oneway.{async_process-on_handle_frame}

abbrev first_peer : Peer
first_peer = record { conn = (restart_recv common_init).0; waiting = reading }

abbrev accepted : Server
accepted = handle_accept success (async_accept (new_server true))

abbrev reset : ErrorCode
reset = record { category = system_category; value = 104 }

abbrev hung_up : Server
hung_up = on_close 0 accepted

abbrev one_byte : List ℕ
one_byte = 0 ∷ 0 ∷ 0 ∷ 1 ∷ 7 ∷ 0 ∷ 0 ∷ []

async_process-on_handle_frame_example :
    let peer : Peer = record { conn = handed_over one_byte 1; waiting = processing } in
    let waits : Peer = record {
      conn = (continue_recv (handed_over one_byte 1)).0;
      waiting = reading;
    } in
    (async_process success true 0 peer accepted ≡ keep 0 waits accepted)
    × ((continue_recv (handed_over one_byte 1)).1 ≡ reads 5 0)
    × (next : Conn × Action) × (Conn.on_handle_read waits.conn none [] ≡ some next)
    × (next.1 ≡ frame_ready (take 5 one_byte))
    × (on_handle_read success [] returns 0 waits (keep 0 waits accepted)
        ≡ on_handle_frame returns 0 next.0 (keep 0 waits accepted))
unfolding failed
async_process-on_handle_frame_example =
    async_process-on_handle_frame one_byte 1 success success returns 0 accepted refl refl
      (omega arith) (omega arith)
