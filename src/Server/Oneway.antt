-- ===== src/Server/Oneway.antt =====
-- What a server connection does after a oneway call.
use async_thrift.Prelude.{
  ℕ, ◌+◌, ◌^◌, ◌≤◌, ◌<◌, ◌≡◌, ap, ◌∙◌, List, [], true, false, none, some, length, take,
  if◌then◌else◌,
}
use async_thrift.Conn.{
  Conn, read_frame, Action, reads, frame_ready, continue_recv, handle_buffer, handle_frame, store,
  resize, write_at, u32,
}
use async_thrift.Conn
use async_thrift.Conn.Reread.{handed_over, room-handed_over, frame-handed_over}
use async_thrift.Errors.{ErrorCode, failed}
use async_thrift.Server.{
  Peer, processing, reading, Processed, Server, keep, on_close, after_read, on_handle_frame,
  on_handle_read, async_process,
}

module _ (buffer : List ℕ) (size : ℕ) where
  -- The callback of a oneway call reports success, and the call's frame is all that has come in: the
  -- next read is started with no room, and its completion, which brings no byte, hands the same frame
  -- to the processor once more.
  pub async_process-on_handle_frame :
      (ec none_ec : ErrorCode) (does : Processed) (id : ℕ) (s : Server)
      → failed ec ≡ false
      → failed none_ec ≡ false
      → size + 4 ≤ length buffer
      → size + 4 < 2 ^ 32
      → let peer : Peer = record { conn = handed_over buffer size; waiting = processing } in
        let waits : Peer = record {
          conn = (continue_recv (handed_over buffer size)).0;
          waiting = reading;
        } in
        (async_process ec true id peer s ≡ keep id waits s)
        × ((continue_recv (handed_over buffer size)).1 ≡ reads (size + 4) 0)
        × (next : Conn × Action) × (Conn.on_handle_read waits.conn none [] ≡ some next)
        × (next.1 ≡ frame_ready (take (size + 4) buffer))
        × (on_handle_read none_ec [] does id waits (keep id waits s)
            ≡ on_handle_frame does id next.0 (keep id waits s))
  unfolding async_process on_handle_read
  async_process-on_handle_frame ec none_ec does id s ok none_ok fits small =
      let (next, runs, ready) = frame-handed_over buffer size fits small in
      (
        ap (λ b. if b then on_close id s else keep id waits s) ok,
        room-handed_over buffer size,
        next,
        runs,
        ready,
        ap
              (λ b.
                if b
                then some (on_close id t)
                else after_read does id t (Conn.on_handle_read waits.conn none []))
              none_ok
            ∙ ap (after_read does id t) runs
            ∙ handed next.0 next.1 ready,
      )
    where
      waits : Peer
      waits = record { conn = (continue_recv (handed_over buffer size)).0; waiting = reading }

      t : Server
      t = keep id waits s

      handed :
          (c : Conn) (a : Action)
          → a ≡ frame_ready (take (size + 4) buffer)
          → after_read does id t (some (c, a)) ≡ on_handle_frame does id c t
      handed c a h = ap (λ x. after_read does id t (some (c, x))) h
