-- ===== src/Conn/Examples.antt =====
-- Two messages of one byte and two, in three reads.
use async_thrift.Prelude.{ℕ, ◌≡◌, ◌≢◌, refl, List, [], ◌∷◌, ◌++◌, arith, Option, none, some, map}
use async_thrift.Conn.{
  Conn, Action, closes, resize, write_at, get_frame_size, fresh_buffer, common_init, restart_recv,
  continue_recv, handle_frame, handle_header, handle_buffer, store, on_handle_read, move_front,
  consume, on_handle_write, proto_negative_size,
}
use async_thrift.Conn.Frame.{encode, encode_all, parse}
use async_thrift.Conn.Inv.{IsSound, Meets}
use async_thrift.Conn.Handlers.{on_handle_read-Meets}
use async_thrift.Conn.Stream.{
  Session, opened, received, replied, Accounts, Session-Accounts, Session-delivers,
}
use async_thrift.Conn.Progress.{Settles, Session-Settles, Session-stays_open}

abbrev messages : List (List ℕ)
messages = (7 ∷ []) ∷ (8 ∷ 9 ∷ []) ∷ []

-- What a handler results in, if it has a result.
abbrev outcome : Option (Conn × Action) → Conn × Action
outcome none = restart_recv common_init
outcome (some r) = r

abbrev first_read : Conn × Action
first_read = outcome (on_handle_read (restart_recv common_init).0 none (0 ∷ 0 ∷ 0 ∷ []))

run_code : Unit {0}
unfolding restart_recv common_init fresh_buffer on_handle_read store handle_buffer handle_header
    handle_frame continue_recv move_front consume on_handle_write resize write_at get_frame_size
run_code = tt

after_first : Session (0 ∷ 0 ∷ 0 ∷ []) [] first_read
unfolding run_code
after_first = received (0 ∷ 0 ∷ 0 ∷ []) opened refl (omega arith) refl

abbrev second_read : Conn × Action
second_read = outcome (on_handle_read first_read.0 none (1 ∷ 7 ∷ 0 ∷ 0 ∷ []))

after_second : Session (encode (7 ∷ []) ++ 0 ∷ 0 ∷ []) [] second_read
unfolding run_code
after_second = received (1 ∷ 7 ∷ 0 ∷ 0 ∷ []) after_first refl (omega arith) refl

after_reply :
    Session
      (encode (7 ∷ []) ++ 0 ∷ 0 ∷ [])
      (encode (7 ∷ []) ∷ [])
      (outcome (on_handle_write second_read.0 none))
unfolding run_code
after_reply = replied (encode (7 ∷ [])) after_second refl refl

abbrev third_read : Conn × Action
third_read =
    outcome
      (on_handle_read (outcome (on_handle_write second_read.0 none)).0 none (0 ∷ 2 ∷ 8 ∷ 9 ∷ []))

after_third : Session (encode_all messages) (encode (7 ∷ []) ∷ []) third_read
unfolding run_code
after_third = received (0 ∷ 2 ∷ 8 ∷ 9 ∷ []) after_reply refl (omega arith) refl

abbrev finished : Conn × Action
finished = outcome (on_handle_write third_read.0 none)

at_end : Session (encode_all messages) (map encode messages) finished
unfolding run_code
at_end = replied (encode (8 ∷ 9 ∷ [])) after_third refl refl

Session-Accounts_example : Accounts (encode_all messages) (map encode messages) finished
Session-Accounts_example = Session-Accounts at_end

Session-delivers_example : map encode messages ≡ map encode messages
unfolding run_code
Session-delivers_example =
    Session-delivers {off = 0} {room = 4096} messages (omega arith) at_end refl refl

Session-Settles_example : Settles (encode (7 ∷ []) ++ 0 ∷ 0 ∷ []) []
Session-Settles_example = Session-Settles after_second

Session-stays_open_example : second_read.1 ≢ closes proto_negative_size
Session-stays_open_example =
    Session-stays_open messages (0 ∷ 2 ∷ 8 ∷ 9 ∷ []) proto_negative_size (omega arith) after_second
      refl

-- The bytes that wait when the second message is half read, and the rest of it.
on_handle_read-Meets_example :
    (r : Conn × Action) × (on_handle_read first_read.0 none (1 ∷ 7 ∷ 0 ∷ 0 ∷ []) ≡ some r)
    × Meets (0 ∷ 0 ∷ 0 ∷ 1 ∷ 7 ∷ 0 ∷ 0 ∷ []) (parse (0 ∷ 0 ∷ 0 ∷ 1 ∷ 7 ∷ 0 ∷ 0 ∷ [])) r
unfolding run_code
on_handle_read-Meets_example =
    on_handle_read-Meets first_read.0 first_sound (1 ∷ 7 ∷ 0 ∷ 0 ∷ []) (omega arith)
  where
    first_sound : IsSound first_read.0
    first_sound = record {
      roomy = omega arith;
      limited = omega arith;
      within = omega arith;
      header = tt;
    }
