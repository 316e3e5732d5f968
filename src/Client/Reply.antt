-- ===== src/Client/Reply.antt =====
-- What the user of a client is told: the error code of a reply, and the sockets that change hands.
use async_thrift.Prelude.{
  ◌≡◌, ◌≢◌, ◌↔◌, refl, ap, ◌∙◌, ◌∷◌, ◌++◌, Bool, true, false, if◌then◌else◌, Option, none, some,
  arith,
}
use async_thrift.Errors.{
  ErrorCode, Codes, AreErrors, application_exception, protocol_exception, transport_exception,
  thrift_exception, std_exception, unknown_exception, failed, make_error_code,
}
use async_thrift.Client.{
  AsyncOp, Socket, Client, idle, Filled, filled, threw, filled_code, complete_op,
  complete_pending_op, on_handle_frame, close, close_socket, still_open, is_own, attach,
  attach_with, detach, detach_with, done,
}

-- The outcomes of fill_result whose error code is not 0.
abbrev pub IsReported : Filled → Type 0
IsReported filled = ⊥
IsReported (threw (application_exception n)) = n ≢ 0
IsReported (threw (protocol_exception n)) = n ≢ 0
IsReported (threw (transport_exception n)) = n ≢ 0
IsReported (threw thrift_exception) = ⊥
IsReported (threw std_exception) = Unit
IsReported (threw unknown_exception) = Unit

failed-IsReported :
    (t : Codes) → AreErrors t → (r : Filled) → (failed (filled_code t r) ≡ true) ↔ IsReported r
unfolding failed make_error_code
failed-IsReported t e filled = ground arith
failed-IsReported t e (threw (application_exception n)) = ground arith
failed-IsReported t e (threw (protocol_exception n)) = ground arith
failed-IsReported t e (threw (transport_exception n)) = ground arith
failed-IsReported t e (threw thrift_exception) = ground arith
failed-IsReported t e (threw std_exception) = ground (arith, e.bad_message_ne)
failed-IsReported t e (threw unknown_exception) = ground (arith, e.bad_message_ne)

-- What a whole reply frame comes to at a client with a pending operation, whatever fill_result makes
-- of it and if no error number that the code names is 0: the operation is
-- over and its callback is told an error exactly in the reported cases. A plain TException, or an
-- exception of type 0, looks like success.
pub on_handle_frame-reports :
    (t : Codes) (r : Filled) (op : AsyncOp) (c : Client)
    → AreErrors t
    → c.pending_op ≡ some op
    → (ec : ErrorCode) × (on_handle_frame t r c
        ≡ some (record c {
          pending_op = none;
          outstanding = idle;
          completed = (op.callback, ec) ∷ c.completed;
        }))
      × ((failed ec ≡ true) ↔ IsReported r)
unfolding on_handle_frame complete_pending_op
on_handle_frame-reports t r op c e p =
    (filled_code t r, ap (λ o. complete_op o (filled_code t r) c) p, failed-IsReported t e r)

closed-handles :
    (m : Option Socket) (c : Client)
    → ((close_socket m c).closed ≡ still_open m ++ c.closed)
      × ((close_socket m c).pending_op ≡ c.pending_op)
      × ((close_socket m c).completed ≡ c.completed)
closed-handles none c = (refl, refl, refl)
closed-handles (some s) c = (refl, refl, refl)

-- An idle client takes a socket over and gives it back: the socket that it had before is closed if
-- it was open, the one attached is as it was, but closed if it is the client's own, and no reference
-- to either is left.
pub attach-detach :
    (s : Socket) (c : Client)
    → c.pending_op ≡ none
    → (d e : Client) × (attach s c ≡ done d)
      × (d.socket
          ≡ some (record {
            handle = s.handle;
            opened = if is_own s c.socket then false else s.opened;
          }))
      × (detach d ≡ done e)
      × (e.socket ≡ none)
      × (e.closed ≡ still_open c.socket ++ c.closed)
      × (e.completed ≡ c.completed)
unfolding attach detach close
attach-detach s c p =
    let (closed, same, told) = closed-handles c.socket c in
    let d = record (close c) {
      socket = some (if is_own s c.socket then record s { opened = false } else s);
      strand = none;
    } in
    (
      d,
      record d { socket = none; strand = none },
      ap (λ m. attach_with m s c) p,
      ap some (by_own (is_own s c.socket)),
      ap (λ m. detach_with m d) (same ∙ p),
      refl,
      closed,
      told,
    )
  where
    by_own :
        (b : Bool)
        → (if b then record s { opened = false } else s)
          ≡ record { handle = s.handle; opened = if b then false else s.opened }
    by_own true = refl
    by_own false = refl
