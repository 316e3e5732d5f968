-- ===== src/Client/Handlers.antt =====
-- What a completion handler of the client comes to.
use async_thrift.Prelude.{
  ℕ, ◌-◌, ◌≤◌, ◌≡◌, ◌⊎◌, Bool, leb, length, refl, sym, ap, ◌∙◌, subst, List, ◌∷◌, true, false,
  Option, none, some, arith, if◌then◌else◌, Bool-cases, inl, inr,
}
use async_thrift.Conn.{
  Conn, restart_recv, handle_buffer, store, CloseReason, Action, reads, frame_ready, closes,
}
use async_thrift.Conn.Close.{handle_buffer-IsSizeError, IsSizeError, on_handle_read_lem}
use async_thrift.Conn.Inv.{IsSound}
use async_thrift.Conn.Handlers.{on_handle_read-some}
use async_thrift.Errors.{ErrorCode, Codes, AreErrors, failed, close_code}
use async_thrift.Client.{
  AsyncOp, Socket, idle, reading, Client, Filled, filled_code, complete_pending_op, release_socket,
  on_close, on_handle_frame, after_read, io_code, read_with, on_handle_read, start_reply,
  write_with, on_handle_write,
}

-- What a completion handler may make of a client whose operation `op` is pending: it goes on
-- reading, or the callback has been invoked, once, and nothing is pending.
pub data Handled (op : AsyncOp) (c : Client) : Client → Type 0 where
  goes_on :
      {d : Client}
      → op.is_oneway ≡ false
      → d.pending_op ≡ some op
      → d.outstanding ≡ reading
      → d.completed ≡ c.completed
      → Handled op c d
  called_back :
      {d : Client} (ec : ErrorCode)
      → d.pending_op ≡ none
      → d.outstanding ≡ idle
      → d.completed ≡ (op.callback, ec) ∷ c.completed
      → Handled op c d

abbrev pub Handles : AsyncOp → Client → Option Client → Type 0
Handles op c r = (d : Client) × (r ≡ some d) × Handled op c d

complete-Handles :
    (op : AsyncOp) (ec : ErrorCode) (c d : Client)
    → d.pending_op ≡ some op
    → d.completed ≡ c.completed
    → Handles op c (complete_pending_op ec d)
unfolding complete_pending_op
complete-Handles op ec c d p q = rw p (
  record d { pending_op = none; outstanding = idle; completed = (op.callback, ec) ∷ d.completed },
  refl,
  called_back ec refl refl (ap (◌∷◌ (op.callback, ec)) q),
)

release-same :
    (s : Option Socket) (c : Client)
    → ((release_socket s c).pending_op ≡ c.pending_op)
      × ((release_socket s c).completed ≡ c.completed)
release-same none c = (refl, refl)
release-same (some s) c = (refl, refl)

on_close-Handles :
    (op : AsyncOp) (ec : ErrorCode) (c d : Client)
    → failed ec ≡ true
    → d.pending_op ≡ some op
    → d.completed ≡ c.completed
    → Handles op c (on_close ec d)
unfolding on_close
on_close-Handles op ec c d f p q =
    let (r, r') = release-same d.socket d in
    rw f (complete-Handles op ec c (release_socket d.socket d) (r ∙ p) (r' ∙ q))

close_code-failed :
    (t : Codes) → AreErrors t → (x : CloseReason) → IsSizeError x → failed (close_code t x) ≡ true
unfolding failed close_code
close_code-failed t e x h = ground arith

after_read-Handles :
    (t : Codes) (e : AreErrors t) (r : Filled) (op : AsyncOp) (c : Client) (next : Conn × Action)
    → ((x : CloseReason) → next.1 ≡ closes x → IsSizeError x)
    → c.pending_op ≡ some op
    → op.is_oneway ≡ false
    → Handles op c (after_read t r c (some next))
unfolding on_handle_frame
after_read-Handles t e r op c (conn, reads off room) h p w =
    (record c { conn = conn; outstanding = reading }, refl, goes_on w p refl refl)
after_read-Handles t e r op c (conn, frame_ready frame) h p w =
    complete-Handles op (filled_code t r) c (record c { conn = conn }) p refl
after_read-Handles t e r op c (conn, closes x) h p w =
    on_close-Handles op (close_code t x) c (record c { conn = conn })
      (close_code-failed t e x (h x refl)) p refl

module _ (t : Codes) (e : AreErrors t) (op : AsyncOp) (c : Client)
    (pending : c.pending_op ≡ some op) where
  stored-Handles :
      (bytes : List ℕ) (r : Filled)
      → op.is_oneway ≡ false
      → Handles op c (after_read t r c (some (handle_buffer (store c.conn bytes))))
  stored-Handles bytes r w =
      after_read-Handles t e r op c (handle_buffer (store c.conn bytes))
        (handle_buffer-IsSizeError (store c.conn bytes)) pending w

  -- A completed read, with an error or with no more bytes than there is room for, at a client with a
  -- sound buffer whose pending operation expects a reply fails no assertion, if no error number that
  -- the code names is 0: the client reads on, with the operation pending, or it has invoked the
  -- operation's callback, once, and nothing is pending.
  pub on_handle_read-Handles :
      (ec : ℕ) (bytes : List ℕ) (r : Filled)
      → op.is_oneway ≡ false
      → IsSound c.conn
      → length bytes ≤ length c.conn.recv_buffer - c.conn.bytes_recv
      → Handles op c (on_handle_read t ec bytes r c)
  unfolding on_handle_read
  on_handle_read-Handles ec bytes r w sound fits =
      subst (λ o. Handles op c (read_with t ec bytes r o c)) (sym pending)
        (elim (Bool-cases (failed (io_code ec))) [
          | inl f ↦ rw f (on_close-Handles op (io_code ec) c c f pending refl)
          | inr f ↦ rw f (
              subst (λ x. Handles op c (after_read t r c x))
                (sym (on_handle_read-some c.conn sound bytes fits)) (stored-Handles bytes r w))
        ])

  -- The same of a read after which the assertion on the counter does not fail.
  pub on_handle_read-Handled :
      {d : Client} (ec : ℕ) (bytes : List ℕ) (r : Filled)
      → op.is_oneway ≡ false
      → on_handle_read t ec bytes r c ≡ some d
      → Handled op c d
  unfolding on_handle_read
  on_handle_read-Handled {d} ec bytes r w =
      subst (λ o. read_with t ec bytes r o c ≡ some d → Handled op c d) (sym pending)
        (elim (Bool-cases (failed (io_code ec))) [
          | inl f ↦ rw f (handled (on_close-Handles op (io_code ec) c c f pending refl))
          | inr f ↦ rw f (
              subst (λ x. after_read t r c x ≡ some d → Handled op c d)
                (sym (on_handle_read_lem c.conn bytes))
                (by_assertion
                  (leb (store c.conn bytes).bytes_recv (length (store c.conn bytes).recv_buffer))))
        ])
    where
      handled : {x : Option Client} → Handles op c x → x ≡ some d → Handled op c d
      handled (x, runs, h) runs' = subst (Handled op c) same h
        where
          same : x ≡ d
          same = cc

      by_assertion :
          (b : Bool)
          → after_read t r c (if b then some (handle_buffer (store c.conn bytes)) else none)
            ≡ some d
          → Handled op c d
      by_assertion true runs = handled (stored-Handles bytes r w) runs
      by_assertion false runs = cc

  written-Handles :
      (ec : ℕ)
      → (op.is_oneway ≡ true) ⊎ (op.is_oneway ≡ false)
      → Handles op c (if op.is_oneway then complete_pending_op (io_code ec) c else start_reply c)
  written-Handles ec (inl o) =
      subst (λ b. Handles op c (if b then complete_pending_op (io_code ec) c else start_reply c))
        (sym o) (complete-Handles op (io_code ec) c c pending refl)
  written-Handles ec (inr o) =
      subst (λ b. Handles op c (if b then complete_pending_op (io_code ec) c else start_reply c))
        (sym o)
        (
          record c { conn = (restart_recv c.conn).0; outstanding = reading },
          refl,
          goes_on o pending refl refl,
        )

  -- A completed write at a client with a pending operation fails no assertion: the callback has been
  -- invoked, once, and nothing is pending, or the operation is not oneway and waits for its reply.
  pub on_handle_write-Handles : (ec : ℕ) → Handles op c (on_handle_write ec c)
  unfolding on_handle_write
  on_handle_write-Handles ec =
      subst (λ o. Handles op c (write_with ec o c)) (sym pending)
        (elim (Bool-cases (failed (io_code ec))) [
          | inl f ↦ rw f (on_close-Handles op (io_code ec) c c f pending refl)
          | inr f ↦ rw f (written-Handles ec (Bool-cases op.is_oneway))
        ])
