-- ===== src/Conn/Progress.antt =====
-- A connection makes progress: finitely many replies bring it back to reading, where the memcpy
-- that follows each has a result, and a peer that
-- keeps to the protocol is never hung up on.
use mathlib.Core.List.{flatten}
use async_thrift.Prelude.{
  ℕ, zero, suc, ◌+◌, ◌≤◌, ◌<◌, ◌≡◌, ◌≢◌, refl, sym, ap, ◌∙◌, subst, none, some, ◌⊎◌, inl, inr, List,
  [], ◌∷◌, ◌++◌, append_assoc, append-nil, arith, length, length-append,
}
use async_thrift.Conn.{
  Conn, Action, reads, frame_ready, closes, on_handle_write, CloseReason, get_frame_size,
}
use async_thrift.Conn.Buffer.{get_frame_size-append}
use async_thrift.Conn.Frame.{
  Parsed, incomplete, illegal, complete, parse, parse-encode, IsFrame, parse-IsFrame, IsFrame-parse,
  parse-illegal, get_frame_size-encode, encode, encode_all, Sendable,
}
use async_thrift.Conn.Inv.{Meets, length-pending}
use async_thrift.Conn.Handlers.{on_handle_write-Continues}
use async_thrift.Conn.Stream.{
  All, Session, replied, ready-complete, Session-Accounts, complete-injective, flatten-snoc,
}

-- No frame waits for an answer.
abbrev pub IsSettled : Action → Type 0
IsSettled (reads off room) = Unit
IsSettled (frame_ready frame) = ⊥
IsSettled (closes e) = Unit

-- More waits behind a handed over frame than the frame is long, and the completion of its reply's
-- write has no result.
abbrev pub Overlaps : Conn × Action → Type 0
Overlaps (c, a) =
    (frame : List ℕ) × (a ≡ frame_ready frame)
    × (length frame + length frame < c.bytes_recv)
    × (on_handle_write c none ≡ none)

pub record Settles (got : List ℕ) (answered : List (List ℕ)) : Type 0 where
  pub later : List (List ℕ)
  pub at : Conn × Action
  pub session : Session got (answered ++ later) at
  pub settled : IsSettled at.1 ⊎ Overlaps at

module _ {got : List ℕ} {answered : List (List ℕ)} {r : Conn × Action}
    (s : Session got answered r) where
  answered-le : length (flatten answered) ≤ length got
  answered-le =
      let a = Session-Accounts s in
      omega (arith, ap length a.conserved, length-append (flatten answered) a.waiting)

  answered_grows :
      (frame : List ℕ)
      → r.1 ≡ frame_ready frame
      → length (flatten answered) < length (flatten (answered ++ frame ∷ []))
  answered_grows frame e =
      let a = Session-Accounts s in
      let (rest, split, _) = ready-complete a.waiting (parse a.waiting) a.meets e in
      omega (
        arith,
        (parse-IsFrame a.waiting frame rest split).1.announced,
        ap length (flatten-snoc answered frame),
        length-append (flatten answered) frame,
      )

  answers :
      (frame : List ℕ)
      → r.1 ≡ frame_ready frame
      → ((q : Conn × Action) × (on_handle_write r.0 none ≡ some q)) ⊎ Overlaps r
  answers frame e =
      let a = Session-Accounts s in
      let (rest, split, m) = ready-complete a.waiting (parse a.waiting) a.meets e in
      let cut = (parse-IsFrame a.waiting frame rest split).0 in
      elim (on_handle_write-Continues r.0 m.0 frame rest (m.1 ∙ cut) m.4) [
        | inl (q, runs, met) ↦ inl (q, runs)
        | inr (stuck, long) ↦ inr (
          frame,
          e,
          omega (
            arith,
            long,
            length-append frame rest,
            ap length (m.1 ∙ cut),
            length-pending r.0 m.0.within,
          ),
          stuck,
        )
      ]

  settled_here : IsSettled r.1 ⊎ Overlaps r → Settles got answered
  settled_here h = record { later = []; at = r; session = rw append-nil s; settled = h }

settle :
    (fuel : ℕ) {got : List ℕ} {answered : List (List ℕ)} {r : Conn × Action}
    (s : Session got answered r) (act : Action)
    → r.1 ≡ act
    → length got < fuel + length (flatten answered)
    → Settles got answered
settle zero s act e h = absurd (omega (arith, answered-le s))
settle (suc fuel) s (reads off room) e h = settled_here s (inl (subst IsSettled (sym e) tt))
settle (suc fuel) s (closes x) e h = settled_here s (inl (subst IsSettled (sym e) tt))
settle (suc fuel) {got} {answered} {r} s (frame_ready frame) e h = elim (answers s frame e) [
  | inr stuck ↦ settled_here s (inr stuck)
  | inl (q, runs) ↦
      let next =
        settle fuel (replied frame s e runs) q.1 refl (omega (arith, answered_grows s frame e)) in
      record {
        later = frame ∷ next.later;
        at = next.at;
        session =
            subst (λ l. Session got l next.at) (append_assoc answered (frame ∷ []) next.later)
              next.session;
        settled = next.settled;
      }
]

-- From wherever a session stands, finitely many replies answer every whole frame received, and then
-- the connection reads or has been closed for an illegal size; or they come to a frame behind which
-- more waits than it is long, where the memcpy after its reply overlaps and has no result.
pub Session-Settles :
    {got : List ℕ} {answered : List (List ℕ)} {r : Conn × Action}
    → Session got answered r
    → Settles got answered
Session-Settles {got} {answered} {r} s = settle (suc (length got)) s r.1 refl (omega arith)

closes-illegal :
    (r : Conn × Action) {x : CloseReason} (waiting : List ℕ) (p : Parsed)
    → Meets waiting p r
    → r.1 ≡ closes x
    → p ≡ illegal x
closes-illegal r waiting incomplete m e = cc
closes-illegal r waiting (illegal y) m e = cc
closes-illegal r waiting (complete f rest) m e = cc

lawful_front :
    (answered : List (List ℕ)) (waiting future : List ℕ) (ps : List (List ℕ)) (x : CloseReason)
    → All IsFrame answered
    → All Sendable ps
    → flatten answered ++ (waiting ++ future) ≡ encode_all ps
    → parse waiting ≢ illegal x
unfolding flatten
lawful_front [] waiting future [] x a s e h =
    omega (arith, ap length e, length-append waiting future, (parse-illegal waiting x h).0)
lawful_front [] waiting future (p ∷ ps) x a s e h =
    let (long, bad) = parse-illegal waiting x h in
    let same : get_frame_size waiting ≡ length p =
      sym (get_frame_size-append waiting future long)
      ∙ ap get_frame_size e
      ∙ get_frame_size-encode p (encode_all ps) in
    omega (arith, same, s.0, bad)
lawful_front (f ∷ fs) waiting future [] x a s e h = omega (
  arith,
  ap length e,
  length-append (f ++ flatten fs) (waiting ++ future),
  length-append f (flatten fs),
  a.0.announced,
)
lawful_front (f ∷ fs) waiting future (p ∷ ps) x a s e h =
    lawful_front fs waiting future ps x a.1 s.1 (complete-injective both).1 h
  where
    both : complete f (flatten fs ++ (waiting ++ future)) ≡ complete (encode p) (encode_all ps)
    both =
        sym (IsFrame-parse f (flatten fs ++ (waiting ++ future)) a.0)
        ∙ ap parse (sym (append_assoc f (flatten fs) (waiting ++ future)) ∙ e)
        ∙ parse-encode p (encode_all ps) s.0

-- While what has come in is the front part of a stream of sendable messages, in a run in which every
-- memcpy has a result, the connection is not closed by the frame check. A message is sendable with at least one byte and less than
-- max_frame_size.
pub Session-stays_open :
    {got : List ℕ} {answered : List (List ℕ)} {r : Conn × Action} (messages : List (List ℕ))
    (future : List ℕ) (x : CloseReason)
    → All Sendable messages
    → Session got answered r
    → got ++ future ≡ encode_all messages
    → r.1 ≢ closes x
Session-stays_open {answered = answered} {r = r} messages future x s run e c =
    let a = Session-Accounts run in
    lawful_front answered a.waiting future messages x a.framed s
      (sym (append_assoc (flatten answered) a.waiting future)
        ∙ ap (λ g. g ++ future) (sym a.conserved)
        ∙ e)
      (closes-illegal r a.waiting (parse a.waiting) a.meets c)
