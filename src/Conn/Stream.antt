-- ===== src/Conn/Stream.antt =====
-- A server connection from accept on: what it has received, the frames that it has answered, and
-- the action that it waits for. The peer's bytes arrive in pieces of any size. A session ends where a
-- handler has no result.
use mathlib.Core.List.{flatten}
use async_thrift.Prelude.{
  ℕ, ◌≤◌, ◌≡◌, refl, sym, ap, ◌∙◌, subst, List, [], ◌∷◌, ◌++◌, append_assoc, append-nil, map, none,
  some, Option, inl, inr, ◌⊎◌, ◌<◌, arith, length, length-append,
}
use async_thrift.Conn.{
  Conn, Action, reads, frame_ready, restart_recv, common_init, on_handle_read, on_handle_write,
}
use async_thrift.Conn.Frame.{
  Parsed, incomplete, illegal, complete, parse, parse-encode, IsFrame, parse-IsFrame, IsFrame-parse,
  encode, encode_all, Sendable, parse_short,
}
use async_thrift.Conn.Inv.{Meets, pending}
use async_thrift.Conn.Handlers.{common_init-Meets, on_handle_read-Meets, on_handle_write-Continues}

abbrev pub All {ℓ κ} : {A : Type ℓ} → (A → Type κ) → List A → Type κ
All P [] = Unit
All P (x ∷ xs) = P x × All P xs

-- A read completes with at most as many bytes as there was room for, and only where a read is
-- outstanding; a write completes only after a frame was handed over and answered.
pub data Session : List ℕ → List (List ℕ) → Conn × Action → Type 0 where
  opened : Session [] [] (restart_recv common_init)
  received :
      {got : List ℕ} {answered : List (List ℕ)} {r q : Conn × Action} {off room : ℕ} (xs : List ℕ)
      → Session got answered r
      → r.1 ≡ reads off room
      → length xs ≤ room
      → on_handle_read r.0 none xs ≡ some q
      → Session (got ++ xs) answered q
  replied :
      {got : List ℕ} {answered : List (List ℕ)} {r q : Conn × Action} (frame : List ℕ)
      → Session got answered r
      → r.1 ≡ frame_ready frame
      → on_handle_write r.0 none ≡ some q
      → Session got (answered ++ frame ∷ []) q

-- What a session knows: the frames answered and the bytes that wait make up all that was received,
-- and the outstanding action is the one that `parse` asks for.
pub record Accounts (got : List ℕ) (answered : List (List ℕ)) (r : Conn × Action) : Type 0 where
  pub waiting : List ℕ
  pub conserved : got ≡ flatten answered ++ waiting
  pub framed : All IsFrame answered
  pub meets : Meets waiting (parse waiting) r

reads-incomplete :
    {r : Conn × Action} {off room : ℕ} (waiting : List ℕ) (p : Parsed)
    → Meets waiting p r
    → r.1 ≡ reads off room
    → (p ≡ incomplete) × Meets waiting incomplete r
reads-incomplete waiting incomplete m e = (refl, m)
reads-incomplete waiting (illegal x) m e = cc
reads-incomplete waiting (complete f rest) m e = cc

pub ready-complete :
    {r : Conn × Action} {frame : List ℕ} (waiting : List ℕ) (p : Parsed)
    → Meets waiting p r
    → r.1 ≡ frame_ready frame
    → (rest : List ℕ) × (p ≡ complete frame rest) × Meets waiting (complete frame rest) r
ready-complete waiting incomplete m e = cc
ready-complete waiting (illegal x) m e = cc
ready-complete {r} {frame} waiting (complete f rest) m e =
    (rest, ap (λ g. complete g rest) (sym same), (m.0, m.1, e, m.3, m.4 ∙ ap length (sym same)))
  where
    same : frame ≡ f
    same = cc

pub flatten-snoc : (fs : List (List ℕ)) (f : List ℕ) → flatten (fs ++ f ∷ []) ≡ flatten fs ++ f
unfolding flatten
flatten-snoc [] f = append-nil f
flatten-snoc (g ∷ gs) f = ap (◌++◌ g) (flatten-snoc gs f) ∙ sym (append_assoc g (flatten gs) f)

All-snoc :
    (fs : List (List ℕ)) (f : List ℕ) → All IsFrame fs → IsFrame f → All IsFrame (fs ++ f ∷ [])
All-snoc [] f a h = (h, tt)
All-snoc (g ∷ gs) f a h = (a.0, All-snoc gs f a.1 h)

pub same_result :
    {o : Option (Conn × Action)} {x y : Conn × Action} → o ≡ some x → o ≡ some y → x ≡ y
same_result h h' = cc

received-Accounts :
    {got : List ℕ} {answered : List (List ℕ)} {r q : Conn × Action} {off room : ℕ} (xs : List ℕ)
    → Accounts got answered r
    → r.1 ≡ reads off room
    → length xs ≤ room
    → on_handle_read r.0 none xs ≡ some q
    → Accounts (got ++ xs) answered q
received-Accounts {got} {answered} {r} {q} {off} {room} xs a e h runs =
    let (_, m) = reads-incomplete a.waiting (parse a.waiting) a.meets e in
    let (sound, held, act, _) = m in
    let (q', runs', met) = on_handle_read-Meets r.0 sound xs (fits (sym act ∙ e)) in
    record {
      waiting = a.waiting ++ xs;
      conserved = ap (λ g. g ++ xs) a.conserved ∙ append_assoc (flatten answered) a.waiting xs;
      framed = a.framed;
      meets =
          subst (λ w. Meets (w ++ xs) (parse (w ++ xs)) q) held
            (subst (λ x. Meets (pending r.0 ++ xs) (parse (pending r.0 ++ xs)) x)
              (same_result runs' runs) met);
    }
  where
    fits : {o n : ℕ} → reads o n ≡ reads off room → length xs ≤ n
    fits same = ground arith

replied-Accounts :
    {got : List ℕ} {answered : List (List ℕ)} {r q : Conn × Action} (frame : List ℕ)
    → Accounts got answered r
    → r.1 ≡ frame_ready frame
    → on_handle_write r.0 none ≡ some q
    → Accounts got (answered ++ frame ∷ []) q
replied-Accounts {got} {answered} {r} {q} frame a e runs =
    let (rest, split, m) = ready-complete a.waiting (parse a.waiting) a.meets e in
    let (cut, framed) = parse-IsFrame a.waiting frame rest split in
    record {
      waiting = rest;
      conserved =
          a.conserved
          ∙ ap (◌++◌ (flatten answered)) cut
          ∙ sym (append_assoc (flatten answered) frame rest)
          ∙ ap (λ g. g ++ rest) (sym (flatten-snoc answered frame));
      framed = All-snoc answered frame a.framed framed;
      meets = continued rest (on_handle_write-Continues r.0 m.0 frame rest (m.1 ∙ cut) m.4);
    }
  where
    continued :
        (rest : List ℕ)
        → ((r' : Conn × Action) × (on_handle_write r.0 none ≡ some r') × Meets rest (parse rest) r')
          ⊎ ((on_handle_write r.0 none ≡ none) × (length frame < length rest))
        → Meets rest (parse rest) q
    continued rest (inl (r', runs', met)) =
        subst (Meets rest (parse rest)) (same_result runs' runs) met
    continued rest (inr (stuck, long)) = cc

-- However the bytes are cut into reads, as long as no more waits behind an answered frame than it is
-- long, so that each memcpy has a result: the answered frames followed by the waiting bytes are
-- exactly the bytes received, each answered frame is one frame, and the handler's action is what
-- `parse` says of the waiting bytes.
pub Session-Accounts :
    {got : List ℕ} {answered : List (List ℕ)} {r : Conn × Action}
    → Session got answered r
    → Accounts got answered r
unfolding flatten
Session-Accounts opened = record {
  waiting = [];
  conserved = refl;
  framed = tt;
  meets = rw (parse_short [] (omega arith)) common_init-Meets;
}
Session-Accounts (received xs s e h runs) = received-Accounts xs (Session-Accounts s) e h runs
Session-Accounts (replied frame s e runs) = replied-Accounts frame (Session-Accounts s) e runs

pub complete-injective : {f g r q : List ℕ} → complete f r ≡ complete g q → (f ≡ g) × (r ≡ q)
complete-injective h = (cc, cc)

-- Frames at the front of a stream of messages are those messages.
frames-of-messages :
    (answered : List (List ℕ)) (waiting : List ℕ) (ps : List (List ℕ))
    → All IsFrame answered
    → All Sendable ps
    → flatten answered ++ waiting ≡ encode_all ps
    → parse waiting ≡ incomplete
    → answered ≡ map encode ps
unfolding flatten
frames-of-messages [] waiting [] a s e h = refl
frames-of-messages [] waiting (p ∷ ps) a s e h = cc (parse-encode p (encode_all ps) s.0)
frames-of-messages (f ∷ fs) waiting [] a s e h = absurd (
    omega (
      arith,
      ap length e,
      length-append (f ++ flatten fs) waiting,
      length-append f (flatten fs),
      a.0.announced,
    ))
frames-of-messages (f ∷ fs) waiting (p ∷ ps) a s e h =
    let (first, others) = complete-injective both in
    cc (first, frames-of-messages fs waiting ps a.1 s.1 others h)
  where
    both : complete f (flatten fs ++ waiting) ≡ complete (encode p) (encode_all ps)
    both =
        sym (IsFrame-parse f (flatten fs ++ waiting) a.0)
        ∙ ap parse (sym (append_assoc f (flatten fs) waiting) ∙ e)
        ∙ parse-encode p (encode_all ps) s.0

-- A peer sends messages, each of at least one byte and shorter than max_frame_size, one after the
-- other and in pieces of any size, in a run in which every memcpy has a result: no more waits behind
-- an answered frame than it is long. When all their bytes have come in and the connection waits for
-- more, the frames handed over and answered are those messages, whole, once each and in order.
pub Session-delivers :
    {got : List ℕ} {answered : List (List ℕ)} {r : Conn × Action} {off room : ℕ}
    (messages : List (List ℕ))
    → All Sendable messages
    → Session got answered r
    → got ≡ encode_all messages
    → r.1 ≡ reads off room
    → answered ≡ map encode messages
Session-delivers messages s run e waits =
    let a = Session-Accounts run in
    frames-of-messages _ a.waiting messages a.framed s (sym a.conserved ∙ e)
      (reads-incomplete a.waiting (parse a.waiting) a.meets waits).0
