-- ===== src/Client/Once.antt =====
-- Every asynchronous call has its callback invoked exactly once.
use async_thrift.Prelude.{
  ℕ, ◌+◌, ◌≡◌, refl, sym, ap, subst, subst₂, List, [], ◌∷◌, ◌++◌, Bool, true, false, Option, none,
  some, arith, if◌then◌else◌, count, count-append,
}
use async_thrift.Errors.{ErrorCode, Codes, AreErrors}
use async_thrift.Client.{
  AsyncOp, Socket, Outstanding, idle, writing, reading, Client, Filled, on_handle_read,
  on_handle_write, call, reject_op, send_op, socket_is_open, close, close_socket, attach,
  attach_with, detach, detach_with, drop_socket, done,
}
use async_thrift.Client.Handlers.{
  Handled, Handles, goes_on, called_back, on_handle_read-Handled, on_handle_write-Handles,
}

-- An operation is pending exactly while a write or a read is in flight, and a oneway one only
-- during its write.
abbrev pub Agree : Outstanding → Option AsyncOp → Type 0
Agree idle none = Unit
Agree writing (some op) = Unit
Agree reading (some op) = op.is_oneway ≡ false
Agree _ _ = ⊥

abbrev pub IsConsistent : Client → Type 0
IsConsistent c = Agree c.outstanding c.pending_op

-- One event at a client; the list is the callbacks of the calls made.
pub data Step (t : Codes) (c : Client) : List ℕ → Client → Type 0 where
  calls : {d : Client} (op : AsyncOp) → call t op c ≡ some d → Step t c (op.callback ∷ []) d
  wrote :
      {d : Client} (ec : ℕ)
      → c.outstanding ≡ writing
      → on_handle_write ec c ≡ some d
      → Step t c [] d
  read :
      {d : Client} (ec : ℕ) (bytes : List ℕ) (r : Filled)
      → c.outstanding ≡ reading
      → on_handle_read t ec bytes r c ≡ some d
      → Step t c [] d
  closes_socket : Step t c [] (close c)
  attaches : {d : Client} (s : Socket) → attach s c ≡ done d → Step t c [] d
  detaches : {d : Client} → detach c ≡ done d → Step t c [] d

pub data Run (t : Codes) (c : Client) : List ℕ → Client → Type 0 where
  here : Run t c [] c
  next :
      {made more : List ℕ} {d e : Client}
      → Run t c made d
      → Step t d more e
      → Run t c (made ++ more) e

abbrev pub pending_id : Option AsyncOp → List ℕ
pending_id none = []
pending_id (some op) = op.callback ∷ []

abbrev pub completed_ids : List (ℕ × ErrorCode) → List ℕ
completed_ids [] = []
completed_ids ((id, ec) ∷ xs) = id ∷ completed_ids xs

-- How often a callback has been invoked, or is owed.
abbrev pub accounted : ℕ → Client → ℕ
accounted id c = count id (completed_ids c.completed) + count id (pending_id c.pending_op)

abbrev Keeps : Client → List ℕ → Client → Type 0
Keeps c made d = IsConsistent d × ((id : ℕ) → accounted id d ≡ accounted id c + count id made)

owed : (id : ℕ) {m n : Option AsyncOp} → m ≡ n → count id (pending_id m) ≡ count id (pending_id n)
owed id h = ap (λ m. count id (pending_id m)) h

called :
    (id : ℕ) {xs ys : List (ℕ × ErrorCode)}
    → xs ≡ ys
    → count id (completed_ids xs) ≡ count id (completed_ids ys)
called id h = ap (λ xs. count id (completed_ids xs)) h

Handled-Keeps :
    (op : AsyncOp) (c d : Client) → c.pending_op ≡ some op → Handled op c d → Keeps c [] d
Handled-Keeps op c d p (goes_on w q o same) =
    (subst₂ Agree (sym o) (sym q) w, λ id. omega (arith, owed id p, owed id q, called id same))
Handled-Keeps op c d p (called_back ec q o same) =
    (subst₂ Agree (sym o) (sym q) tt, λ id. ground (arith, owed id p, owed id q, called id same))

Handles-Keeps :
    (op : AsyncOp) (c : Client) {d : Client} {r : Option Client}
    → c.pending_op ≡ some op
    → Handles op c r
    → r ≡ some d
    → Keeps c [] d
Handles-Keeps op c {d} p (e, q, h) r = Handled-Keeps op c d p (subst (Handled op c) same h)
  where
    same : e ≡ d
    same = cc

-- In flight means pending.
writing_op :
    (o : Outstanding) (m : Option AsyncOp)
    → Agree o m
    → o ≡ writing
    → (op : AsyncOp) × (m ≡ some op)
writing_op writing (some op) a h = (op, refl)
writing_op idle none a h = cc
writing_op reading (some op) a h = cc
writing_op idle (some op) a h = elim a [ ]
writing_op writing none a h = elim a [ ]
writing_op reading none a h = elim a [ ]

reading_op :
    (o : Outstanding) (m : Option AsyncOp)
    → Agree o m
    → o ≡ reading
    → (op : AsyncOp) × (m ≡ some op) × (op.is_oneway ≡ false)
reading_op reading (some op) a h = (op, refl, a)
reading_op idle none a h = cc
reading_op writing (some op) a h = cc
reading_op idle (some op) a h = elim a [ ]
reading_op writing none a h = elim a [ ]
reading_op reading none a h = elim a [ ]

idle_of : (o : Outstanding) → Agree o none → o ≡ idle
idle_of idle a = refl
idle_of writing a = elim a [ ]
idle_of reading a = elim a [ ]

some-Keeps :
    (c : Client) (made : List ℕ) {x d : Client} → Keeps c made x → some x ≡ some d → Keeps c made d
some-Keeps c made {x} {d} k h = subst (Keeps c made) same k
  where
    same : x ≡ d
    same = cc

sent-Keeps :
    (op : AsyncOp) (c d : Client) (m : Option AsyncOp)
    → c.pending_op ≡ m
    → send_op m op c ≡ some d
    → Keeps c (op.callback ∷ []) d
sent-Keeps op c d none p h = some-Keeps c (op.callback ∷ []) (tt, λ id. omega (arith, owed id p)) h
sent-Keeps op c d (some q) p h = cc

called-Keeps :
    (t : Codes) (op : AsyncOp) (c d : Client) (b : Bool)
    → IsConsistent c
    → (if b then send_op c.pending_op op c else reject_op t op c) ≡ some d
    → Keeps c (op.callback ∷ []) d
called-Keeps t op c d true a h = sent-Keeps op c d c.pending_op refl h
called-Keeps t op c d false a h = some-Keeps c (op.callback ∷ []) (a, λ id. grind arith) h

call-Keeps :
    (t : Codes) (op : AsyncOp) (c d : Client)
    → IsConsistent c
    → call t op c ≡ some d
    → Keeps c (op.callback ∷ []) d
unfolding call
call-Keeps t op c d a h = called-Keeps t op c d (socket_is_open c.socket) a h

close-Keeps : (c : Client) → IsConsistent c → Keeps c [] (close c)
unfolding close
close-Keeps c a = by_socket c.socket
  where
    by_socket : (s : Option Socket) → Keeps c [] (close_socket s c)
    by_socket none = (a, λ id. omega arith)
    by_socket (some s) = (a, λ id. omega arith)

done-Keeps : (c : Client) {x d : Client} → Keeps c [] x → done x ≡ done d → Keeps c [] d
done-Keeps c {x} {d} k h = subst (Keeps c []) same k
  where
    same : x ≡ d
    same = cc

closed-same :
    (s : Option Socket) (c : Client)
    → ((close_socket s c).pending_op ≡ c.pending_op)
      × ((close_socket s c).outstanding ≡ c.outstanding)
      × ((close_socket s c).completed ≡ c.completed)
closed-same none c = (refl, refl, refl)
closed-same (some s) c = (refl, refl, refl)

attach-Keeps : (s : Socket) (c d : Client) → IsConsistent c → attach s c ≡ done d → Keeps c [] d
unfolding attach close
attach-Keeps s c d a h = go c.pending_op h
  where
    go : (m : Option AsyncOp) → attach_with m s c ≡ done d → Keeps c [] d
    go (some op) h = cc
    go none h =
        let (p, o, q) = closed-same c.socket c in
        done-Keeps c (subst₂ Agree (sym o) (sym p) a, λ id. omega (arith, owed id p, called id q)) h

detach-Keeps : (c d : Client) → IsConsistent c → detach c ≡ done d → Keeps c [] d
unfolding detach
detach-Keeps c d a h = go c.pending_op h
  where
    dropped : (m : Option Socket) → Keeps c [] (drop_socket m c)
    dropped none = (a, λ id. omega arith)
    dropped (some s) = (a, λ id. omega arith)

    go : (m : Option AsyncOp) → detach_with m c ≡ done d → Keeps c [] d
    go (some op) h = cc
    go none h = done-Keeps c (dropped c.socket) h

Step-Keeps :
    (t : Codes)
    → AreErrors t
    → {c : Client} {made : List ℕ} {d : Client} → IsConsistent c
    → Step t c made d
    → Keeps c made d
Step-Keeps t e {c} {made} {d} a (calls op h) = call-Keeps t op c d a h
Step-Keeps t e {c} a (wrote ec o h) =
    let (op, p) = writing_op c.outstanding c.pending_op a o in
    Handles-Keeps op c p (on_handle_write-Handles t e op c p ec) h
Step-Keeps t e {c} {made} {d} a (read ec bytes r o h) =
    let (op, p, w) = reading_op c.outstanding c.pending_op a o in
    Handled-Keeps op c d p (on_handle_read-Handled t e op c p ec bytes r w h)
Step-Keeps t e {c} a closes_socket = close-Keeps c a
Step-Keeps t e {c} {made} {d} a (attaches s h) = attach-Keeps s c d a h
Step-Keeps t e {c} {made} {d} a (detaches h) = detach-Keeps c d a h

-- In every history from a client whose pending operation matches what is in flight, each call made
-- is owed its callback or has had it, once for each time that it was made, and the pending operation
-- still matches what is in flight; if no error number that the code names is 0.
pub Run-Keeps :
    (t : Codes) {c : Client} {made : List ℕ} {d : Client}
    → AreErrors t
    → IsConsistent c
    → Run t c made d
    → IsConsistent d × ((id : ℕ) → accounted id d ≡ accounted id c + count id made)
Run-Keeps t e a here = (a, λ id. omega arith)
Run-Keeps t e a (next {made = made} {more = more} run step) =
    let (b, before) = Run-Keeps t e a run in
    let (f, now) = Step-Keeps t e b step in
    (f, λ id. omega (arith, before id, now id, count-append id made more))
