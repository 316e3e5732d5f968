-- ===== src/ConnPool/Outcome.antt =====
-- What get answers.
use async_thrift.Prelude.{
  ℕ, ◌≡◌, ◌↔◌, refl, sym, ap, ◌∙◌, subst, [], ◌∷◌, Bool, true, false, Option, none, some, arith,
  ◌&&◌, not, if◌then◌else◌, ◌==◌, Bool-cases, inl, inr, ◌⊎◌, Option-cases,
}
use async_thrift.Map.{Map, find}
use async_thrift.Map.Laws.{Every, find-insert}
use async_thrift.Map.Places.{in_table}
use async_thrift.ConnPool.{
  Connection, is_open, connect, add_reference, ConnPool, Held, take_closed, create_connection,
  take_free, is_empty, allocate, get, closed,
}
use async_thrift.ConnPool.Owner.{IsIdle, IsReady, IsUsed, Owned, IsHeld, take_free-IsHeld}

-- Is the connection that get tries ready?
unfoldable pub is_ready : Connection → Bool
is_ready c = is_open c && not c.in_use

-- A connection that connect has opened, or not.
connect-is_ready : (opens : Bool) (c : Connection) → IsIdle c → is_ready (connect opens c) ≡ opens
unfolding is_ready
connect-is_ready true c i = ap not i
connect-is_ready false c i = refl

take_closed-is_ready :
    (opens : Bool) (m : Map Connection) (p : ConnPool)
    → Every IsIdle m
    → is_ready (take_closed opens m p).conn ≡ opens
unfolding take_closed
take_closed-is_ready opens [] p e =
    connect-is_ready opens (record { status = closed; opened = false; in_use = false }) refl
take_closed-is_ready opens ((id, c) ∷ others) p e = connect-is_ready opens c e.0

-- The call succeeds if a connection is free, or else if the one created opens.
pub take_free-is_ready :
    (opens : Bool) (m : Map Connection) (p : ConnPool)
    → Every IsReady m
    → Every IsIdle p.closed_connections
    → is_ready (take_free opens m p).conn ≡ (if is_empty m then opens else true)
unfolding is_ready take_free create_connection
take_free-is_ready opens [] p r e = take_closed-is_ready opens p.closed_connections p e
take_free-is_ready opens ((id, c) ∷ others) p r e = both (is_open c) c.in_use r.0.1 r.0.0
  where
    both : (a b : Bool) → a ≡ true → b ≡ false → (a && not b) ≡ true
    both a b h h' = ground arith

-- Without a ready connection get answers none; with one, its id, which is then allocated.
pub allocate-none :
    (b : Bool) (held : Held)
    → is_ready held.conn ≡ false
    → (allocate b held (add_reference held.conn)).0 ≡ none
unfolding is_ready
allocate-none b held h =
    ap (λ t. (allocate b held (if t then some (record held.conn { in_use = true }) else none)).0) h

pub allocate-some :
    (b : Bool) (held : Held)
    → is_ready held.conn ≡ true
    → allocate b held (add_reference held.conn)
      ≡ allocate b held (some (record held.conn { in_use = true }))
unfolding is_ready
allocate-some b held h =
    ap (λ t. allocate b held (if t then some (record held.conn { in_use = true }) else none)) h

get-none_iff :
    (opens : Bool) (p : ConnPool)
    → Owned p []
    → ((get opens p).0 ≡ none) ↔ ((p.free_connections ≡ []) × (opens ≡ false))
unfolding get
get-none_iff opens p o =
    (λ h. fails p.free_connections refl h, λ h. allocate-none _ held (ready ∙ empty h.0 h.1))
  where
    held : Held
    held = take_free opens p.free_connections p

    ready : is_ready held.conn ≡ (if is_empty p.free_connections then opens else true)
    ready = take_free-is_ready opens p.free_connections p o.free_ready o.closed_idle

    empty :
        p.free_connections ≡ []
        → opens ≡ false
        → (if is_empty p.free_connections then opens else true) ≡ false
    empty q h = ap (λ m. if is_empty m then opens else true) q ∙ h

    served : is_ready held.conn ≡ true → (get opens p).0 ≡ some held.id
    served h = ap (λ r. r.0) (allocate-some (not (is_empty p.free_connections)) held h)

    fails :
        (m : Map Connection)
        → p.free_connections ≡ m
        → (get opens p).0 ≡ none
        → (p.free_connections ≡ []) × (opens ≡ false)
    fails [] q h = (q, by_opens opens refl)
      where
        by_opens : (b : Bool) → opens ≡ b → opens ≡ false
        by_opens true e = absurd (
            contradiction
              (sym (served (ready ∙ ap (λ m. if is_empty m then opens else true) q ∙ e)) ∙ h))
          where
            contradiction : some held.id ≡ none → ⊥
            contradiction w = cc
        by_opens false e = e
    fails (x ∷ others) q h =
        absurd (
          contradiction (sym (served (ready ∙ ap (λ m. if is_empty m then opens else true) q)) ∙ h))
      where
        contradiction : some held.id ≡ none → ⊥
        contradiction w = cc

-- Taking a connection leaves the allocated ones as they are.
pub take_closed-allocated :
    (opens : Bool) (m : Map Connection) (p : ConnPool)
    → (take_closed opens m p).pool.allocated_connections ≡ p.allocated_connections
unfolding take_closed
take_closed-allocated opens [] p = refl
take_closed-allocated opens (x ∷ others) p = refl

pub take_free-allocated :
    (opens : Bool) (m : Map Connection) (p : ConnPool)
    → (take_free opens m p).pool.allocated_connections ≡ p.allocated_connections
unfolding take_free create_connection
take_free-allocated opens [] p = take_closed-allocated opens p.closed_connections p
take_free-allocated opens (x ∷ others) p = refl

-- A held connection is in no set.
pub held-allocated :
    (held : Held) → IsHeld held → find held.id held.pool.allocated_connections ≡ none
held-allocated held (o, i) =
    absent (find held.id held.pool.allocated_connections) (ground (arith, o.placed held.id))
  where
    absent : (x : Option Connection) → in_table x ≡ 0 → x ≡ none
    absent none h = refl
    absent (some c) h = absurd (omega arith)

get-IsUsed :
    (opens : Bool) (p : ConnPool) (id : ℕ)
    → Owned p []
    → (get opens p).0 ≡ some id
    → (find id p.allocated_connections ≡ none)
      × ((c : Connection) × (find id (get opens p).1.allocated_connections ≡ some c)
          × (is_open c ≡ true)
          × IsUsed c)
unfolding get is_ready
get-IsUsed opens p id o h = elim (Bool-cases (is_ready held.conn)) [
  | inl e ↦
      let same : held.id ≡ id =
        injected (sym (ap (λ r. r.0) (allocate-some from_free held e)) ∙ h) in
      subst Spec same (
        ap (find held.id) (sym (take_free-allocated opens p.free_connections p))
            ∙ held-allocated held (take_free-IsHeld opens p o),
        (
          record held.conn { in_use = true },
          ap (λ r. find held.id r.1.allocated_connections) (allocate-some from_free held e)
              ∙ find-insert held.id held.id (record held.conn { in_use = true })
                  held.pool.allocated_connections
              ∙ here held.id,
          first (is_open held.conn) (not held.conn.in_use) e,
          refl,
        ),
      )
  | inr e ↦ absurd (impossible (sym (allocate-none from_free held e) ∙ h))
]
  where
    held : Held
    held = take_free opens p.free_connections p

    from_free : Bool
    from_free = not (is_empty p.free_connections)

    Spec : ℕ → Type 0
    Spec i =
        (find i p.allocated_connections ≡ none)
        × ((c : Connection) × (find i (get opens p).1.allocated_connections ≡ some c)
            × (is_open c ≡ true)
            × IsUsed c)

    here :
        (k : ℕ)
        → (if k == k
            then some (record held.conn { in_use = true })
            else find k held.pool.allocated_connections)
          ≡ some (record held.conn { in_use = true })
    here k = ground arith

    first : (a b : Bool) → (a && b) ≡ true → a ≡ true
    first true b q = refl
    first false b q = q

    injected : {a b : ℕ} → some a ≡ some b → a ≡ b
    injected q = cc

    impossible : {a : ℕ} → none ≡ some a → ⊥
    impossible q = cc

-- get fails exactly if the pool has no free connection and the one that it creates does not open;
-- otherwise it answers a connection that was allocated to nobody, and is now allocated, open and in
-- use.
pub get_outcome :
    (opens : Bool) (p : ConnPool)
    → Owned p []
    → (((get opens p).0 ≡ none) × (p.free_connections ≡ []) × (opens ≡ false))
      ⊎ (((if is_empty p.free_connections then opens else true) ≡ true)
          × ((id : ℕ) × (c : Connection) × ((get opens p).0 ≡ some id)
              × (find id p.allocated_connections ≡ none)
              × (find id (get opens p).1.allocated_connections ≡ some c)
              × (is_open c ≡ true)
              × IsUsed c))
get_outcome opens p o = elim (Option-cases (get opens p).0) [
  | inl h ↦ let (q, e) = (get-none_iff opens p o).0 h in inl (h, q, e)
  | inr (id, h) ↦
      let (absent, (c, there, open_now, used)) = get-IsUsed opens p id o h in
      inr (
        available id h p.free_connections refl opens refl,
        (id, c, h, absent, there, open_now, used),
      )
]
  where
    available :
        (id : ℕ)
        → (get opens p).0 ≡ some id
        → (m : Map Connection) → p.free_connections ≡ m
        → (b : Bool) → opens ≡ b
        → (if is_empty p.free_connections then opens else true) ≡ true
    available id h (x ∷ others) q b e = ap (λ m. if is_empty m then opens else true) q
    available id h [] q true e = ap (λ m. if is_empty m then opens else true) q ∙ e
    available id h [] q false e =
        absurd (contradiction (sym ((get-none_iff opens p o).1 (q, e)) ∙ h))
      where
        contradiction : none ≡ some id → ⊥
        contradiction w = cc
