-- ===== src/Asio/Calls.antt =====
-- `get` and `put` as their callers see them, when no other thread comes between their parts.
use async_thrift.Prelude.{
  ℕ, ◌<◌, ◌≡◌, ◌≢◌, ◌⊎◌, refl, sym, ap, ◌∙◌, List, [], ◌∷◌, Bool, true, false, Option, none, some,
  arith, length, Bool-cases, inl, inr,
}
use async_thrift.Asio.{
  Status, adding, connected, disconnected, deleting, deleted, EndPointPool, AsioPool, entry,
  put_entry, close_all, is_connected, empty_into, kept, count_failure, count_created, count_pooled,
  del, held, pick, pick_from, Got, finish_connect, get_rest, get, put_locked,
}
use async_thrift.Asio.Entries.{
  entry-put_self, entry-touch_self, entry-empty_self, entry-push_self, del_disconnects,
}

abbrev is_up : EndPointPool → Bool
is_up e = is_connected e.status

pub connected_of : (status : Status) → is_connected status ≡ true → status ≡ connected
connected_of connected h = refl
connected_of adding h = cc
connected_of disconnected h = cc
connected_of deleting h = cc
connected_of deleted h = cc

finish-status :
    (ep : ℕ) (slot dialled : Option ℕ) (q : AsioPool)
    → is_up (entry ep q) ≡ true
    → let r = finish_connect ep slot dialled q in is_up (entry ep r.after) ≡ r.success
unfolding close_all count_failure count_created
finish-status ep slot none q h = ap is_up (entry-empty_self ep q disconnected)
finish-status ep slot (some s) q h = h

pick_from-status :
    (is_closed : ℕ → Bool) (ep : ℕ) (slot dialled : Option ℕ) (p : AsioPool) (pool : List ℕ)
    → is_up (entry ep p) ≡ true
    → let r = get_rest ep slot dialled (pick_from is_closed ep slot pool p) in
      is_up (entry ep r.after) ≡ r.success
unfolding close_all
pick_from-status is_closed ep slot dialled p [] h = finish-status ep slot dialled p h
pick_from-status is_closed ep slot dialled p (s ∷ rest) h = elim (Bool-cases (is_closed s)) [
  | inl e ↦ rw e (
      finish-status ep slot dialled (empty_into ep connected p)
        (ap is_up (entry-empty_self ep p connected)))
  | inr e ↦
      rw e
        (ap is_up (entry-put_self ep (count_pooled p) (record { status = connected; pool = rest })))
]

-- `get`, with no other thread in between, succeeds exactly when it leaves the endpoint connected.
pub get-status :
    (is_closed : ℕ → Bool) (dialled : Option ℕ) (ep : ℕ) (slot : Option ℕ) (p : AsioPool)
    → let r = get is_closed dialled ep slot p in is_connected (entry ep r.after).status ≡ r.success
unfolding get count_failure
get-status is_closed dialled ep slot p = elim (Bool-cases (is_up (entry ep p))) [
  | inl e ↦ rw (e, pick) (pick_from-status is_closed ep slot dialled p (entry ep p).pool e)
  | inr e ↦ rw (e, pick) (ap is_up (entry-touch_self ep p) ∙ e)
]

-- An endpoint that is not connected is refused without a connect: nothing but the failure counter
-- and, for an unknown endpoint, its fresh entry changes, and the caller's pointer stays.
pub get_refused :
    (is_closed : ℕ → Bool) (dialled : Option ℕ) (ep : ℕ) (slot : Option ℕ) (p : AsioPool)
    → is_connected (entry ep p).status ≡ false
    → get is_closed dialled ep slot p
      ≡ record { after = count_failure (put_entry ep (entry ep p) p); slot = slot; success = false }
unfolding get
get_refused is_closed dialled ep slot p e = rw (e, pick)

-- Right after `del` has returned, `get` hands out no connection to that endpoint and dials none.
pub get-del :
    (is_closed : ℕ → Bool) (dialled : Option ℕ) (ep : ℕ) (slot : Option ℕ) (p : AsioPool)
    → let r = get is_closed dialled ep slot (del ep p) in (r.success ≡ false) × (r.slot ≡ slot)
get-del is_closed dialled ep slot p =
    rw (get_refused is_closed dialled ep slot (del ep p) (del_disconnects ep p)) (refl, refl)

-- Where a socket that `get` returns comes from.
abbrev pub Source : (ℕ → Bool) → Option ℕ → ℕ → AsioPool → ℕ → Type 0
Source is_closed dialled ep p s =
    ((rest : List ℕ) × ((entry ep p).pool ≡ s ∷ rest) × (is_closed s ≡ false)) ⊎ (dialled ≡ some s)

abbrev pub Sound : (ℕ → Bool) → Option ℕ → ℕ → AsioPool → Got → Type 0
Sound is_closed dialled ep p r =
    ((r.success ≡ false) × ((entry ep p).status ≢ connected ⊎ (dialled ≡ none)))
    ⊎ ((r.success ≡ true)
        × ((entry ep p).status ≡ connected)
        × ((s : ℕ) × (r.slot ≡ some s) × Source is_closed dialled ep p s))

-- `get` fails only for an endpoint that is not connected or where connecting fails; else it returns
-- the pool's newest socket, found open, or the socket just connected.
pub get-Sound :
    (is_closed : ℕ → Bool) (dialled : Option ℕ) (ep : ℕ) (slot : Option ℕ) (p : AsioPool)
    → Sound is_closed dialled ep p (get is_closed dialled ep slot p)
unfolding get
get-Sound is_closed dialled ep slot p = elim (Bool-cases (is_up (entry ep p))) [
  | inl e ↦ rw (e, pick) (from_pool (entry ep p).pool refl (connected_of _ e))
  | inr e ↦ rw (e, pick) (inl (refl, inl (λ (h : (entry ep p).status ≡ connected). cc)))
]
  where
    dial :
        (d : Option ℕ) (q : AsioPool)
        → dialled ≡ d
        → (entry ep p).status ≡ connected
        → Sound is_closed dialled ep p (finish_connect ep slot d q)
    dial none q h c = inl (refl, inr h)
    dial (some s) q h c = inr (refl, c, (s, refl, inr h))

    from_pool :
        (pool : List ℕ)
        → (entry ep p).pool ≡ pool
        → (entry ep p).status ≡ connected
        → Sound is_closed dialled ep p
            (get_rest ep slot dialled (pick_from is_closed ep slot pool p))
    from_pool [] h c = dial dialled p refl c
    from_pool (s ∷ rest) h c = elim (Bool-cases (is_closed s)) [
      | inl e ↦ rw e (dial dialled (empty_into ep connected p) refl c)
      | inr e ↦ rw e (inr (refl, c, (s, refl, inl (rest, h, e))))
    ]

get-pooled :
    (is_closed : ℕ → Bool) (dialled : Option ℕ) (ep s : ℕ) (slot : Option ℕ) (q : AsioPool)
    (rest : List ℕ)
    → entry ep q ≡ record { status = connected; pool = s ∷ rest }
    → is_closed s ≡ false
    → get is_closed dialled ep slot q ≡ record {
      after =
          close_all
            (held slot)
            (put_entry ep (record { status = connected; pool = rest }) (count_pooled q));
      slot = some s;
      success = true;
    }
unfolding get pick
get-pooled is_closed dialled ep s slot q rest e alive =
    rw (ap is_up e, ap EndPointPool.pool e) (rw alive)

kept_room :
    (max_conn s : ℕ) (pool : List ℕ)
    → (length pool < max_conn) ⊎ (max_conn ≡ 0)
    → kept max_conn (s ∷ pool) ≡ s ∷ pool
kept_room max_conn s pool h = ground arith

entry-put_locked :
    (ep s : ℕ) (p : AsioPool)
    → (entry ep p).status ≡ connected
    → (length (entry ep p).pool < p.max_conn) ⊎ (p.max_conn ≡ 0)
    → entry ep (put_locked s ep p) ≡ record { status = connected; pool = s ∷ (entry ep p).pool }
unfolding put_locked
entry-put_locked ep s p c room = rw c (
    entry-push_self ep p (s ∷ [])
    ∙ ap (λ pool. record { status = connected; pool = pool })
        (kept_room p.max_conn s (entry ep p).pool room))

entry-close_all : (ep : ℕ) (xs : List ℕ) (p : AsioPool) → entry ep (close_all xs p) ≡ entry ep p
unfolding close_all
entry-close_all ep xs p = refl

-- A socket put back to a connected endpoint with room for it is the next one that `get` hands out,
-- as long as it is open, and the endpoint's pool is then as before.
pub get-put :
    (is_closed : ℕ → Bool) (dialled : Option ℕ) (ep s : ℕ) (slot : Option ℕ) (p : AsioPool)
    → (entry ep p).status ≡ connected
    → (length (entry ep p).pool < p.max_conn) ⊎ (p.max_conn ≡ 0)
    → is_closed s ≡ false
    → let r = get is_closed dialled ep slot (put_locked s ep p) in
      (r.slot ≡ some s) × (r.success ≡ true) × (entry ep r.after ≡ entry ep p)
get-put is_closed dialled ep s slot p c room alive =
    rw (get-pooled is_closed dialled ep s slot (put_locked s ep p) (entry ep p).pool entered alive)
      (refl, refl, back)
  where
    entered :
        entry ep (put_locked s ep p) ≡ record { status = connected; pool = s ∷ (entry ep p).pool }
    entered = entry-put_locked ep s p c room

    back :
        entry ep (
          close_all (held slot) (
            put_entry ep
              (record { status = connected; pool = (entry ep p).pool })
              (count_pooled (put_locked s ep p))))
        ≡ entry ep p
    back =
        entry-close_all ep (held slot) _
        ∙ entry-put_self ep (count_pooled (put_locked s ep p)) _
        ∙ (λ i. record { status = sym c i; pool = (entry ep p).pool })
