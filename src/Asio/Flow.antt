-- ===== src/Asio/Flow.antt =====
-- The sockets that each locked section takes in and hands out.
use async_thrift.Prelude.{
  ℕ, ◌+◌, ◌≡◌, refl, ap, ◌∙◌, List, [], ◌∷◌, ◌++◌, Bool, true, false, Option, none, some, arith,
  Bool-cases, inl, inr, count, count-append,
}
use async_thrift.Map.{Map, find}
use async_thrift.Asio.{
  Status, adding, connected, disconnected, deleting, deleted, EndPointPool, AsioPool, entry,
  put_entry, close_all, is_connected, is_deleting, empty_into, add_by, mark_adding, del, del_by,
  del_found, held, pick, pick_from, finish_connect, put_locked, take_back, pooled_sockets, clear,
  count_failure, count_created, count_pooled,
}
use async_thrift.Asio.Probe.{
  scan, scan_connected, first_pass, scan_all, probe_failed, probe_connected, replenish,
  count_connected, count_disconnected,
}
use async_thrift.Asio.Inv.{Inv, after_pick, count_pooled-Inv}
use async_thrift.Asio.Sockets.{
  owned, Flow, owned-put_entry, owned-touch, owned-empty_into, owned-close_all, owned-push_back,
  picked_in, picked_out,
}

owned-count_failure : (s : ℕ) (p : AsioPool) → owned s (count_failure p) ≡ owned s p
unfolding count_failure
owned-count_failure s p = refl

owned-count_created : (s : ℕ) (p : AsioPool) → owned s (count_created p) ≡ owned s p
unfolding count_created
owned-count_created s p = refl

owned-count_pooled : (s : ℕ) (p : AsioPool) → owned s (count_pooled p) ≡ owned s p
unfolding count_pooled
owned-count_pooled s p = refl

module _ (p : AsioPool) (i : Inv p) where
  add_by-Flow : (status : Status) (ep : ℕ) → Flow p [] [] (add_by status ep p)
  add_by-Flow deleting ep s = omega (arith, owned-empty_into p i s ep adding)
  add_by-Flow deleted ep s = omega (arith, owned-empty_into p i s ep adding)
  add_by-Flow _ ep s = omega (arith, owned-touch p i s ep)

  pub mark_adding-Flow : (ep : ℕ) → Flow p [] [] (mark_adding ep p)
  unfolding mark_adding
  mark_adding-Flow ep = add_by-Flow (entry ep p).status ep

  del_by-Flow : (status : Status) (ep : ℕ) → Flow p [] [] (del_by status ep p)
  del_by-Flow deleting ep s = refl
  del_by-Flow deleted ep s = refl
  del_by-Flow _ ep s = omega (arith, owned-empty_into p i s ep deleting)

  del_found-Flow : (o : Option EndPointPool) (ep : ℕ) → Flow p [] [] (del_found o ep p)
  del_found-Flow none ep s = refl
  del_found-Flow (some e) ep s = del_by-Flow e.status ep s

  pub del-Flow : (ep : ℕ) → Flow p [] [] (del ep p)
  unfolding del
  del-Flow ep = del_found-Flow (find ep p.map) ep

  take_back-Flow : (status : Status) (x ep : ℕ) → Flow p (x ∷ []) [] (take_back status x ep p)
  take_back-Flow connected x ep s = omega (arith, owned-push_back p i s ep (x ∷ []))
  take_back-Flow _ x ep s =
      omega (arith, owned-close_all s (x ∷ []) (put_entry ep (entry ep p) p), owned-touch p i s ep)

  pub put_locked-Flow : (x ep : ℕ) → Flow p (x ∷ []) [] (put_locked x ep p)
  unfolding put_locked
  put_locked-Flow x ep = take_back-Flow (entry ep p).status x ep

  pub finish_connect-Flow :
      (ep : ℕ) (slot dialled : Option ℕ)
      → Flow p (held slot ++ held dialled) (held dialled) (finish_connect ep slot dialled p).after
  finish_connect-Flow ep slot none s = omega (
    arith,
    owned-close_all s (held slot) (count_failure (empty_into ep disconnected p)),
    owned-count_failure s (empty_into ep disconnected p),
    owned-empty_into p i s ep disconnected,
    count-append s (held slot) [],
  )
  finish_connect-Flow ep slot (some x) s = omega (
    arith,
    owned-close_all s (held slot) (count_created p),
    owned-count_created s p,
    count-append s (held slot) (x ∷ []),
  )

  entry-count_pooled : (ep : ℕ) → (entry ep (count_pooled p)).pool ≡ (entry ep p).pool
  unfolding count_pooled
  entry-count_pooled ep = refl

  pooled-Flow :
      (ep : ℕ) (slot : Option ℕ) (x : ℕ) (rest : List ℕ)
      → (entry ep p).pool ≡ x ∷ rest
      → Flow p (held slot) (x ∷ []) (
          close_all
            (held slot)
            (put_entry ep (record { status = connected; pool = rest }) (count_pooled p)))
  pooled-Flow ep slot x rest e s = omega (
    arith,
    owned-close_all s (held slot) (put_entry ep left (count_pooled p)),
    owned-put_entry (count_pooled p) (count_pooled-Inv p i) s ep left,
    owned-count_pooled s p,
    ap (count s) same,
    count-append s (x ∷ []) rest,
  )
    where
      left : EndPointPool
      left = record { status = connected; pool = rest }

      same : (entry ep (count_pooled p)).pool ≡ (x ∷ []) ++ rest
      same = entry-count_pooled ep ∙ e

  pick_from-Flow :
      (is_closed : ℕ → Bool) (ep : ℕ) (slot : Option ℕ) (pool : List ℕ)
      → (entry ep p).pool ≡ pool
      → let r = pick_from is_closed ep slot pool p in
        Flow p (picked_in slot r) (picked_out r) (after_pick r)
  pick_from-Flow is_closed ep slot [] e s = refl
  pick_from-Flow is_closed ep slot (x ∷ rest) e s = elim (Bool-cases (is_closed x)) [
    | inl h ↦ rw h (omega (arith, owned-empty_into p i s ep connected))
    | inr h ↦ rw h (pooled-Flow ep slot x rest e s)
  ]

  pub pick-Flow :
      (is_closed : ℕ → Bool) (ep : ℕ) (slot : Option ℕ)
      → let r = pick is_closed ep slot p in Flow p (picked_in slot r) (picked_out r) (after_pick r)
  unfolding pick
  pick-Flow is_closed ep slot s = elim (Bool-cases (is_connected (entry ep p).status)) [
    | inl h ↦ rw h (pick_from-Flow is_closed ep slot (entry ep p).pool refl s)
    | inr h ↦
        rw h
          (omega (arith, owned-count_failure s (put_entry ep (entry ep p) p), owned-touch p i s ep))
  ]

  pub clear-Flow : Flow p [] [] (clear p)
  unfolding clear
  clear-Flow s = omega (arith, count-append s (pooled_sockets p.map) p.closed)

  pub probe_failed-Flow : (ep : ℕ) → Flow p [] [] (probe_failed ep p)
  unfolding probe_failed
  probe_failed-Flow ep s = elim (Bool-cases (is_deleting (entry ep p).status)) [
    | inl e ↦ rw e (omega (arith, owned-touch p i s ep))
    | inr e ↦ rw e (omega (arith, owned-empty_into p i s ep disconnected))
  ]

  pub probe_connected-Flow : (ep x : ℕ) → Flow p (x ∷ []) [] (probe_connected ep x p)
  unfolding probe_connected
  probe_connected-Flow ep x s = elim (Bool-cases (is_deleting (entry ep p).status)) [
    | inl e ↦ rw e (
        omega
          (arith, owned-close_all s (x ∷ []) (put_entry ep (entry ep p) p), owned-touch p i s ep))
    | inr e ↦ rw e (omega (arith, owned-push_back p i s ep (x ∷ [])))
  ]

  pub replenish-Flow : (ep : ℕ) (xs : List ℕ) → Flow p xs [] (replenish ep xs p)
  unfolding replenish
  replenish-Flow ep xs s = elim (Bool-cases (is_connected (entry ep p).status)) [
    | inl e ↦ rw e (omega (arith, owned-push_back p i s ep xs))
    | inr e ↦
        rw e
          (omega (arith, owned-close_all s xs (put_entry ep (entry ep p) p), owned-touch p i s ep))
  ]

-- What the first pass drops and what it keeps are the sockets that were there.
scan_connected-count :
    (is_closed : ℕ → Bool) (s : ℕ) (pool : List ℕ)
    → let r = scan_connected is_closed pool in
      count s r.entry.pool + count s r.dropped ≡ count s pool
scan_connected-count is_closed s [] = omega arith
scan_connected-count is_closed s (x ∷ rest) = elim (Bool-cases (is_closed x)) [
  | inl e ↦ rw e (omega arith)
  | inr e ↦ rw e (omega arith)
]

scan-count :
    (quick : Bool) (is_closed : ℕ → Bool) (s : ℕ) (status : Status) (pool : List ℕ)
    → let r = scan quick is_closed status pool in
      count s r.entry.pool + count s r.dropped ≡ count s pool
scan-count quick is_closed s adding pool = omega arith
scan-count quick is_closed s disconnected pool = omega arith
scan-count true is_closed s connected pool = omega arith
scan-count false is_closed s connected pool = scan_connected-count is_closed s pool
scan-count quick is_closed s deleting pool = omega arith
scan-count quick is_closed s deleted pool = omega arith

first_pass-count :
    (quick : Bool) (is_closed : ℕ → Bool) (s : ℕ) (m : Map EndPointPool)
    → let r = first_pass quick is_closed m in
      count s (pooled_sockets r.map) + count s r.dropped ≡ count s (pooled_sockets m)
unfolding first_pass
first_pass-count quick is_closed s [] = omega arith
first_pass-count quick is_closed s ((ep, e) ∷ m) =
    let r = first_pass quick is_closed m in
    let c = scan quick is_closed e.status e.pool in
    omega (
      arith,
      first_pass-count quick is_closed s m,
      scan-count quick is_closed s e.status e.pool,
      count-append s e.pool (pooled_sockets m),
      count-append s c.entry.pool (pooled_sockets r.map),
      count-append s c.dropped r.dropped,
    )

pub scan_all-Flow :
    (quick : Bool) (is_closed : ℕ → Bool) (p : AsioPool)
    → Flow p [] [] (scan_all quick is_closed p).0
unfolding scan_all close_all
scan_all-Flow quick is_closed p s =
    let r = first_pass quick is_closed p.map in
    omega (arith, first_pass-count quick is_closed s p.map, count-append s r.dropped p.closed)

pub count_connected-Flow :
    (p : AsioPool) (status : Status) → Flow p [] [] (count_connected status p)
unfolding count_connected
count_connected-Flow p connected s = refl
count_connected-Flow p _ s = refl

pub count_disconnected-Flow :
    (p : AsioPool) (status : Status) → Flow p [] [] (count_disconnected status p)
unfolding count_disconnected
count_disconnected-Flow p connected s = refl
count_disconnected-Flow p _ s = refl
