-- ===== src/Asio/Table.antt =====
-- The table of status changes in asio_pool.cpp's comment, against the locked sections.
use async_thrift.Prelude.{
  ℕ, ◌≡◌, refl, sym, ap, ◌∙◌, subst, List, [], ◌∷◌, Bool, true, false, Option, none, some, arith,
  ◌==◌, Bool-cases, ==_iff, inl, inr,
}
use async_thrift.Map.{Map, find, or_fresh}
use async_thrift.Asio.{
  Status, adding, connected, disconnected, deleting, deleted, EndPointPool, fresh, AsioPool, entry,
  put_entry, close_all, is_connected, empty_into, add_by, mark_adding, del, del_by, del_found, pick,
  pick_from, put_locked, take_back, push_back, count_failure, count_pooled, held,
}
use async_thrift.Asio.Probe.{scan, first_pass, scan_all}
use async_thrift.Asio.Inv.{after_pick}
use async_thrift.Asio.Entries.{entry-put_self, entry-put_ne}
use async_thrift.Asio.Calls.{connected_of}
use async_thrift.Asio.Cycle.{status_at}

-- Row and column of the table; a status may also stay.
abbrev pub may_become : Status → Status → Bool
may_become adding adding = true
may_become adding connected = true
may_become adding disconnected = true
may_become adding deleting = true
may_become connected connected = true
may_become connected disconnected = true
may_become connected deleting = true
may_become disconnected disconnected = true
may_become disconnected connected = true
may_become disconnected deleting = true
may_become deleting deleting = true
may_become deleting adding = true
may_become deleting deleted = true
may_become deleted deleted = true
may_become deleted adding = true
may_become _ _ = false

stays : (status : Status) → may_become status status ≡ true
stays adding = refl
stays connected = refl
stays disconnected = refl
stays deleting = refl
stays deleted = refl

abbrev pub KeepsTable : AsioPool → AsioPool → Type 0
KeepsTable p q = (j : ℕ) → may_become (status_at j p) (status_at j q) ≡ true

-- A write to one endpoint keeps the table, if its new status is in the row of the old one.
put_entry-KeepsTable :
    (ep : ℕ) (e : EndPointPool) (p : AsioPool)
    → may_become (status_at ep p) e.status ≡ true
    → KeepsTable p (put_entry ep e p)
put_entry-KeepsTable ep e p h j = elim (Bool-cases (j == ep)) [
  | inl same ↦
      subst (λ i. may_become (status_at i p) (status_at i (put_entry ep e p)) ≡ true)
        (sym ((==_iff j ep).0 same))
        (ap (λ (x : EndPointPool). may_become (status_at ep p) x.status) (entry-put_self ep p e)
          ∙ h)
  | inr other ↦
      ap (λ (x : EndPointPool). may_become (status_at j p) x.status)
        (entry-put_ne j ep p (ground arith) e)
      ∙ stays (status_at j p)
]

touch-KeepsTable : (ep : ℕ) (p : AsioPool) → KeepsTable p (put_entry ep (entry ep p) p)
touch-KeepsTable ep p = put_entry-KeepsTable ep (entry ep p) p (stays (status_at ep p))

empty_into-KeepsTable :
    (ep : ℕ) (status : Status) (p : AsioPool)
    → may_become (status_at ep p) status ≡ true
    → KeepsTable p (empty_into ep status p)
unfolding empty_into close_all
empty_into-KeepsTable ep status p h =
    put_entry-KeepsTable ep (record { status = status; pool = [] }) p h

module _ (p : AsioPool) where
  marks_keep : (ep : ℕ) → KeepsTable p (mark_adding ep p)
  unfolding mark_adding
  marks_keep ep = by_status (status_at ep p) refl
    where
      by_status : (status : Status) → status_at ep p ≡ status → KeepsTable p (add_by status ep p)
      by_status deleting e = empty_into-KeepsTable ep adding p (rw e)
      by_status deleted e = empty_into-KeepsTable ep adding p (rw e)
      by_status _ e = touch-KeepsTable ep p

  dels_keep : (ep : ℕ) → KeepsTable p (del ep p)
  unfolding del
  dels_keep ep = by_found (find ep p.map) refl
    where
      by_status : (status : Status) → status_at ep p ≡ status → KeepsTable p (del_by status ep p)
      by_status deleting e = λ j. stays (status_at j p)
      by_status deleted e = λ j. stays (status_at j p)
      by_status adding e = empty_into-KeepsTable ep deleting p (rw e)
      by_status connected e = empty_into-KeepsTable ep deleting p (rw e)
      by_status disconnected e = empty_into-KeepsTable ep deleting p (rw e)

      by_found : (o : Option EndPointPool) → find ep p.map ≡ o → KeepsTable p (del_found o ep p)
      by_found none e = λ j. stays (status_at j p)
      by_found (some x) e = by_status x.status (ap (λ o. (or_fresh fresh o).status) e)

  pooled_keeps :
      (ep : ℕ) (slot : Option ℕ) (rest : List ℕ)
      → status_at ep p ≡ connected
      → KeepsTable p (
          close_all
            (held slot)
            (put_entry ep (record { status = connected; pool = rest }) (count_pooled p)))
  unfolding close_all count_pooled
  pooled_keeps ep slot rest e =
      put_entry-KeepsTable ep (record { status = connected; pool = rest }) (count_pooled p) (rw e)

  picks_keep :
      (is_closed : ℕ → Bool) (ep : ℕ) (slot : Option ℕ)
      → KeepsTable p (after_pick (pick is_closed ep slot p))
  unfolding pick count_failure
  picks_keep is_closed ep slot = elim (Bool-cases (is_connected (status_at ep p))) [
    | inl e ↦ rw e (from_pool (entry ep p).pool (connected_of (status_at ep p) e))
    | inr e ↦ rw e (touch-KeepsTable ep p)
  ]
    where
      from_pool :
          (pool : List ℕ)
          → status_at ep p ≡ connected
          → KeepsTable p (after_pick (pick_from is_closed ep slot pool p))
      from_pool [] e = λ j. stays (status_at j p)
      from_pool (s ∷ rest) e = elim (Bool-cases (is_closed s)) [
        | inl h ↦ rw h (empty_into-KeepsTable ep connected p (rw e))
        | inr h ↦ rw h (pooled_keeps ep slot rest e)
      ]

  puts_keep : (s ep : ℕ) → KeepsTable p (put_locked s ep p)
  unfolding put_locked push_back close_all
  puts_keep s ep = by_status (status_at ep p) refl
    where
      by_status :
          (status : Status) → status_at ep p ≡ status → KeepsTable p (take_back status s ep p)
      by_status connected e = put_entry-KeepsTable ep _ p (rw e)
      by_status _ e = touch-KeepsTable ep p

scan_keeps :
    (quick : Bool) (is_closed : ℕ → Bool) (status : Status) (pool : List ℕ)
    → may_become status (scan quick is_closed status pool).entry.status ≡ true
scan_keeps quick is_closed adding pool = refl
scan_keeps quick is_closed disconnected pool = refl
scan_keeps true is_closed connected pool = refl
scan_keeps false is_closed connected [] = refl
scan_keeps false is_closed connected (s ∷ rest) = ground arith
scan_keeps quick is_closed deleting pool = refl
scan_keeps quick is_closed deleted pool = refl

first_pass_keeps :
    (quick : Bool) (is_closed : ℕ → Bool) (j : ℕ) (m : Map EndPointPool)
    → may_become
        (or_fresh fresh (find j m)).status
        (or_fresh fresh (find j (first_pass quick is_closed m).map)).status
      ≡ true
unfolding find first_pass
first_pass_keeps quick is_closed j [] = refl
first_pass_keeps quick is_closed j ((k, e) ∷ m) = elim (Bool-cases (j == k)) [
  | inl same ↦ rw same (scan_keeps quick is_closed e.status e.pool)
  | inr other ↦ rw other (first_pass_keeps quick is_closed j m)
]

scans_keep :
    (quick : Bool) (is_closed : ℕ → Bool) (p : AsioPool)
    → KeepsTable p (scan_all quick is_closed p).0
unfolding scan_all close_all
scans_keep quick is_closed p j = first_pass_keeps quick is_closed j p.map

-- Each locked section of `add`, `del`, `get` before its connect, `put`, and of the probe's first
-- pass moves every endpoint along the table, whatever happened before it.
pub sections-KeepsTable :
    (p : AsioPool)
    → ((ep : ℕ) → KeepsTable p (mark_adding ep p))
      × ((ep : ℕ) → KeepsTable p (del ep p))
      × ((is_closed : ℕ → Bool) (ep : ℕ) (slot : Option ℕ)
          → KeepsTable p (after_pick (pick is_closed ep slot p)))
      × ((s ep : ℕ) → KeepsTable p (put_locked s ep p))
      × ((quick : Bool) (is_closed : ℕ → Bool) → KeepsTable p (scan_all quick is_closed p).0)
sections-KeepsTable p = (
  marks_keep p,
  dels_keep p,
  picks_keep p,
  puts_keep p,
  λ quick is_closed. scans_keep quick is_closed p,
)
