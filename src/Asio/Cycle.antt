-- ===== src/Asio/Cycle.antt =====
-- What one whole probe makes of each endpoint.
use async_thrift.Prelude.{
  ℕ, zero, suc, ◌≡◌, ◌≢◌, refl, ap, ◌∙◌, List, [], ◌∷◌, Bool, true, false, Option, none, some,
  arith, if◌then◌else◌, Bool-cases, inl, inr,
}
use async_thrift.Map.{Map, Above}
use async_thrift.Asio.{
  Status, adding, connected, disconnected, deleting, deleted, EndPointPool, AsioPool, entry,
  put_entry, is_deleting,
}
use async_thrift.Asio.Probe.{
  scan, first_pass, count_connected, count_disconnected, probe_failed, probe_connected, need_conn,
  connect_more, replenish, replenish_if, same_status, dialled, probe_one, probe_each,
}
use async_thrift.Asio.Entries.{
  entry-touch_self, entry-empty_self, entry-push_self, entry-put_ne, entry-probe_failed_ne,
  entry-probe_connected_ne, entry-replenish_ne, entry-count_connected, entry-count_disconnected,
}

abbrev pub after_dial : Option ℕ → Status
after_dial none = disconnected
after_dial (some s) = connected

-- What the code's comments promise of an endpoint: one that is being added, or has been lost, or
-- whose newest socket is found closed, or whose pool is empty, is dialled and takes its status from
-- the outcome; a quick probe leaves connected ones alone; a deletion is completed.
abbrev pub after_connected : (ℕ → Bool) → List ℕ → Option ℕ → Status
after_connected is_closed [] dial = after_dial dial
after_connected is_closed (s ∷ rest) dial = if is_closed s then after_dial dial else connected

abbrev pub after_probe : Bool → (ℕ → Bool) → EndPointPool → Option ℕ → Status
after_probe quick is_closed e dial = elim e.status [
  | adding ↦ after_dial dial
  | disconnected ↦ after_dial dial
  | connected ↦ if quick then connected else after_connected is_closed e.pool dial
  | deleting ↦ deleted
  | deleted ↦ deleted
]

module _ (j ep : ℕ) (other : j ≢ ep) where
  entry-replenish_if_ne :
      (n : ℕ) (dial : ℕ → Option ℕ) (p : AsioPool) → entry j (replenish_if n ep dial p) ≡ entry j p
  entry-replenish_if_ne zero dial p = refl
  entry-replenish_if_ne (suc n) dial p =
      entry-replenish_ne j ep p other (connect_more (suc n) 1 dial [])

  entry-dialled_ne :
      (status : Status) (first : Option ℕ) (dial : ℕ → Option ℕ) (p : AsioPool)
      → entry j (dialled ep status first dial p) ≡ entry j p
  entry-dialled_ne status none dial p =
      entry-probe_failed_ne j ep (count_disconnected status p) other
      ∙ entry-count_disconnected j status p
  entry-dialled_ne status (some s) dial p =
      let q = probe_connected ep s (count_connected status p) in
      entry-replenish_if_ne (need_conn ep q) dial q
      ∙ entry-probe_connected_ne j ep (count_connected status p) other s
      ∙ entry-count_connected j status p

  pub entry-probe_one_ne :
      (dial : ℕ → Option ℕ) (status : Status) (p : AsioPool)
      → entry j (probe_one dial (ep, status) p) ≡ entry j p
  unfolding probe_one
  entry-probe_one_ne dial status p = elim (Bool-cases (same_status status (entry ep p).status)) [
    | inl e ↦ rw e (
        entry-dialled_ne status (dial 0) dial (put_entry ep (entry ep p) p)
        ∙ entry-put_ne j ep p other (entry ep p))
    | inr e ↦ rw e (entry-put_ne j ep p other (entry ep p))
  ]

abbrev pub status_at : ℕ → AsioPool → Status
status_at ep p = (entry ep p).status

replenish_if-connected :
    (ep n : ℕ) (dial : ℕ → Option ℕ) (p : AsioPool)
    → status_at ep p ≡ connected
    → status_at ep (replenish_if n ep dial p) ≡ connected
unfolding replenish
replenish_if-connected ep zero dial p h = h
replenish_if-connected ep (suc n) dial p h =
    rw h (ap EndPointPool.status (entry-push_self ep p (connect_more (suc n) 1 dial [])))

-- An endpoint that is not being deleted takes its status from the first connect.
dialled-status :
    (ep : ℕ) (status : Status) (first : Option ℕ) (dial : ℕ → Option ℕ) (p : AsioPool)
    → is_deleting (status_at ep p) ≡ false
    → status_at ep (dialled ep status first dial p) ≡ after_dial first
unfolding probe_failed probe_connected
dialled-status ep status none dial p h =
    let same =
      ap (λ (e : EndPointPool). is_deleting e.status) (entry-count_disconnected ep status p) ∙ h in
    rw same
      (ap EndPointPool.status (entry-empty_self ep (count_disconnected status p) disconnected))
dialled-status ep status (some s) dial p h =
    let same =
      ap (λ (e : EndPointPool). is_deleting e.status) (entry-count_connected ep status p) ∙ h in
    let q = probe_connected ep s (count_connected status p) in
    replenish_if-connected ep (need_conn ep q) dial q
      (rw same (ap EndPointPool.status (entry-push_self ep (count_connected status p) (s ∷ []))))

same_status_refl : (status : Status) → same_status status status ≡ true
same_status_refl adding = refl
same_status_refl connected = refl
same_status_refl disconnected = refl
same_status_refl deleting = refl
same_status_refl deleted = refl

pub probe_one-status :
    (dial : ℕ → Option ℕ) (ep : ℕ) (p : AsioPool)
    → is_deleting (status_at ep p) ≡ false
    → status_at ep (probe_one dial (ep, status_at ep p) p) ≡ after_dial (dial 0)
unfolding probe_one
probe_one-status dial ep p h = rw (same_status_refl (status_at ep p)) (
    dialled-status ep (status_at ep p) (dial 0) dial (put_entry ep (entry ep p) p)
      (ap (λ (e : EndPointPool). is_deleting e.status) (entry-touch_self ep p) ∙ h))

-- Endpoints that the map does not have are left alone.
pub probe_each-Above :
    (j : ℕ) (quick : Bool) (is_closed : ℕ → Bool) (dial : ℕ → ℕ → Option ℕ) (m : Map EndPointPool)
    (p : AsioPool)
    → Above j m
    → entry j (probe_each dial (first_pass quick is_closed m).probe_map p) ≡ entry j p
unfolding first_pass probe_each
probe_each-Above j quick is_closed dial [] p a = refl
probe_each-Above j quick is_closed dial ((ep, e) ∷ m) p a =
    elim (Bool-cases (scan quick is_closed e.status e.pool).probed) [
      | inl h ↦ rw h (
          probe_each-Above j quick is_closed dial m (probe_one (dial ep) (ep, e.status) p) a.1
          ∙ entry-probe_one_ne j ep (omega (arith, a.0)) (dial ep) e.status p)
      | inr h ↦ rw h (probe_each-Above j quick is_closed dial m p a.1)
    ]

-- The first pass and, where it asks for one, the dial, make `after_probe`.
pub scanned-status :
    (quick : Bool) (is_closed : ℕ → Bool) (status : Status) (pool : List ℕ) (dial : Option ℕ)
    → let r = scan quick is_closed status pool in
      let e : EndPointPool = record { status = status; pool = pool } in
      (after_probe quick is_closed e dial ≡ (if r.probed then after_dial dial else r.entry.status))
      × (r.probed ≡ true → (r.entry.status ≡ status) × (is_deleting status ≡ false))
scanned-status quick is_closed adding pool dial = (refl, λ _. (refl, refl))
scanned-status quick is_closed disconnected pool dial = (refl, λ _. (refl, refl))
scanned-status true is_closed connected pool dial = (refl, λ _. (refl, refl))
scanned-status false is_closed connected [] dial = (refl, λ _. (refl, refl))
scanned-status false is_closed connected (s ∷ rest) dial = ground arith
scanned-status quick is_closed deleting pool dial = (refl, λ h. cc)
scanned-status quick is_closed deleted pool dial = (refl, λ h. cc)
