-- ===== src/Asio/Entries.antt =====
-- What each write does to the endpoint that it is for, and that it touches no other.
use async_thrift.Prelude.{
  ℕ, ◌≡◌, ◌≢◌, refl, ap, ◌∙◌, List, [], ◌∷◌, ◌++◌, false, Option, none, some, arith, ◌==◌,
  if◌then◌else◌, Bool-cases, inl, inr,
}
use async_thrift.Map.{or_fresh, find}
use async_thrift.Map.Laws.{find-insert}
use async_thrift.Asio.{
  Status, connected, disconnected, deleting, deleted, EndPointPool, fresh, AsioPool, entry,
  put_entry, close_all, is_connected, is_deleting, push_back, empty_into, kept, del, del_by,
  del_found,
}
use async_thrift.Asio.Probe.{
  probe_failed, probe_connected, replenish, count_connected, count_disconnected,
}

pub entry-put_entry :
    (j ep : ℕ) (e : EndPointPool) (p : AsioPool)
    → entry j (put_entry ep e p) ≡ (if j == ep then e else entry j p)
unfolding put_entry
entry-put_entry j ep e p = rw (find-insert ep j e p.map) (ground arith)

module _ (ep : ℕ) (p : AsioPool) where
  pub entry-put_self : (e : EndPointPool) → entry ep (put_entry ep e p) ≡ e
  entry-put_self e = entry-put_entry ep ep e p ∙ ground arith

  pub entry-touch_self : entry ep (put_entry ep (entry ep p) p) ≡ entry ep p
  entry-touch_self = entry-put_self (entry ep p)

  pub entry-empty_self :
      (status : Status) → entry ep (empty_into ep status p) ≡ record { status = status; pool = [] }
  unfolding empty_into close_all
  entry-empty_self status = entry-put_self (record { status = status; pool = [] })

  pub entry-push_self :
      (xs : List ℕ)
      → entry ep (push_back ep connected xs p)
        ≡ record { status = connected; pool = kept p.max_conn (xs ++ (entry ep p).pool) }
  unfolding push_back close_all
  entry-push_self xs =
      entry-put_self
        (record { status = connected; pool = kept p.max_conn (xs ++ (entry ep p).pool) })

-- The other endpoints.
module _ (j ep : ℕ) (p : AsioPool) (other : j ≢ ep) where
  pub entry-put_ne : (e : EndPointPool) → entry j (put_entry ep e p) ≡ entry j p
  entry-put_ne e = entry-put_entry j ep e p ∙ ground arith

  pub entry-empty_ne : (status : Status) → entry j (empty_into ep status p) ≡ entry j p
  unfolding empty_into close_all
  entry-empty_ne status = entry-put_ne (record { status = status; pool = [] })

  pub entry-push_ne : (xs : List ℕ) → entry j (push_back ep connected xs p) ≡ entry j p
  unfolding push_back close_all
  entry-push_ne xs = entry-put_ne _

  pub entry-probe_failed_ne : entry j (probe_failed ep p) ≡ entry j p
  unfolding probe_failed
  entry-probe_failed_ne = elim (Bool-cases (is_deleting (entry ep p).status)) [
    | inl e ↦ rw e (entry-put_ne (entry ep p))
    | inr e ↦ rw e (entry-empty_ne disconnected)
  ]

  pub entry-probe_connected_ne : (s : ℕ) → entry j (probe_connected ep s p) ≡ entry j p
  unfolding probe_connected close_all
  entry-probe_connected_ne s = elim (Bool-cases (is_deleting (entry ep p).status)) [
    | inl e ↦ rw e (entry-put_ne (entry ep p))
    | inr e ↦ rw e (entry-push_ne (s ∷ []))
  ]

  pub entry-replenish_ne : (xs : List ℕ) → entry j (replenish ep xs p) ≡ entry j p
  unfolding replenish close_all
  entry-replenish_ne xs = elim (Bool-cases (is_connected (entry ep p).status)) [
    | inl e ↦ rw e (entry-push_ne xs)
    | inr e ↦ rw e (entry-put_ne (entry ep p))
  ]

pub entry-count_connected :
    (j : ℕ) (status : Status) (p : AsioPool) → entry j (count_connected status p) ≡ entry j p
unfolding count_connected
entry-count_connected j connected p = refl
entry-count_connected j _ p = refl

pub entry-count_disconnected :
    (j : ℕ) (status : Status) (p : AsioPool) → entry j (count_disconnected status p) ≡ entry j p
unfolding count_disconnected
entry-count_disconnected j connected p = refl
entry-count_disconnected j _ p = refl

-- A deleted or unknown endpoint is not connected.
pub del_disconnects : (ep : ℕ) (p : AsioPool) → is_connected (entry ep (del ep p)).status ≡ false
unfolding del
del_disconnects ep p = by_found (find ep p.map) refl
  where
    by_status :
        (status : Status)
        → (entry ep p).status ≡ status
        → is_connected (entry ep (del_by status ep p)).status ≡ false
    by_status deleting e = ap is_connected e
    by_status deleted e = ap is_connected e
    by_status _ e =
        ap (λ (x : EndPointPool). is_connected x.status) (entry-empty_self ep p deleting)

    by_found :
        (o : Option EndPointPool)
        → find ep p.map ≡ o
        → is_connected (entry ep (del_found o ep p)).status ≡ false
    by_found none e = ap (λ o. is_connected (or_fresh fresh o).status) e
    by_found (some x) e = by_status x.status (ap (λ o. (or_fresh fresh o).status) e)
