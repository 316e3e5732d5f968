-- ===== src/Asio/Adding.antt =====
-- `add` as a whole, and an interleaving that leaves the table of status changes.
use async_thrift.Prelude.{
  ℕ, ◌≡◌, refl, ap, ◌∙◌, [], Bool, true, false, Option, none, some, arith, if◌then◌else◌,
}
use async_thrift.Map.{find, or_fresh}
use async_thrift.Map.Laws.{find-insert}
use async_thrift.Asio.{
  Status, adding, connected, disconnected, deleting, deleted, EndPointPool, fresh, AsioPool, entry,
  put_entry, close_all, is_connected, empty_into, add_by, mark_adding, del, del_by, del_found,
  count_failure, finish_connect,
}
use async_thrift.Asio.Probe.{probe, add}
use async_thrift.Asio.Inv.{Inv, touch-Inv, empty_into-Inv, del-Inv, finish_connect-Inv}
use async_thrift.Asio.Entries.{entry-empty_self}
use async_thrift.Asio.Cycle.{after_dial, after_probe, status_at}
use async_thrift.Asio.Round.{probe-status}
use async_thrift.Asio.Table.{may_become}

find-empty_into :
    (ep : ℕ) (status : Status) (p : AsioPool)
    → find ep (empty_into ep status p).map ≡ some (record { status = status; pool = [] })
unfolding empty_into close_all put_entry
find-empty_into ep status p =
    find-insert ep ep (record { status = status; pool = [] }) p.map ∙ ground arith

find-touch : (ep : ℕ) (p : AsioPool) → find ep (put_entry ep (entry ep p) p).map ≡ some (entry ep p)
unfolding put_entry
find-touch ep p = find-insert ep ep (entry ep p) p.map ∙ ground arith

-- `add` with its quick probe, in a pool that keeps its invariant: an endpoint that serves already is left so, any other is dialled at
-- once and takes its status from the outcome.
pub add-status :
    (is_closed : ℕ → Bool) (dial : ℕ → ℕ → Option ℕ) (ep : ℕ) (p : AsioPool)
    → Inv p
    → (entry ep (add is_closed dial ep p)).status
      ≡ (if is_connected (entry ep p).status then connected else after_dial (dial ep 0))
unfolding add mark_adding
add-status is_closed dial ep p i = by_status (status_at ep p) refl
  where
    from_empty :
        status_at ep (probe true is_closed dial (empty_into ep adding p)) ≡ after_dial (dial ep 0)
    from_empty =
        probe-status true is_closed dial ep (record { status = adding; pool = [] })
          (empty_into ep adding p) (empty_into-Inv ep adding p i).sorted
          (find-empty_into ep adding p)

    from_touch :
        (status : Status)
        → status_at ep p ≡ status
        → status_at ep (probe true is_closed dial (put_entry ep (entry ep p) p))
          ≡ after_probe true is_closed
              (record { status = status; pool = (entry ep p).pool })
              (dial ep 0)
    from_touch status e =
        probe-status true is_closed dial ep (entry ep p) (put_entry ep (entry ep p) p)
          (touch-Inv ep p i).sorted (find-touch ep p)
        ∙ ap
            (λ st.
              after_probe true is_closed (record { status = st; pool = (entry ep p).pool })
                (dial ep 0))
            e

    by_status :
        (status : Status)
        → status_at ep p ≡ status
        → status_at ep (probe true is_closed dial (add_by status ep p))
          ≡ (if is_connected status then connected else after_dial (dial ep 0))
    by_status deleting e = from_empty
    by_status deleted e = from_empty
    by_status adding e = from_touch adding e
    by_status connected e = from_touch connected e
    by_status disconnected e = from_touch disconnected e

del-connected :
    (ep : ℕ) (p : AsioPool)
    → (entry ep p).status ≡ connected
    → (entry ep (del ep p)).status ≡ deleting
unfolding del
del-connected ep p c = by_found (find ep p.map) c
  where
    by_status :
        (status : Status) → status ≡ connected → (entry ep (del_by status ep p)).status ≡ deleting
    by_status connected e = ap EndPointPool.status (entry-empty_self ep p deleting)
    by_status adding e = cc
    by_status disconnected e = cc
    by_status deleting e = cc
    by_status deleted e = cc

    by_found :
        (o : Option EndPointPool)
        → (or_fresh fresh o).status ≡ connected
        → (entry ep (del_found o ep p)).status ≡ deleting
    by_found none e = cc
    by_found (some x) e = by_status x.status e

-- A `get` of a connected endpoint has left its lock to connect, a `del` of the endpoint comes in
-- between, and the connect fails: the deletion is forgotten. The endpoint is marked lost, which the table does not allow for one
-- being deleted, and the next probe puts it back into service, if it can connect.
pub late_failure_revives :
    (is_closed : ℕ → Bool) (dial : ℕ → ℕ → Option ℕ) (ep s : ℕ) (slot : Option ℕ) (p : AsioPool)
    → Inv p
    → (entry ep p).status ≡ connected
    → dial ep 0 ≡ some s
    → let deleted_late = del ep p in
      let q = (finish_connect ep slot none deleted_late).after in
      ((entry ep deleted_late).status ≡ deleting)
      × ((entry ep q).status ≡ disconnected)
      × (may_become deleting disconnected ≡ false)
      × ((entry ep (probe false is_closed dial q)).status ≡ connected)
unfolding close_all count_failure
late_failure_revives is_closed dial ep s slot p i c d = (
  del-connected ep p c,
  ap EndPointPool.status (entry-empty_self ep (del ep p) disconnected),
  refl,
  probe-status false is_closed dial ep (record { status = disconnected; pool = [] })
        (finish_connect ep slot none (del ep p)).after
        (finish_connect-Inv (del ep p) (del-Inv p i ep) ep slot none).sorted
        (find-empty_into ep disconnected (del ep p))
      ∙ ap after_dial d,
)
