-- ===== src/Asio/Examples.antt =====
-- A pool with a bound of three, the endpoint 5, and sockets 10 and up.
use async_thrift.Prelude.{
  ℕ, ◌+◌, ◌≤◌, ◌≡◌, ◌≢◌, refl, [], ◌∷◌, Bool, true, false, Option, none, some, arith, length, inl,
  count,
}
use async_thrift.Map.{find, insert}
use async_thrift.Asio.{
  AsioPool, connected, disconnected, deleting, init, entry, put_entry, close_all, push_back,
  empty_into, mark_adding, del, pick, finish_connect, get, put_locked, is_connected, count_failure,
  count_pooled, count_created,
}
use async_thrift.Asio.Probe.{probe, add, probe_connected, scan_all}
use async_thrift.Asio.Inv.{Inv, mark_adding-Inv, probe_connected-Inv, after_pick}
use async_thrift.Asio.Sockets.{owned}
use async_thrift.Asio.Threads.{
  Run, here, next, marks, connects, picks, init-Inv, Run_tidy, Run_once,
}
use async_thrift.Asio.Calls.{get-del, Sound, get-Sound, get-put}
use async_thrift.Asio.Round.{probe-status}
use async_thrift.Asio.Table.{may_become, KeepsTable, sections-KeepsTable}
use async_thrift.Asio.Adding.{add-status, late_failure_revives}

abbrev all_open : ℕ → Bool
all_open s = false

-- The i-th connect to an endpoint returns the socket 10 + i.
abbrev dial : ℕ → ℕ → Option ℕ
dial ep i = some (10 + i)

abbrev serving : AsioPool
serving = probe_connected 5 10 (mark_adding 5 (init 3 1))

the_code : Unit {0}
unfolding init mark_adding empty_into put_entry close_all push_back probe_connected insert find del
    put_locked pick get count_failure count_pooled count_created
the_code = tt

serving-Inv : Inv serving
serving-Inv =
    probe_connected-Inv (mark_adding 5 (init 3 1)) (mark_adding-Inv 5 (init 3 1) (init-Inv 3 1)) 5
      10

start : Run (init 3 1) [] [] (init 3 1)
start = here

history : Run (init 3 1) (10 ∷ []) (10 ∷ []) (after_pick (pick all_open 5 none serving))
unfolding the_code
history = next (next (next here (marks 5)) (connects 5 10)) (picks all_open 5 none)

Run_tidy_example :
    let p = after_pick (pick all_open 5 none serving) in
    (is_connected (entry 5 p).status ≡ false → (entry 5 p).pool ≡ [])
    × (p.max_conn ≢ 0 → length (entry 5 p).pool ≤ p.max_conn)
Run_tidy_example = Run_tidy 3 1 5 history

Run_once_example : owned 10 (after_pick (pick all_open 5 none serving)) + count 10 (10 ∷ []) ≡ 1
Run_once_example = Run_once 3 1 10 history refl

get-del_example :
    let r = get all_open (some 20) 5 (some 7) (del 5 serving) in
    (r.success ≡ false) × (r.slot ≡ some 7)
get-del_example = get-del all_open (some 20) 5 (some 7) serving

get-Sound_example : Sound all_open none 5 serving (get all_open none 5 none serving)
get-Sound_example = get-Sound all_open none 5 none serving

get-put_example :
    let r = get all_open none 5 none (put_locked 12 5 serving) in
    (r.slot ≡ some 12) × (r.success ≡ true) × (entry 5 r.after ≡ entry 5 serving)
unfolding the_code
get-put_example = get-put all_open none 5 12 none serving refl (inl (omega arith)) refl

probe-status_example : (entry 5 (probe false all_open dial serving)).status ≡ connected
unfolding the_code
probe-status_example =
    probe-status false all_open dial 5 (record { status = connected; pool = 10 ∷ [] }) serving
      serving-Inv.sorted refl

sections-KeepsTable_example :
    ((ep : ℕ) → KeepsTable serving (mark_adding ep serving))
    × ((ep : ℕ) → KeepsTable serving (del ep serving))
    × ((is_closed : ℕ → Bool) (ep : ℕ) (slot : Option ℕ)
        → KeepsTable serving (after_pick (pick is_closed ep slot serving)))
    × ((s ep : ℕ) → KeepsTable serving (put_locked s ep serving))
    × ((quick : Bool) (is_closed : ℕ → Bool)
        → KeepsTable serving (scan_all quick is_closed serving).0)
sections-KeepsTable_example = sections-KeepsTable serving

add-status_example : (entry 6 (add all_open dial 6 serving)).status ≡ connected
unfolding the_code
add-status_example = add-status all_open dial 6 serving serving-Inv

late_failure_revives_example :
    let q = (finish_connect 5 none none (del 5 serving)).after in
    ((entry 5 (del 5 serving)).status ≡ deleting)
    × ((entry 5 q).status ≡ disconnected)
    × (may_become deleting disconnected ≡ false)
    × ((entry 5 (probe false all_open dial q)).status ≡ connected)
unfolding the_code
late_failure_revives_example =
    late_failure_revives all_open dial 5 10 none serving serving-Inv refl refl
