-- ===== src/Asio/Threads.antt =====
-- Callers and the probe thread together: any interleaving of the locked sections. Between two
-- sections another thread may run any other; the sockets that come from `connect` or from callers,
-- and those that go to callers, are the labels.
use async_thrift.Prelude.{
  ℕ, ◌+◌, ◌≤◌, ◌≢◌, ◌≡◌, List, [], ◌∷◌, ◌++◌, Bool, false, Option, arith, length, count,
  count-append,
}
use async_thrift.Asio.{
  Status, AsioPool, init, entry, put_entry, mark_adding, del, held, pick, finish_connect,
  put_locked, clear, is_connected,
}
use async_thrift.Asio.Probe.{
  scan_all, probe_failed, probe_connected, replenish, count_connected, count_disconnected,
}
use async_thrift.Asio.Inv.{
  Inv, after_pick, mark_adding-Inv, del-Inv, pick-Inv, finish_connect-Inv, put_locked-Inv,
  clear-Inv, scan_all-Inv, touch-Inv, probe_failed-Inv, probe_connected-Inv, replenish-Inv,
  count_connected-Inv, count_disconnected-Inv, entry-IsTidy,
}
use async_thrift.Asio.Sockets.{owned, Flow, picked_in, picked_out, owned-touch}
use async_thrift.Asio.Flow.{
  mark_adding-Flow, del-Flow, pick-Flow, finish_connect-Flow, put_locked-Flow, clear-Flow,
  scan_all-Flow, probe_failed-Flow, probe_connected-Flow, replenish-Flow, count_connected-Flow,
  count_disconnected-Flow,
}

pub data Step (p : AsioPool) : List ℕ → List ℕ → AsioPool → Type 0 where
  marks : (ep : ℕ) → Step p [] [] (mark_adding ep p)
  dels : (ep : ℕ) → Step p [] [] (del ep p)
  picks :
      (is_closed : ℕ → Bool) (ep : ℕ) (slot : Option ℕ)
      → Step p
          (picked_in slot (pick is_closed ep slot p))
          (picked_out (pick is_closed ep slot p))
          (after_pick (pick is_closed ep slot p))
  finishes :
      (ep : ℕ) (slot dialled : Option ℕ)
      → Step p (held slot ++ held dialled) (held dialled) (finish_connect ep slot dialled p).after
  puts : (s ep : ℕ) → Step p (s ∷ []) [] (put_locked s ep p)
  clears : Step p [] [] (clear p)
  scans : (quick : Bool) (is_closed : ℕ → Bool) → Step p [] [] (scan_all quick is_closed p).0
  checks : (ep : ℕ) → Step p [] [] (put_entry ep (entry ep p) p)
  counts_connected : (status : Status) → Step p [] [] (count_connected status p)
  counts_disconnected : (status : Status) → Step p [] [] (count_disconnected status p)
  fails : (ep : ℕ) → Step p [] [] (probe_failed ep p)
  connects : (ep s : ℕ) → Step p (s ∷ []) [] (probe_connected ep s p)
  replenishes : (ep : ℕ) (sockets : List ℕ) → Step p sockets [] (replenish ep sockets p)

-- A history, with all the sockets that came and went.
pub data Run (p : AsioPool) : List ℕ → List ℕ → AsioPool → Type 0 where
  here : Run p [] [] p
  next :
      {came went more out : List ℕ} {q r : AsioPool}
      → Run p came went q
      → Step q more out r
      → Run p (came ++ more) (went ++ out) r

Step-Inv : {p : AsioPool} {came went : List ℕ} {q : AsioPool} → Step p came went q → Inv p → Inv q
Step-Inv {p} (marks ep) i = mark_adding-Inv ep p i
Step-Inv {p} (dels ep) i = del-Inv p i ep
Step-Inv {p} (picks is_closed ep slot) i = pick-Inv p i is_closed ep slot
Step-Inv {p} (finishes ep slot dialled) i = finish_connect-Inv p i ep slot dialled
Step-Inv {p} (puts s ep) i = put_locked-Inv p i s ep
Step-Inv {p} clears i = clear-Inv p i
Step-Inv {p} (scans quick is_closed) i = scan_all-Inv p i quick is_closed
Step-Inv {p} (checks ep) i = touch-Inv ep p i
Step-Inv {p} (counts_connected status) i = count_connected-Inv p i status
Step-Inv {p} (counts_disconnected status) i = count_disconnected-Inv p i status
Step-Inv {p} (fails ep) i = probe_failed-Inv p i ep
Step-Inv {p} (connects ep s) i = probe_connected-Inv p i ep s
Step-Inv {p} (replenishes ep sockets) i = replenish-Inv p i ep sockets

pub Run-Inv : {p q : AsioPool} {came went : List ℕ} → Run p came went q → Inv p → Inv q
Run-Inv here i = i
Run-Inv (next run step) i = Step-Inv step (Run-Inv run i)

Step-Flow :
    {p : AsioPool} {came went : List ℕ} {q : AsioPool}
    → Step p came went q
    → Inv p
    → Flow p came went q
Step-Flow {p} (marks ep) i = mark_adding-Flow p i ep
Step-Flow {p} (dels ep) i = del-Flow p i ep
Step-Flow {p} (picks is_closed ep slot) i = pick-Flow p i is_closed ep slot
Step-Flow {p} (finishes ep slot dialled) i = finish_connect-Flow p i ep slot dialled
Step-Flow {p} (puts s ep) i = put_locked-Flow p i s ep
Step-Flow {p} clears i = clear-Flow p i
Step-Flow {p} (scans quick is_closed) i = scan_all-Flow quick is_closed p
Step-Flow {p} (checks ep) i = λ s. omega (arith, owned-touch p i s ep)
Step-Flow {p} (counts_connected status) i = count_connected-Flow p status
Step-Flow {p} (counts_disconnected status) i = count_disconnected-Flow p status
Step-Flow {p} (fails ep) i = probe_failed-Flow p i ep
Step-Flow {p} (connects ep s) i = probe_connected-Flow p i ep s
Step-Flow {p} (replenishes ep sockets) i = replenish-Flow p i ep sockets

-- In every interleaving each socket that came in is held, closed or handed out, once for each time
-- that it came.
pub Run-Flow :
    {p q : AsioPool} {came went : List ℕ} → Run p came went q → Inv p → Flow p came went q
Run-Flow here i s = omega arith
Run-Flow (next {came = came} {went = went} {more = more} {out = out} run step) i s = omega (
  arith,
  Run-Flow run i s,
  Step-Flow step (Run-Inv run i) s,
  count-append s came more,
  count-append s went out,
)

pub init-Inv : (max_conn min_conn : ℕ) → Inv (init max_conn min_conn)
unfolding init
init-Inv max_conn min_conn = record { sorted = tt; tidy = tt }

-- In every interleaving from a new pool, an endpoint that is not connected keeps no socket, and one that is
-- keeps at most `max_conn` of them, if that is not 0.
pub Run_tidy :
    (max_conn min_conn ep : ℕ) {p : AsioPool} {came went : List ℕ}
    → Run (init max_conn min_conn) came went p
    → (is_connected (entry ep p).status ≡ false → (entry ep p).pool ≡ [])
      × (p.max_conn ≢ 0 → length (entry ep p).pool ≤ p.max_conn)
Run_tidy max_conn min_conn ep {p} run = entry-IsTidy ep p (Run-Inv run (init-Inv max_conn min_conn))

-- In every interleaving from a new pool, a socket that came in once is in exactly one place: in
-- some endpoint's pool, closed, or handed out, once.
pub Run_once :
    (max_conn min_conn s : ℕ) {p : AsioPool} {came went : List ℕ}
    → Run (init max_conn min_conn) came went p
    → count s came ≡ 1
    → owned s p + count s went ≡ 1
unfolding init
Run_once max_conn min_conn s run h = omega (arith, Run-Flow run (init-Inv max_conn min_conn) s, h)
