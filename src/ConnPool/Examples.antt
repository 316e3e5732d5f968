-- ===== src/ConnPool/Examples.antt =====
-- A pool that opens one connection ahead, and at most two in all.
use async_thrift.Prelude.{
  ℕ, if◌then◌else◌, ◌==◌, ◌≡◌, ◌≤◌, ◌⊎◌, refl, [], ◌∷◌, true, false, some, none, arith, length,
}
use async_thrift.Map.{find, insert, erase}
use async_thrift.ConnPool.{
  Answer, alive, other, is_empty, Connection, closed, connected, is_open, ConnPool, new_pool, get,
  put, close, count_got, no_counts,
}
use async_thrift.ConnPool.Probe.{
  reclaim_connections, total_connections, update_status, quick_update_status,
}
use async_thrift.ConnPool.Owner.{IsUsed, Owned, new_pool-Owned, counters-Owned}
use async_thrift.ConnPool.History.{none_yet, next, gets, puts, closes, Calls-Owned}
use async_thrift.ConnPool.Reclaim.{reclaim_bounds}
use async_thrift.ConnPool.Health.{update_status-hears}
use async_thrift.ConnPool.Outcome.{get_outcome}
use async_thrift.ConnPool.Return.{put-get}

abbrev opened : Connection
opened = record { status = connected; opened = true; in_use = false }

abbrev start : ConnPool
start = new_pool 1 2 (λ i. true)

-- The connection 0 is got, closed by its holder, and put back; then another is got.
Calls-Owned_example :
    (q : ConnPool) × (put 0 (close 0 (get true start).1) ≡ some q) × Owned (get true q).1 []
unfolding new_pool get put close find insert erase
Calls-Owned_example = (
  record {
    min_free_conn = 1;
    max_conn = 2;
    status = closed;
    free_connections = [];
    allocated_connections = [];
    closed_connections = (0, record { status = closed; opened = false; in_use = false }) ∷ [];
    counters = count_got true no_counts;
    next = 1;
    deleted = [];
  },
  refl,
  Calls-Owned 1 2 (λ i. true)
      (next
        (next (next (next none_yet (gets true)) (closes 0))
          (puts 0 (record { status = closed; opened = false; in_use = true }) refl refl))
        (gets true)),
)

get_outcome_example :
    (((get true start).0 ≡ none) × (start.free_connections ≡ []) × (true ≡ false))
    ⊎ (((if is_empty start.free_connections then true else true) ≡ true)
        × ((id : ℕ) × (c : Connection) × ((get true start).0 ≡ some id)
            × (find id start.allocated_connections ≡ none)
            × (find id (get true start).1.allocated_connections ≡ some c)
            × (is_open c ≡ true)
            × IsUsed c))
get_outcome_example = get_outcome true start (new_pool-Owned 1 2 (λ i. true))

put-get_example :
    ((get true start).0 ≡ some 0)
    × (put 0 (get true start).1 ≡ some (record start { counters = count_got true start.counters }))
unfolding new_pool insert
put-get_example = put-get true start 0 opened [] refl (new_pool-Owned 1 2 (λ i. true))

-- Two free connections, with one to keep and one at most in all.
abbrev crowded : ConnPool
crowded = record {
  min_free_conn = 1;
  max_conn = 1;
  status = connected;
  free_connections = (0, opened) ∷ (1, opened) ∷ [];
  allocated_connections = [];
  closed_connections = [];
  counters = no_counts;
  next = 2;
  deleted = [];
}

reclaim_bounds_example :
    let q = reclaim_connections (λ i. true) crowded in
    (q.allocated_connections ≡ crowded.allocated_connections)
    × (1 ≤ length q.free_connections)
    × (1 ≤ total_connections q)
    × ((total_connections q ≡ 1)
        ⊎ ((length q.free_connections ≡ 1) × (length q.closed_connections ≡ 0)))
reclaim_bounds_example = reclaim_bounds (λ i. true) crowded (omega arith) (omega arith)

-- The server of a connected pool does not answer alive, and then it does.
abbrev checked : ConnPool
checked = record start { status = connected }

abbrev late : ℕ → Answer
late i = if i == 0 then other else alive

update_status-hears_example :
    ((update_status true late checked).status ≡ connected)
    × ((quick_update_status true late checked).status ≡ closed)
unfolding new_pool insert
update_status-hears_example =
    update_status-hears true late checked
      (counters-Owned start connected start.counters (new_pool-Owned 1 2 (λ i. true)))
