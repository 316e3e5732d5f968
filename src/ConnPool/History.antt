-- ===== src/ConnPool/History.antt =====
-- Reclaiming, and any history of calls of a pool, with what the holders of its connections do to
-- them.
use async_thrift.Prelude.{
  ℕ, zero, suc, ◌-◌, ◌≡◌, refl, sym, ◌∙◌, subst, [], ◌∷◌, Bool, true, false, some, arith, ltb, leb,
  ◌==◌, if◌then◌else◌, length,
}
use async_thrift.Map.{Map, find}
use async_thrift.ConnPool.{Connection, Answer, ConnPool, get, put, close, new_pool}
use async_thrift.ConnPool.Probe.{
  update_status, quick_update_status, destroy_first_free, destroy_first_closed, destroy_free,
  destroy_closed, count_created, count_free, count_closed, reclaim_free, reclaim_connections,
  total_connections, try_times, at_most,
}
use async_thrift.ConnPool.Owner.{
  IsIdle, IsReady, IsUsed, Owned, counters-Owned, create_free-Owned, new_pool-Owned,
  others-IsSorted, head-Every, in_table-others,
}
use async_thrift.ConnPool.Calls.{
  used_as, used_as-Owned, get-Owned, put-Owned, close-Owned, tried-Owned,
}

destroy_first_free-Owned :
    (m : Map Connection) (p : ConnPool)
    → p.free_connections ≡ m
    → Owned p []
    → Owned (destroy_first_free m p) []
destroy_first_free-Owned [] p q o = o
destroy_first_free-Owned ((id, c) ∷ others) p q o = record {
  free_sorted = others-IsSorted q o.free_sorted;
  allocated_sorted = o.allocated_sorted;
  closed_sorted = o.closed_sorted;
  free_ready = (head-Every q IsReady o.free_ready).1;
  allocated_used = o.allocated_used;
  closed_idle = o.closed_idle;
  placed = λ j. ground (arith, o.placed j, in_table-others q o.free_sorted j);
}

destroy_first_closed-Owned :
    (m : Map Connection) (p : ConnPool)
    → p.closed_connections ≡ m
    → Owned p []
    → Owned (destroy_first_closed m p) []
destroy_first_closed-Owned [] p q o = o
destroy_first_closed-Owned ((id, c) ∷ others) p q o = record {
  free_sorted = o.free_sorted;
  allocated_sorted = o.allocated_sorted;
  closed_sorted = others-IsSorted q o.closed_sorted;
  free_ready = o.free_ready;
  allocated_used = o.allocated_used;
  closed_idle = (head-Every q IsIdle o.closed_idle).1;
  placed = λ j. ground (arith, o.placed j, in_table-others q o.closed_sorted j);
}

pub destroy_free-Owned : (n : ℕ) (p : ConnPool) → Owned p [] → Owned (destroy_free n p) []
unfolding destroy_free
destroy_free-Owned zero p o = o
destroy_free-Owned (suc n) p o =
    destroy_free-Owned n (destroy_first_free p.free_connections p)
      (destroy_first_free-Owned p.free_connections p refl o)

pub destroy_closed-Owned : (n : ℕ) (p : ConnPool) → Owned p [] → Owned (destroy_closed n p) []
unfolding destroy_closed
destroy_closed-Owned zero p o = o
destroy_closed-Owned (suc n) p o =
    destroy_closed-Owned n (destroy_first_closed p.closed_connections p)
      (destroy_first_closed-Owned p.closed_connections p refl o)

if-Owned : (b : Bool) {p q : ConnPool} → Owned p [] → Owned q [] → Owned (if b then p else q) []
if-Owned true o o' = o
if-Owned false o o' = o'

reclaim_free-Owned :
    (opens : ℕ → Bool) (n : ℕ) (p : ConnPool) → Owned p [] → Owned (reclaim_free opens n p) []
reclaim_free-Owned opens n p o =
    if-Owned (leb (length p.free_connections) p.min_free_conn)
      (create_free-Owned missing 0 opens (count_created missing p)
        (if-Owned (missing == 0) o (counters-Owned p _ _ o)))
      (destroy_free-Owned excess (count_free excess p)
        (if-Owned (excess == 0) o (counters-Owned p _ _ o)))
  where
    missing : ℕ
    missing = p.min_free_conn - length p.free_connections

    excess : ℕ
    excess = at_most n (length p.free_connections - p.min_free_conn)

pub reclaim-Owned :
    (opens : ℕ → Bool) (p : ConnPool) → Owned p [] → Owned (reclaim_connections opens p) []
unfolding reclaim_connections
reclaim-Owned opens p o = if-Owned (ltb (total_connections p) p.max_conn) o (
    destroy_closed-Owned n (count_closed n q)
      (if-Owned (n == 0) freed (counters-Owned q _ _ freed)))
  where
    n : ℕ
    n = at_most (total_connections p - p.max_conn) (length p.closed_connections)

    q : ConnPool
    q = reclaim_free opens (total_connections p - p.max_conn - n) p

    freed : Owned q []
    freed = reclaim_free-Owned opens (total_connections p - p.max_conn - n) p o

-- One call; or the holder of an allocated connection has used it, and left it open or not.
pub data Call (p : ConnPool) : ConnPool → Type 0 where
  gets : (opens : Bool) → Call p (get opens p).1
  puts :
      {q : ConnPool} (id : ℕ) (c : Connection)
      → find id p.allocated_connections ≡ some c
      → put id p ≡ some q
      → Call p q
  uses :
      (id : ℕ) (old c : Connection)
      → find id p.allocated_connections ≡ some old
      → IsUsed c
      → Call p (used_as id c p)
  closes : (id : ℕ) → Call p (close id p)
  updates : (opens : Bool) (answers : ℕ → Answer) → Call p (update_status opens answers p)
  updates_quickly :
      (opens : Bool) (answers : ℕ → Answer) → Call p (quick_update_status opens answers p)
  reclaims : (opens : ℕ → Bool) → Call p (reclaim_connections opens p)

pub data Calls (p : ConnPool) : ConnPool → Type 0 where
  none_yet : Calls p p
  next : {q r : ConnPool} → Calls p q → Call q r → Calls p r

Call-Owned : {p q : ConnPool} → Call p q → Owned p [] → Owned q []
unfolding update_status quick_update_status
Call-Owned {p} (gets opens) o = get-Owned opens p o
Call-Owned {p} {q} (puts id c found put_is) o =
    let (q', same, owned) = put-Owned id c p found o in
    subst (λ x. Owned x []) (equal (sym same ∙ put_is)) owned
  where
    equal : {x y : ConnPool} → some x ≡ some y → x ≡ y
    equal h = cc
Call-Owned {p} (uses id old c found u) o = used_as-Owned id old c p found u o
Call-Owned {p} (closes id) o = close-Owned id p o
Call-Owned {p} (updates opens answers) o = tried-Owned (try_times p.status) opens answers p o
Call-Owned {p} (updates_quickly opens answers) o = tried-Owned 1 opens answers p o
Call-Owned {p} (reclaims opens) o = reclaim-Owned opens p o

-- In every history of a new pool, each connection allocated is in exactly one of the pool's three
-- sets or deleted, once; those allocated to a caller are in use and all others are not, so that no
-- connection in use is ever handed out or destroyed; the free ones are open.
pub Calls-Owned :
    (min_free_conn max_conn : ℕ) (opens : ℕ → Bool) {p : ConnPool}
    → Calls (new_pool min_free_conn max_conn opens) p
    → Owned p []
Calls-Owned min_free_conn max_conn opens none_yet = new_pool-Owned min_free_conn max_conn opens
Calls-Owned min_free_conn max_conn opens (next calls call) =
    Call-Owned call (Calls-Owned min_free_conn max_conn opens calls)
