-- ===== src/IoPool/Turns.antt =====
-- The round robin of get_io_service().
use native.Mathlib.Nat.{mod-add-mod}
use async_thrift.Prelude.{ℕ, zero, suc, ◌+◌, ◌%◌, ◌<◌, ◌≡◌, refl, ap, ◌∙◌, true, some, arith}
use async_thrift.Map.Laws.{find-insert}
use async_thrift.IoPool.{
  IoServicePool, create, set_tss_io_service, get_tss_io_service, start_threads, run, get_io_service,
}

-- The next service exists.
abbrev pub InRange : IoServicePool → Type 0
InRange p = p.next < p.size

pub create-InRange : (n : ℕ) → InRange (create n)
unfolding create
create-InRange n = ground arith

-- The pool after k calls of get_io_service().
pub after_calls : ℕ → IoServicePool → IoServicePool
after_calls zero p = p
after_calls (suc k) p = after_calls k (get_io_service p).1

get-InRange : (p : IoServicePool) → InRange p → InRange (get_io_service p).1
unfolding get_io_service
get-InRange p h = ground arith

size-get : (p : IoServicePool) → (get_io_service p).1.size ≡ p.size
unfolding get_io_service
size-get p = refl

next-get : (p : IoServicePool) → InRange p → (get_io_service p).1.next ≡ (p.next + 1) % p.size
unfolding get_io_service
next-get p h = grind arith

-- The sum of two rounds, when the first is cut at the size.
mod_step : (a k n : ℕ) → 0 < n → ((a + 1) % n + k) % n ≡ (a + suc k) % n
mod_step a k n h = mod-add-mod (a + 1) n k ∙ ap (λ (t : ℕ). t % n) regroup
  where
    regroup : a + 1 + k ≡ a + suc k
    regroup = omega arith

-- While the next index is in range: the (k+1)-th call of get_io_service() returns the k-th service after the first one returned, in
-- a circle: any `size` calls in a row take each service once.
pub get_io_service_turn :
    (k : ℕ) (p : IoServicePool)
    → InRange p
    → ((get_io_service (after_calls k p)).0 ≡ (p.next + k) % p.size) × InRange (after_calls k p)
unfolding after_calls get_io_service
get_io_service_turn zero p h = (grind arith, h)
get_io_service_turn (suc k) p h =
    let (ih, inside) = get_io_service_turn k (get_io_service p).1 (get-InRange p h) in
    (
      ih
          ∙ ap (λ (t : ℕ). (t + k) % p.size) (next-get p h)
          ∙ mod_step p.next k p.size (omega (arith, h)),
      inside,
    )

get-set_ne :
    (t u service : ℕ) (p : IoServicePool)
    → t < u
    → get_tss_io_service t (set_tss_io_service u service p) ≡ get_tss_io_service t p
unfolding get_tss_io_service set_tss_io_service
get-set_ne t u service p h = find-insert u t service p.tss ∙ ground arith

get-set_self :
    (t service : ℕ) (p : IoServicePool)
    → get_tss_io_service t (set_tss_io_service t service p) ≡ some service
unfolding get_tss_io_service set_tss_io_service
get-set_self t service p = find-insert t t service p.tss ∙ ground arith

start_threads_below :
    (first i n thread : ℕ) (p : IoServicePool)
    → thread < first + i
    → get_tss_io_service thread (start_threads true first i n p) ≡ get_tss_io_service thread p
unfolding start_threads
start_threads_below first i zero thread p h = refl
start_threads_below first i (suc n) thread p h =
    start_threads_below first (suc i) n thread (set_tss_io_service (first + i) i p) (omega arith)
    ∙ get-set_ne thread (first + i) i p (omega arith)

start_threads_own :
    (first i n j : ℕ) (p : IoServicePool)
    → j < n
    → get_tss_io_service (first + i + j) (start_threads true first i n p) ≡ some (i + j)
unfolding start_threads
start_threads_own first i zero j p h = elim h [ ]
start_threads_own first i (suc n) zero p h =
    ap (λ t. get_tss_io_service t (start_threads true first (suc i) n q)) plain
    ∙ start_threads_below first (suc i) n (first + i) q (omega arith)
    ∙ get-set_self (first + i) i p
    ∙ ap some (omega arith)
  where
    q : IoServicePool
    q = set_tss_io_service (first + i) i p

    plain : first + i + 0 ≡ first + i
    plain = omega arith
start_threads_own first i (suc n) (suc j) p h =
    ap (λ t. get_tss_io_service t (start_threads true first (suc i) n q)) shifted
    ∙ start_threads_own first (suc i) n j q (omega arith)
    ∙ ap some (omega arith)
  where
    q : IoServicePool
    q = set_tss_io_service (first + i) i p

    shifted : first + i + suc j ≡ first + suc i + j
    shifted = omega arith

-- Each thread that `run` starts, with `enable_tss`, finds its own service in its thread-specific
-- pointer: thread `first + j` the service j, for every service of the pool.
pub run_tss :
    (first j : ℕ) (p : IoServicePool)
    → j < p.size
    → get_tss_io_service (first + j) (run true first p) ≡ some j
unfolding run
run_tss first j p h =
    ap (λ t. get_tss_io_service t (run true first p)) (omega arith)
    ∙ start_threads_own first 0 p.size j (record p { works = p.size; next = 0 }) h
    ∙ ap some (omega arith)
