-- ===== src/ConnPool/Reclaim.antt =====
-- How much reclaim_connections frees, and that the destructor frees everything.
use async_thrift.Prelude.{
  count, none, some, ==_iff, ℕ, zero, suc, ◌-◌, ◌≤◌, ◌<◌, ◌≡◌, ◌⊎◌, refl, sym, ap, subst, ◌∙◌, [],
  ◌∷◌, Bool, true, false, arith, ltb, leb, ◌==◌, if◌then◌else◌, length,
}
use async_thrift.Map.{Map}
use async_thrift.ConnPool.{Connection, ConnPool, create_free}
use async_thrift.ConnPool.{can_be_destroyed}
use async_thrift.ConnPool.Owner.{Owned}
use async_thrift.ConnPool.Allocated.{reclaim-allocated}
use async_thrift.ConnPool.History.{destroy_free-Owned, destroy_closed-Owned}
use async_thrift.Map.{find}
use async_thrift.Map.Places.{in_table}
use async_thrift.ConnPool.Probe.{
  destroy_pool, destroy_first_free, destroy_first_closed, destroy_free, destroy_closed,
  count_created, count_free, count_closed, reclaim_excess, reclaim_connections, total_connections,
  at_most,
}

-- The sizes of a pool's sets.
abbrev Sizes : ℕ → ℕ → ℕ → ConnPool → Type 0
Sizes allocated free closed p =
    (length p.allocated_connections ≡ allocated)
    × (length p.free_connections ≡ free)
    × (length p.closed_connections ≡ closed)

module _ (allocated free closed : ℕ) where
  first_free-Sizes :
      (m : Map Connection) (p : ConnPool)
      → p.free_connections ≡ m
      → Sizes allocated free closed p
      → Sizes allocated (free - 1) closed (destroy_first_free m p)
  first_free-Sizes [] p q (a, f, c) = (a, omega (arith, f, ap length q), c)
  first_free-Sizes (x ∷ others) p q (a, f, c) = (a, omega (arith, f, ap length q), c)

  first_closed-Sizes :
      (m : Map Connection) (p : ConnPool)
      → p.closed_connections ≡ m
      → Sizes allocated free closed p
      → Sizes allocated free (closed - 1) (destroy_first_closed m p)
  first_closed-Sizes [] p q (a, f, c) = (a, f, omega (arith, c, ap length q))
  first_closed-Sizes (x ∷ others) p q (a, f, c) = (a, f, omega (arith, c, ap length q))

destroy_free-Sizes :
    (n allocated free closed : ℕ) (p : ConnPool)
    → Sizes allocated free closed p
    → Sizes allocated (free - n) closed (destroy_free n p)
unfolding destroy_free
destroy_free-Sizes zero allocated free closed p (a, f, c) = (a, omega (arith, f), c)
destroy_free-Sizes (suc n) allocated free closed p s =
    subst (λ k. Sizes allocated k closed (destroy_free (suc n) p)) (omega arith)
      (destroy_free-Sizes n allocated (free - 1) closed (destroy_first_free p.free_connections p)
        (first_free-Sizes allocated free closed p.free_connections p refl s))

destroy_closed-Sizes :
    (n allocated free closed : ℕ) (p : ConnPool)
    → Sizes allocated free closed p
    → Sizes allocated free (closed - n) (destroy_closed n p)
unfolding destroy_closed
destroy_closed-Sizes zero allocated free closed p (a, f, c) = (a, f, omega (arith, c))
destroy_closed-Sizes (suc n) allocated free closed p s =
    subst (λ k. Sizes allocated free k (destroy_closed (suc n) p)) (omega arith)
      (destroy_closed-Sizes n allocated free (closed - 1)
        (destroy_first_closed p.closed_connections p)
        (first_closed-Sizes allocated free closed p.closed_connections p refl s))

if-Sizes :
    (b : Bool) (allocated free closed : ℕ) (p q : ConnPool)
    → Sizes allocated free closed p
    → Sizes allocated free closed q
    → Sizes allocated free closed (if b then p else q)
if-Sizes true allocated free closed p q s t = s
if-Sizes false allocated free closed p q s t = t

-- A round over a pool with max_conn connections or more, and more than min_free_conn free ones: the
-- total comes down to max_conn, or as far as the closed ones and the free ones beyond min_free_conn
-- go; the allocated connections stay as they are, and min_free_conn free ones stay.
pub reclaim_bounds :
    (opens : ℕ → Bool) (p : ConnPool)
    → p.max_conn ≤ total_connections p
    → p.min_free_conn < length p.free_connections
    → let q = reclaim_connections opens p in
      (q.allocated_connections ≡ p.allocated_connections)
      × (p.min_free_conn ≤ length q.free_connections)
      × (p.max_conn ≤ total_connections q)
      × ((total_connections q ≡ p.max_conn)
          ⊎ ((length q.free_connections ≡ p.min_free_conn) × (length q.closed_connections ≡ 0)))
unfolding reclaim_connections
reclaim_bounds opens p full spare =
    let (a, f, c) = subst (Sizes (length p.allocated_connections) _ _) (sym runs) ends in
    (reclaim-allocated opens p, ground (arith, f), ground (arith, a, f, c), ground (arith, a, f, c))
  where
    fs : ℕ
    fs = length p.free_connections

    cs : ℕ
    cs = length p.closed_connections

    n : ℕ
    n = at_most (total_connections p - p.max_conn) cs

    k : ℕ
    k = at_most (total_connections p - p.max_conn - n) (fs - p.min_free_conn)

    freed : ConnPool
    freed = destroy_free k (count_free k p)

    runs : reclaim_connections opens p ≡ destroy_closed n (count_closed n freed)
    runs =
        ap (λ b. if b then p else reclaim_excess opens (total_connections p - p.max_conn) p)
          (not_less full)
        ∙ ap
            (λ b.
              let q =
                if b
                then create_free (p.min_free_conn - fs) 0 opens
                    (count_created (p.min_free_conn - fs) p)
                else freed in
              destroy_closed n (count_closed n q))
            (not_leb spare)
      where
        not_less : {x y : ℕ} → x ≤ y → ltb y x ≡ false
        not_less h = ground arith

        not_leb : {x y : ℕ} → x < y → leb y x ≡ false
        not_leb h = ground arith

    ends :
        Sizes
          (length p.allocated_connections)
          (fs - k)
          (cs - n)
          (destroy_closed n (count_closed n freed))
    ends =
        destroy_closed-Sizes n _ (fs - k) cs (count_closed n freed)
          (if-Sizes (n == 0) _ (fs - k) cs freed _ fewer fewer)
      where
        fewer : Sizes (length p.allocated_connections) (fs - k) cs freed
        fewer =
            destroy_free-Sizes k _ fs cs (count_free k p)
              (if-Sizes (k == 0) _ fs cs p _ (refl, refl, refl) (refl, refl, refl))

in_table-empty : (j : ℕ) (m : Map Connection) → length m ≡ 0 → in_table (find j m) ≡ 0
unfolding find
in_table-empty j [] h = refl
in_table-empty j (x ∷ m) h = absurd (omega arith)

-- A pool that has no connection allocated is destroyed with no assertion failed, and every connection
-- that it ever allocated is then deleted, once.
pub destroy_pool-deletes :
    (p : ConnPool)
    → Owned p []
    → can_be_destroyed p ≡ true
    → (q : ConnPool) × (destroy_pool p ≡ some q)
      × ((j : ℕ) → count j q.deleted ≡ (if ltb j q.next then 1 else 0))
unfolding destroy_pool can_be_destroyed
destroy_pool-deletes p o h = (q, ap (λ b. if b then some q else none) h, all_deleted)
  where
    fs : ℕ
    fs = length p.free_connections

    cs : ℕ
    cs = length p.closed_connections

    q : ConnPool
    q = destroy_closed cs (destroy_free fs p)

    sizes : Sizes 0 (fs - fs) (cs - cs) q
    sizes = destroy_closed-Sizes cs 0 (fs - fs) cs (destroy_free fs p) (
        destroy_free-Sizes fs 0 fs cs p
          ((==_iff (length p.allocated_connections) 0).0 h, refl, refl))

    all_deleted : (j : ℕ) → count j q.deleted ≡ (if ltb j q.next then 1 else 0)
    all_deleted j =
        let owned = destroy_closed-Owned cs (destroy_free fs p) (destroy_free-Owned fs p o) in
        let (a, f, c) = sizes in
        omega (
          arith,
          owned.placed j,
          in_table-empty j q.allocated_connections a,
          in_table-empty j q.free_connections (omega (arith, f)),
          in_table-empty j q.closed_connections (omega (arith, c)),
        )
