-- ===== src/Pools/Loops.antt =====
-- The loops of update_servers only move the pools.
use async_thrift.Prelude.{
  ℕ, ◌+◌, ◌<◌, ◌≡◌, refl, ap, List, [], ◌∷◌, ◌++◌, Bool, true, false, Option, none, some, arith,
  ◌==◌, if◌then◌else◌,
}
use async_thrift.Pools.{Backend, Client, ThriftPool}
use async_thrift.Pools.Renewal.{
  Wanted, Updating, find_host, keep_or_queue, update_pools, restore_or_leave, update_remove_queue,
  loops,
}
use async_thrift.Pools.Inv.{
  addressed, lent, lent_by, local_at, AllOwned, IsLocal, Tracks, addressed-append, lent-append,
  local_at-append, AllOwned-append, AllOwned-left, AllOwned-right,
}

-- A measure summed over pools, which the loops only move.
module _ (f : Backend → ℕ) where
  abbrev sum : List Backend → ℕ
  sum [] = 0
  sum (b ∷ bs) = f b + sum bs

  sum-append : (xs ys : List Backend) → sum (xs ++ ys) ≡ sum xs + sum ys
  sum-append [] ys = omega arith
  sum-append (b ∷ bs) ys = omega (arith, sum-append bs ys)

  update_pools-sum :
      (localhost_name : ℕ) (bs : List Backend) (u : Updating)
      → let v = update_pools localhost_name bs u in
        sum v.kept + sum v.queue ≡ sum u.kept + sum u.queue + sum bs
  unfolding update_pools
  update_pools-sum localhost_name [] u = omega arith
  update_pools-sum localhost_name (b ∷ bs) u = omega (
    arith,
    update_pools-sum localhost_name bs (keep_or_queue localhost_name b (find_host b u.wanted) u),
    by_found (find_host b u.wanted),
  )
    where
      by_found :
          (r : Bool × List Wanted)
          → let v = keep_or_queue localhost_name b r u in
            sum v.kept + sum v.queue ≡ sum u.kept + sum u.queue + f b
      by_found (true, ws) = omega (arith, sum-append u.kept (b ∷ []))
      by_found (false, ws) = omega (arith, sum-append u.queue (b ∷ []))

  update_remove_queue-sum :
      (localhost_name : ℕ) (bs : List Backend) (u : Updating)
      → let v = update_remove_queue localhost_name bs u in
        sum v.kept + sum v.queue ≡ sum u.kept + sum u.queue + sum bs
  unfolding update_remove_queue
  update_remove_queue-sum localhost_name [] u = omega arith
  update_remove_queue-sum localhost_name (b ∷ bs) u = omega (
    arith,
    update_remove_queue-sum localhost_name bs
        (restore_or_leave localhost_name b (find_host b u.wanted) u),
    by_found (find_host b u.wanted),
  )
    where
      by_found :
          (r : Bool × List Wanted)
          → let v = restore_or_leave localhost_name b r u in
            sum v.kept + sum v.queue ≡ sum u.kept + sum u.queue + f b
      by_found (true, ws) = omega (arith, sum-append u.kept (b ∷ []))
      by_found (false, ws) = omega (arith, sum-append u.queue (b ∷ []))

  pub loops-sum :
      (s : ThriftPool) (ws : List Wanted)
      → let u = loops s ws in sum u.kept + sum u.queue ≡ sum s.pools + sum s.remove_queue
  loops-sum s ws =
      let u =
        update_pools s.localhost_name s.pools
          (record { wanted = ws; kept = []; queue = s.remove_queue; local = s.localhost_pool }) in
      omega (
        arith,
        update_pools-sum s.localhost_name s.pools
            (record { wanted = ws; kept = []; queue = s.remove_queue; local = s.localhost_pool }),
        update_remove_queue-sum s.localhost_name u.queue (record u { queue = [] }),
      )

addressed-sum :
    (a : ℕ) (bs : List Backend) → addressed a bs ≡ sum (λ b. if a == b.address then 1 else 0) bs
addressed-sum a [] = refl
addressed-sum a (b ∷ bs) = ap (λ y. (if a == b.address then 1 else 0) + y) (addressed-sum a bs)

lent-sum : (c : Client) (bs : List Backend) → lent c bs ≡ sum (λ b. lent_by c b.address b.pool) bs
lent-sum c [] = refl
lent-sum c (b ∷ bs) = ap (λ y. lent_by c b.address b.pool + y) (lent-sum c bs)

-- The local host's pool stays among those kept.
abbrev LocalIn : ℕ → List Backend → List Backend → Option ℕ → Type 0
LocalIn n xs ys none = Unit
LocalIn n xs ys (some a) = 0 < local_at n a xs + local_at n a ys

-- What a loop keeps, with `rest` still to come, of which localhost_pool_ may be one or not.
record Looping (n : ℕ) (rest : List Backend) (may_be : List Backend) (u : Updating) : Type 0 where
  kept_owned : AllOwned u.kept
  queue_owned : AllOwned u.queue
  rest_owned : AllOwned rest
  local : LocalIn n u.kept may_be u.local

keep_or_queue-Looping :
    (n : ℕ) (b : Backend) (bs : List Backend) (r : Bool × List Wanted) (u : Updating)
    → Looping n (b ∷ bs) (b ∷ bs) u
    → Looping n bs bs (keep_or_queue n b r u)
keep_or_queue-Looping n b bs (true, ws) u l = record {
  kept_owned = AllOwned-append u.kept (b ∷ []) l.kept_owned (l.rest_owned.0, tt);
  queue_owned = l.queue_owned;
  rest_owned = l.rest_owned.1;
  local = by_local u.local l.local;
}
  where
    by_local : (x : Option ℕ) → LocalIn n u.kept (b ∷ bs) x → LocalIn n (u.kept ++ (b ∷ [])) bs x
    by_local none h = tt
    by_local (some a) h = omega (arith, local_at-append n a u.kept (b ∷ []))
keep_or_queue-Looping n b bs (false, ws) u l = record {
  kept_owned = l.kept_owned;
  queue_owned = AllOwned-append u.queue (b ∷ []) l.queue_owned (l.rest_owned.0, tt);
  rest_owned = l.rest_owned.1;
  local = by_local (n == b.host) refl u.local l.local;
}
  where
    by_local :
        (t : Bool)
        → (n == b.host) ≡ t
        → (x : Option ℕ) → LocalIn n u.kept (b ∷ bs) x
        → LocalIn n u.kept bs (if t then none else x)
    by_local true e x h = tt
    by_local false e none h = tt
    by_local false e (some a) h = ground arith

restore_or_leave-Looping :
    (n : ℕ) (b : Backend) (bs : List Backend) (r : Bool × List Wanted) (u : Updating)
    → Looping n (b ∷ bs) [] u
    → Looping n bs [] (restore_or_leave n b r u)
restore_or_leave-Looping n b bs (true, ws) u l = record {
  kept_owned = AllOwned-append u.kept (b ∷ []) l.kept_owned (l.rest_owned.0, tt);
  queue_owned = l.queue_owned;
  rest_owned = l.rest_owned.1;
  local = by_local (n == b.host) refl u.local l.local;
}
  where
    by_local :
        (t : Bool)
        → (n == b.host) ≡ t
        → (x : Option ℕ) → LocalIn n u.kept [] x
        → LocalIn n (u.kept ++ (b ∷ [])) [] (if t then some b.address else x)
    by_local true e x h = ground (arith, local_at-append n b.address u.kept (b ∷ []))
    by_local false e none h = tt
    by_local false e (some a) h = omega (arith, local_at-append n a u.kept (b ∷ []))
restore_or_leave-Looping n b bs (false, ws) u l = record {
  kept_owned = l.kept_owned;
  queue_owned = AllOwned-append u.queue (b ∷ []) l.queue_owned (l.rest_owned.0, tt);
  rest_owned = l.rest_owned.1;
  local = l.local;
}

update_pools-Looping :
    (n : ℕ) (bs : List Backend) (u : Updating)
    → Looping n bs bs u
    → Looping n [] [] (update_pools n bs u)
unfolding update_pools
update_pools-Looping n [] u l = l
update_pools-Looping n (b ∷ bs) u l =
    update_pools-Looping n bs (keep_or_queue n b (find_host b u.wanted) u)
      (keep_or_queue-Looping n b bs (find_host b u.wanted) u l)

update_remove_queue-Looping :
    (n : ℕ) (bs : List Backend) (u : Updating)
    → Looping n bs [] u
    → Looping n [] [] (update_remove_queue n bs u)
unfolding update_remove_queue
update_remove_queue-Looping n [] u l = l
update_remove_queue-Looping n (b ∷ bs) u l =
    update_remove_queue-Looping n bs (restore_or_leave n b (find_host b u.wanted) u)
      (restore_or_leave-Looping n b bs (find_host b u.wanted) u l)

loops-Looping :
    (s : ThriftPool) (ws : List Wanted) → Tracks s → Looping s.localhost_name [] [] (loops s ws)
loops-Looping s ws w =
    let l = update_pools-Looping s.localhost_name s.pools first (record {
      kept_owned = tt;
      queue_owned = AllOwned-right s.pools s.remove_queue w.owned;
      rest_owned = AllOwned-left s.pools s.remove_queue w.owned;
      local = by_local s.localhost_pool w.local;
    }) in
    update_remove_queue-Looping s.localhost_name u.queue (record u { queue = [] })
      (record {
        kept_owned = l.kept_owned;
        queue_owned = tt;
        rest_owned = l.queue_owned;
        local = l.local;
      })
  where
    first : Updating
    first = record { wanted = ws; kept = []; queue = s.remove_queue; local = s.localhost_pool }

    u : Updating
    u = update_pools s.localhost_name s.pools first

    by_local : (x : Option ℕ) → IsLocal s x → LocalIn s.localhost_name [] s.pools x
    by_local none h = tt
    by_local (some a) h = omega arith

pub loops-Tracks :
    (s : ThriftPool) (ws : List Wanted)
    → Tracks s
    → let u = loops s ws in
      Tracks (record s { pools = u.kept; remove_queue = u.queue; localhost_pool = u.local })
loops-Tracks s ws w = record {
  places = λ a. omega (
    arith,
    w.places a,
    addressed-append a s.pools s.remove_queue,
    addressed-append a u.kept u.queue,
    loops-sum (λ b. if a == b.address then 1 else 0) s ws,
    addressed-sum a s.pools,
    addressed-sum a s.remove_queue,
    addressed-sum a u.kept,
    addressed-sum a u.queue,
  );
  owned = AllOwned-append u.kept u.queue l.kept_owned l.queue_owned;
  held = λ c. omega (
    arith,
    w.held c,
    lent-append c s.pools s.remove_queue,
    lent-append c u.kept u.queue,
    loops-sum (λ b. lent_by c b.address b.pool) s ws,
    lent-sum c s.pools,
    lent-sum c s.remove_queue,
    lent-sum c u.kept,
    lent-sum c u.queue,
  );
  at_owner = w.at_owner;
  local = by_local u.local l.local;
}
  where
    u : Updating
    u = loops s ws

    l : Looping s.localhost_name [] [] u
    l = loops-Looping s ws w

    by_local :
        (x : Option ℕ)
        → LocalIn s.localhost_name u.kept [] x
        → IsLocal (record s { pools = u.kept; remove_queue = u.queue; localhost_pool = u.local }) x
    by_local none h = tt
    by_local (some a) h = omega arith
