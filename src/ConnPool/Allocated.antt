-- ===== src/ConnPool/Allocated.antt =====
-- Which connections are allocated after each operation of a pool.
use async_thrift.Prelude.{
  ℕ, zero, suc, ◌+◌, ◌-◌, ◌≡◌, refl, sym, ap, ◌∙◌, subst, [], ◌∷◌, Bool, true, false, Option, none,
  some, arith, ltb, leb, ◌==◌, not, if◌then◌else◌, length, Bool-cases, inl, inr,
}
use async_thrift.Map.{Map, find, insert, erase}
use async_thrift.Map.Laws.{Every-find}
use async_thrift.Map.Places.{in_table, in_table-insert, in_table-erase, in_table-found}
use async_thrift.ConnPool.{
  Connection, Answer, is_open, ConnPool, Held, create_connection, put_connection, create_free,
  inner_init, new_pool, take_free, is_empty, allocate, get, put_back, put_found, put, close_found,
  close, close_connection,
}
use async_thrift.ConnPool.Probe.{
  try_status, set_status, destroy_first_free, destroy_first_closed, destroy_free, destroy_closed,
  count_created, count_free, count_closed, at_most, reclaim_free, total_connections,
  reclaim_connections,
}
use async_thrift.ConnPool.Owner.{IsUsed, Owned, take_free-IsHeld}
use async_thrift.ConnPool.Calls.{used_as}
use async_thrift.ConnPool.Outcome.{
  is_ready, allocate-some, take_closed-allocated, take_free-allocated, held-allocated,
}

-- Is the connection allocated?
abbrev pub allocated : ℕ → ConnPool → ℕ
allocated j p = in_table (find j p.allocated_connections)

abbrev pub is_got : ℕ → Option ℕ → ℕ
is_got j none = 0
is_got j (some id) = if j == id then 1 else 0

put_connection-allocated :
    (id : ℕ) (c : Connection) (p : ConnPool)
    → (put_connection id c p).allocated_connections ≡ p.allocated_connections
unfolding put_connection
put_connection-allocated id c p = by_state (is_open c)
  where
    by_state :
        (b : Bool)
        → (if b then record p { free_connections = insert id c p.free_connections } else record p {
          closed_connections = insert id c p.closed_connections;
        }).allocated_connections
          ≡ p.allocated_connections
    by_state true = refl
    by_state false = refl

pub get-allocated :
    (opens : Bool) (p : ConnPool)
    → Owned p []
    → (j : ℕ) → allocated j (get opens p).1 ≡ allocated j p + is_got j (get opens p).0
unfolding get is_ready
get-allocated opens p o j = elim (Bool-cases (is_ready held.conn)) [
  | inl e ↦ subst Spec (sym (allocate-some from_free held e)) (
      ground (
        arith,
        in_table-insert held.id held.pool.allocated_connections j
            (record held.conn { in_use = true }),
        same,
        λ (h : j ≡ held.id). absent h,
      ))
  | inr e ↦
      subst Spec
        (sym (
          ap
            (λ t.
              allocate from_free held
                (if t then some (record held.conn { in_use = true }) else none))
            e))
        (ground (
          arith,
          ap (λ m. in_table (find j m)) (put_connection-allocated held.id held.conn held.pool),
          same,
        ))
]
  where
    held : Held
    held = take_free opens p.free_connections p

    from_free : Bool
    from_free = not (is_empty p.free_connections)

    Spec : Option ℕ × ConnPool → Type 0
    Spec r = allocated j r.1 ≡ allocated j p + is_got j r.0

    same : allocated j held.pool ≡ allocated j p
    same = ap (λ m. in_table (find j m)) (take_free-allocated opens p.free_connections p)

    absent : j ≡ held.id → allocated j held.pool ≡ 0
    absent h =
        ap (λ x. allocated x held.pool) h
        ∙ ap in_table (held-allocated held (take_free-IsHeld opens p o))

pub put-allocated :
    (id : ℕ) (c : Connection) (p q : ConnPool)
    → Owned p []
    → find id p.allocated_connections ≡ some c
    → put id p ≡ some q
    → (j : ℕ) → allocated j q + (if j == id then 1 else 0) ≡ allocated j p
unfolding put
put-allocated id c p q o found h j =
    subst (λ x. allocated j x + (if j == id then 1 else 0) ≡ allocated j p)
      (injected (sym runs ∙ h))
      (ground (
        arith,
        ap (λ m. in_table (find j m))
            (put_connection-allocated id (record c { in_use = false }) taken),
        in_table-erase id p.allocated_connections j o.allocated_sorted,
        in_table-found id p.allocated_connections j c found,
      ))
  where
    taken : ConnPool
    taken = record p { allocated_connections = erase id p.allocated_connections }

    injected : {x y : ConnPool} → some x ≡ some y → x ≡ y
    injected w = cc

    runs : put id p ≡ some (put_connection id (record c { in_use = false }) taken)
    runs =
        ap (λ x. put_found id x p) found
        ∙ ap (λ b. put_back id (if b then some (record c { in_use = false }) else none) taken)
            (Every-find IsUsed id p.allocated_connections o.allocated_used found)

pub close-allocated : (id : ℕ) (p : ConnPool) (j : ℕ) → allocated j (close id p) ≡ allocated j p
unfolding close
close-allocated id p j = by_found (find id p.allocated_connections) refl
  where
    by_found :
        (x : Option Connection)
        → find id p.allocated_connections ≡ x
        → allocated j (close_found id x p) ≡ allocated j p
    by_found none h = refl
    by_found (some c) h = ground (
      arith,
      in_table-insert id p.allocated_connections j (close_connection c),
      in_table-found id p.allocated_connections j c h,
    )

-- What creates, puts and destroys free and closed connections leaves the allocated ones as they are.
create_put-allocated :
    (opens : Bool) (p : ConnPool)
    → let held = create_connection opens p in
      (put_connection held.id held.conn held.pool).allocated_connections ≡ p.allocated_connections
unfolding create_connection
create_put-allocated opens p =
    put_connection-allocated _ _ _ ∙ take_closed-allocated opens p.closed_connections p

create_free-allocated :
    (n i : ℕ) (opens : ℕ → Bool) (p : ConnPool)
    → (create_free n i opens p).allocated_connections ≡ p.allocated_connections
create_free-allocated zero i opens p = refl
create_free-allocated (suc n) i opens p =
    create_free-allocated n (suc i) opens _ ∙ create_put-allocated (opens i) p

inner_init-allocated :
    (n i : ℕ) (opens : ℕ → Bool) (p : ConnPool)
    → (inner_init n i opens p).allocated_connections ≡ p.allocated_connections
unfolding inner_init
inner_init-allocated zero i opens p = refl
inner_init-allocated (suc n) i opens p =
    by_state (is_open (create_connection (opens i) p).conn) _ _
      (inner_init-allocated n (suc i) opens _ ∙ create_put-allocated (opens i) p)
      (create_put-allocated (opens i) p)
  where
    by_state :
        (b : Bool) (x y : ConnPool)
        → x.allocated_connections ≡ p.allocated_connections
        → y.allocated_connections ≡ p.allocated_connections
        → (if b then x else y).allocated_connections ≡ p.allocated_connections
    by_state true x y e e' = e
    by_state false x y e e' = e'

pub new_pool-allocated :
    (min_free_conn max_conn : ℕ) (opens : ℕ → Bool)
    → (new_pool min_free_conn max_conn opens).allocated_connections ≡ []
unfolding new_pool
new_pool-allocated min_free_conn max_conn opens = inner_init-allocated min_free_conn 0 opens _

pub tried-allocated :
    (n : ℕ) (opens : Bool) (answers : ℕ → Answer) (p : ConnPool)
    → let held = take_free opens p.free_connections p in
      (set_status held.id (try_status n 0 answers held.conn) held.pool).allocated_connections
      ≡ p.allocated_connections
unfolding set_status
tried-allocated n opens answers p =
    let held = take_free opens p.free_connections p in
    put_connection-allocated held.id (try_status n 0 answers held.conn).1 held.pool
    ∙ take_free-allocated opens p.free_connections p

destroy_free-allocated :
    (n : ℕ) (p : ConnPool) → (destroy_free n p).allocated_connections ≡ p.allocated_connections
unfolding destroy_free
destroy_free-allocated zero p = refl
destroy_free-allocated (suc n) p =
    destroy_free-allocated n (destroy_first_free p.free_connections p) ∙ first p.free_connections
  where
    first :
        (m : Map Connection)
        → (destroy_first_free m p).allocated_connections ≡ p.allocated_connections
    first [] = refl
    first (x ∷ others) = refl

destroy_closed-allocated :
    (n : ℕ) (p : ConnPool) → (destroy_closed n p).allocated_connections ≡ p.allocated_connections
unfolding destroy_closed
destroy_closed-allocated zero p = refl
destroy_closed-allocated (suc n) p =
    destroy_closed-allocated n (destroy_first_closed p.closed_connections p)
    ∙ first p.closed_connections
  where
    first :
        (m : Map Connection)
        → (destroy_first_closed m p).allocated_connections ≡ p.allocated_connections
    first [] = refl
    first (x ∷ others) = refl

if-allocated :
    (b : Bool) (m : Map Connection) (x y : ConnPool)
    → x.allocated_connections ≡ m
    → y.allocated_connections ≡ m
    → (if b then x else y).allocated_connections ≡ m
if-allocated true m x y e e' = e
if-allocated false m x y e e' = e'

reclaim_free-allocated :
    (opens : ℕ → Bool) (n : ℕ) (p : ConnPool)
    → (reclaim_free opens n p).allocated_connections ≡ p.allocated_connections
reclaim_free-allocated opens n p =
    if-allocated (leb (length p.free_connections) p.min_free_conn) p.allocated_connections _ _
      (create_free-allocated missing 0 opens (count_created missing p)
        ∙ if-allocated (missing == 0) p.allocated_connections p _ refl refl)
      (destroy_free-allocated excess (count_free excess p)
        ∙ if-allocated (excess == 0) p.allocated_connections p _ refl refl)
  where
    missing : ℕ
    missing = p.min_free_conn - length p.free_connections

    excess : ℕ
    excess = at_most n (length p.free_connections - p.min_free_conn)

pub reclaim-allocated :
    (opens : ℕ → Bool) (p : ConnPool)
    → (reclaim_connections opens p).allocated_connections ≡ p.allocated_connections
unfolding reclaim_connections
reclaim-allocated opens p =
    if-allocated (ltb (total_connections p) p.max_conn) p.allocated_connections p _ refl (
      destroy_closed-allocated n (count_closed n q)
      ∙ if-allocated (n == 0) q.allocated_connections q _ refl refl
      ∙ reclaim_free-allocated opens (total_connections p - p.max_conn - n) p)
  where
    n : ℕ
    n = at_most (total_connections p - p.max_conn) (length p.closed_connections)

    q : ConnPool
    q = reclaim_free opens (total_connections p - p.max_conn - n) p

pub used_as-allocated :
    (id : ℕ) (old c : Connection) (p : ConnPool)
    → find id p.allocated_connections ≡ some old
    → (j : ℕ) → allocated j (used_as id c p) ≡ allocated j p
used_as-allocated id old c p found j = ground (
  arith,
  in_table-insert id p.allocated_connections j c,
  in_table-found id p.allocated_connections j old found,
)
