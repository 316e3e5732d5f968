-- ===== src/Pools/Inv.antt =====
-- Which connections the holders have, by the pools and by conn_pool_map_.
use async_thrift.Prelude.{
  ℕ, ◌+◌, ◌≤◌, ◌<◌, ◌≡◌, refl, ap, subst, ◌∙◌, List, [], ◌∷◌, ◌++◌, Bool, true, false, Option, none,
  some, arith, ltb, ◌==◌, ◌&&◌, if◌then◌else◌, ==_iff, Bool-cases, inl, inr,
}
use async_thrift.ConnPool.{ConnPool}
use async_thrift.ConnPool.Owner.{Owned}
use async_thrift.ConnPool.Allocated.{allocated}
use async_thrift.Pools.{Backend, Client, ThriftPool, find_client, find_pool, write_pool}

abbrev pub addressed : ℕ → List Backend → ℕ
addressed a [] = 0
addressed a (b ∷ bs) = (if a == b.address then 1 else 0) + addressed a bs

-- Does a pool at the address `a` have the connection `c` allocated?
abbrev pub lent_by : Client → ℕ → ConnPool → ℕ
lent_by c a q = if a == c.owner then allocated c.id q else 0

abbrev pub lent : Client → List Backend → ℕ
lent c [] = 0
lent c (b ∷ bs) = lent_by c b.address b.pool + lent c bs

-- localhost_pool_ is a pool of the list, of the local host.
abbrev pub local_at : ℕ → ℕ → List Backend → ℕ
local_at localhost_name a [] = 0
local_at localhost_name a (b ∷ bs) =
    (if (a == b.address) && (localhost_name == b.host) then 1 else 0) + local_at localhost_name a bs

abbrev pub in_map : Option ℕ → ℕ
in_map none = 0
in_map (some a) = 1

abbrev pub AllOwned : List Backend → Type 0
AllOwned [] = Unit
AllOwned (b ∷ bs) = Owned b.pool [] × AllOwned bs

abbrev pub OwnedAt : Client → Option ℕ → Type 0
OwnedAt c none = Unit
OwnedAt c (some a) = a ≡ c.owner

abbrev pub IsLocal : ThriftPool → Option ℕ → Type 0
IsLocal s none = Unit
IsLocal s (some a) = 0 < local_at s.localhost_name a s.pools

pub record Tracks (s : ThriftPool) : Type 0 where
  pub places : (a : ℕ) → addressed a (s.pools ++ s.remove_queue) ≤ (if ltb a s.next then 1 else 0)
  pub owned : AllOwned (s.pools ++ s.remove_queue)
  pub held :
      (c : Client) → in_map (find_client c s.conn_pool_map) ≡ lent c (s.pools ++ s.remove_queue)
  pub at_owner : (c : Client) → OwnedAt c (find_client c s.conn_pool_map)
  pub local : IsLocal s s.localhost_pool

-- Appending.
pub addressed-append :
    (a : ℕ) (xs ys : List Backend) → addressed a (xs ++ ys) ≡ addressed a xs + addressed a ys
addressed-append a [] ys = omega arith
addressed-append a (b ∷ bs) ys = omega (arith, addressed-append a bs ys)

pub lent-append : (c : Client) (xs ys : List Backend) → lent c (xs ++ ys) ≡ lent c xs + lent c ys
lent-append c [] ys = omega arith
lent-append c (b ∷ bs) ys = omega (arith, lent-append c bs ys)

pub local_at-append :
    (n a : ℕ) (xs ys : List Backend) → local_at n a (xs ++ ys) ≡ local_at n a xs + local_at n a ys
local_at-append n a [] ys = omega arith
local_at-append n a (b ∷ bs) ys = omega (arith, local_at-append n a bs ys)

pub AllOwned-append : (xs ys : List Backend) → AllOwned xs → AllOwned ys → AllOwned (xs ++ ys)
AllOwned-append [] ys h h' = h'
AllOwned-append (b ∷ bs) ys (o, h) h' = (o, AllOwned-append bs ys h h')

pub AllOwned-left : (xs ys : List Backend) → AllOwned (xs ++ ys) → AllOwned xs
AllOwned-left [] ys h = tt
AllOwned-left (b ∷ bs) ys (o, h) = (o, AllOwned-left bs ys h)

pub AllOwned-right : (xs ys : List Backend) → AllOwned (xs ++ ys) → AllOwned ys
AllOwned-right [] ys h = h
AllOwned-right (b ∷ bs) ys (o, h) = AllOwned-right bs ys h

pub write_pool-append :
    (a : ℕ) (q : ConnPool) (xs ys : List Backend)
    → write_pool a q (xs ++ ys) ≡ write_pool a q xs ++ write_pool a q ys
unfolding write_pool
write_pool-append a q [] ys = refl
write_pool-append a q (b ∷ bs) ys =
    ap (◌∷◌ (if a == b.address then record b { pool = q } else b)) (write_pool-append a q bs ys)

-- Writing a pool keeps the addresses and the hosts.
module _ (a : ℕ) (q : ConnPool) where
  pub addressed-write :
      (x : ℕ) (bs : List Backend) → addressed x (write_pool a q bs) ≡ addressed x bs
  unfolding write_pool
  addressed-write x [] = refl
  addressed-write x (b ∷ bs) = by_here (a == b.address) (addressed-write x bs)
    where
      by_here :
          (t : Bool)
          → addressed x (write_pool a q bs) ≡ addressed x bs
          → addressed x ((if t then record b { pool = q } else b) ∷ write_pool a q bs)
            ≡ addressed x (b ∷ bs)
      by_here true h = ap (λ y. (if x == b.address then 1 else 0) + y) h
      by_here false h = ap (λ y. (if x == b.address then 1 else 0) + y) h

  pub local_at-write :
      (n x : ℕ) (bs : List Backend) → local_at n x (write_pool a q bs) ≡ local_at n x bs
  unfolding write_pool
  local_at-write n x [] = refl
  local_at-write n x (b ∷ bs) = by_here (a == b.address) (local_at-write n x bs)
    where
      by_here :
          (t : Bool)
          → local_at n x (write_pool a q bs) ≡ local_at n x bs
          → local_at n x ((if t then record b { pool = q } else b) ∷ write_pool a q bs)
            ≡ local_at n x (b ∷ bs)
      by_here true h = ap (λ y. (if (x == b.address) && (n == b.host) then 1 else 0) + y) h
      by_here false h = ap (λ y. (if (x == b.address) && (n == b.host) then 1 else 0) + y) h

  pub AllOwned-write : (bs : List Backend) → Owned q [] → AllOwned bs → AllOwned (write_pool a q bs)
  unfolding write_pool
  AllOwned-write [] o h = tt
  AllOwned-write (b ∷ bs) o (o', h) = (by_here (a == b.address), AllOwned-write bs o h)
    where
      by_here : (t : Bool) → Owned (if t then record b { pool = q } else b).pool []
      by_here true = o
      by_here false = o'

  -- A pool that is not there is not written.
  lent-write_absent :
      (c : Client) (bs : List Backend) → addressed a bs ≡ 0 → lent c (write_pool a q bs) ≡ lent c bs
  unfolding write_pool
  lent-write_absent c [] h = refl
  lent-write_absent c (b ∷ bs) h =
      ap (λ t. lent c ((if t then record b { pool = q } else b) ∷ write_pool a q bs)) (other h)
      ∙ ap (λ y. lent_by c b.address b.pool + y) (lent-write_absent c bs (omega arith))
    where
      other : addressed a (b ∷ bs) ≡ 0 → (a == b.address) ≡ false
      other k = ground arith

-- What the pool found at an address has allocated is lent; a write replaces its share.
module _ (a : ℕ) (p : ConnPool) where
  pub lent-write :
      (c : Client) (q : ConnPool) (bs : List Backend)
      → addressed a bs ≤ 1
      → find_pool a bs ≡ some p
      → lent c (write_pool a q bs) + lent_by c a p ≡ lent c bs + lent_by c a q
  unfolding find_pool write_pool
  lent-write c q [] h e = cc
  lent-write c q (b ∷ bs) h e = elim (Bool-cases (a == b.address)) [
    | inl t ↦
        let there : a ≡ b.address = (==_iff a b.address).0 t in
        let none_left : addressed a bs ≡ 0 = ground arith in
        omega (
          arith,
          ap (λ x. lent c ((if x then record b { pool = q } else b) ∷ write_pool a q bs)) t,
          lent-write_absent a q c bs none_left,
          ap (λ x. lent_by c x p) there,
          ap (λ x. lent_by c x q) there,
          ap (λ x. lent_by c b.address x) (injected (rw t at e)),
        )
    | inr f ↦
        let later : find_pool a bs ≡ some p = rw f at e in
        omega (
          arith,
          ap (λ x. lent c ((if x then record b { pool = q } else b) ∷ write_pool a q bs)) f,
          lent-write c q bs (omega arith) later,
        )
  ]
    where
      injected : some b.pool ≡ some p → b.pool ≡ p
      injected w = cc

  pub find_pool-Owned : (bs : List Backend) → AllOwned bs → find_pool a bs ≡ some p → Owned p []
  unfolding find_pool
  find_pool-Owned [] h e = cc
  find_pool-Owned (b ∷ bs) (o, h) e = elim (Bool-cases (a == b.address)) [
    | inl t ↦ subst (λ x. Owned x []) (injected (rw t at e)) o
    | inr f ↦ find_pool-Owned bs h (rw f at e)
  ]
    where
      injected : some b.pool ≡ some p → b.pool ≡ p
      injected w = cc

-- Finding.
pub find_pool-addressed :
    (a : ℕ) (bs : List Backend) → 0 < addressed a bs → (p : ConnPool) × (find_pool a bs ≡ some p)
unfolding find_pool
find_pool-addressed a [] h = absurd (omega arith)
find_pool-addressed a (b ∷ bs) h = elim (Bool-cases (a == b.address)) [
  | inl t ↦ (b.pool, ap (λ x. if x then some b.pool else find_pool a bs) t)
  | inr f ↦
      let (p, e) = find_pool-addressed a bs (ground arith) in
      (p, ap (λ x. if x then some b.pool else find_pool a bs) f ∙ e)
]

pub addressed-find_pool :
    (a : ℕ) (p : ConnPool) (bs : List Backend) → find_pool a bs ≡ some p → 0 < addressed a bs
unfolding find_pool
addressed-find_pool a p [] e = cc
addressed-find_pool a p (b ∷ bs) e = elim (Bool-cases (a == b.address)) [
  | inl t ↦ ground arith
  | inr f ↦ let h : 0 < addressed a bs = addressed-find_pool a p bs (rw f at e) in omega arith
]

pub lent-addressed : (c : Client) (bs : List Backend) → 0 < lent c bs → 0 < addressed c.owner bs
lent-addressed c [] h = h
lent-addressed c (b ∷ bs) h = elim (Bool-cases (c.owner == b.address)) [
  | inl t ↦ ground arith
  | inr f ↦
      let later : 0 < lent c bs = ground arith in
      let i : 0 < addressed c.owner bs = lent-addressed c bs later in omega arith
]

lent_absent : (c : Client) (bs : List Backend) → addressed c.owner bs ≡ 0 → lent c bs ≡ 0
lent_absent c [] h = refl
lent_absent c (b ∷ bs) h = ground (arith, lent_absent c bs)

-- What is lent is lent by the pool found at its owner's address.
pub lent-find_pool :
    (c : Client) (p : ConnPool) (bs : List Backend)
    → addressed c.owner bs ≤ 1
    → find_pool c.owner bs ≡ some p
    → lent c bs ≡ allocated c.id p
unfolding find_pool
lent-find_pool c p [] h e = cc
lent-find_pool c p (b ∷ bs) h e = elim (Bool-cases (c.owner == b.address)) [
  | inl t ↦
      let there : c.owner ≡ b.address = (==_iff c.owner b.address).0 t in
      let none_left : addressed c.owner bs ≡ 0 = ground arith in
      let mine : lent_by c b.address b.pool ≡ allocated c.id b.pool = ground arith in
      omega (arith, lent_absent c bs none_left, mine, ap (allocated c.id) (injected (rw t at e)))
  | inr f ↦
      let other : lent_by c b.address b.pool ≡ 0 = ground arith in
      omega (arith, other, lent-find_pool c p bs (omega arith) (rw f at e))
]
  where
    injected : some b.pool ≡ some p → b.pool ≡ p
    injected w = cc
