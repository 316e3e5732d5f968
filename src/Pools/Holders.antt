-- ===== src/Pools/Holders.antt =====
-- Getting connections.
use async_thrift.Prelude.{
  ℕ, zero, suc, ◌+◌, ◌%◌, ◌⊎◌, ◌≤◌, ◌<◌, ◌≡◌, refl, sym, ap, subst, ◌∙◌, List, [], ◌∷◌, ◌++◌, Bool,
  true, false, Option, none, some, arith, if◌then◌else◌, length, Bool-cases, inl, inr,
}
use async_thrift.Asio.{u64}
use async_thrift.Map.{find}
use async_thrift.Map.Places.{in_table}
use async_thrift.ConnPool.{Connection, ConnPool, is_connected, can_be_destroyed}
use async_thrift.ConnPool
use async_thrift.ConnPool.Owner.{Owned}
use async_thrift.ConnPool.Calls.{get-Owned}
use async_thrift.ConnPool.Allocated.{allocated, is_got, get-allocated}
use async_thrift.Pools.{
  Backend, Client, same_client, ThriftPool, find_client, erase_client, insert_client, write_pool,
  deref, write, is_up, is_up?, get_elem?, seek, chosen, choose_remote, choose_at, choose, register,
  get_at, get_from, get,
}
use async_thrift.Pools.Inv.{
  addressed, lent, lent_by, local_at, in_map, AllOwned, OwnedAt, IsLocal, Tracks, addressed-append,
  write_pool-append, addressed-write, local_at-write, AllOwned-write, lent-write, find_pool-Owned,
  find_pool-addressed, lent-find_pool,
}

-- conn_pool_map_
pub find_client-erase :
    (d c : Client) (m : List (Client × ℕ))
    → find_client d (erase_client c m) ≡ (if same_client d c then none else find_client d m)
unfolding find_client erase_client
find_client-erase d c [] = ground arith
find_client-erase d c ((e, a) ∷ m) = ground (arith, find_client-erase d c m)

find_client-insert :
    (d c : Client) (a : ℕ) (m : List (Client × ℕ))
    → find_client d (insert_client c a m) ≡ (if same_client d c then some a else find_client d m)
unfolding find_client
find_client-insert d c a m = ground (arith, find_client-erase d c m)

-- All pools of a state, and a write into one of them.
abbrev pub all : ThriftPool → List Backend
all s = s.pools ++ s.remove_queue

all-write : (a : ℕ) (q : ConnPool) (s : ThriftPool) → all (write a q s) ≡ write_pool a q (all s)
all-write a q s = sym (write_pool-append a q s.pools s.remove_queue)

-- A new state q of the pool at the address `a`, with the map `m` that goes with it.
pub write-Tracks :
    (a : ℕ) (p q : ConnPool) (m : List (Client × ℕ)) (s : ThriftPool)
    → Tracks s
    → deref a s ≡ some p
    → Owned q []
    → ((c : Client)
        → in_map (find_client c m) + lent_by c a p
          ≡ in_map (find_client c s.conn_pool_map) + lent_by c a q)
    → ((c : Client) → OwnedAt c (find_client c m))
    → let t = write a q s in Tracks (record t { conn_pool_map = m })
write-Tracks a p q m s w found o moves at_owner = record {
  places = λ x.
      omega (arith, w.places x, ap (addressed x) (all-write a q s), addressed-write a q x (all s));
  owned = subst AllOwned (sym (all-write a q s)) (AllOwned-write a q (all s) o w.owned);
  held = λ c. omega (
    arith,
    moves c,
    w.held c,
    ap (lent c) (all-write a q s),
    lent-write a p c q (all s) once found,
  );
  at_owner = at_owner;
  local = by_local s.localhost_pool w.local;
}
  where
    once : addressed a (all s) ≤ 1
    once = ground (arith, w.places a)

    by_local :
        (l : Option ℕ)
        → IsLocal s l
        → let t = write a q s in IsLocal (record t { conn_pool_map = m }) l
    by_local none h = tt
    by_local (some x) h = omega (arith, local_at-write a q s.localhost_name x s.pools)

-- get
abbrev HasPool : ThriftPool → Option ℕ → Type 0
HasPool s none = Unit
HasPool s (some a) = 0 < addressed a (all s)

abbrev IsIn : List Backend → Option Backend → Type 0
IsIn bs none = Unit
IsIn bs (some b) = 0 < addressed b.address bs

get_elem?-IsIn : (bs : List Backend) (i : ℕ) → IsIn bs (get_elem? bs i)
get_elem?-IsIn [] i = tt
get_elem?-IsIn (b ∷ bs) zero = ground arith
get_elem?-IsIn (b ∷ bs) (suc i) = later (get_elem? bs i) (get_elem?-IsIn bs i)
  where
    later : (o : Option Backend) → IsIn bs o → IsIn (b ∷ bs) o
    later none h = tt
    later (some x) h = omega arith

seek-IsIn :
    (n : ℕ) (pools : List Backend) (index : ℕ) (last : Option Backend)
    → IsIn pools last
    → IsIn pools (seek n pools index last).0
unfolding seek
seek-IsIn zero pools index last h = h
seek-IsIn (suc n) pools index last h =
    by_up (is_up? now) (seek n pools (u64 (index % length pools + 1)) now) (
      seek-IsIn n pools (u64 (index % length pools + 1)) now
        (get_elem?-IsIn pools (index % length pools)))
  where
    now : Option Backend
    now = get_elem? pools (index % length pools)

    by_up :
        (b : Bool) (r : Option Backend × ℕ)
        → IsIn pools r.0
        → IsIn pools (if b then (now, u64 (index % length pools + 1)) else r).0
    by_up true r h = get_elem?-IsIn pools (index % length pools)
    by_up false r h = h

-- What get chooses is a pool that is there, and only index_ changes.
abbrev Chooses : ThriftPool → Option (Option ℕ × ThriftPool) → Type 0
Chooses s r = (o : Option ℕ) × (i : ℕ) × (r ≡ some (o, record s { index = i })) × HasPool s o

choose_remote-Chooses : (s : ThriftPool) → Chooses s (some (choose_remote s))
unfolding choose_remote
choose_remote-Chooses s =
    by_seek (seek (length s.pools) s.pools s.index none)
      (seek-IsIn (length s.pools) s.pools s.index none tt)
  where
    by_seek : (r : Option Backend × ℕ) → IsIn s.pools r.0 → Chooses s (some (chosen r s))
    by_seek (none, i) h = (none, i, refl, tt)
    by_seek (some b, i) h = (
      if is_up b then some b.address else none,
      i,
      refl,
      by_up (is_up b) (omega (arith, addressed-append b.address s.pools s.remove_queue)),
    )
      where
        by_up :
            (x : Bool)
            → 0 < addressed b.address (all s)
            → HasPool s (if x then some b.address else none)
        by_up true k = k
        by_up false k = tt

local_at-le : (n a : ℕ) (bs : List Backend) → local_at n a bs ≤ addressed a bs
local_at-le n a [] = omega arith
local_at-le n a (b ∷ bs) = ground (arith, local_at-le n a bs)

choose-Chooses : (s : ThriftPool) (l : Option ℕ) → IsLocal s l → Chooses s (choose l s)
unfolding choose
choose-Chooses s none h = choose_remote-Chooses s
choose-Chooses s (some a) h =
    let (p, e) = find_pool-addressed a (all s) there in
    subst (λ x. Chooses s (choose_at a x s)) (sym e) (by_status p (is_connected p.status))
  where
    there : 0 < addressed a (all s)
    there =
        omega
          (arith, local_at-le s.localhost_name a s.pools, addressed-append a s.pools s.remove_queue)

    by_status :
        (p : ConnPool) (b : Bool)
        → Chooses s (if b then some (some a, s) else some (choose_remote s))
    by_status p true = (some a, s.index, refl, there)
    by_status p false = choose_remote-Chooses s

index-Tracks : (s : ThriftPool) (i : ℕ) → Tracks s → Tracks (record s { index = i })
index-Tracks s i w = record {
  places = w.places;
  owned = w.owned;
  held = w.held;
  at_owner = w.at_owner;
  local = by_local s.localhost_pool w.local;
}
  where
    by_local : (l : Option ℕ) → IsLocal s l → IsLocal (record s { index = i }) l
    by_local none h = tt
    by_local (some a) h = h

register-Tracks :
    (opens : Bool) (a : ℕ) (p : ConnPool) (s : ThriftPool)
    → Tracks s
    → deref a s ≡ some p
    → Tracks (register a (ConnPool.get opens p) s).1
register-Tracks opens a p s w found =
    by_got (ConnPool.get opens p) (get-Owned opens p owned) (get-allocated opens p owned)
  where
    owned : Owned p []
    owned = find_pool-Owned a p (all s) w.owned found

    held_here :
        (c : Client) → c.owner ≡ a → in_map (find_client c s.conn_pool_map) ≡ allocated c.id p
    held_here c e =
        w.held c
        ∙ lent-find_pool c p (all s) (ground (arith, w.places c.owner))
            (ap (λ x. deref x s) e ∙ found)

    in_table_le : (x : Option Connection) → in_table x ≤ 1
    in_table_le none = omega arith
    in_table_le (some c) = omega arith

    by_got :
        (r : Option ℕ × ConnPool)
        → Owned r.1 []
        → ((j : ℕ) → allocated j r.1 ≡ allocated j p + is_got j r.0)
        → Tracks (register a r s).1
    by_got (none, q) o f =
        write-Tracks a p q s.conn_pool_map s w found o (λ c. ground (arith, f c.id)) w.at_owner
    by_got (some id, q) o f =
        write-Tracks a p q (insert_client (record { owner = a; id = id }) a s.conn_pool_map) s w
          found o
          (λ c. ground (
            arith,
            f c.id,
            find_client-insert c (record { owner = a; id = id }) a s.conn_pool_map,
            held_here c,
            in_table_le (find c.id q.allocated_connections),
          ))
          (λ c. by_same c (find_client-insert c (record { owner = a; id = id }) a s.conn_pool_map))
      where
        by_same :
            (c : Client) {x : Option ℕ}
            → x ≡ (
                if same_client c (record { owner = a; id = id })
                then some a
                else find_client c s.conn_pool_map)
            → OwnedAt c x
        by_same c e =
            subst (OwnedAt c) (sym e)
              (split (Bool-cases (same_client c (record { owner = a; id = id }))))
          where
            split :
                (same_client c (record { owner = a; id = id }) ≡ true)
                  ⊎ (same_client c (record { owner = a; id = id }) ≡ false)
                → OwnedAt c (
                    if same_client c (record { owner = a; id = id })
                    then some a
                    else find_client c s.conn_pool_map)
            split (inl t) =
                subst (λ b. OwnedAt c (if b then some a else find_client c s.conn_pool_map)) (sym t)
                  (ground arith)
            split (inr t) =
                subst (λ b. OwnedAt c (if b then some a else find_client c s.conn_pool_map)) (sym t)
                  (w.at_owner c)

-- get follows no dangling pointer.
pub get-Tracks :
    (opens : Bool) (s : ThriftPool)
    → Tracks s
    → (r : Option Client) × (t : ThriftPool) × (get opens s ≡ some (r, t)) × Tracks t
unfolding get
get-Tracks opens s w =
    let (o, i, e, h) = choose-Chooses s s.localhost_pool w.local in
    subst Returns (sym (ap (get_from opens) e))
      (by_choice o (record s { index = i }) h (index-Tracks s i w))
  where
    Returns : Option (Option Client × ThriftPool) → Type 0
    Returns x = (r : Option Client) × (t : ThriftPool) × (x ≡ some (r, t)) × Tracks t

    by_choice :
        (o : Option ℕ) (u : ThriftPool)
        → HasPool u o
        → Tracks u
        → Returns (get_from opens (some (o, u)))
    by_choice none u h w' = (none, u, refl, w')
    by_choice (some a) u h w' =
        let (p, e) = find_pool-addressed a (all u) h in
        let r = register a (ConnPool.get opens p) u in
        (r.0, r.1, ap (λ x. get_at opens a x u) e, register-Tracks opens a p u w' e)
