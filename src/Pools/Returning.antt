-- ===== src/Pools/Returning.antt =====
-- Putting back and closing connections, the pools' own threads, and remove_thread.
use async_thrift.Prelude.{
  ℕ, ◌+◌, ◌≤◌, ◌<◌, ◌≡◌, refl, sym, ap, subst, ◌∙◌, List, [], ◌∷◌, Bool, true, false, Option, none,
  some, arith, ◌==◌, if◌then◌else◌, length, Bool-cases, inl, inr,
}
use async_thrift.Map.{Map, find}
use async_thrift.Map.Places.{in_table}
use async_thrift.ConnPool.{Connection, ConnPool, Answer, can_be_destroyed}
use async_thrift.ConnPool
use async_thrift.ConnPool.Probe.{update_status, quick_update_status, reclaim_connections, try_times}
use async_thrift.ConnPool.Owner.{Owned, IsUsed}
use async_thrift.ConnPool.Calls.{put-Owned, close-Owned, tried-Owned, used_as, used_as-Owned}
use async_thrift.ConnPool.History.{reclaim-Owned}
use async_thrift.ConnPool.Allocated.{
  allocated, put-allocated, close-allocated, tried-allocated, reclaim-allocated, used_as-allocated,
}
use async_thrift.Pools.{
  Backend, Client, same_client, ThriftPool, find_client, erase_client, deref, write, destroyed,
  remove_pass, put_at, put_found, put, close_at, close_found, close,
}
use async_thrift.Pools.Inv.{
  addressed, lent, lent_by, in_map, AllOwned, OwnedAt, IsLocal, Tracks, addressed-append,
  lent-append, AllOwned-append, AllOwned-left, AllOwned-right, find_pool-Owned, find_pool-addressed,
  lent-find_pool, lent-addressed,
}
use async_thrift.Pools.Holders.{find_client-erase, all, write-Tracks}

-- A connection in conn_pool_map_ is allocated by the pool that the map gives.
module _ (c : Client) (s : ThriftPool) (w : Tracks s) where
  registered :
      (a : ℕ)
      → find_client c s.conn_pool_map ≡ some a
      → (a ≡ c.owner)
        × ((p : ConnPool) × (d : Connection) × (deref a s ≡ some p)
            × (find c.id p.allocated_connections ≡ some d))
  registered a e =
      let (p, found) = find_pool-addressed c.owner (all s) (lent-addressed c (all s) lent_one) in
      let here : allocated c.id p ≡ 1 =
        sym (lent-find_pool c p (all s) (ground (arith, w.places c.owner)) found)
        ∙ sym (w.held c)
        ∙ ap in_map e in
      let (d, e') = present (find c.id p.allocated_connections) here in
      (at, (p, d, ap (λ x. deref x s) at ∙ found, e'))
    where
      at : a ≡ c.owner
      at = subst (OwnedAt c) e (w.at_owner c)

      lent_one : 0 < lent c (all s)
      lent_one = omega (arith, w.held c, ap in_map e)

      present : (x : Option Connection) → in_table x ≡ 1 → (d : Connection) × (x ≡ some d)
      present none h = absurd (omega arith)
      present (some d) h = (d, refl)

  -- put and close follow no dangling pointer and fail no assertion.
  pub put-Tracks :
      (t : ThriftPool) × (put c s ≡ some (in_map (find_client c s.conn_pool_map) == 1, t))
      × (find_client c t.conn_pool_map ≡ none)
      × Tracks t
  unfolding put
  put-Tracks = by_found (find_client c s.conn_pool_map) refl
    where
      by_found :
          (x : Option ℕ)
          → find_client c s.conn_pool_map ≡ x
          → (t : ThriftPool) × (put_found c x s ≡ some (in_map x == 1, t))
            × (find_client c t.conn_pool_map ≡ none)
            × Tracks t
      by_found none e = (s, refl, e, w)
      by_found (some a) e =
          let (at, (p, d, found, there)) = registered a e in
          let (q, put_is, owned) =
            put-Owned c.id d p there (find_pool-Owned a p (all s) w.owned found) in
          let t = write a q s in
          (
            record t { conn_pool_map = erase_client c t.conn_pool_map },
            ap (λ x. put_at c a x s) found
                ∙ ap
                    (λ x. elim x as (λ y. Option (Bool × ThriftPool)) [
                      | none ↦ none
                      | some q' ↦
                          let u = write a q' s in
                          some (true, record u { conn_pool_map = erase_client c u.conn_pool_map })
                    ])
                    put_is,
            ground (arith, find_client-erase c c s.conn_pool_map),
            write-Tracks a p q (erase_client c s.conn_pool_map) s w found owned
                (λ d'. ground (
                  arith,
                  find_client-erase d' c s.conn_pool_map,
                  put-allocated c.id d p q (find_pool-Owned a p (all s) w.owned found) there put_is
                      d'.id,
                  at,
                  same_held d' a p d at found there,
                ))
                (λ d'. by_same d' (find_client-erase d' c s.conn_pool_map)),
          )
        where
          same_held :
              (d' : Client) (a : ℕ) (p : ConnPool) (d : Connection)
              → a ≡ c.owner
              → deref a s ≡ some p
              → find c.id p.allocated_connections ≡ some d
              → d'.owner ≡ c.owner
              → d'.id ≡ c.id
              → in_map (find_client d' s.conn_pool_map) ≡ 1
          same_held d' a p d at found there h h' =
              w.held d'
              ∙ lent-find_pool d' p (all s) (ground (arith, w.places d'.owner))
                  (ap (λ x. deref x s) (h ∙ sym at) ∙ found)
              ∙ ap (λ j. allocated j p) h'
              ∙ ap in_table there

          by_same :
              (d' : Client) {x : Option ℕ}
              → x ≡ (if same_client d' c then none else find_client d' s.conn_pool_map)
              → OwnedAt d' x
          by_same d' e' = subst (OwnedAt d') (sym e') (split (same_client d' c))
            where
              split : (b : Bool) → OwnedAt d' (if b then none else find_client d' s.conn_pool_map)
              split true = tt
              split false = w.at_owner d'

  pub close-Tracks :
      (t : ThriftPool) × (close c s ≡ some (in_map (find_client c s.conn_pool_map) == 1, t))
      × (t.conn_pool_map ≡ s.conn_pool_map)
      × Tracks t
  unfolding close
  close-Tracks = by_found (find_client c s.conn_pool_map) refl
    where
      by_found :
          (x : Option ℕ)
          → find_client c s.conn_pool_map ≡ x
          → (t : ThriftPool) × (close_found c x s ≡ some (in_map x == 1, t))
            × (t.conn_pool_map ≡ s.conn_pool_map)
            × Tracks t
      by_found none e = (s, refl, refl, w)
      by_found (some a) e =
          let (at, (p, d, found, there)) = registered a e in
          let q = ConnPool.close c.id p in
          (
            write a q s,
            ap (λ x. close_at c a x s) found,
            refl,
            write-Tracks a p q s.conn_pool_map s w found
                (close-Owned c.id p (find_pool-Owned a p (all s) w.owned found))
                (λ d'. ground (arith, close-allocated c.id p d'.id)) w.at_owner,
          )

-- What a pool's thread does to it, or a holder to a connection.
pub data Works (p : ConnPool) : ConnPool → Type 0 where
  uses :
      (id : ℕ) (old c : Connection)
      → find id p.allocated_connections ≡ some old
      → IsUsed c
      → Works p (used_as id c p)
  updates : (opens : Bool) (answers : ℕ → Answer) → Works p (update_status opens answers p)
  updates_quickly :
      (opens : Bool) (answers : ℕ → Answer) → Works p (quick_update_status opens answers p)
  reclaims : (opens : ℕ → Bool) → Works p (reclaim_connections opens p)

Works-Owned :
    {p q : ConnPool}
    → Works p q
    → Owned p []
    → Owned q [] × ((j : ℕ) → allocated j q ≡ allocated j p)
unfolding update_status quick_update_status
Works-Owned {p} (uses id old c found u) o =
    (used_as-Owned id old c p found u o, λ j. used_as-allocated id old c p found j)
Works-Owned {p} (updates opens answers) o = (
  tried-Owned (try_times p.status) opens answers p o,
  λ j. ap (λ m. in_table (find j m)) (tried-allocated (try_times p.status) opens answers p),
)
Works-Owned {p} (updates_quickly opens answers) o = (
  tried-Owned 1 opens answers p o,
  λ j. ap (λ m. in_table (find j m)) (tried-allocated 1 opens answers p),
)
Works-Owned {p} (reclaims opens) o =
    (reclaim-Owned opens p o, λ j. ap (λ m. in_table (find j m)) (reclaim-allocated opens p))

pub Works-Tracks :
    (a : ℕ) (p q : ConnPool) (s : ThriftPool)
    → Tracks s
    → deref a s ≡ some p
    → Works p q
    → Tracks (write a q s)
Works-Tracks a p q s w found work =
    let (owned, same) = Works-Owned work (find_pool-Owned a p (all s) w.owned found) in
    write-Tracks a p q s.conn_pool_map s w found owned (λ c. ground (arith, same c.id)) w.at_owner

-- remove_thread: a pool that lends nothing goes.
can_be_destroyed-allocated : (j : ℕ) (p : ConnPool) → can_be_destroyed p ≡ true → allocated j p ≡ 0
unfolding can_be_destroyed find
can_be_destroyed-allocated j p h = by_map p.allocated_connections h
  where
    by_map : (m : Map Connection) → (length m == 0) ≡ true → in_table (find j m) ≡ 0
    by_map [] q = refl
    by_map (x ∷ m) q = absurd (ground arith)

destroyed-lent : (c : Client) (bs : List Backend) → lent c (destroyed bs) ≡ lent c bs
unfolding destroyed
destroyed-lent c [] = refl
destroyed-lent c (b ∷ bs) = elim (Bool-cases (can_be_destroyed b.pool)) [
  | inl e ↦
      ap (λ t. lent c (if t then destroyed bs else b ∷ destroyed bs)) e
      ∙ ground (arith, destroyed-lent c bs, can_be_destroyed-allocated c.id b.pool e)
  | inr e ↦
      ap (λ t. lent c (if t then destroyed bs else b ∷ destroyed bs)) e
      ∙ ap (λ y. lent_by c b.address b.pool + y) (destroyed-lent c bs)
]

destroyed-addressed : (a : ℕ) (bs : List Backend) → addressed a (destroyed bs) ≤ addressed a bs
unfolding destroyed
destroyed-addressed a [] = omega arith
destroyed-addressed a (b ∷ bs) = by_state (can_be_destroyed b.pool) (destroyed-addressed a bs)
  where
    by_state :
        (t : Bool)
        → addressed a (destroyed bs) ≤ addressed a bs
        → addressed a (if t then destroyed bs else b ∷ destroyed bs) ≤ addressed a (b ∷ bs)
    by_state true h = omega arith
    by_state false h = omega arith

destroyed-AllOwned : (bs : List Backend) → AllOwned bs → AllOwned (destroyed bs)
unfolding destroyed
destroyed-AllOwned [] h = tt
destroyed-AllOwned (b ∷ bs) (o, h) = by_state (can_be_destroyed b.pool) (destroyed-AllOwned bs h)
  where
    by_state :
        (t : Bool)
        → AllOwned (destroyed bs)
        → AllOwned (if t then destroyed bs else b ∷ destroyed bs)
    by_state true h' = h'
    by_state false h' = (o, h')

pub remove_pass-Tracks : (s : ThriftPool) → Tracks s → Tracks (remove_pass s)
remove_pass-Tracks s w = record {
  places = λ a. omega (
    arith,
    w.places a,
    addressed-append a s.pools s.remove_queue,
    addressed-append a s.pools (destroyed s.remove_queue),
    destroyed-addressed a s.remove_queue,
  );
  owned =
      AllOwned-append s.pools (destroyed s.remove_queue)
        (AllOwned-left s.pools s.remove_queue w.owned)
        (destroyed-AllOwned s.remove_queue (AllOwned-right s.pools s.remove_queue w.owned));
  held = λ c. omega (
    arith,
    w.held c,
    lent-append c s.pools s.remove_queue,
    lent-append c s.pools (destroyed s.remove_queue),
    destroyed-lent c s.remove_queue,
  );
  at_owner = w.at_owner;
  local = by_local s.localhost_pool w.local;
}
  where
    by_local : (l : Option ℕ) → IsLocal s l → IsLocal (remove_pass s) l
    by_local none h = tt
    by_local (some a) h = h
