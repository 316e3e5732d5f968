-- ===== src/Pools/Removal.antt =====
-- When remove_thread ends, and what its pass may do within a put.
use async_thrift.Prelude.{
  ℕ, zero, suc, List, [], ◌∷◌, ◌++◌, Bool, length, sym, Bool-cases, inl, inr, ==_iff, ◌==◌, ◌≡◌,
  refl, ap, ◌∙◌, true, false, none, some, arith, if◌then◌else◌,
}
use async_thrift.Map.{Map, find, erase}
use async_thrift.ConnPool.{Connection, ConnPool, can_be_destroyed}
use async_thrift.Pools.Inv.{addressed, addressed-write}
use async_thrift.Pools.{
  Backend, Client, ThriftPool, find_client, find_pool, write_pool, destroyed, deref, put_through,
  put_through_found, put_through_at, put_released, put_end, released, remove_pass, write,
}

-- What the pass of the k-th round from the round `i` on leaves, if none before it ends the thread.
abbrev pub after_round : ℕ → ℕ → (ℕ → ThriftPool → ThriftPool) → ThriftPool → ThriftPool
after_round zero i others s = remove_pass s
after_round (suc k) i others s = after_round k (suc i) others (others i (remove_pass s))

-- What the pass leaves of the pools at an address, if they lend nothing.
module _ (a : ℕ) (q : ConnPool) (idle : can_be_destroyed q ≡ true) where
  destroyed_first :
      (b : Backend) (bs : List Backend)
      → find_pool a (destroyed bs) ≡ none
      → (t : Bool) → (a == b.address) ≡ t
      → find_pool a (destroyed ((if t then record b { pool = q } else b) ∷ bs)) ≡ none
  unfolding destroyed find_pool
  destroyed_first b bs later true e =
      ap (λ x. find_pool a (if x then destroyed bs else record b { pool = q } ∷ destroyed bs)) idle
      ∙ later
  destroyed_first b bs later false e = by_state (can_be_destroyed b.pool)
    where
      by_state : (t : Bool) → find_pool a (if t then destroyed bs else b ∷ destroyed bs) ≡ none
      by_state true = later
      by_state false = ap (λ x. if x then some b.pool else find_pool a (destroyed bs)) e ∙ later

  destroyed-write : (bs : List Backend) → find_pool a (destroyed (write_pool a q bs)) ≡ none
  unfolding destroyed find_pool write_pool
  destroyed-write [] = refl
  destroyed-write (b ∷ bs) =
      destroyed_first b (write_pool a q bs) (destroyed-write bs) (a == b.address) refl

find_pool-absent :
    (a : ℕ) (xs ys : List Backend) → addressed a xs ≡ 0 → find_pool a (xs ++ ys) ≡ find_pool a ys
unfolding find_pool
find_pool-absent a [] ys h = refl
find_pool-absent a (b ∷ bs) ys h =
    ap (λ t. if t then some b.pool else find_pool a (bs ++ ys)) other
    ∙ find_pool-absent a bs ys (omega (arith, h))
  where
    other : (a == b.address) ≡ false
    other = ground (arith, h)

last_erased :
    (id : ℕ) (c : Connection) (m : Map Connection)
    → find id m ≡ some c
    → length m ≡ 1
    → length (erase id m) ≡ 0
unfolding find erase
last_erased id c [] h one = cc
last_erased id c (x ∷ []) h one = elim (Bool-cases (id == x.0)) [
  | inl e ↦ ap (λ b. length {A = ℕ × Connection} (if b then [] else x ∷ [])) e
  | inr e ↦ absurd (missing (sym h ∙ ap (λ b. if b then some x.1 else none) e))
]
  where
    missing : some c ≡ none → ⊥
    missing w = cc
last_erased id c (x ∷ (y ∷ m)) h one = absurd (omega (arith, one))

-- A connection is put back that is the last one that a removed pool has allocated, and a pass of
-- remove_thread comes after the pool has erased it: the pass deletes the pool, and the put goes on
-- with a pool that is no more.
pub put_through-remove_pass :
    (c : Client) (a : ℕ) (q : ConnPool) (conn : Connection) (s : ThriftPool)
    → find_client c s.conn_pool_map ≡ some a
    → addressed a s.pools ≡ 0
    → find_pool a s.remove_queue ≡ some q
    → find c.id q.allocated_connections ≡ some conn
    → conn.in_use ≡ true
    → length q.allocated_connections ≡ 1
    → put_through c s ≡ none
unfolding put_through can_be_destroyed
put_through-remove_pass c a q conn s registered gone queued found used last =
    ap (λ x. put_through_found c x s) registered
    ∙ ap (λ x. put_through_at c a x s) (find_pool-absent a s.pools s.remove_queue gone ∙ queued)
    ∙ ap (λ x. put_released c a (released x) q s) found
    ∙ ap (λ b. put_released c a (if b then some (record conn { in_use = false }) else none) q s)
        used
    ∙ ap (λ x. put_end c a (record conn { in_use = false }) x t) deleted
  where
    erased : ConnPool
    erased = record q { allocated_connections = erase c.id q.allocated_connections }

    t : ThriftPool
    t = remove_pass (write a erased s)

    deleted : deref a t ≡ none
    deleted =
        find_pool-absent a (write_pool a erased s.pools)
          (destroyed (write_pool a erased s.remove_queue))
          (addressed-write a erased a s.pools ∙ gone)
        ∙ destroyed-write a erased
            ((==_iff _ _).1 (last_erased c.id conn q.allocated_connections found last))
            s.remove_queue
