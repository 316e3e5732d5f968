-- ===== src/ConnPool/Return.antt =====
-- Putting back what get has got.
use async_thrift.Prelude.{
  ℕ, ◌≡◌, refl, sym, ap, ◌∙◌, subst, [], ◌∷◌, Bool, true, false, none, some, arith, ◌&&◌, not,
  if◌then◌else◌, ◌==◌,
}
use async_thrift.Map.{Map, find, insert, erase, Above, IsSorted}
use async_thrift.Map.Laws.{find-insert}
use async_thrift.ConnPool.{
  Connection, is_open, add_reference, ConnPool, put_connection, take_free, is_empty, count_got,
  allocate, get, put_found, put,
}
use async_thrift.ConnPool.Owner.{IsReady, Owned, IsHeld, take_free-IsHeld, head-Every}
use async_thrift.ConnPool.Outcome.{is_ready, allocate-some, held-allocated}

module _ {ℓ} {V : Type ℓ} where
  insert_first : (k : ℕ) (v : V) (m : Map V) → Above k m → insert k v m ≡ (k, v) ∷ m
  unfolding insert
  insert_first k v [] a = refl
  insert_first k v ((j, w) ∷ m) a = ground arith

  erase-insert :
      (k : ℕ) (v : V) (m : Map V) → IsSorted m → find k m ≡ none → erase k (insert k v m) ≡ m
  unfolding find insert erase
  erase-insert k v [] s h = ground arith
  erase-insert k v ((j, w) ∷ m) s h = ground (arith, erase-insert k v m s.1)

-- Putting back a connection that was got from the free ones restores the pool, but for the counter
-- of such gets.
pub put-get :
    (opens : Bool) (p : ConnPool) (id : ℕ) (c : Connection) (others : Map Connection)
    → p.free_connections ≡ (id, c) ∷ others
    → Owned p []
    → ((get opens p).0 ≡ some id)
      × (put id (get opens p).1 ≡ some (record p { counters = count_got true p.counters }))
unfolding get take_free is_ready put put_connection
put-get opens p id c others q o = (
  ap (λ x. x.0) got,
  ap (λ x. put id x.1) got
      ∙ ap (λ x. put_found id x r) (find-insert id id used p.allocated_connections ∙ here id)
      ∙ ap (λ b. some (stored b)) ready.1
      ∙ (λ i. some (record p {
        free_connections = free_again i;
        allocated_connections = allocated_again i;
        counters = count_got true p.counters;
      })),
)
  where
    used : Connection
    used = record c { in_use = true }

    idle : Connection
    idle = record c { in_use = false }

    ready : IsReady c
    ready = (head-Every q IsReady o.free_ready).0

    r : ConnPool
    r = record p {
      free_connections = others;
      allocated_connections = insert id used p.allocated_connections;
      counters = count_got true p.counters;
    }

    both : (a b : Bool) → a ≡ true → b ≡ false → (a && not b) ≡ true
    both a b h h' = ground arith

    got : get opens p ≡ (some id, r)
    got =
        ap
          (λ m.
            let held = take_free opens m p in
            allocate (not (is_empty m)) held (add_reference held.conn))
          q
        ∙ allocate-some true
            (record { id = id; conn = c; pool = record p { free_connections = others } })
            (both (is_open c) c.in_use ready.1 ready.0)

    here : (k : ℕ) → (if k == k then some used else find k p.allocated_connections) ≡ some used
    here k = ground arith

    taken : ConnPool
    taken = record r { allocated_connections = erase id r.allocated_connections }

    stored : Bool → ConnPool
    stored b =
        if b
        then record taken { free_connections = insert id idle others }
        else record taken { closed_connections = insert id idle taken.closed_connections }

    free_again : insert id idle others ≡ p.free_connections
    free_again =
        ap (λ u. insert id (record c { in_use = u }) others) (sym ready.0)
        ∙ insert_first id c others (subst IsSorted q o.free_sorted).0
        ∙ sym q

    absent : find id p.allocated_connections ≡ none
    absent =
        held-allocated (record { id = id; conn = c; pool = record p { free_connections = others } })
          (subst (λ m. IsHeld (take_free opens m p)) q (take_free-IsHeld opens p o))

    allocated_again : erase id (insert id used p.allocated_connections) ≡ p.allocated_connections
    allocated_again = erase-insert id used p.allocated_connections o.allocated_sorted absent
