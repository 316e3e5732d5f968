-- ===== src/Pools/Servers.antt =====
-- Adding and updating servers keeps track of the connections.
use async_thrift.Prelude.{
  subst, ◌||◌, ℕ, ◌≡◌, refl, ap, List, [], ◌∷◌, ◌++◌, Bool, true, false, Option, none, some, arith,
  ◌==◌, if◌then◌else◌, length,
}
use async_thrift.Map.{find}
use async_thrift.Map.Places.{in_table}
use async_thrift.ConnPool.{new_pool}
use async_thrift.ConnPool.Owner.{new_pool-Owned}
use async_thrift.ConnPool.Allocated.{new_pool-allocated}
use async_thrift.Pools.{Backend, Client, ThriftPool}
use async_thrift.Pools.Renewal.{
  Wanted, Updating, push_server, add_remaining, loops, want, update_servers, has_server, add_server,
}
use async_thrift.Pools.Inv.{
  lent, IsLocal, Tracks, addressed-append, lent-append, local_at-append, AllOwned-append,
  AllOwned-left, AllOwned-right,
}
use async_thrift.Pools.Loops.{loops-Tracks}

-- A new pool.
abbrev new_backend : ℕ → ℕ → (ℕ → ℕ → Bool) → ThriftPool → Backend
new_backend host port opens s = record {
  address = s.next;
  host = host;
  port = port;
  pool = new_pool s.min_free_conn s.max_conn (opens s.next);
}

new_pool-lent :
    (c : Client) (host port : ℕ) (opens : ℕ → ℕ → Bool) (s : ThriftPool)
    → lent c (new_backend host port opens s ∷ []) ≡ 0
unfolding find
new_pool-lent c host port opens s = ground (
  arith,
  ap (λ m. in_table (find c.id m)) (new_pool-allocated s.min_free_conn s.max_conn (opens s.next)),
)

pub push_server-Tracks :
    (host port : ℕ) (opens : ℕ → ℕ → Bool) (s : ThriftPool)
    → Tracks s
    → Tracks (push_server host port opens s)
unfolding push_server
push_server-Tracks host port opens s w = record {
  places = λ a. ground (
    arith,
    w.places a,
    addressed-append a s.pools s.remove_queue,
    addressed-append a (s.pools ++ (b ∷ [])) s.remove_queue,
    addressed-append a s.pools (b ∷ []),
  );
  owned =
      AllOwned-append (s.pools ++ (b ∷ [])) s.remove_queue
        (AllOwned-append s.pools (b ∷ []) (AllOwned-left s.pools s.remove_queue w.owned)
          (new_pool-Owned s.min_free_conn s.max_conn (opens s.next), tt))
        (AllOwned-right s.pools s.remove_queue w.owned);
  held = λ c. omega (
    arith,
    w.held c,
    lent-append c s.pools s.remove_queue,
    lent-append c (s.pools ++ (b ∷ [])) s.remove_queue,
    lent-append c s.pools (b ∷ []),
    new_pool-lent c host port opens s,
  );
  at_owner = w.at_owner;
  local = by_local (s.localhost_name == host) refl s.localhost_pool w.local;
}
  where
    b : Backend
    b = new_backend host port opens s

    by_local :
        (x : Bool)
        → (s.localhost_name == host) ≡ x
        → (l : Option ℕ) → IsLocal s l
        → IsLocal (push_server host port opens s) (if x then some s.next else l)
    by_local true e l h = ground (arith, local_at-append s.localhost_name s.next s.pools (b ∷ []))
    by_local false e none h = tt
    by_local false e (some a) h = omega (arith, local_at-append s.localhost_name a s.pools (b ∷ []))

pub add_server-Tracks :
    (host port : ℕ) (opens : ℕ → ℕ → Bool) (s : ThriftPool) {r : Bool} {t : ThriftPool}
    → Tracks s
    → add_server host port opens s ≡ some (r, t)
    → Tracks t
unfolding add_server
add_server-Tracks host port opens s {r} {t} w = by_assertion ((host == 0) || (port == 0))
  where
    by_found :
        (b : Bool)
        → Tracks
            (if◌then◌else◌ {A = Bool × ThriftPool} b
              (false, s)
              (true, push_server host port opens s)).1
    by_found true = w
    by_found false = push_server-Tracks host port opens s w

    added : Bool × ThriftPool
    added =
        if has_server host port s.pools then (false, s) else (true, push_server host port opens s)

    by_assertion : (b : Bool) → (if b then none else some added) ≡ some (r, t) → Tracks t
    by_assertion true e = cc
    by_assertion false e = subst Tracks same (by_found (has_server host port s.pools))
      where
        same : added.1 ≡ t
        same = cc

add_remaining-Tracks :
    (ws : List Wanted) (opens : ℕ → ℕ → Bool) (s : ThriftPool)
    → Tracks s
    → Tracks (add_remaining ws opens s)
unfolding add_remaining
add_remaining-Tracks [] opens s w = w
add_remaining-Tracks (x ∷ ws) opens s w = add_remaining-Tracks ws opens _ (by_found x.found)
  where
    by_found : (b : Bool) → Tracks (if b then s else push_server x.host x.port opens s)
    by_found true = w
    by_found false = push_server-Tracks x.host x.port opens s w

pub update_servers-Tracks :
    (hosts ports : List ℕ) (opens : ℕ → ℕ → Bool) (s : ThriftPool)
    → Tracks s
    → Tracks (update_servers hosts ports opens s).1
unfolding update_servers
update_servers-Tracks hosts ports opens s w = by_length (length hosts == length ports)
  where
    u : Updating
    u = loops s (want hosts ports)

    looped : ThriftPool
    looped = record s { pools = u.kept; remove_queue = u.queue; localhost_pool = u.local }

    by_length :
        (b : Bool)
        → Tracks
            (if◌then◌else◌ {A = Bool × ThriftPool} b
              (true, add_remaining u.wanted opens looped)
              (false, s)).1
    by_length true =
        add_remaining-Tracks u.wanted opens looped (loops-Tracks s (want hosts ports) w)
    by_length false = w
