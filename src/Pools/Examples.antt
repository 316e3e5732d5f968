-- ===== src/Pools/Examples.antt =====
-- Two servers, hosts 7 and 8, of which 7 is the local one; each pool opens one connection ahead.
use async_thrift.Prelude.{
  ℕ, ◌+◌, ◌%◌, ◌<◌, ◌≡◌, ◌⊎◌, refl, [], ◌∷◌, Bool, true, false, Option, none, some, arith, length,
  ◌==◌,
}
use async_thrift.Map.{find, insert}
use async_thrift.ConnPool.{Status, connected, closed, alive, ConnPool, no_counts, new_pool}
use async_thrift.ConnPool.Probe.{update_status}
use async_thrift.Pools.Returning.{updates}
use async_thrift.Pools.{
  Backend, Client, ThriftPool, no_servers, get, put, put_through, find_client, erase_client, close,
  get_status, is_up, get_elem?, choose_remote, remove_pass, write, find_pool, write_pool, destroyed,
}
use async_thrift.Pools.Renewal.{update_servers, add_server}
use async_thrift.Pools.Update.{named, update_servers-named}
use async_thrift.Pools.Pick.{up_after, choose_remote_lem}
use async_thrift.Pools.Removal.{put_through-remove_pass}
use async_thrift.Pools.Inv.{lent, Tracks}
use async_thrift.Pools.Holders.{all}
use async_thrift.Pools.History.{
  Steps, adds, works, updates_servers, gets, removes, none_yet, next, Steps-Tracks, Steps-answer,
}

abbrev opening : ℕ → ℕ → Bool
opening a i = true

abbrev empty : ThriftPool
empty = no_servers 1 2 7

abbrev two : ThriftPool
two = (update_servers (7 ∷ 8 ∷ []) (90 ∷ 91 ∷ []) opening empty).1

-- The server 8 is asked for no more.
update_servers-named_example :
    let t = (update_servers (7 ∷ []) (90 ∷ []) opening two).1 in
    (named 8 91 t.pools ≡ 0) × (named 8 91 t.remove_queue ≡ 1)
unfolding update_servers
update_servers-named_example = update_servers-named 8 91 (7 ∷ []) (90 ∷ []) opening two refl

-- Three pools without connections, of which the second is connected.
abbrev idle_pool : Status → ConnPool
idle_pool status = record {
  min_free_conn = 0;
  max_conn = 2;
  status = status;
  free_connections = [];
  allocated_connections = [];
  closed_connections = [];
  counters = no_counts;
  next = 0;
  deleted = [];
}

abbrev three : ThriftPool
three = record {
  min_free_conn = 0;
  max_conn = 2;
  localhost_name = 7;
  index = 5;
  conn_pool_map = [];
  pools =
      record { address = 0; host = 1; port = 90; pool = idle_pool closed }
      ∷ record { address = 1; host = 2; port = 90; pool = idle_pool connected }
      ∷ record { address = 2; host = 3; port = 90; pool = idle_pool closed }
      ∷ [];
  localhost_pool = none;
  remove_queue = [];
  next = 3;
}

choose_remote_lem_example :
    ((get_status three ≡ connected)
      × ((k : ℕ) × (b : Backend) × (k < length three.pools)
          × (get_elem? three.pools ((three.index + k) % length three.pools) ≡ some b)
          × (is_up b ≡ true)
          × ((choose_remote three).0 ≡ some b.address)
          × ((choose_remote three).1.index ≡ (three.index + k) % length three.pools + 1)
          × ((j : ℕ) → j < k → up_after three.index j three.pools ≡ false)))
    ⊎ ((get_status three ≡ closed) × ((choose_remote three).0 ≡ none))
choose_remote_lem_example = choose_remote_lem three (omega arith)

-- The pool of the server 8 is probed and lends its connection 0; then the server is removed.
abbrev after_call : Option (Bool × ThriftPool) → ThriftPool
after_call none = empty
after_call (some (r, t)) = t

abbrev added : ThriftPool
added = after_call (add_server 8 91 opening empty)

abbrev probed : ThriftPool
probed = write 0 (update_status true (λ i. alive) (new_pool 1 2 (opening 0))) added

abbrev after : Option (Option Client × ThriftPool) → ThriftPool
after none = empty
after (some (r, t)) = t

abbrev lending : ThriftPool
lending = after (get true probed)

abbrev removed : ThriftPool
removed = remove_pass (update_servers [] [] opening lending).1

abbrev first : Client
first = record { owner = 0; id = 0 }

history : Steps empty removed
unfolding add_server update_status new_pool find_pool write_pool get insert
    async_thrift.ConnPool.get
history =
    next
      (next
        (next
          (next (next none_yet (adds {r = true} 8 91 opening refl))
            (works 0 refl (updates true (λ i. alive))))
          (gets {r = some first} true refl))
        (updates_servers [] [] opening))
      removes

Steps-Tracks_example : Tracks removed
Steps-Tracks_example = Steps-Tracks 1 2 7 history

Steps-answer_example :
    ((r : Option Client) × (t : ThriftPool) × (get true removed ≡ some (r, t)))
    × ((t : ThriftPool) × (put first removed ≡ some (lent first (all removed) == 1, t))
        × (lent first (all t) ≡ 0))
    × ((t : ThriftPool) × (close first removed ≡ some (lent first (all removed) == 1, t))
        × ((d : Client) → lent d (all t) ≡ lent d (all removed)))
Steps-answer_example = Steps-answer 1 2 7 true first history

-- The removed server's pool is in the queue, and has the connection allocated.
put_through-remove_pass_example : put_through first (update_servers [] [] opening lending).1 ≡ none
unfolding add_server update_status new_pool find_pool write_pool get update_servers find insert
    find_client erase_client async_thrift.ConnPool.get
put_through-remove_pass_example =
    put_through-remove_pass first 0 _ _ (update_servers [] [] opening lending).1 refl refl refl refl
      refl refl

-- The connection is still lent.
first_is_lent : lent first (all removed) ≡ 1
unfolding add_server update_status new_pool find_pool write_pool get update_servers destroyed find
    insert async_thrift.ConnPool.get
first_is_lent = refl
