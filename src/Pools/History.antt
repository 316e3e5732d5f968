-- ===== src/Pools/History.antt =====
-- Any history of calls of a ThriftPool.
use async_thrift.Prelude.{ℕ, ◌≡◌, arith, refl, sym, ap, subst, ◌∙◌, List, Bool, Option, some, ◌==◌}
use async_thrift.ConnPool.{ConnPool}
use async_thrift.Pools.{
  Client, ThriftPool, no_servers, find_client, deref, write, remove_pass, get, put, close,
}
use async_thrift.Pools.Renewal.{add_server, update_servers}
use async_thrift.Pools.Inv.{lent, in_map, Tracks}
use async_thrift.Pools.Holders.{all, get-Tracks}
use async_thrift.Pools.Returning.{Works, Works-Tracks, put-Tracks, close-Tracks, remove_pass-Tracks}
use async_thrift.Pools.Servers.{add_server-Tracks, update_servers-Tracks}

-- A call, a pass of remove_thread between two calls, or what one pool's thread or a connection's holder does.
pub data Step (s : ThriftPool) : ThriftPool → Type 0 where
  adds :
      {t : ThriftPool} {r : Bool} (host port : ℕ) (opens : ℕ → ℕ → Bool)
      → add_server host port opens s ≡ some (r, t)
      → Step s t
  updates_servers :
      (hosts ports : List ℕ) (opens : ℕ → ℕ → Bool) → Step s (update_servers hosts ports opens s).1
  gets : {t : ThriftPool} {r : Option Client} (opens : Bool) → get opens s ≡ some (r, t) → Step s t
  puts : {t : ThriftPool} {r : Bool} (c : Client) → put c s ≡ some (r, t) → Step s t
  closes : {t : ThriftPool} {r : Bool} (c : Client) → close c s ≡ some (r, t) → Step s t
  removes : Step s (remove_pass s)
  works :
      {p q : ConnPool} (address : ℕ)
      → deref address s ≡ some p
      → Works p q
      → Step s (write address q s)

pub data Steps (s : ThriftPool) : ThriftPool → Type 0 where
  none_yet : Steps s s
  next : {t u : ThriftPool} → Steps s t → Step t u → Steps s u

same_state :
    {A : Type 0} {x y : A} {s t : ThriftPool} {r : Option (A × ThriftPool)}
    → r ≡ some (x, s)
    → r ≡ some (y, t)
    → s ≡ t
same_state h h' = cc

Step-Tracks : {s t : ThriftPool} → Step s t → Tracks s → Tracks t
Step-Tracks {s} (adds host port opens e) w = add_server-Tracks host port opens s w e
Step-Tracks {s} (updates_servers hosts ports opens) w = update_servers-Tracks hosts ports opens s w
Step-Tracks {s} (gets opens e) w =
    let (r, t, e', w') = get-Tracks opens s w in subst Tracks (same_state e' e) w'
Step-Tracks {s} (puts c e) w =
    let (t, e', gone, w') = put-Tracks c s w in subst Tracks (same_state e' e) w'
Step-Tracks {s} (closes c e) w =
    let (t, e', same, w') = close-Tracks c s w in subst Tracks (same_state e' e) w'
Step-Tracks {s} removes w = remove_pass-Tracks s w
Step-Tracks {s} (works {p} {q} address found work) w = Works-Tracks address p q s w found work

-- In every history of calls, a connection is in conn_pool_map_ exactly if a pool that is not
-- destroyed has it allocated, under the pool's address; no two pools have one address, every pool
-- owns each of its connections once, and localhost_pool_ is a pool in use of the local host.
pub Steps-Tracks :
    (min_free_conn max_conn localhost_name : ℕ) {s : ThriftPool}
    → Steps (no_servers min_free_conn max_conn localhost_name) s
    → Tracks s
unfolding find_client
Steps-Tracks min_free_conn max_conn localhost_name none_yet = record {
  places = λ a. ground arith;
  owned = tt;
  held = λ c. refl;
  at_owner = λ c. tt;
  local = tt;
}
Steps-Tracks min_free_conn max_conn localhost_name (next steps step) =
    Step-Tracks step (Steps-Tracks min_free_conn max_conn localhost_name steps)

-- After any history in which calls and passes of remove_thread follow one another, and no pass comes
-- within a put, get ends; such a put, also after its server's removal, answers true exactly for a
-- connection that a pool has allocated, which it then has no longer, and close answers the same and
-- takes none away. None of them follows a dangling pointer or fails an assertion.
pub Steps-answer :
    (min_free_conn max_conn localhost_name : ℕ) {s : ThriftPool} (opens : Bool) (c : Client)
    → Steps (no_servers min_free_conn max_conn localhost_name) s
    → ((r : Option Client) × (t : ThriftPool) × (get opens s ≡ some (r, t)))
      × ((t : ThriftPool) × (put c s ≡ some (lent c (all s) == 1, t)) × (lent c (all t) ≡ 0))
      × ((t : ThriftPool) × (close c s ≡ some (lent c (all s) == 1, t))
          × ((d : Client) → lent d (all t) ≡ lent d (all s)))
Steps-answer min_free_conn max_conn localhost_name {s} opens c steps =
    let w = Steps-Tracks min_free_conn max_conn localhost_name steps in
    let (r, v, got, after_get) = get-Tracks opens s w in
    let (t, e, gone, after_put) = put-Tracks c s w in
    let (u, e', same, after_close) = close-Tracks c s w in
    (
      (r, v, got),
      (t, e ∙ ap (λ n. some (n == 1, t)) (w.held c), sym (after_put.held c) ∙ ap in_map gone),
      (
        u,
        e' ∙ ap (λ n. some (n == 1, u)) (w.held c),
        λ d. sym (after_close.held d) ∙ ap (λ m. in_map (find_client d m)) same ∙ w.held d,
      ),
    )
