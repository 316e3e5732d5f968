-- ===== src/Pools/Update.antt =====
-- update_servers: which pools there are afterwards, and that none is lost or made without need.
use async_thrift.Prelude.{
  ℕ, ◌+◌, ◌-◌, ◌≡◌, ◌⊎◌, inr, refl, sym, ap, subst, ◌∙◌, List, [], ◌∷◌, ◌++◌, Bool, true, false,
  arith, ◌==◌, ◌&&◌, not, if◌then◌else◌, length, ==_iff,
}
use async_thrift.Pools.{Backend, ThriftPool}
use async_thrift.Pools.Renewal.{
  Wanted, Updating, find_host, keep_or_queue, update_pools, restore_or_leave, update_remove_queue,
  push_server, add_remaining, loops, want, update_servers,
}

-- How many pools there are of a host and port, and of an address; how many times the host and port
-- are asked for, and how many of these are not yet found.
module _ (h p : ℕ) where
  abbrev pub named : List Backend → ℕ
  named [] = 0
  named (b ∷ bs) = (if (b.host == h) && (b.port == p) then 1 else 0) + named bs

  abbrev pub asked : List ℕ → List ℕ → ℕ
  asked (host ∷ hosts) (port ∷ ports) =
      (if (host == h) && (port == p) then 1 else 0) + asked hosts ports
  asked hosts ports = 0

  abbrev missing : List Wanted → ℕ
  missing [] = 0
  missing (w ∷ ws) = (if (w.host == h) && (w.port == p) && not w.found then 1 else 0) + missing ws

  named-append : (xs ys : List Backend) → named (xs ++ ys) ≡ named xs + named ys
  named-append [] ys = omega arith
  named-append (b ∷ bs) ys = omega (arith, named-append bs ys)

  missing-want : (hosts ports : List ℕ) → missing (want hosts ports) ≡ asked hosts ports
  missing-want [] ports = refl
  missing-want (host ∷ hosts) [] = refl
  missing-want (host ∷ hosts) (port ∷ ports) = ground (arith, missing-want hosts ports)

  -- A backend that is found takes one of those missing; one that is not has none missing.
  find_host-missing :
      (b : Backend) (ws : List Wanted)
      → missing (find_host b ws).1
          + (if (find_host b ws).0 then if (b.host == h) && (b.port == p) then 1 else 0 else 0)
        ≡ missing ws
  unfolding find_host
  find_host-missing b [] = refl
  find_host-missing b (w ∷ ws) = ground (arith, find_host-missing b ws)

  find_host-none :
      (b : Backend) (ws : List Wanted)
      → (find_host b ws).0 ≡ false
      → b.host ≡ h
      → b.port ≡ p
      → missing ws ≡ 0
  unfolding find_host
  find_host-none b [] q q' q'' = refl
  find_host-none b (w ∷ ws) q q' q'' = ground (arith, find_host-none b ws)

  -- A step of the first loop, with the backend found or not.
  abbrev IsSum : List Backend → Updating → Updating → Type 0
  IsSum bs u v =
      (named v.kept + missing v.wanted ≡ named u.kept + missing u.wanted)
      × (named v.kept + named v.queue ≡ named u.kept + named u.queue + named bs)

  keep_or_queue-IsSum :
      (localhost_name : ℕ) (b : Backend) (u : Updating)
      → IsSum (b ∷ []) u (keep_or_queue localhost_name b (find_host b u.wanted) u)
  keep_or_queue-IsSum localhost_name b u =
      by_found (find_host b u.wanted) (find_host-missing b u.wanted)
    where
      by_found :
          (r : Bool × List Wanted)
          → missing r.1 + (if r.0 then if (b.host == h) && (b.port == p) then 1 else 0 else 0)
            ≡ missing u.wanted
          → IsSum (b ∷ []) u (keep_or_queue localhost_name b r u)
      by_found (true, ws) e =
          (omega (arith, named-append u.kept (b ∷ [])), omega (arith, named-append u.kept (b ∷ [])))
      by_found (false, ws) e = (omega arith, omega (arith, named-append u.queue (b ∷ [])))

  update_pools-IsSum :
      (localhost_name : ℕ) (bs : List Backend) (u : Updating)
      → IsSum bs u (update_pools localhost_name bs u)
  unfolding update_pools
  update_pools-IsSum localhost_name [] u = (refl, omega arith)
  update_pools-IsSum localhost_name (b ∷ bs) u =
      let v = keep_or_queue localhost_name b (find_host b u.wanted) u in
      let (e, e') = keep_or_queue-IsSum localhost_name b u in
      let (f, f') = update_pools-IsSum localhost_name bs v in (omega arith, omega arith)

  -- None is missing, or none is left in the queue.
  abbrev IsTight : Updating → Type 0
  IsTight u = (missing u.wanted ≡ 0) ⊎ (named u.queue ≡ 0)

  restore_or_leave-IsSum :
      (localhost_name : ℕ) (b : Backend) (u : Updating)
      → IsTight u
      → let v = restore_or_leave localhost_name b (find_host b u.wanted) u in
        IsSum (b ∷ []) u v × IsTight v
  restore_or_leave-IsSum localhost_name b u t =
      by_found (find_host b u.wanted) (find_host-missing b u.wanted) (find_host-none b u.wanted)
    where
      by_found :
          (r : Bool × List Wanted)
          → missing r.1 + (if r.0 then if (b.host == h) && (b.port == p) then 1 else 0 else 0)
            ≡ missing u.wanted
          → (r.0 ≡ false → b.host ≡ h → b.port ≡ p → missing u.wanted ≡ 0)
          → let v = restore_or_leave localhost_name b r u in IsSum (b ∷ []) u v × IsTight v
      by_found (true, ws) e absent = (
        (omega (arith, named-append u.kept (b ∷ [])), omega (arith, named-append u.kept (b ∷ []))),
        ground arith,
      )
      by_found (false, ws) e absent = (
        (omega arith, omega (arith, named-append u.queue (b ∷ []))),
        ground (arith, named-append u.queue (b ∷ []), absent refl),
      )

  update_remove_queue-IsSum :
      (localhost_name : ℕ) (bs : List Backend) (u : Updating)
      → IsTight u
      → let v = update_remove_queue localhost_name bs u in IsSum bs u v × IsTight v
  unfolding update_remove_queue
  update_remove_queue-IsSum localhost_name [] u t = ((refl, omega arith), t)
  update_remove_queue-IsSum localhost_name (b ∷ bs) u t =
      let v = restore_or_leave localhost_name b (find_host b u.wanted) u in
      let ((e, e'), t') = restore_or_leave-IsSum localhost_name b u t in
      let ((f, f'), t'') = update_remove_queue-IsSum localhost_name bs v t' in
      ((omega arith, omega arith), t'')

  loops_sum :
      (s : ThriftPool) (ws : List Wanted)
      → let u = loops s ws in
        (named u.kept + missing u.wanted ≡ missing ws)
        × (named u.kept + named u.queue ≡ named s.pools + named s.remove_queue)
        × IsTight u
  loops_sum s ws =
      let u =
        update_pools s.localhost_name s.pools
          (record { wanted = ws; kept = []; queue = s.remove_queue; local = s.localhost_pool }) in
      let (e, e') =
        update_pools-IsSum s.localhost_name s.pools
          (record { wanted = ws; kept = []; queue = s.remove_queue; local = s.localhost_pool }) in
      let ((f, f'), t) =
        update_remove_queue-IsSum s.localhost_name u.queue (record u { queue = [] }) (inr refl) in
      (omega arith, omega arith, t)

  push_unless-named :
      (b : Bool) (host port : ℕ) (opens : ℕ → ℕ → Bool) (s : ThriftPool)
      → let t = if b then s else push_server host port opens s in
        (named t.pools ≡ named s.pools + (if (host == h) && (port == p) && not b then 1 else 0))
        × (t.remove_queue ≡ s.remove_queue)
  unfolding push_server
  push_unless-named true host port opens s = (ground arith, refl)
  push_unless-named false host port opens s =
      let e : named (push_server host port opens s).pools
          ≡ named s.pools + ((if (host == h) && (port == p) then 1 else 0) + 0) =
        named-append s.pools _ in
      (ground (arith, e), refl)

  add_remaining-named :
      (ws : List Wanted) (opens : ℕ → ℕ → Bool) (s : ThriftPool)
      → let t = add_remaining ws opens s in
        (named t.pools ≡ named s.pools + missing ws) × (t.remove_queue ≡ s.remove_queue)
  unfolding add_remaining
  add_remaining-named [] opens s = (omega arith, refl)
  add_remaining-named (w ∷ ws) opens s =
      let (e, e') = push_unless-named w.found w.host w.port opens s in
      let (f, f') =
        add_remaining-named ws opens (if w.found then s else push_server w.host w.port opens s) in
      (omega arith, f' ∙ e')

  -- After an update with as many ports as hosts, every host and port has as many pools as it was
  -- asked for; those of its pools, removed ones included, that this leaves over stand in
  -- remove_queue, so that no pool is made where one of these could be used.
  pub update_servers-named :
      (hosts ports : List ℕ) (opens : ℕ → ℕ → Bool) (s : ThriftPool)
      → length hosts ≡ length ports
      → let t = (update_servers hosts ports opens s).1 in
        (named t.pools ≡ asked hosts ports)
        × (named t.remove_queue ≡ named s.pools + named s.remove_queue - asked hosts ports)
  unfolding update_servers
  update_servers-named hosts ports opens s q =
      let (e, e', tight) = loops_sum s (want hosts ports) in
      let (f, f') = add_remaining-named u.wanted opens looped in
      let g : named looped.remove_queue ≡ named u.queue = refl in
      subst Spec (sym runs) (
        omega (arith, missing-want hosts ports),
        ground (arith, missing-want hosts ports, ap named f'),
      )
    where
      u : Updating
      u = loops s (want hosts ports)

      looped : ThriftPool
      looped = record s { pools = u.kept; remove_queue = u.queue; localhost_pool = u.local }

      Spec : Bool × ThriftPool → Type 0
      Spec r =
          (named r.1.pools ≡ asked hosts ports)
          × (named r.1.remove_queue ≡ named s.pools + named s.remove_queue - asked hosts ports)

      runs : update_servers hosts ports opens s ≡ (true, add_remaining u.wanted opens looped)
      runs =
          ap (λ b. if b then (true, add_remaining u.wanted opens looped) else (false, s))
            ((==_iff (length hosts) (length ports)).1 q)
