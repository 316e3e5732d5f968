-- ===== src/Asio/Inv.antt =====
-- What holds of the pool between any two locked sections, whichever threads run them.
use async_thrift.Prelude.{
  ℕ, ◌-◌, ◌≤◌, ◌≡◌, ◌≢◌, refl, ap, List, [], ◌∷◌, ◌++◌, Bool, true, false, Option, none, some,
  arith, length, length-drop, Bool-cases, inl, inr,
}
use async_thrift.Map.{Map, find, or_fresh, IsSorted, Above}
use async_thrift.Map.Laws.{insert-IsSorted, Every, Every-insert, Every-find}
use async_thrift.Asio.{
  Status, adding, connected, disconnected, deleting, deleted, EndPointPool, fresh, AsioPool, entry,
  put_entry, close_all, is_connected, is_deleting, push_back, empty_into, add_by, mark_adding, del,
  del_by, del_found, held, kept, pick_from, Picked, refused, pooled, must_connect, pick,
  finish_connect, put_locked, take_back, clear, count_failure, count_created, count_pooled,
}
use async_thrift.Asio.Probe.{
  scan, scan_connected, first_pass, scan_all, probe_failed, probe_connected, replenish,
  count_connected, count_disconnected,
}

-- The pool that `pick` leaves.
abbrev pub after_pick : Picked → AsioPool
after_pick (refused p) = p
after_pick (pooled s p) = p
after_pick (must_connect p) = p

-- Only a connected endpoint keeps sockets, and no more than its bound, if there is one.
abbrev pub IsTidy : ℕ → EndPointPool → Type 0
IsTidy max_conn e =
    (is_connected e.status ≡ false → e.pool ≡ []) × (max_conn ≢ 0 → length e.pool ≤ max_conn)

pub record Inv (p : AsioPool) : Type 0 where
  pub sorted : IsSorted p.map
  pub tidy : Every (IsTidy p.max_conn) p.map

entry_of-IsTidy :
    (max_conn : ℕ) (o : Option EndPointPool)
    → ((e : EndPointPool) → o ≡ some e → IsTidy max_conn e)
    → IsTidy max_conn (or_fresh fresh o)
entry_of-IsTidy max_conn none h = (λ _. refl, λ _. omega arith)
entry_of-IsTidy max_conn (some e) h = h e refl

pub entry-IsTidy : (ep : ℕ) (p : AsioPool) → Inv p → IsTidy p.max_conn (entry ep p)
entry-IsTidy ep p i =
    entry_of-IsTidy p.max_conn (find ep p.map)
      (λ e h. Every-find (IsTidy p.max_conn) ep p.map i.tidy h)

put_entry-Inv :
    (ep : ℕ) (e : EndPointPool) (p : AsioPool)
    → Inv p
    → IsTidy p.max_conn e
    → Inv (put_entry ep e p)
unfolding put_entry
put_entry-Inv ep e p i t = record {
  sorted = insert-IsSorted ep e p.map i.sorted;
  tidy = Every-insert (IsTidy p.max_conn) ep e p.map t i.tidy;
}

close_all-Inv : (xs : List ℕ) (p : AsioPool) → Inv p → Inv (close_all xs p)
unfolding close_all
close_all-Inv xs p i = record { sorted = i.sorted; tidy = i.tidy }

pub touch-Inv : (ep : ℕ) (p : AsioPool) → Inv p → Inv (put_entry ep (entry ep p) p)
touch-Inv ep p i = put_entry-Inv ep (entry ep p) p i (entry-IsTidy ep p i)

pub empty_into-Inv :
    (ep : ℕ) (status : Status) (p : AsioPool) → Inv p → Inv (empty_into ep status p)
unfolding empty_into
empty_into-Inv ep status p i =
    close_all-Inv (entry ep p).pool (put_entry ep (record { status = status; pool = [] }) p)
      (put_entry-Inv ep (record { status = status; pool = [] }) p i (λ _. refl, λ _. omega arith))

length-kept : (max_conn : ℕ) (pool : List ℕ) → max_conn ≢ 0 → length (kept max_conn pool) ≤ max_conn
length-kept max_conn pool h = ground (arith, length-drop (length pool - max_conn) pool)

push_back-Inv : (ep : ℕ) (xs : List ℕ) (p : AsioPool) → Inv p → Inv (push_back ep connected xs p)
unfolding push_back
push_back-Inv ep xs p i =
    let pool = kept p.max_conn (xs ++ (entry ep p).pool) in
    close_all-Inv _ (put_entry ep (record { status = connected; pool = pool }) p) (
      put_entry-Inv ep (record { status = connected; pool = pool }) p i
        (λ h. cc, length-kept p.max_conn (xs ++ (entry ep p).pool)))

add_by-Inv : (status : Status) (ep : ℕ) (p : AsioPool) → Inv p → Inv (add_by status ep p)
add_by-Inv deleting ep p i = empty_into-Inv ep adding p i
add_by-Inv deleted ep p i = empty_into-Inv ep adding p i
add_by-Inv _ ep p i = touch-Inv ep p i

pub mark_adding-Inv : (ep : ℕ) (p : AsioPool) → Inv p → Inv (mark_adding ep p)
unfolding mark_adding
mark_adding-Inv ep p i = add_by-Inv (entry ep p).status ep p i

scan_connected-IsTidy :
    (max_conn : ℕ) (is_closed : ℕ → Bool) (pool : List ℕ)
    → IsTidy max_conn (record { status = connected; pool = pool })
    → IsTidy max_conn (scan_connected is_closed pool).entry
scan_connected-IsTidy max_conn is_closed [] t = t
scan_connected-IsTidy max_conn is_closed (s ∷ rest) t = elim (Bool-cases (is_closed s)) [
  | inl e ↦ rw e (λ _. refl, λ _. omega arith)
  | inr e ↦ rw e t
]

scan-IsTidy :
    (max_conn : ℕ) (quick : Bool) (is_closed : ℕ → Bool) (status : Status) (pool : List ℕ)
    → IsTidy max_conn (record { status = status; pool = pool })
    → IsTidy max_conn (scan quick is_closed status pool).entry
scan-IsTidy max_conn quick is_closed adding pool t = t
scan-IsTidy max_conn quick is_closed disconnected pool t = t
scan-IsTidy max_conn true is_closed connected pool t = t
scan-IsTidy max_conn false is_closed connected pool t =
    scan_connected-IsTidy max_conn is_closed pool t
scan-IsTidy max_conn quick is_closed deleting pool t = (λ _. refl, λ _. omega arith)
scan-IsTidy max_conn quick is_closed deleted pool t = t

pub first_pass-Every :
    (max_conn : ℕ) (quick : Bool) (is_closed : ℕ → Bool) (m : Map EndPointPool)
    → Every (IsTidy max_conn) m
    → Every (IsTidy max_conn) (first_pass quick is_closed m).map
unfolding first_pass
first_pass-Every max_conn quick is_closed [] t = tt
first_pass-Every max_conn quick is_closed ((ep, e) ∷ m) t = (
  scan-IsTidy max_conn quick is_closed e.status e.pool t.0,
  first_pass-Every max_conn quick is_closed m t.1,
)

first_pass-Above :
    (k : ℕ) (quick : Bool) (is_closed : ℕ → Bool) (m : Map EndPointPool)
    → Above k m
    → Above k (first_pass quick is_closed m).map
unfolding first_pass
first_pass-Above k quick is_closed [] a = tt
first_pass-Above k quick is_closed ((ep, e) ∷ m) a = (a.0, first_pass-Above k quick is_closed m a.1)

pub first_pass-IsSorted :
    (quick : Bool) (is_closed : ℕ → Bool) (m : Map EndPointPool)
    → IsSorted m
    → IsSorted (first_pass quick is_closed m).map
unfolding first_pass
first_pass-IsSorted quick is_closed [] s = tt
first_pass-IsSorted quick is_closed ((ep, e) ∷ m) s =
    (first_pass-Above ep quick is_closed m s.0, first_pass-IsSorted quick is_closed m s.1)

-- The counters are no part of it.
count_failure-Inv : (p : AsioPool) → Inv p → Inv (count_failure p)
unfolding count_failure
count_failure-Inv p i = record { sorted = i.sorted; tidy = i.tidy }

module _ (p : AsioPool) (i : Inv p) where
  pub count_pooled-Inv : Inv (count_pooled p)
  unfolding count_pooled
  count_pooled-Inv = record { sorted = i.sorted; tidy = i.tidy }

  count_created-Inv : Inv (count_created p)
  unfolding count_created
  count_created-Inv = record { sorted = i.sorted; tidy = i.tidy }

  pub count_connected-Inv : (status : Status) → Inv (count_connected status p)
  unfolding count_connected
  count_connected-Inv connected = i
  count_connected-Inv _ = record { sorted = i.sorted; tidy = i.tidy }

  pub count_disconnected-Inv : (status : Status) → Inv (count_disconnected status p)
  unfolding count_disconnected
  count_disconnected-Inv connected = record { sorted = i.sorted; tidy = i.tidy }
  count_disconnected-Inv _ = i

  pub clear-Inv : Inv (clear p)
  unfolding clear
  clear-Inv = record { sorted = tt; tidy = tt }

  del_by-Inv : (status : Status) (ep : ℕ) → Inv (del_by status ep p)
  del_by-Inv deleting ep = i
  del_by-Inv deleted ep = i
  del_by-Inv _ ep = empty_into-Inv ep deleting p i

  del_found-Inv : (o : Option EndPointPool) (ep : ℕ) → Inv (del_found o ep p)
  del_found-Inv none ep = i
  del_found-Inv (some e) ep = del_by-Inv e.status ep

  pub del-Inv : (ep : ℕ) → Inv (del ep p)
  unfolding del
  del-Inv ep = del_found-Inv (find ep p.map) ep

  take_back-Inv : (status : Status) (s ep : ℕ) → Inv (take_back status s ep p)
  take_back-Inv connected s ep = push_back-Inv ep (s ∷ []) p i
  take_back-Inv _ s ep = close_all-Inv (s ∷ []) _ (touch-Inv ep p i)

  pub put_locked-Inv : (s ep : ℕ) → Inv (put_locked s ep p)
  unfolding put_locked
  put_locked-Inv s ep = take_back-Inv (entry ep p).status s ep

  pub finish_connect-Inv :
      (ep : ℕ) (slot dialled : Option ℕ) → Inv (finish_connect ep slot dialled p).after
  finish_connect-Inv ep slot none =
      close_all-Inv (held slot) _ (count_failure-Inv _ (empty_into-Inv ep disconnected p i))
  finish_connect-Inv ep slot (some s) = close_all-Inv (held slot) _ count_created-Inv

  pick_from-Inv :
      (is_closed : ℕ → Bool) (ep : ℕ) (slot : Option ℕ) (pool : List ℕ)
      → (entry ep p).pool ≡ pool
      → Inv (after_pick (pick_from is_closed ep slot pool p))
  unfolding count_pooled
  pick_from-Inv is_closed ep slot [] e = i
  pick_from-Inv is_closed ep slot (s ∷ rest) e = elim (Bool-cases (is_closed s)) [
    | inl h ↦ rw h (empty_into-Inv ep connected p i)
    | inr h ↦ rw h (
        close_all-Inv (held slot) _ (
          put_entry-Inv ep (record { status = connected; pool = rest }) (count_pooled p)
            count_pooled-Inv fewer))
  ]
    where
      fewer : IsTidy (count_pooled p).max_conn (record { status = connected; pool = rest })
      fewer = (λ h. cc, λ h. omega (arith, (entry-IsTidy ep p i).1 h, ap length e))

  pub pick-Inv :
      (is_closed : ℕ → Bool) (ep : ℕ) (slot : Option ℕ)
      → Inv (after_pick (pick is_closed ep slot p))
  unfolding pick
  pick-Inv is_closed ep slot = elim (Bool-cases (is_connected (entry ep p).status)) [
    | inl h ↦ rw h (pick_from-Inv is_closed ep slot (entry ep p).pool refl)
    | inr h ↦ rw h (count_failure-Inv _ (touch-Inv ep p i))
  ]

  pub probe_failed-Inv : (ep : ℕ) → Inv (probe_failed ep p)
  unfolding probe_failed
  probe_failed-Inv ep = elim (Bool-cases (is_deleting (entry ep p).status)) [
    | inl e ↦ rw e (touch-Inv ep p i)
    | inr e ↦ rw e (empty_into-Inv ep disconnected p i)
  ]

  pub probe_connected-Inv : (ep s : ℕ) → Inv (probe_connected ep s p)
  unfolding probe_connected
  probe_connected-Inv ep s = elim (Bool-cases (is_deleting (entry ep p).status)) [
    | inl e ↦ rw e (close_all-Inv (s ∷ []) _ (touch-Inv ep p i))
    | inr e ↦ rw e (push_back-Inv ep (s ∷ []) p i)
  ]

  pub replenish-Inv : (ep : ℕ) (sockets : List ℕ) → Inv (replenish ep sockets p)
  unfolding replenish
  replenish-Inv ep sockets = elim (Bool-cases (is_connected (entry ep p).status)) [
    | inl e ↦ rw e (push_back-Inv ep sockets p i)
    | inr e ↦ rw e (close_all-Inv sockets _ (touch-Inv ep p i))
  ]

  pub scan_all-Inv : (quick : Bool) (is_closed : ℕ → Bool) → Inv (scan_all quick is_closed p).0
  unfolding scan_all
  scan_all-Inv quick is_closed =
      let pass = first_pass quick is_closed p.map in
      close_all-Inv pass.dropped (record p { map = pass.map })
        (record {
          sorted = first_pass-IsSorted quick is_closed p.map i.sorted;
          tidy = first_pass-Every p.max_conn quick is_closed p.map i.tidy;
        })
