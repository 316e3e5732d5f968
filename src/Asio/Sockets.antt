-- ===== src/Asio/Sockets.antt =====
-- Where each socket is: in a pool, or closed. No operation loses or doubles one.
use async_thrift.Prelude.{
  ℕ, ◌+◌, ◌-◌, ◌≡◌, refl, ap, List, [], ◌∷◌, ◌++◌, Option, none, some, arith, length, take, drop,
  take-append-drop, Bool-cases, inl, inr, count, count-append, ltb, ◌==◌, not, ◌&&◌,
}
use async_thrift.Map.{Map, find, insert, or_fresh}
use async_thrift.Map.Laws.{total, weight_of, total-insert}
use async_thrift.Asio.{
  Status, connected, EndPointPool, fresh, AsioPool, entry, put_entry, close_all, push_back,
  empty_into, held, kept, cut, Picked, pooled, pooled_sockets,
}
use async_thrift.Asio.Inv.{Inv}

-- How often the pool holds a socket, and has closed it.
abbrev pub owned : ℕ → AsioPool → ℕ
owned s p = count s (pooled_sockets p.map) + count s p.closed

-- The sockets that came in, and those that went out to a caller.
abbrev pub Flow : AsioPool → List ℕ → List ℕ → AsioPool → Type 0
Flow p came went q = (s : ℕ) → owned s q + count s went ≡ owned s p + count s came

count-pooled :
    (s : ℕ) (m : Map EndPointPool) → count s (pooled_sockets m) ≡ total (λ e. count s e.pool) m
count-pooled s [] = refl
count-pooled s ((ep, e) ∷ m) =
    omega (arith, count-append s e.pool (pooled_sockets m), count-pooled s m)

entry-weight :
    (s : ℕ) (o : Option EndPointPool)
    → weight_of (λ e. count s e.pool) o ≡ count s (or_fresh fresh o).pool
entry-weight s none = refl
entry-weight s (some e) = refl

module _ (p : AsioPool) (i : Inv p) (s : ℕ) where
  pub owned-put_entry :
      (ep : ℕ) (e : EndPointPool)
      → owned s (put_entry ep e p) + count s (entry ep p).pool ≡ owned s p + count s e.pool
  unfolding put_entry
  owned-put_entry ep e = omega (
    arith,
    total-insert (λ e. count s e.pool) ep e p.map i.sorted,
    count-pooled s p.map,
    count-pooled s (insert ep e p.map),
    entry-weight s (find ep p.map),
  )

  pub owned-touch : (ep : ℕ) → owned s (put_entry ep (entry ep p) p) ≡ owned s p
  owned-touch ep = omega (arith, owned-put_entry ep (entry ep p))

  pub owned-empty_into : (ep : ℕ) (status : Status) → owned s (empty_into ep status p) ≡ owned s p
  unfolding empty_into close_all
  owned-empty_into ep status = omega (
    arith,
    owned-put_entry ep (record { status = status; pool = [] }),
    count-append s (entry ep p).pool
        (put_entry ep (record { status = status; pool = [] }) p).closed,
  )

pub owned-close_all :
    (s : ℕ) (xs : List ℕ) (p : AsioPool) → owned s (close_all xs p) ≡ owned s p + count s xs
unfolding close_all
owned-close_all s xs p = omega (arith, count-append s xs p.closed)

count-kept-cut :
    (s max_conn : ℕ) (pool : List ℕ)
    → count s (kept max_conn pool) + count s (cut max_conn pool) ≡ count s pool
count-kept-cut s max_conn pool =
    elim (Bool-cases (not (max_conn == 0) && ltb max_conn (length pool))) [
      | inl e ↦ rw e (
          omega (
            arith,
            count-append s (take (length pool - max_conn) pool)
                (drop (length pool - max_conn) pool),
            ap (count s) (take-append-drop (length pool - max_conn) pool),
          ))
      | inr e ↦ rw e (omega arith)
    ]

pub owned-push_back :
    (p : AsioPool) (i : Inv p) (s ep : ℕ) (xs : List ℕ)
    → owned s (push_back ep connected xs p) ≡ owned s p + count s xs
unfolding push_back
owned-push_back p i s ep xs =
    let pool = xs ++ (entry ep p).pool in
    let e : EndPointPool = record { status = connected; pool = kept p.max_conn pool } in
    omega (
      arith,
      owned-close_all s (cut p.max_conn pool) (put_entry ep e p),
      owned-put_entry p i s ep e,
      count-kept-cut s p.max_conn pool,
      count-append s xs (entry ep p).pool,
    )

-- What a socket that `pick` hands out, and the pointer that it drops, amount to.
abbrev pub picked_in : Option ℕ → Picked → List ℕ
picked_in slot (pooled s p) = held slot
picked_in slot _ = []

abbrev pub picked_out : Picked → List ℕ
picked_out (pooled s p) = s ∷ []
picked_out _ = []
