-- ===== src/Tss/Clones.antt =====
-- Who owns the clones, and what get returns.
use async_thrift.Prelude.{
  ℕ, zero, suc, ◌+◌, ◌-◌, ◌%◌, ◌<◌, ◌≡◌, refl, ap, subst, List, [], ◌∷◌, Bool, true, false, Option,
  none, some, arith, ltb, ◌==◌, if◌then◌else◌, length, count,
}
use async_thrift.Asio.{u64}
use async_thrift.Tss.{
  ThriftPoolTss, new_pool_tss, get_or, clone, try_clones, get_client, give, get, remove, put, reset,
  hand_over, reset_tss_found, get_tss, reset_tss,
}

abbrev pub is_at : ℕ → Option ℕ → ℕ
is_at j none = 0
is_at j (some c) = if j == c then 1 else 0

-- The connection `j`: the thread's, a caller's, deleted, or in the hands of the running call.
abbrev pub owners : ℕ → ThriftPoolTss → ℕ
owners j p = is_at j p.connection + count j p.given + count j p.deleted

pub record OwnsAll (p : ThriftPoolTss) (held : Option ℕ) : Type 0 where
  pub owned : (j : ℕ) → owners j p + is_at j held ≡ (if ltb j p.next then 1 else 0)

try_clones-OwnsAll :
    (n i : ℕ) (opens : ℕ → Bool) (p : ThriftPoolTss)
    → OwnsAll p none
    → let r = try_clones n i opens p in OwnsAll r.1 r.0
unfolding try_clones
try_clones-OwnsAll zero i opens p o = o
try_clones-OwnsAll (suc n) i opens p o =
    by_open (opens p.next) (try_clones n (suc i) opens deleted) (
      try_clones-OwnsAll n (suc i) opens deleted
        (record { owned = λ j. ground (arith, o.owned j) }))
  where
    q : ThriftPoolTss
    q = clone (get_or p.pools (u64 (p.index + i) % length p.pools) 0) p

    deleted : ThriftPoolTss
    deleted = record q { deleted = p.next ∷ q.deleted }

    by_open :
        (b : Bool) (rest : Option ℕ × ThriftPoolTss)
        → OwnsAll rest.1 rest.0
        → let r = if◌then◌else◌ {A = Option ℕ × ThriftPoolTss} b (some p.next, q) rest in
          OwnsAll r.1 r.0
    by_open true rest o' = record { owned = λ j. ground (arith, o.owned j) }
    by_open false rest o' = o'

count-remove :
    (j client : ℕ) (cs : List ℕ)
    → count j (remove client cs) ≡ count j cs - (if j == client then 1 else 0)
unfolding remove
count-remove j client [] = ground arith
count-remove j client (c ∷ cs) = ground (arith, count-remove j client cs)

reset-OwnsAll :
    (old client : Option ℕ) (p : ThriftPoolTss)
    → p.connection ≡ old
    → OwnsAll p client
    → OwnsAll (reset old client p) none
reset-OwnsAll none client p e o = record { owned = λ j. omega (arith, o.owned j, ap (is_at j) e) }
reset-OwnsAll (some c) none p e o = record {
  owned = λ j. ground (arith, o.owned j, ap (is_at j) e);
}
reset-OwnsAll (some c) (some client) p e o = by_same (c == client) refl
  where
    by_same :
        (b : Bool)
        → (c == client) ≡ b
        → OwnsAll
            (if b then p else record p { connection = some client; deleted = c ∷ p.deleted })
            none
    by_same true h = absurd (ground (arith, o.owned c, ap (is_at c) e, h))
    by_same false h = record { owned = λ j. ground (arith, o.owned j, ap (is_at j) e) }

give-OwnsAll : (r : Option ℕ × ThriftPoolTss) → OwnsAll r.1 r.0 → OwnsAll (give r) none
give-OwnsAll (none, p) o = o
give-OwnsAll (some c, p) o = record { owned = λ j. ground (arith, o.owned j) }

index-OwnsAll :
    (random : ℕ) (p : ThriftPoolTss) → OwnsAll p none → OwnsAll (record p { index = random }) none
index-OwnsAll random p o = record { owned = o.owned }

-- A call of the thread. What is put or handed over to reset_tss is a connection that get has given
-- and that is neither put nor handed over since.
pub data Call (p : ThriftPoolTss) : ThriftPoolTss → Type 0 where
  gets :
      {q : ThriftPoolTss} {r : Option ℕ} (random : ℕ) (opens : ℕ → Bool)
      → get random opens p ≡ some (r, q)
      → Call p q
  puts : (client : ℕ) → 0 < count client p.given → Call p (put client p)
  gets_own :
      {q : ThriftPoolTss} {r : Option ℕ} (random : ℕ) (opens : ℕ → Bool) (is_open : Bool)
      → get_tss random opens is_open p ≡ some (r, q)
      → Call p q
  clears : Call p (reset_tss none p)
  resets : (client : ℕ) → 0 < count client p.given → Call p (reset_tss (some client) p)

pub data Calls (p : ThriftPoolTss) : ThriftPoolTss → Type 0 where
  none_yet : Calls p p
  next : {q r : ThriftPoolTss} → Calls p q → Call q r → Calls p r

abbrev AllOwned : Option (Option ℕ × ThriftPoolTss) → Type 0
AllOwned none = Unit
AllOwned (some (r, q)) = OwnsAll q none

get-AllOwned :
    (random : ℕ) (opens : ℕ → Bool) (p : ThriftPoolTss)
    → OwnsAll p none
    → AllOwned (get random opens p)
unfolding get get_client
get-AllOwned random opens p o = by_size (length p.pools == 0)
  where
    tried : Option ℕ × ThriftPoolTss
    tried = try_clones 3 0 opens (record p { index = random })

    by_size :
        (b : Bool)
        → AllOwned
            (elim (if b then none else some tried) as (λ x. Option (Option ℕ × ThriftPoolTss)) [
              | none ↦ none
              | some r ↦ some (r.0, give r)
            ])
    by_size true = tt
    by_size false =
        give-OwnsAll tried
          (try_clones-OwnsAll 3 0 opens (record p { index = random }) (index-OwnsAll random p o))

get_tss-AllOwned :
    (random : ℕ) (opens : ℕ → Bool) (is_open : Bool) (p : ThriftPoolTss)
    → OwnsAll p none
    → AllOwned (get_tss random opens is_open p)
unfolding get_tss get_client
get_tss-AllOwned random opens is_open p o = by_connection p.connection
  where
    tried : Option ℕ × ThriftPoolTss
    tried = try_clones 3 0 opens (record p { index = random })

    renewed : (b : Bool) → AllOwned (reset_tss_found (if b then none else some tried))
    renewed true = tt
    renewed false =
        reset-OwnsAll tried.1.connection tried.0 tried.1 refl
          (try_clones-OwnsAll 3 0 opens (record p { index = random }) (index-OwnsAll random p o))

    by_connection :
        (c : Option ℕ)
        → AllOwned (elim c as (λ x. Option (Option ℕ × ThriftPoolTss)) [
          | none ↦ reset_tss_found (if length p.pools == 0 then none else some tried)
          | some client ↦
              if is_open
              then some (some client, p)
              else reset_tss_found (if length p.pools == 0 then none else some tried)
        ])
    by_connection none = renewed (length p.pools == 0)
    by_connection (some client) = by_open is_open
      where
        by_open :
            (b : Bool)
            → AllOwned (
                if b
                then some (some client, p)
                else reset_tss_found (if length p.pools == 0 then none else some tried))
        by_open true = o
        by_open false = renewed (length p.pools == 0)

Call-OwnsAll : {p q : ThriftPoolTss} → Call p q → OwnsAll p none → OwnsAll q none
unfolding put reset_tss
Call-OwnsAll {p} (gets random opens e) o = subst AllOwned e (get-AllOwned random opens p o)
Call-OwnsAll {p} (puts client h) o = record {
  owned = λ j. ground (arith, o.owned j, count-remove j client p.given);
}
Call-OwnsAll {p} (gets_own random opens is_open e) o =
    subst AllOwned e (get_tss-AllOwned random opens is_open p o)
Call-OwnsAll {p} clears o = reset-OwnsAll p.connection none p refl o
Call-OwnsAll {p} (resets client h) o =
    reset-OwnsAll p.connection (some client) (hand_over (some client) p) refl
      (record { owned = λ j. ground (arith, o.owned j, count-remove j client p.given) })

-- In every history of a thread's calls that puts, or hands over to reset_tss, only what get has given
-- and what is neither put nor handed over since, each connection that was cloned has one owner: it
-- is the thread's own, or its caller's, or deleted, and that once.
pub Calls-OwnsAll :
    (pools : List ℕ) {p : ThriftPoolTss} → Calls (new_pool_tss pools) p → OwnsAll p none
unfolding new_pool_tss
Calls-OwnsAll pools none_yet = record { owned = λ j. ground arith }
Calls-OwnsAll pools (next calls call) = Call-OwnsAll call (Calls-OwnsAll pools calls)
