-- ===== src/Tss.antt =====
-- sync/thrift_pool_tss.h: ThriftPoolTss, seen by one thread. A connection is numbered when it is
-- cloned, in place of its address; `opens` says of each whether its constructor opens it, `random`
-- is what get_random_number draws, and `given` lists those that get has returned and that are not yet
-- put. A division by zero is `none`.
pub mod Clones
mod Examples
use async_thrift.Prelude.{
  ℕ, zero, suc, ◌+◌, ◌%◌, List, [], ◌∷◌, Bool, true, false, Option, none, some, ◌==◌, if◌then◌else◌,
  length,
}
use async_thrift.Asio.{u64}

pub record ThriftPoolTss : Type 0 where
  pub pools : List ℕ
  pub index : ℕ
  pub connection : Option ℕ
  pub given : List ℕ
  pub deleted : List ℕ
  pub next : ℕ
  pub tried : List ℕ

pub new_pool_tss : List ℕ → ThriftPoolTss
new_pool_tss pools = record {
  pools = pools;
  index = 0;
  connection = none;
  given = [];
  deleted = [];
  next = 0;
  tried = [];
}

abbrev pub get_or {ℓ} : {A : Type ℓ} → List A → ℕ → A → A
get_or [] i d = d
get_or (x ∷ xs) zero d = x
get_or (x ∷ xs) (suc i) d = get_or xs i d

-- `tried` lists the servers cloned, the last first.
abbrev pub clone : ℕ → ThriftPoolTss → ThriftPoolTss
clone server p = record p { next = p.next + 1; tried = server ∷ p.tried }

-- The loop of get, with the rounds left.
unfoldable pub try_clones : ℕ → ℕ → (ℕ → Bool) → ThriftPoolTss → Option ℕ × ThriftPoolTss
try_clones zero i opens p = (none, p)
try_clones (suc n) i opens p =
    let q = clone (get_or p.pools (u64 (p.index + i) % length p.pools) 0) p in
    let rest = try_clones n (suc i) opens (record q { deleted = p.next ∷ q.deleted }) in
    if opens p.next then (some p.next, q) else rest

unfoldable pub get_client : ℕ → (ℕ → Bool) → ThriftPoolTss → Option (Option ℕ × ThriftPoolTss)
unfolding try_clones
get_client random opens p =
    if length p.pools == 0 then none else some (try_clones 3 0 opens (record p { index = random }))

abbrev pub give : Option ℕ × ThriftPoolTss → ThriftPoolTss
give (none, p) = p
give (some client, p) = record p { given = client ∷ p.given }

-- get, whose caller owns what it returns.
unfoldable pub get : ℕ → (ℕ → Bool) → ThriftPoolTss → Option (Option ℕ × ThriftPoolTss)
unfolding get_client
get random opens p = elim (get_client random opens p) [ none ↦ none | some r ↦ some (r.0, give r) ]

unfoldable pub remove : ℕ → List ℕ → List ℕ
remove client [] = []
remove client (c ∷ cs) = let rest = remove client cs in if client == c then cs else c ∷ rest

-- put, by the owner.
unfoldable pub put : ℕ → ThriftPoolTss → ThriftPoolTss
unfolding remove
put client p = record p { given = remove client p.given; deleted = client ∷ p.deleted }

abbrev pub is_same : ℕ → Option ℕ → Bool
is_same old none = false
is_same old (some client) = old == client

-- connection_.reset(client), which deletes what was there, if it is not `client` itself.
abbrev pub reset : Option ℕ → Option ℕ → ThriftPoolTss → ThriftPoolTss
reset none client p = record p { connection = client }
reset (some old) client p =
    if is_same old client then p else record p { connection = client; deleted = old ∷ p.deleted }

abbrev pub reset_tss_found : Option (Option ℕ × ThriftPoolTss) → Option (Option ℕ × ThriftPoolTss)
reset_tss_found none = none
reset_tss_found (some (client, p)) = some (client, reset p.connection client p)

-- `is_open`: what the thread's own connection answers, if there is one.
unfoldable pub get_tss : ℕ → (ℕ → Bool) → Bool → ThriftPoolTss → Option (Option ℕ × ThriftPoolTss)
unfolding get_client
get_tss random opens is_open p = elim p.connection [
  | none ↦ reset_tss_found (get_client random opens p)
  | some client ↦
      if is_open then some (some client, p) else reset_tss_found (get_client random opens p)
]

-- The caller no longer has what it hands over.
abbrev pub hand_over : Option ℕ → ThriftPoolTss → ThriftPoolTss
unfolding remove
hand_over none p = p
hand_over (some client) p = record p { given = remove client p.given }

-- reset_tss, whose argument is 0 by default.
unfoldable pub reset_tss : Option ℕ → ThriftPoolTss → ThriftPoolTss
unfolding remove
reset_tss client p = reset p.connection client (hand_over client p)
