-- ===== src/Services/Examples.antt =====
-- A service of two backends, of which the endpoint 7 answers.
use async_thrift.Prelude.{
  ℕ, zero, suc, ◌+◌, ◌<◌, ◌≡◌, ◌↔◌, refl, List, [], ◌∷◌, Bool, true, false, none, some, arith, ◌==◌,
  length,
}
use async_thrift.Map.{find, insert}
use async_thrift.Services.{
  Reply, PoolOps, ServiceEndPoint, Service, Hosts, Manager, find_node, get_elem?, insert_sep,
  parse_backends, select, set_backend, get,
}
use async_thrift.Services.Address.{AllLive}
use async_thrift.Services.Select.{SomeWorks, get-SomeWorks}
use async_thrift.Services.Stale.{get-set_backend}

-- The pool counts the calls of `get`.
abbrev ops : PoolOps ℕ
ops = record {
  add = λ ep p. p;
  del = λ ep p. p;
  get = λ ep slot p. record { pool = p + 1; slot = slot; success = ep == 7 };
  put = λ socket p. p;
}

abbrev hosts : Hosts
hosts = record { localhost = 1; local_host_name = 2; resolve = λ host port. some port }

abbrev backend : ℕ → ℕ → ServiceEndPoint
backend node endpoint = record {
  node = node;
  host = 3;
  port = endpoint;
  endpoint = endpoint;
  local_host = false;
  success = 0;
  failure = 0;
}

abbrev service : Service
service = record {
  sep_set = backend 0 6 ∷ backend 1 7 ∷ [];
  local_host_index = 0;
  sep_select_vec = 1 ∷ 0 ∷ [];
  sep_select_vec_count = 3;
}

abbrev manager : Manager ℕ
manager = record { services = (4, service) ∷ []; pool = 0; nodes = 2 }

abbrev same_order : List ℕ → List ℕ
same_order nodes = nodes

live : AllLive service
unfolding find_node get_elem?
live zero h = (7, refl)
live (suc zero) h = (6, refl)
live (suc (suc j)) h = absurd (omega (arith, h))

abbrev works : ℕ → Bool
works ep = ep == 7

get-SomeWorks_example :
    (m' : Manager ℕ) × (r : Reply ℕ) × (get ops same_order 4 none manager ≡ some (m', r))
    × ((r.success ≡ true) ↔ SomeWorks works service)
unfolding select find
get-SomeWorks_example =
    get-SomeWorks ops works (λ ep slot p. refl) same_order 4 none manager refl live (omega arith)

abbrev other_backends : List (List ℕ)
other_backends = (3 ∷ 8 ∷ []) ∷ (3 ∷ 9 ∷ []) ∷ []

allocated :
    (j : ℕ)
    → j < length service.sep_select_vec
    → (node : ℕ) × (get_elem? service.sep_select_vec j ≡ some node) × (node < 2)
unfolding get_elem?
allocated zero h = (1, refl, omega arith)
allocated (suc zero) h = (0, refl, omega arith)
allocated (suc (suc j)) h = absurd (omega (arith, h))

get-set_backend_example :
    get ops same_order 4 none (set_backend ops hosts 4 other_backends manager) ≡ none
unfolding set_backend parse_backends insert_sep insert find
get-set_backend_example =
    get-set_backend ops hosts same_order 4 none other_backends manager refl (omega arith) allocated
      refl (omega arith)
