-- ===== src/Pool/Members.antt =====
-- internal/pool/pool.go: building a pool, Add, Remove, Lookup and SetStrategy.
pub mod Build
pub mod Append
pub mod Change
pub mod Start
pub mod Fresh
pub mod Undo
pub mod Tuned
mod Examples
pub mod Sync
use hole_balancer.Base.{
  ℕ, ◌+◌, String, Bool, true, false, not, List, [], ◌∷◌, ◌++◌, Option, none, some, ◌==◌, str_eq,
  ◌≡◌, refl, inl, inr, Bool-cases, arith, ◌&&◌, if◌then◌else◌, length, get_elem?, take, drop, keep,
}
use hole_balancer.Config.Types.{
  Endpoint as EndpointConfig, Upstream as UpstreamConfig, valid_strategy,
}
use hole_balancer.Base.Int.{pos}
use hole_balancer.Pool.Types.{Endpoint, Upstream, Pool, update, paths, drained, healthy}

pub data Error : Type 0 where
  duplicate_name : String → Error
  address_used : String → String → Error
  not_found : String → Error
  last_upstream : Error
  unknown_strategy : String → Error

pub data Result {ℓ} (A : Type ℓ) : Type ℓ where
  ok : A → Result A
  err : Error → Result A

-- Every endpoint starts down.
pub new_endpoint : EndpointConfig → ℕ → Endpoint
new_endpoint ec u = record {
  name = ec.name;
  addr = ec.addr;
  upstream = u;
  up = false;
  successes = 0;
  failures = 0;
  latency_ewma = 0;
  last_change = none;
  last_err = "";
  total_queries = 0;
  total_fails = 0;
}

pub alloc_endpoint : Pool → EndpointConfig → ℕ → Pool
alloc_endpoint p ec u = record p {
  endpoint = update p.endpoint p.next_endpoint (new_endpoint ec u);
  next_endpoint = p.next_endpoint + 1;
}

-- The loop of buildUpstream: the new pointers, in configuration order.
pub alloc_endpoints : Pool → ℕ → List EndpointConfig → List ℕ × Pool
alloc_endpoints p u [] = ([], p)
alloc_endpoints p u (ec ∷ ecs) =
    let rest = alloc_endpoints (alloc_endpoint p ec u) u ecs in (p.next_endpoint ∷ rest.0, rest.1)

pub build_upstream : Pool → UpstreamConfig → ℕ × Pool
build_upstream p uc =
    let u = p.next_upstream in
    let built = alloc_endpoints (record p { next_upstream = u + 1 }) u uc.endpoints in
    (
      u,
      record (built.1) {
        upstream =
            update built.1.upstream u
              (record { name = uc.name; weight = uc.weight; endpoints = built.0; drained = false });
      },
    )

-- The two appends after buildUpstream, in New and in Add.
pub append_upstream : Pool → UpstreamConfig → Pool
append_upstream p uc =
    let built = build_upstream p uc in
    record (built.1) {
      upstreams = built.1.upstreams ++ built.0 ∷ [];
      endpoints = built.1.endpoints ++ paths built.1 built.0;
    }

pub append_upstreams : Pool → List UpstreamConfig → Pool
append_upstreams p [] = p
append_upstreams p (uc ∷ ucs) = append_upstreams (append_upstream p uc) ucs

-- The pool before New adds to it: the thresholds, the strategy, and an empty heap.
pub empty : String → ℕ → ℕ → Bool → Pool
empty strategy rise fall passive = record {
  upstream = λ _. record { name = ""; weight = pos 0; endpoints = []; drained = false };
  endpoint = λ _. new_endpoint (record { name = ""; addr = "" }) 0;
  next_upstream = 0;
  next_endpoint = 0;
  upstreams = [];
  endpoints = [];
  strategy = strategy;
  rise = rise;
  fall = fall;
  passive = passive;
  rr = 0;
}

pub new : String → ℕ → ℕ → Bool → List UpstreamConfig → Pool
new strategy rise fall passive ucs = append_upstreams (empty strategy rise fall passive) ucs

pub has_addr : List EndpointConfig → String → Bool
has_addr [] addr = false
has_addr (ec ∷ ecs) addr = if str_eq addr ec.addr then true else has_addr ecs addr

-- The two inner loops of Add: an address of an upstream in the pool that the new one lists too.
pub used_addr : Pool → List ℕ → List EndpointConfig → Option String
used_addr p [] ecs = none
used_addr p (e ∷ es) ecs =
    let addr = (p.endpoint e).addr in if has_addr ecs addr then some addr else used_addr p es ecs

pub conflict_with : Pool → ℕ → UpstreamConfig → Option Error
conflict_with p u uc =
    if str_eq (p.upstream u).name uc.name
    then some (duplicate_name uc.name)
    else elim (used_addr p (paths p u) uc.endpoints) [
      | none ↦ none
      | some addr ↦ some (address_used addr (p.upstream u).name)
    ]

-- The loop of Add over the upstreams in the pool: the first conflict.
pub conflict : Pool → List ℕ → UpstreamConfig → Option Error
conflict p [] uc = none
conflict p (u ∷ us) uc =
    let rest = conflict p us uc in elim (conflict_with p u uc) [ some e ↦ some e | none ↦ rest ]

-- Add: the new upstream's pointer and the pool with it, or the first conflict.
pub add : Pool → UpstreamConfig → Result (ℕ × Pool)
add p uc = elim (conflict p p.upstreams uc) [
  | some e ↦ err e
  | none ↦ ok (p.next_upstream, append_upstream p uc)
]

pub index_of : Pool → String → List ℕ → Option ℕ
index_of p name [] = none
index_of p name (u ∷ us) =
    let rest = index_of p name us in
    if str_eq (p.upstream u).name name
    then some 0
    else elim rest [ none ↦ none | some i ↦ some (i + 1) ]

-- What Remove does once the upstream `removed` is found at `i`.
pub remove_at : Pool → ℕ → ℕ → Pool
remove_at p i removed = record p {
  upstreams = take i p.upstreams ++ drop (i + 1) p.upstreams;
  endpoints = keep (λ e. not ((p.endpoint e).upstream == removed)) p.endpoints;
}

-- Remove. The two guards, in the order of the source; an index that was found is in range.
pub remove : Pool → String → Result Pool
remove p name = elim (index_of p name p.upstreams) [
  | none ↦ err (not_found name)
  | some i ↦ if length p.upstreams == 1 then err last_upstream else elim (get_elem? p.upstreams i) [
    | none ↦ err (not_found name)
    | some removed ↦ ok (remove_at p i removed)
  ]
]

pub set_strategy : Pool → String → Result Pool
set_strategy p name =
    if valid_strategy name then ok (record p { strategy = name }) else err (unknown_strategy name)

pub find_name : Pool → String → List ℕ → Option ℕ
find_name p name [] = none
find_name p name (u ∷ us) =
    let rest = find_name p name us in if str_eq (p.upstream u).name name then some u else rest

pub lookup : Pool → String → Option ℕ
lookup p name = find_name p name p.upstreams

-- HealthyUpstreams: those that answer and are not drained.
unfoldable pub healthy_upstreams : Pool → ℕ
healthy_upstreams p = length (keep (λ u. healthy p u && not (drained p u)) p.upstreams)

-- SetStrategy writes the strategy and nothing else.
pub set_strategy-same :
    (p q : Pool) (name : String)
    → set_strategy p name ≡ ok q
    → q ≡ record p { strategy = q.strategy; rr = p.rr }
unfolding set_strategy
set_strategy-same p q name h = ground arith

-- SetStrategy takes the valid strategies, and no others.
pub set_strategy-valid :
    (p : Pool) (name : String)
    → valid_strategy name ≡ true
    → set_strategy p name ≡ ok (record p { strategy = name })
unfolding set_strategy
set_strategy-valid p name v = rw v refl

pub set_strategy-ok :
    (p q : Pool) (name : String)
    → set_strategy p name ≡ ok q
    → (q.strategy ≡ name) × (valid_strategy name ≡ true)
unfolding set_strategy
set_strategy-ok p q name h = elim (Bool-cases (valid_strategy name)) [
  | inl v ↦ let e : ok (record p { strategy = name }) ≡ ok q = rw v at h in (cc, v)
  | inr v ↦ let e = rw v at h in cc
]
