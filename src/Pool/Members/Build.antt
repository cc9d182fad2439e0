-- ===== src/Pool/Members/Build.antt =====
-- internal/pool/pool.go, buildUpstream: what it allocates, and what it leaves alone.
use hole_balancer.Base.{
  ℕ, ◌+◌, ◌≤◌, ◌<◌, ◌≡◌, ◌≢◌, refl, ap, ◌∙◌, false, List, [], ◌∷◌, arith, map, All, All-mono,
}
use hole_balancer.Base.Counting.{count, Distinct}
use mathlib.Core.Path.{ap₂}
use hole_balancer.Config.Types.{Endpoint as EndpointConfig}
use hole_balancer.Pool.Types.{Endpoint, Pool, update}
use hole_balancer.Pool.Members.{new_endpoint, alloc_endpoint, alloc_endpoints}

pub update_self {ℓ} : {A : Type ℓ} (f : ℕ → A) (k : ℕ) (v : A) → update f k v k ≡ v
update_self f k v = ground arith

pub update_other {ℓ} : {A : Type ℓ} (f : ℕ → A) (k j : ℕ) (v : A) → j ≢ k → update f k v j ≡ f j
update_other f k j v h = ground arith

count_below : (a m : ℕ) (es : List ℕ) → All (λ e. m ≤ e) es → a < m → count a es ≡ 0
count_below a m [] h l = refl
count_below a m (e ∷ es) h l = ground (arith, count_below a m es h.1 l)

pub count_above : (a m : ℕ) (es : List ℕ) → All (λ e. e < m) es → m ≤ a → count a es ≡ 0
count_above a m [] h l = refl
count_above a m (e ∷ es) h l = ground (arith, count_above a m es h.1 l)

-- What a call of the loop over the configured endpoints makes of the heap.
pub record Allocates (p : Pool) (u : ℕ) (ecs : List EndpointConfig) (ids : List ℕ) (q : Pool)
    : Type 0 where
  pub grown : p.next_endpoint ≤ q.next_endpoint
  pub frame : (e : ℕ) → e < p.next_endpoint → q.endpoint e ≡ p.endpoint e
  pub above : All (λ e. p.next_endpoint ≤ e) ids
  pub below : All (λ e. e < q.next_endpoint) ids
  pub distinct : Distinct ids
  pub owned : All (λ e. (q.endpoint e).upstream ≡ u) ids
  pub addrs : map (λ e. (q.endpoint e).addr) ids ≡ map (λ ec. ec.addr) ecs
  pub starts_down : All (λ e. (q.endpoint e).up ≡ false) ids
  pub same_heap : q.upstream ≡ p.upstream
  pub same_next : q.next_upstream ≡ p.next_upstream
  pub same_upstreams : q.upstreams ≡ p.upstreams
  pub same_endpoints : q.endpoints ≡ p.endpoints

pub alloc_endpoints-Allocates :
    (p : Pool) (u : ℕ) (ecs : List EndpointConfig)
    → Allocates p u ecs (alloc_endpoints p u ecs).0 (alloc_endpoints p u ecs).1
unfolding alloc_endpoints alloc_endpoint
alloc_endpoints-Allocates p u [] = record {
  grown = omega arith;
  frame = λ e h. refl;
  above = tt;
  below = tt;
  distinct = tt;
  owned = tt;
  addrs = refl;
  starts_down = tt;
  same_heap = refl;
  same_next = refl;
  same_upstreams = refl;
  same_endpoints = refl;
}
alloc_endpoints-Allocates p u (ec ∷ ecs) =
    let n = p.next_endpoint in
    let p1 = alloc_endpoint p ec u in
    let r = alloc_endpoints-Allocates p1 u ecs in
    let here : (alloc_endpoints p1 u ecs).1.endpoint n ≡ new_endpoint ec u =
      r.frame n (omega arith) ∙ update_self p.endpoint n (new_endpoint ec u) in
    record {
      grown = omega (arith, r.grown);
      frame = λ e h.
          r.frame e (omega arith) ∙ update_other p.endpoint n e (new_endpoint ec u) (omega arith);
      above = (omega arith, All-mono (λ e. n + 1 ≤ e) (λ e. n ≤ e) _ (λ a h. omega arith) r.above);
      below = (omega (arith, r.grown), r.below);
      distinct = (count_below n (n + 1) _ r.above (omega arith), r.distinct);
      owned = (ap (λ (e : Endpoint). e.upstream) here ∙ (unfold new_endpoint in refl), r.owned);
      addrs = ap₂ ◌∷◌ (ap (λ (e : Endpoint). e.addr) here ∙ (unfold new_endpoint in refl)) r.addrs;
      starts_down =
          (ap (λ (e : Endpoint). e.up) here ∙ (unfold new_endpoint in refl), r.starts_down);
      same_heap = r.same_heap;
      same_next = r.same_next;
      same_upstreams = r.same_upstreams;
      same_endpoints = r.same_endpoints;
    }
