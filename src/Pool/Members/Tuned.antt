-- ===== src/Pool/Members/Tuned.antt =====
-- internal/pool/pool.go, Add and Remove: the strategy after them.
use hole_balancer.Base.{
  ℕ, ◌+◌, String, List, [], ◌∷◌, ◌==◌, length, get_elem?, ◌≡◌, refl, ◌∙◌, sym, ap, Bool-cases,
  Option-cases, inl, inr,
}
use hole_balancer.Config.Types.{Endpoint as EndpointConfig, Upstream as UpstreamConfig}
use hole_balancer.Pool.Types.{Pool}
use hole_balancer.Pool.Members.{
  ok, alloc_endpoint, alloc_endpoints, build_upstream, append_upstream, conflict, add, index_of,
  remove_at, remove,
}

alloc_endpoints-strategy :
    (p : Pool) (u : ℕ) (ecs : List EndpointConfig)
    → (alloc_endpoints p u ecs).1.strategy ≡ p.strategy
unfolding alloc_endpoints alloc_endpoint
alloc_endpoints-strategy p u [] = refl
alloc_endpoints-strategy p u (ec ∷ ecs) = alloc_endpoints-strategy (alloc_endpoint p ec u) u ecs

pub add-strategy :
    (p q : Pool) (uc : UpstreamConfig) (u : ℕ) → add p uc ≡ ok (u, q) → q.strategy ≡ p.strategy
unfolding add append_upstream build_upstream
add-strategy p q uc u h = elim (Option-cases (conflict p p.upstreams uc)) [
  | inr (e, c) ↦ let f = rw (c, add) at h in cc
  | inl c ↦
      let f = rw (c, add) at h in
      let same : append_upstream p uc ≡ q = cc in
      ap (λ (x : Pool). x.strategy) (sym same)
      ∙ alloc_endpoints-strategy (record p { next_upstream = p.next_upstream + 1 }) p.next_upstream
          uc.endpoints
]

pub remove-strategy : (p q : Pool) (name : String) → remove p name ≡ ok q → q.strategy ≡ p.strategy
unfolding remove remove_at
remove-strategy p q name h = elim (Option-cases (index_of p name p.upstreams)) [
  | inl e ↦ let f = rw (e, remove) at h in cc
  | inr (i, e) ↦ elim (Bool-cases (length p.upstreams == 1)) [
    | inl b ↦ let f = rw (e, remove) at h in let g = rw b at f in cc
    | inr b ↦ elim (Option-cases (get_elem? p.upstreams i)) [
      | inl x ↦ let f = rw (e, remove) at h in let g = rw b at f in let k = rw x at g in cc
      | inr (u, x) ↦
          let f = rw (e, remove) at h in
          let g = rw b at f in
          let k = rw x at g in
          let same : remove_at p i u ≡ q = cc in ap (λ (x : Pool). x.strategy) (sym same)
    ]
  ]
]
