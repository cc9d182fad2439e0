-- ===== src/Pool/Members/Start.antt =====
-- internal/pool/pool.go, New and Add: the pool that a valid configuration builds, and the health of
-- new endpoints.
use hole_balancer.Base.{
  ℕ, ◌+◌, ◌≤◌, ◌≡◌, refl, subst, String, Bool, List, [], ◌∷◌, arith, inl, inr, Option-cases, All,
  All-both, Pairwise,
}
use hole_balancer.Base.Int.{pos, pos_part}
use hole_balancer.Config.Types.{Endpoint as EndpointConfig, Upstream as UpstreamConfig}
use hole_balancer.Pool.Types.{Pool}
use hole_balancer.Pool.Members.{
  ok, new_endpoint, alloc_endpoint, alloc_endpoints, build_upstream, append_upstream,
  append_upstreams, conflict, add, new, empty,
}
use hole_balancer.Pool.Members.Sync.{IsSynced, Clear}
use hole_balancer.Pool.Members.Append.{ApartSpecs, append_upstream-IsSynced, append_upstream-Clear}
use hole_balancer.Pool.Health.Streak.{IsSettled}
use hole_balancer.Pool.Health.Keep.{IsHealthy, renewed-IsHealthy}

-- A configured list of upstreams that New can build: weights that are not negative, and no two
-- upstreams with a name or an address in common.
pub record IsUsable (ucs : List UpstreamConfig) : Type 0 where
  pub weights : All (λ (uc : UpstreamConfig). uc.weight ≡ pos (pos_part uc.weight)) ucs
  pub apart : Pairwise ApartSpecs ucs

append_upstreams-IsSynced :
    (p : Pool) (ucs : List UpstreamConfig)
    → IsSynced p
    → IsUsable ucs
    → All (λ uc. All (Clear p uc) p.upstreams) ucs
    → IsSynced (append_upstreams p ucs)
unfolding append_upstreams
append_upstreams-IsSynced p [] s u c = s
append_upstreams-IsSynced p (uc ∷ ucs) s u c =
    append_upstreams-IsSynced (append_upstream p uc) ucs
      (append_upstream-IsSynced p uc s u.weights.0 c.0)
      (record { weights = u.weights.1; apart = u.apart.1 })
      (All-both (ApartSpecs uc) (λ uc'. All (Clear p uc') p.upstreams)
        (λ uc'. All (Clear (append_upstream p uc) uc') (append_upstream p uc).upstreams) ucs
        (λ uc' a k. append_upstream-Clear p uc s uc' a k) u.apart.0 c.1)

-- A new endpoint is settled.
new_endpoint-IsSettled :
    (rise fall u : ℕ) (ec : EndpointConfig) → 1 ≤ rise → IsSettled rise fall (new_endpoint ec u)
unfolding new_endpoint
new_endpoint-IsSettled rise fall u ec r = ground arith

alloc_endpoints-IsHealthy :
    (p : Pool) (u : ℕ) (ecs : List EndpointConfig)
    → IsHealthy p
    → IsHealthy (alloc_endpoints p u ecs).1
unfolding alloc_endpoints alloc_endpoint
alloc_endpoints-IsHealthy p u [] h = h
alloc_endpoints-IsHealthy p u (ec ∷ ecs) h =
    let fresh = new_endpoint-IsSettled p.rise p.fall u ec h.rise_pos in
    let r = renewed-IsHealthy p p.next_endpoint (new_endpoint ec u) h fresh in
    alloc_endpoints-IsHealthy (alloc_endpoint p ec u) u ecs
      (record { rise_pos = r.rise_pos; fall_pos = r.fall_pos; settled = r.settled })

append_upstream-IsHealthy :
    (p : Pool) (uc : UpstreamConfig) → IsHealthy p → IsHealthy (append_upstream p uc)
unfolding append_upstream build_upstream
append_upstream-IsHealthy p uc h =
    let n = p.next_upstream in
    let r =
      alloc_endpoints-IsHealthy (record p { next_upstream = n + 1 }) n uc.endpoints
        (record { rise_pos = h.rise_pos; fall_pos = h.fall_pos; settled = h.settled }) in
    record { rise_pos = r.rise_pos; fall_pos = r.fall_pos; settled = r.settled }

append_upstreams-IsHealthy :
    (p : Pool) (ucs : List UpstreamConfig) → IsHealthy p → IsHealthy (append_upstreams p ucs)
unfolding append_upstreams
append_upstreams-IsHealthy p [] h = h
append_upstreams-IsHealthy p (uc ∷ ucs) h =
    append_upstreams-IsHealthy (append_upstream p uc) ucs (append_upstream-IsHealthy p uc h)

-- Add brings in endpoints that are settled.
pub add-IsHealthy :
    (p q : Pool) (uc : UpstreamConfig) (u : ℕ) → IsHealthy p → add p uc ≡ ok (u, q) → IsHealthy q
unfolding add
add-IsHealthy p q uc u h e = elim (Option-cases (conflict p p.upstreams uc)) [
  | inl clear ↦
      let same : append_upstream p uc ≡ q = ground arith in
      subst IsHealthy same (append_upstream-IsHealthy p uc h)
  | inr (x, clash) ↦ absurd (ground arith)
]

empty-IsSynced :
    (strategy : String) (rise fall : ℕ) (passive : Bool)
    → IsSynced (empty strategy rise fall passive)
unfolding empty
empty-IsSynced strategy rise fall passive = record {
  owners = λ u. tt;
  distinct_paths = λ u. tt;
  weights = λ u. refl;
  allocated = λ u. tt;
  known = tt;
  distinct = tt;
  flat = refl;
  apart = tt;
}

empty-IsHealthy :
    (strategy : String) (rise fall : ℕ) (passive : Bool)
    → 1 ≤ rise
    → 1 ≤ fall
    → IsHealthy (empty strategy rise fall passive)
unfolding empty
empty-IsHealthy strategy rise fall passive r f = record {
  rise_pos = r;
  fall_pos = f;
  settled = λ e. new_endpoint-IsSettled rise fall 0 (record { name = ""; addr = "" }) r;
}

-- The pool that New builds from usable upstreams and thresholds of at least one is in step and
-- settled.
pub new-keeps :
    (strategy : String) (rise fall : ℕ) (passive : Bool) (ucs : List UpstreamConfig)
    → 1 ≤ rise
    → 1 ≤ fall
    → IsUsable ucs
    → let p = new strategy rise fall passive ucs in IsSynced p × IsHealthy p
unfolding new
new-keeps strategy rise fall passive ucs r f u = (
  append_upstreams-IsSynced _ ucs (empty-IsSynced strategy rise fall passive) u (clear ucs),
  append_upstreams-IsHealthy _ ucs (empty-IsHealthy strategy rise fall passive r f),
)
  where
    clear :
        (l : List UpstreamConfig)
        → All
            (λ uc.
              All
                (Clear (empty strategy rise fall passive) uc)
                (empty strategy rise fall passive).upstreams)
            l
    clear [] = tt
    clear (uc ∷ l) = ((unfold empty in tt), clear l)
