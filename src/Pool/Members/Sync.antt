-- ===== src/Pool/Members/Sync.antt =====
-- internal/pool/pool.go: the two slices of the pool, and what the checks of Add compare.
use hole_balancer.Base.{
  ℕ, ◌<◌, ◌≡◌, ◌≢◌, String, false, List, [], ◌∷◌, none, arith, All, Pairwise, flat_map, eq_iff,
}
use hole_balancer.Base.Counting.{Distinct}
use hole_balancer.Config.Types.{Endpoint as EndpointConfig, Upstream as UpstreamConfig}
use hole_balancer.Pool.Types.{Pool, paths}
use hole_balancer.Pool.Members.{conflict, conflict_with, used_addr, has_addr}
use hole_balancer.Pool.Plan.Total.{HasWeights}
use hole_balancer.Pool.Plan.Coverage.{HasDistinctPaths}
use hole_balancer.Pool.Plan.Tiers.{HasOwners}

-- Two upstreams with different names, and no address in common.
abbrev pub Apart : Pool → ℕ → ℕ → Type 0
Apart p u v =
    ((p.upstream u).name ≢ (p.upstream v).name)
    × All (λ e. All (λ f. (p.endpoint e).addr ≢ (p.endpoint f).addr) (paths p v)) (paths p u)

-- What Add and Remove keep.
pub record IsSynced (p : Pool) : Type 0 where
  pub owners : HasOwners p
  pub distinct_paths : HasDistinctPaths p
  pub weights : HasWeights p
  pub allocated : (u : ℕ) → All (λ e. e < p.next_endpoint) (paths p u)
  pub known : All (λ u. u < p.next_upstream) p.upstreams
  pub distinct : Distinct p.upstreams
  pub flat : p.endpoints ≡ flat_map (paths p) p.upstreams
  pub apart : Pairwise (Apart p) p.upstreams

-- An upstream of the pool that a new one does not clash with.
abbrev pub Clear : Pool → UpstreamConfig → ℕ → Type 0
Clear p uc u =
    ((p.upstream u).name ≢ uc.name)
    × All (λ e. All (λ (ec : EndpointConfig). (p.endpoint e).addr ≢ ec.addr) uc.endpoints)
        (paths p u)

has_addr-none :
    (addr : String) (ecs : List EndpointConfig)
    → has_addr ecs addr ≡ false
    → All (λ (ec : EndpointConfig). addr ≢ ec.addr) ecs
unfolding has_addr
has_addr-none addr [] h = tt
has_addr-none addr (ec ∷ ecs) h = (
  λ e. ground (arith, eq_iff addr ec.addr),
  has_addr-none addr ecs (ground (arith, eq_iff addr ec.addr)),
)

used_addr-none :
    (p : Pool) (es : List ℕ) (ecs : List EndpointConfig)
    → used_addr p es ecs ≡ none
    → All (λ e. All (λ (ec : EndpointConfig). (p.endpoint e).addr ≢ ec.addr) ecs) es
unfolding used_addr
used_addr-none p [] ecs h = tt
used_addr-none p (e ∷ es) ecs h =
    (has_addr-none (p.endpoint e).addr ecs (ground arith), used_addr-none p es ecs (ground arith))

conflict_with-none :
    (p : Pool) (u : ℕ) (uc : UpstreamConfig) → conflict_with p u uc ≡ none → Clear p uc u
unfolding conflict_with
conflict_with-none p u uc h = (
  λ e. ground (arith, eq_iff (p.upstream u).name uc.name),
  used_addr-none p (paths p u) uc.endpoints (ground arith),
)

pub conflict-none :
    (p : Pool) (us : List ℕ) (uc : UpstreamConfig) → conflict p us uc ≡ none → All (Clear p uc) us
unfolding conflict
conflict-none p [] uc h = tt
conflict-none p (u ∷ us) uc h =
    (conflict_with-none p u uc (ground arith), conflict-none p us uc (ground arith))
