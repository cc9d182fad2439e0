-- ===== src/Pool/Members/Fresh.antt =====
-- A pool of two upstreams as it is built, for the tests.
use hole_balancer.Base.{
  length, ◌^◌, ◌<◌, ◌≡◌, ◌≢◌, refl, sym, ◌∙◌, true, false, String, str_eq, eq_iff, [], ◌∷◌, arith,
}
use hole_balancer.Pool.Types.{Pool}
use hole_balancer.Pool.Demo.{east_config, west_config}
use hole_balancer.Pool.Members.{
  new, empty, append_upstreams, append_upstream, build_upstream, alloc_endpoints, alloc_endpoint,
  new_endpoint, healthy_upstreams,
}
use hole_balancer.Pool.Health.Keep.{IsHealthy}
use hole_balancer.Pool.Members.Sync.{IsSynced}
use hole_balancer.Pool.Members.Start.{new-keeps}

abbrev pub fresh : Pool
fresh = new "random" 2 2 true (east_config ∷ west_config ∷ [])

differ : (s t : String) → str_eq s t ≡ false → s ≢ t
differ s t h e = let same = (eq_iff s t).1 e in let clash : true ≡ false = sym same ∙ h in cc

fresh-keeps : IsSynced fresh × IsHealthy fresh
fresh-keeps =
    new-keeps "random" 2 2 true (east_config ∷ west_config ∷ []) (omega arith) (omega arith)
      (record {
        weights = (refl, (refl, tt));
        apart = (((differ _ _ refl, ((differ _ _ refl, tt), tt)), tt), (tt, tt));
      })

pub fresh-IsSynced : IsSynced fresh
fresh-IsSynced = fresh-keeps.0

pub fresh-IsHealthy : IsHealthy fresh
fresh-IsHealthy = fresh-keeps.1

pub fresh-counter : fresh.rr ≡ 0
unfolding new empty append_upstreams append_upstream build_upstream alloc_endpoints alloc_endpoint
    new_endpoint
fresh-counter = refl

-- No upstream of a new pool answers.
pub fresh-down : healthy_upstreams fresh ≡ 0
unfolding new empty append_upstreams append_upstream build_upstream alloc_endpoints alloc_endpoint
    new_endpoint healthy_upstreams hole_balancer.Pool.Types.healthy
fresh-down = refl

pub fresh-rr : fresh.rr < 2 ^ 63
fresh-rr = omega (arith, fresh-counter)

pub fresh-some : 0 < length fresh.upstreams
unfolding new empty append_upstreams append_upstream build_upstream alloc_endpoints alloc_endpoint
    new_endpoint
fresh-some = omega arith
