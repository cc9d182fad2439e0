-- ===== src/Pool/Status.antt =====
-- internal/pool/pool.go: Status, the view of the pool that the management interface shows. A latency
-- is in nanoseconds and a time is not formatted.
pub mod Shown
use hole_balancer.Base.{
  ℕ, suc, ◌+◌, ◌≤◌, ◌≡◌, refl, sym, ap, ◌∙◌, String, Bool, true, false, not, ◌&&◌, List, [], ◌∷◌,
  map, Option, none, some, ◌==◌, if◌then◌else◌, length, All, keep, arith, Bool-cases, Option-cases,
  inl, inr, ==_iff, subst,
}
use hole_balancer.Base.Int.{ℤ}
use hole_balancer.Base.Counting.{count, Distinct}
use hole_balancer.Pool.Types.{Pool, paths, is_up, any_up, first_up, healthy, active, drained}
use hole_balancer.Pool.Members.{healthy_upstreams}

pub record EndpointStatus : Type 0 where
  pub name : String
  pub addr : String
  pub healthy : Bool
  pub latency : ℕ
  pub queries : ℕ
  pub failures : ℕ
  pub last_change : Option ℕ
  pub last_error : String
  pub consec_fails : ℕ
  pub consec_oks : ℕ
  pub is_preferred : Bool
  pub upstream_name : String

pub record UpstreamStatus : Type 0 where
  pub name : String
  pub weight : ℤ
  pub healthy : Bool
  pub drained : Bool
  pub endpoints : List EndpointStatus

-- `e == active`, where a nil pointer is no endpoint.
abbrev pub is_active : Option ℕ → ℕ → Bool
is_active none e = false
is_active (some a) e = e == a

abbrev pub endpoint_status : Pool → ℕ → ℕ → EndpointStatus
endpoint_status p u i =
    let e = p.endpoint i in
    record {
      name = e.name;
      addr = e.addr;
      healthy = e.up;
      latency = e.latency_ewma;
      queries = e.total_queries;
      failures = e.total_fails;
      last_change = e.last_change;
      last_error = e.last_err;
      consec_fails = e.failures;
      consec_oks = e.successes;
      is_preferred = is_active (active p u) i;
      upstream_name = (p.upstream u).name;
    }

abbrev pub upstream_status : Pool → ℕ → UpstreamStatus
upstream_status p u = record {
  name = (p.upstream u).name;
  weight = (p.upstream u).weight;
  healthy = healthy p u;
  drained = drained p u;
  endpoints = map (endpoint_status p u) (paths p u);
}

-- Status.
unfoldable pub status : Pool → List UpstreamStatus
status p = map (upstream_status p) p.upstreams
