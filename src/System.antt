-- ===== src/System.antt =====
-- cmd/hole-balancer/main.go: the parts of the running process that run wires together, and the
-- callback of the pool that it installs. The sweep callback of the health checker is sweep_done. A
-- callback is taken whole, with the call that makes it: the source holds no lock from the store of `up`
-- over HealthyUpstreams to Observe, so callbacks that overlap are not covered.
pub mod Watch
pub mod Reports
pub mod Demo
mod Examples
use hole_balancer.Base.{
  ℕ, String, Bool, true, false, List, [], ◌∷◌, Option, none, some, ◌==◌, if◌then◌else◌,
}
use hole_balancer.Pool.Types.{Pool}
use hole_balancer.Pool.Members.{healthy_upstreams}
use hole_balancer.Pool.Health.{Change, report_query, report_probe, set_initial}
use hole_balancer.Fallback.Resolver.{Resolver}
use hole_balancer.Fallback.Tracker.{Tracker, observe}
use hole_balancer.Stats.{Collector}
use hole_balancer.Metrics.{Label, Metrics, inc}

pub record System : Type 0 where
  pub pool : Pool
  pub resolver : Resolver
  pub tracker : Tracker
  pub stats : Collector
  pub metrics : Metrics

abbrev pub label : String → String → Label
label name value = record { name = name; value = value }

-- The upstream that an endpoint points back to, by name.
abbrev pub owner_name : Pool → ℕ → String
owner_name p e = (p.upstream (p.endpoint e).upstream).name

-- Whether no upstream answers.
abbrev pub all_down : Pool → Bool
all_down p = healthy_upstreams p == 0

-- OnSweep, and the last line of the state change callback.
pub sweep_done : ℕ → System → System
sweep_done now s = record s { tracker = observe now (all_down s.pool) s.tracker }

-- The state change callback.
pub on_change : ℕ → Change → System → System
unfolding sweep_done
on_change now c s =
    let flips =
      inc
        (label "upstream" (owner_name s.pool c.endpoint)
          ∷ label "endpoint" (s.pool.endpoint c.endpoint).name
          ∷ label "state" (if c.up then "up" else "down")
          ∷ [])
        s.metrics.state_flips in
    sweep_done now (record s { metrics = record (s.metrics) { state_flips = flips } })

-- What a report leaves: the pool's own change, and the callback where it is called for.
pub after_report : ℕ → System → Pool × Option Change → System
after_report now s (p, none) = record s { pool = p }
after_report now s (p, some c) = on_change now c (record s { pool = p })

module _ (mix : ℕ → ℕ → ℕ) (now : ℕ) (e : ℕ) (ok : Bool) (latency : ℕ) (error : Option String) where
  pub query_reported : System → System
  query_reported s = after_report now s (report_query mix s.pool e ok latency error now)

  pub probe_reported : System → System
  probe_reported s = after_report now s (report_probe mix s.pool e ok latency error now)

  pub initial_reported : System → System
  initial_reported s = after_report now s (set_initial s.pool e ok latency error now)
