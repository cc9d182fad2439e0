-- ===== src/System/Reports.antt =====
-- What a report changes of the system.
use hole_balancer.Base.{ℕ, String, Bool, Option, none, some, ◌≡◌, refl, ◌∙◌, ap}
use hole_balancer.Pool.Types.{Pool}
use hole_balancer.Pool.Health.{Change, report_query, report_probe, set_initial}
use hole_balancer.Pool.Health.Silent.{report_query-Rewrites}
use hole_balancer.System.{
  System, sweep_done, on_change, after_report, query_reported, probe_reported, initial_reported,
}

module _ (now : ℕ) (s : System) where
  after_report-pool : (r : Pool × Option Change) → (after_report now s r).pool ≡ r.0
  unfolding after_report on_change sweep_done
  after_report-pool (q, none) = refl
  after_report-pool (q, some c) = refl

  after_report-rest :
      (r : Pool × Option Change)
      → ((after_report now s r).resolver ≡ s.resolver) × ((after_report now s r).stats ≡ s.stats)
  unfolding after_report on_change sweep_done
  after_report-rest (q, none) = (refl, refl)
  after_report-rest (q, some c) = (refl, refl)

module _ (mix : ℕ → ℕ → ℕ) (now e : ℕ) (ok : Bool) (latency : ℕ) (error : Option String)
    (s : System) where
  pub query_reported-addr :
      (j : ℕ)
      → ((query_reported mix now e ok latency error s).pool.endpoint j).addr
        ≡ (s.pool.endpoint j).addr
  unfolding query_reported
  query_reported-addr j =
      let r = report_query mix s.pool e ok latency error now in
      ap (λ (p : Pool). (p.endpoint j).addr) (after_report-pool now s r)
      ∙ (report_query-Rewrites mix s.pool e ok latency now error).addr j

  pub query_reported-pool :
      (query_reported mix now e ok latency error s).pool
      ≡ (report_query mix s.pool e ok latency error now).0
  unfolding query_reported
  query_reported-pool = after_report-pool now s (report_query mix s.pool e ok latency error now)

  pub query_reported-rest :
      ((query_reported mix now e ok latency error s).resolver ≡ s.resolver)
      × ((query_reported mix now e ok latency error s).stats ≡ s.stats)
  unfolding query_reported
  query_reported-rest = after_report-rest now s (report_query mix s.pool e ok latency error now)

  pub probe_reported-pool :
      (probe_reported mix now e ok latency error s).pool
      ≡ (report_probe mix s.pool e ok latency error now).0
  unfolding probe_reported
  probe_reported-pool = after_report-pool now s (report_probe mix s.pool e ok latency error now)

  pub initial_reported-pool :
      (initial_reported mix now e ok latency error s).pool
      ≡ (set_initial s.pool e ok latency error now).0
  unfolding initial_reported
  initial_reported-pool = after_report-pool now s (set_initial s.pool e ok latency error now)

pub sweep_done-pool : (now : ℕ) (s : System) → (sweep_done now s).pool ≡ s.pool
unfolding sweep_done
sweep_done-pool now s = refl
