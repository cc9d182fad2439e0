-- ===== src/Pool/Health/Local.antt =====
-- internal/pool/pool.go, ReportProbe and SetInitial: the endpoint that they write.
use hole_balancer.Base.{
  ℕ, String, Bool, true, false, Option, none, some, ◌≡◌, refl, ◌==◌, if◌then◌else◌,
}
use hole_balancer.Pool.Types.{Pool, Endpoint}
use hole_balancer.Pool.Health.{record_outcome, report_probe, set_initial, sample, judge, initial}

-- The pool after one endpoint `e` was written.
pub record Writes (p q : Pool) (e : ℕ) (x : Endpoint) : Type 0 where
  pub endpoint : (j : ℕ) → q.endpoint j ≡ (if j == e then x else p.endpoint j)
  pub rise : q.rise ≡ p.rise
  pub fall : q.fall ≡ p.fall

-- A verdict on an endpoint, with the thresholds.
abbrev pub probed : (ℕ → ℕ → ℕ) → ℕ → ℕ → Bool → ℕ → Option String → ℕ → Endpoint → Endpoint
probed mix rise fall ok latency error now x =
    (judge rise fall ok error now (sample mix ok latency x)).0

module _ (p : Pool) (e : ℕ) (ok : Bool) (latency now : ℕ) (error : Option String) where
  pub report_probe-Writes :
      (mix : ℕ → ℕ → ℕ)
      → Writes p
          (report_probe mix p e ok latency error now).0
          e
          (probed mix p.rise p.fall ok latency error now (p.endpoint e))
  unfolding report_probe record_outcome
  report_probe-Writes mix = record { endpoint = λ j. refl; rise = refl; fall = refl }

  pub set_initial-Writes :
      Writes p
        (set_initial p e ok latency error now).0
        e
        (initial p.rise p.fall ok latency error now (p.endpoint e))
  unfolding set_initial
  set_initial-Writes = record { endpoint = λ j. refl; rise = refl; fall = refl }

pub initial-up :
    (rise fall : ℕ) (ok : Bool) (latency : ℕ) (error : Option String) (now : ℕ) (x : Endpoint)
    → (initial rise fall ok latency error now x).up ≡ ok
unfolding initial
initial-up rise fall true latency error now x = refl
initial-up rise fall false latency none now x = refl
initial-up rise fall false latency (some text) now x = refl
