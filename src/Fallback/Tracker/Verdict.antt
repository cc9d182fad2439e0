-- ===== src/Fallback/Tracker/Verdict.antt =====
-- What Observe leaves as the verdict.
use hole_balancer.Base.{ℕ, Bool, true, false, ◌≡◌, arith}
use hole_balancer.Fallback.Tracker.{Tracker, observe, add_outage_locked}

pub observe-verdict : (now : ℕ) (d : Bool) (t : Tracker) → (observe now d t).in_outage ≡ d
unfolding observe add_outage_locked
observe-verdict now true t = ground arith
observe-verdict now false t = ground arith
