-- ===== src/Pool/Health/Examples.antt =====
-- Tests of the health verdicts, on the pool of Pool/Demo.antt.
use hole_balancer.Base.{refl, true, false, [], ◌∷◌, some, none, arith}
use hole_balancer.Pool.Types.{Endpoint}
use hole_balancer.Pool.Demo.{path}
use hole_balancer.Pool.Health.Streak.{Outcome, Saw, judge_all, judge_all-Saw}

abbrev good : Outcome
good = record { ok = true; error = none; now = 1 }

abbrev bad : Outcome
bad = record { ok = false; error = some "timeout"; now = 2 }

abbrev cold : Endpoint
cold = path "10.0.0.1:53" 0 false 0

judge_all-Saw_example :
    Saw 2 2 (bad ∷ good ∷ good ∷ []) (judge_all 2 2 cold (good ∷ good ∷ bad ∷ []))
judge_all-Saw_example =
    judge_all-Saw 2 2 (good ∷ good ∷ bad ∷ []) cold (omega arith) (omega arith) refl refl refl
