-- ===== src/Pool/Plan/Examples.antt =====
-- Tests of the plan, on the pool of Pool/Demo.antt.
use hole_balancer.Base.{ℕ, zero, suc, ◌≡◌, refl, ◌↔◌, [], ◌∷◌, some, arith}
use hole_balancer.Base.Int.{◌+ℤ◌, ◌-ℤ◌}
use mathlib.Core.List.Perm
use hole_balancer.Config.Types.{strategy_round_robin, strategy_least_latency}
use hole_balancer.Pool.Types.{healthy, active}
use hole_balancer.Pool.Members.{healthy_upstreams}
use hole_balancer.Pool.Demo.{demo, steady}
use hole_balancer.Pool.Plan.{
  plan, split, order_locked, rotation_start, next_rr, rotate_from, effective_latency, total_weight,
  pick_from, weighted_pick, first_path, other_paths, down_paths, tiers, or_drained,
}
use hole_balancer.Pool.Plan.Total.{IsRandom, HasWeights}
use hole_balancer.Pool.Plan.Coverage.{HasDistinctPaths, Covers, plan-Covers}
use hole_balancer.Pool.Plan.Tiers.{HasOwners, Tiered, plan-Tiered, in_rotation}
use hole_balancer.Pool.Plan.Choice.{
  Starts, IsFastest, plan-round_robin, plan-random, plan-least_latency,
}
use hole_balancer.Pool.Plan.Weights.{InInterval, weighted_pick-share}

steady-IsRandom : IsRandom steady
steady-IsRandom = record {
  upstreams = λ xs. Perm.refl xs;
  secondary = λ xs. Perm.refl xs;
  last_resort = λ xs. Perm.refl xs;
  drained = λ xs. Perm.refl xs;
  bounded = λ n h. omega arith;
}

demo-HasWeights : HasWeights (demo "random")
demo-HasWeights zero = refl
demo-HasWeights (suc zero) = refl
demo-HasWeights (suc (suc u)) = ground arith

demo-HasDistinctPaths : HasDistinctPaths (demo "random")
demo-HasDistinctPaths zero = omega arith
demo-HasDistinctPaths (suc zero) = omega arith
demo-HasDistinctPaths (suc (suc u)) = ground arith

demo-HasOwners : HasOwners (demo "random")
demo-HasOwners zero = omega arith
demo-HasOwners (suc zero) = omega arith
demo-HasOwners (suc (suc u)) = ground arith

plan-Covers_example : Covers (demo "random") steady
plan-Covers_example =
    plan-Covers (demo "random") steady steady-IsRandom demo-HasWeights demo-HasDistinctPaths
      (omega arith)

plan-Tiered_example : Tiered (demo "random") steady
plan-Tiered_example =
    plan-Tiered (demo "random") steady steady-IsRandom demo-HasWeights demo-HasOwners (omega arith)
      (unfold healthy_upstreams healthy in omega arith)

plan-round_robin_example :
    (u : ℕ) × (some 1 ≡ some u) × Starts (demo strategy_round_robin) steady u 6
unfolding healthy
plan-round_robin_example =
    plan-round_robin (demo strategy_round_robin) steady refl (omega arith) (omega arith)

plan-least_latency_example :
    (u : ℕ) × IsFastest
      (effective_latency (demo strategy_least_latency))
      u
      (in_rotation (demo strategy_least_latency))
    × Starts (demo strategy_least_latency) steady u 5
unfolding healthy
plan-least_latency_example =
    plan-least_latency (demo strategy_least_latency) steady refl (omega arith)

plan-random_example : Starts (demo "random") steady 1 5
unfolding healthy weighted_pick total_weight pick_from ◌+ℤ◌ ◌-ℤ◌
plan-random_example = plan-random (demo "random") steady 1 refl refl refl (omega arith) refl refl

weighted_pick-share_example :
    (weighted_pick (demo "random") (λ _. 2) (0 ∷ 1 ∷ []) ≡ 1)
    ↔ InInterval (demo "random") 2 (0 ∷ 1 ∷ []) 1
weighted_pick-share_example =
    weighted_pick-share (demo "random") (0 ∷ 1 ∷ []) 2 1 (refl, (refl, tt)) (omega arith)

-- The whole computation, under round robin: the counter stands at the second upstream.
plan_run :
    plan (demo strategy_round_robin) steady
    ≡ some (2 ∷ 0 ∷ 1 ∷ [], record (demo strategy_round_robin) { rr = 6 })
unfolding plan split order_locked rotation_start next_rr rotate_from first_path other_paths
    down_paths tiers or_drained healthy active
plan_run = refl
