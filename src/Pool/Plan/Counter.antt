-- ===== src/Pool/Plan/Counter.antt =====
-- What a plan does to the round-robin counter.
use hole_balancer.Base.{
  ℕ, ◌+◌, ◌≤◌, ◌≡◌, subst, List, some, Bool-cases, Option-cases, inl, inr, arith, ltb, length,
  str_eq,
}
use hole_balancer.Config.Types.{strategy_failover, strategy_round_robin, strategy_least_latency}
use hole_balancer.Pool.Types.{Pool}
use hole_balancer.Pool.Plan.{
  Draws, split, order_locked, plan, next_rr, rotation_start, rotate_from, swap_first, weighted_pick,
}

pub next_rr-le : (rr : ℕ) → next_rr rr ≤ rr + 1
unfolding next_rr
next_rr-le rr = omega arith

order_locked-rr :
    (p : Pool) (d : Draws) (ups os : List ℕ) (rr : ℕ)
    → order_locked p d ups ≡ some (os, rr)
    → rr ≤ p.rr + 1
unfolding order_locked
order_locked-rr p d ups os rr h = elim (Bool-cases (ltb (length ups) 2)) [
  | inl a ↦ let f = rw a at h in let e : p.rr ≡ rr = cc in omega (arith, e)
  | inr a ↦
      let f = rw a at h in
      elim (Bool-cases (str_eq p.strategy strategy_failover)) [
        | inl b ↦ let g = rw b at f in let e : p.rr ≡ rr = cc in omega (arith, e)
        | inr b ↦
            let g = rw b at f in
            elim (Bool-cases (str_eq p.strategy strategy_round_robin)) [
              | inl c ↦
                  let k = rw c at g in
                  elim (Option-cases (rotation_start p.rr (length ups))) [
                    | inl x ↦ let l = rw x at k in cc
                    | inr (start, x) ↦
                        let l = rw x at k in
                        elim (Option-cases (rotate_from ups start 0 (length ups))) [
                          | inl y ↦ let n = rw y at l in cc
                          | inr (rotated, y) ↦
                              let n = rw y at l in
                              let e : next_rr p.rr ≡ rr = cc in
                              subst (λ x. x ≤ p.rr + 1) e (next_rr-le p.rr)
                        ]
                  ]
              | inr c ↦
                  let k = rw c at g in
                  elim (Bool-cases (str_eq p.strategy strategy_least_latency)) [
                    | inl x ↦ let l = rw x at k in let e : p.rr ≡ rr = cc in omega (arith, e)
                    | inr x ↦
                        let l = rw x at k in
                        let drawn = d.shuffle_upstreams ups in
                        elim (Option-cases (swap_first (weighted_pick p d.int_n drawn) drawn)) [
                          | inl y ↦ let n = rw y at l in cc
                          | inr (out, y) ↦
                              let n = rw y at l in let e : p.rr ≡ rr = cc in omega (arith, e)
                        ]
                  ]
            ]
      ]
]

-- The counter moves by one at most.
pub plan-rr : (p q : Pool) (d : Draws) (es : List ℕ) → plan p d ≡ some (es, q) → q.rr ≤ p.rr + 1
unfolding plan
plan-rr p q d es h = elim (Option-cases (order_locked p d (split p p.upstreams).up)) [
  | inl e ↦ let f = rw (e, plan) at h in cc
  | inr ((os, rr), e) ↦
      let f = rw (e, plan) at h in
      let same : record p { rr = rr } ≡ q = cc in
      subst (λ (x : Pool). x.rr ≤ p.rr + 1) same
        (order_locked-rr p d (split p p.upstreams).up os rr e)
]
