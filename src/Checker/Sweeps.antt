-- ===== src/Checker/Sweeps.antt =====
-- What a sweep makes of each endpoint, in whatever order the probes report.
use hole_balancer.Base.{
  ℕ, false, List, [], ◌∷◌, ◌==◌, ◌≡◌, refl, ◌∙◌, ap, sym, subst, arith, Bool-cases, inl, inr,
  ==_iff,
}
use mathlib.Core.List.{Perm}
use hole_balancer.Base.Counting.{count, count-Perm}
use hole_balancer.Pool.Types.{Pool, Endpoint}
use hole_balancer.Pool.Health.{initial}
use hole_balancer.Pool.Health.Local.{
  Writes, probed, report_probe-Writes, set_initial-Writes, initial-up,
}
use hole_balancer.System.{System}
use hole_balancer.System.Reports.{probe_reported-pool, initial_reported-pool, sweep_done-pool}
use hole_balancer.System.Watch.{Watches, sweep_done-Watches}
use hole_balancer.Checker.{
  Probing, probe, is_ok, count_check, check_endpoint, check_initially, for_each_endpoint, sweep,
  bootstrap,
}

-- What a visit writes: the endpoint visited, from what it was and the thresholds.
module _ (visit : ℕ → System → System) (new : ℕ → ℕ → ℕ → Endpoint → Endpoint)
    (writes : (e : ℕ) (s : System)
      → Writes s.pool (visit e s).pool e (new s.pool.rise s.pool.fall e (s.pool.endpoint e))) where
  unvisited :
      (es : List ℕ) (s : System) (j : ℕ)
      → count j es ≡ 0
      → (for_each_endpoint visit es s).pool.endpoint j ≡ s.pool.endpoint j
  unvisited [] s j h = refl
  unvisited (e ∷ es) s j h =
      let miss : (j == e) ≡ false = ground (arith, h) in
      unvisited es (visit e s) j (ground (arith, h)) ∙ ((writes e s).endpoint j ∙ rw miss refl)

  -- An endpoint that is visited once ends as that visit leaves it.
  visited :
      (es : List ℕ) (s : System) (j : ℕ)
      → count j es ≡ 1
      → (for_each_endpoint visit es s).pool.endpoint j
        ≡ new s.pool.rise s.pool.fall j (s.pool.endpoint j)
  visited [] s j h = cc
  visited (e ∷ es) s j h =
      let w = writes e s in
      elim (Bool-cases (j == e)) [
        | inl hit ↦
            let at : j ≡ e = (==_iff j e).0 hit in
            unvisited es (visit e s) j (ground (arith, h, hit))
            ∙ (w.endpoint j
                ∙ rw hit (ap (λ i. new s.pool.rise s.pool.fall i (s.pool.endpoint i)) (sym at)))
        | inr miss ↦
            let same : (visit e s).pool.endpoint j ≡ s.pool.endpoint j =
              w.endpoint j ∙ rw miss refl in
            visited es (visit e s) j (ground (arith, h, miss)) ∙ rw (w.rise, w.fall, same) refl
      ]

module _ (c : Probing) where
  -- The verdict of an endpoint's own probe, on that endpoint alone.
  abbrev pub probed_alone : ℕ → ℕ → ℕ → Endpoint → Endpoint
  probed_alone rise fall e x =
      let r = probe c e x.addr in probed c.mix rise fall (is_ok r.1) r.0 r.1 (c.clock e) x

  abbrev pub first_verdict : ℕ → ℕ → ℕ → Endpoint → Endpoint
  first_verdict rise fall e x =
      let r = probe c e x.addr in initial rise fall (is_ok r.1) r.0 r.1 (c.clock e) x

  check_endpoint-Writes :
      (e : ℕ) (s : System)
      → Writes s.pool
          (check_endpoint c e s).pool
          e
          (probed_alone s.pool.rise s.pool.fall e (s.pool.endpoint e))
  unfolding check_endpoint count_check
  check_endpoint-Writes e s =
      let r = probe c e (s.pool.endpoint e).addr in
      subst (λ p. Writes s.pool p e (probed_alone s.pool.rise s.pool.fall e (s.pool.endpoint e)))
        (sym (probe_reported-pool c.mix (c.clock e) e (is_ok r.1) r.0 r.1 (count_check e r.1 s)))
        (report_probe-Writes s.pool e (is_ok r.1) r.0 (c.clock e) r.1 c.mix)

  check_initially-Writes :
      (e : ℕ) (s : System)
      → Writes s.pool
          (check_initially c e s).pool
          e
          (first_verdict s.pool.rise s.pool.fall e (s.pool.endpoint e))
  unfolding check_initially count_check
  check_initially-Writes e s =
      let r = probe c e (s.pool.endpoint e).addr in
      subst (λ p. Writes s.pool p e (first_verdict s.pool.rise s.pool.fall e (s.pool.endpoint e)))
        (sym (initial_reported-pool c.mix (c.clock e) e (is_ok r.1) r.0 r.1 (count_check e r.1 s)))
        (set_initial-Writes s.pool e (is_ok r.1) r.0 (c.clock e) r.1)

  -- In whatever order the probes of a sweep report, one after another, an endpoint that the pool lists once ends with the
  -- verdict of its own probe, as if it had been probed alone; and after the sweep the fallback
  -- tracker is in an outage exactly while no upstream that is not drained answers.
  pub sweep-alone :
      (s : System) (e : ℕ)
      → Perm (c.order s.pool.endpoints) s.pool.endpoints
      → count e s.pool.endpoints ≡ 1
      → ((sweep c s).pool.endpoint e ≡ probed_alone s.pool.rise s.pool.fall e (s.pool.endpoint e))
        × Watches (sweep c s)
  unfolding sweep
  sweep-alone s e perm once = (
    ap (λ (p : Pool). p.endpoint e) (sweep_done-pool c.finished _)
        ∙ visited (check_endpoint c) probed_alone check_endpoint-Writes (c.order s.pool.endpoints) s
            e (count-Perm e perm ∙ once),
    sweep_done-Watches c.finished _,
  )

  -- With a startup timeout, and in whatever order the probes report, one after another, Bootstrap leaves an endpoint that
  -- the pool lists once up exactly when its probe gave no error; and the fallback tracker is in an
  -- outage exactly while no upstream that is not drained answers.
  pub bootstrap-verdicts :
      (s : System) (e : ℕ)
      → (c.startup_timeout == 0) ≡ false
      → Perm (c.order s.pool.endpoints) s.pool.endpoints
      → count e s.pool.endpoints ≡ 1
      → (((bootstrap c s).pool.endpoint e).up ≡ is_ok (probe c e (s.pool.endpoint e).addr).1)
        × Watches (bootstrap c s)
  unfolding bootstrap
  bootstrap-verdicts s e on perm once =
      let r = probe c e (s.pool.endpoint e).addr in
      rw on (
        ap (λ (x : Endpoint). x.up)
              (ap (λ (p : Pool). p.endpoint e) (sweep_done-pool c.finished _)
                ∙ visited (check_initially c) first_verdict check_initially-Writes
                    (c.order s.pool.endpoints) s e (count-Perm e perm ∙ once))
            ∙ initial-up s.pool.rise s.pool.fall (is_ok r.1) r.0 r.1 (c.clock e)
                (s.pool.endpoint e),
        sweep_done-Watches c.finished _,
      )
