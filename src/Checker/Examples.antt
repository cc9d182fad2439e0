-- ===== src/Checker/Examples.antt =====
-- Tests of the health checker, on the pool of Pool/Demo.antt: one endpoint answers.
use hole_balancer.Base.{◌+◌, ◌/◌, ◌≡◌, refl, false, str_eq, if◌then◌else◌}
use mathlib.Core.List.Perm
use hole_balancer.Dnsmsg.Demo.{pi_hole, no_error}
use hole_balancer.Dnsclient.{received, lost}
use hole_balancer.Pool.Demo.{demo, demo_endpoint}
use hole_balancer.System.Demo.{around}
use hole_balancer.System.Watch.{Watches}
use hole_balancer.Checker.{Probing, probe, is_ok, sweep, bootstrap}
use hole_balancer.Checker.Sweeps.{probed_alone, sweep-alone, bootstrap-verdicts}

abbrev probing : Probing
probing = record {
  name = pi_hole;
  qtype = 1;
  require_answer = false;
  startup_timeout = 5000000000;
  id = λ e. 700 + e;
  exchange = λ addr query.
      if str_eq addr "10.0.0.2:53"
      then (4, received no_error)
      else (9, lost "timeout" "i/o timeout");
  show_code = λ n. "";
  describe = λ x. "";
  mix = λ old new. (old + new) / 2;
  clock = λ e. 100 + e;
  order = λ es. es;
  finished = 200;
}

sweep-alone_example :
    ((sweep probing (around (demo "random"))).pool.endpoint 2
      ≡ probed_alone probing 2 2 2 (demo_endpoint 2))
    × Watches (sweep probing (around (demo "random")))
sweep-alone_example = sweep-alone probing (around (demo "random")) 2 (Perm.refl _) refl

bootstrap-verdicts_example :
    (((bootstrap probing (around (demo "random"))).pool.endpoint 0).up
      ≡ is_ok (probe probing 0 "10.0.0.1:53").1)
    × Watches (bootstrap probing (around (demo "random")))
bootstrap-verdicts_example =
    bootstrap-verdicts probing (around (demo "random")) 0 refl (Perm.refl _) refl
