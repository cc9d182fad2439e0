-- ===== src/Proxy/Demo.antt =====
-- A world for the tests of the forwarder: the first endpoint times out, the second answers.
use hole_balancer.Base.{◌+◌, ◌/◌, false, str_eq, if◌then◌else◌, arith, ◌==◌}
use hole_balancer.Dnsmsg.Demo.{no_error}
use hole_balancer.Pool.Demo.{steady}
use hole_balancer.Pool.Plan.Total.{IsRandom}
use hole_balancer.Fallback.Resolver.{failed}
use hole_balancer.Dnsclient.{received, lost}
use hole_balancer.Proxy.Types.{World, Query}
use mathlib.Core.List.Perm

abbrev pub world : World
world = record {
  draws = steady;
  mix = λ old sample. (old + sample) / 2;
  micro = λ n. n / 1000;
  show_code = λ n. "";
  show_type = λ n. "";
  clock = λ i. i;
  zone = 0;
  elapsed = 7000000;
  cancelled = λ i. false;
  exchange = λ i addr.
      if str_eq addr "10.0.0.1:53"
      then (2, lost "timeout" "i/o timeout")
      else (3, received no_error);
  fallback_cancelled = λ i. false;
  fallback_exchange = λ i server. failed "timeout" "i/o timeout";
}

abbrev pub config : Query
config = record { max_attempts = 3; should_retry = λ code. code == 2 }

pub steady-IsRandom : IsRandom steady
steady-IsRandom = record {
  upstreams = λ xs. Perm.refl xs;
  secondary = λ xs. Perm.refl xs;
  last_resort = λ xs. Perm.refl xs;
  drained = λ xs. Perm.refl xs;
  bounded = λ n h. omega arith;
}
