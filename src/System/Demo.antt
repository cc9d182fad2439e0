-- ===== src/System/Demo.antt =====
-- A running process for the tests: the pool of Pool/Demo.antt, with two public resolvers.
use hole_balancer.Base.{[], ◌∷◌, some, ◌==◌}
use hole_balancer.Pool.Types.{Pool}
use hole_balancer.Fallback.Tracker.{new_tracker}
use hole_balancer.Stats.{new_collector}
use hole_balancer.Metrics.{new_metrics}
use hole_balancer.System.{System}

-- The process around a given pool.
abbrev pub around : Pool → System
around p = record {
  pool = p;
  resolver = record {
    servers = "1.1.1.1:53" ∷ "9.9.9.9:53" ∷ [];
    retry = some (λ code. code == 2);
    rr = 0;
  };
  tracker = new_tracker 0;
  stats = new_collector 0;
  metrics = new_metrics;
}
