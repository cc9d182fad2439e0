-- ===== src/Pool/Demo.antt =====
-- A small pool for the tests: two upstreams, the first with two paths.
use hole_balancer.Base.{ℕ, ◌-◌, String, Bool, true, false, [], ◌∷◌, none}
use hole_balancer.Base.Int.{pos}
use hole_balancer.Config.Types.{Upstream as UpstreamConfig}
use hole_balancer.Pool.Types.{Endpoint, Upstream, Pool, update}
use hole_balancer.Pool.Plan.{Draws}

abbrev pub path : String → ℕ → Bool → ℕ → Endpoint
path addr u up latency = record {
  name = addr;
  addr = addr;
  upstream = u;
  up = up;
  successes = 0;
  failures = 0;
  latency_ewma = latency;
  last_change = none;
  last_err = "";
  total_queries = 0;
  total_fails = 0;
}

abbrev pub demo_upstream : ℕ → Upstream
demo_upstream =
    update
      (update (λ _. record { name = ""; weight = pos 0; endpoints = []; drained = false }) 0
        (record { name = "east"; weight = pos 1; endpoints = 0 ∷ 1 ∷ []; drained = false }))
      1 (record { name = "west"; weight = pos 2; endpoints = 2 ∷ []; drained = false })

abbrev pub demo_endpoint : ℕ → Endpoint
demo_endpoint =
    update
      (update (update (λ _. path "" 0 false 0) 0 (path "10.0.0.1:53" 0 true 9)) 1
        (path "100.64.0.1:53" 0 true 30))
      2 (path "10.0.0.2:53" 1 true 5)

abbrev pub demo : String → Pool
demo strategy = record {
  upstream = demo_upstream;
  endpoint = demo_endpoint;
  next_upstream = 2;
  next_endpoint = 3;
  upstreams = 0 ∷ 1 ∷ [];
  endpoints = 0 ∷ 1 ∷ 2 ∷ [];
  strategy = strategy;
  rise = 2;
  fall = 2;
  passive = true;
  rr = 5;
}

abbrev pub steady : Draws
steady = record {
  shuffle_upstreams = λ xs. xs;
  shuffle_secondary = λ xs. xs;
  shuffle_last_resort = λ xs. xs;
  shuffle_drained = λ xs. xs;
  int_n = λ n. n - 1;
}

abbrev pub east_config : UpstreamConfig
east_config = record {
  name = "east";
  weight = pos 1;
  endpoints = record { name = "lan"; addr = "10.0.0.1:53" } ∷ [];
}

abbrev pub west_config : UpstreamConfig
west_config = record {
  name = "west";
  weight = pos 2;
  endpoints = record { name = "lan"; addr = "10.0.0.2:53" } ∷ [];
}
