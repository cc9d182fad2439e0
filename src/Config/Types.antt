-- ===== src/Config/Types.antt =====
-- internal/config/config.go: the parts of the configuration document that describe upstreams.
use hole_balancer.Base.{String, List, [], ◌∷◌, Bool, false, ◌||◌, str_eq}
use hole_balancer.Base.Int.{ℤ}

pub record Endpoint : Type 0 where
  pub name : String
  pub addr : String

pub record Upstream : Type 0 where
  pub name : String
  pub weight : ℤ
  pub endpoints : List Endpoint

abbrev pub strategy_random : String
strategy_random = "random"

abbrev pub strategy_round_robin : String
strategy_round_robin = "round-robin"

abbrev pub strategy_failover : String
strategy_failover = "failover"

abbrev pub strategy_least_latency : String
strategy_least_latency = "least-latency"

abbrev pub contains : List String → String → Bool
contains [] needle = false
contains (s ∷ haystack) needle = str_eq s needle || contains haystack needle

abbrev pub valid_strategies : List String
valid_strategies =
    strategy_random ∷ strategy_round_robin ∷ strategy_failover ∷ strategy_least_latency ∷ []

unfoldable pub valid_strategy : String → Bool
valid_strategy name = contains valid_strategies name
