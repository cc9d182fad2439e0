-- ===== src/Config/Validate/Examples.antt =====
-- Tests of the validation: two servers, one of them without a name.
use hole_balancer.Base.{◌≤◌, ◌≡◌, refl, [], ◌∷◌, some, All, Pairwise}
use hole_balancer.Base.Int.{pos}
use hole_balancer.Pool.Members.Sync.{IsSynced}
use hole_balancer.Pool.Health.Keep.{IsHealthy}
use hole_balancer.Dnsmsg.Codes.{parse_rcode, parse_type}
use hole_balancer.Config.Types.{Upstream, valid_strategy}
use hole_balancer.Config.Document.{Config, default_config}
use hole_balancer.Config.Checked.{valid}
use hole_balancer.Config.Validate.{
  with_port, normalise_addr, checked_weight, resolve_codes, check_query, resolve_type, check_health,
  resolver_addrs, check_fallback, prepare_endpoints, prepare_upstreams, validate,
}
use hole_balancer.Config.Validate.Demo.{text}
use hole_balancer.Config.Validate.Usable.{OtherAddr}
use hole_balancer.Config.Validate.Starts.{started, validate-IsSynced}

abbrev written : Config
written = record default_config {
  upstreams =
      record {
        name = "east";
        weight = pos 3;
        endpoints = record { name = "lan"; addr = "10.0.0.1" } ∷ [];
      }
      ∷ record {
        name = "";
        weight = pos 0;
        endpoints = record { name = ""; addr = "10.0.0.2" } ∷ [];
      }
      ∷ [];
}

abbrev checked : Config
checked =
    let q = written.query in
    let h = written.health in
    let p = h.probe in
    let f = written.fallback in
    record written {
      query = record q { retry_codes = some (2 ∷ 5 ∷ []) };
      health = record h { probe = record p { qtype = 1 } };
      fallback = record f { servers = "8.8.8.8:53" ∷ "8.8.4.4:53" ∷ [] };
      upstreams =
          record {
            name = "east";
            weight = pos 3;
            endpoints = record { name = "lan"; addr = "10.0.0.1:53" } ∷ [];
          }
          ∷ record {
            name = "upstream-2";
            weight = pos 1;
            endpoints = record { name = "10.0.0.2:53"; addr = "10.0.0.2:53" } ∷ [];
          }
          ∷ [];
    }

written-checked : validate text written ≡ valid checked
unfolding validate check_query resolve_codes check_health resolve_type check_fallback resolver_addrs
    normalise_addr with_port prepare_upstreams prepare_endpoints checked_weight valid_strategy
    parse_rcode parse_type
written-checked = refl

validate-IsSynced_example :
    IsSynced (started text checked)
    × IsHealthy (started text checked)
    × (1 ≤ 3)
    × (1 ≤ 1024)
    × All (λ (u : Upstream). Pairwise OtherAddr u.endpoints) checked.upstreams
validate-IsSynced_example = validate-IsSynced text written checked written-checked
