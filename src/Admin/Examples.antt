-- ===== src/Admin/Examples.antt =====
-- Tests of the management interface, on a pool of two upstreams and one public resolver.
use hole_balancer.Base.{◌≡◌, refl, true, false, some, none, List, [], ◌∷◌, All}
use hole_balancer.Config.Types.{valid_strategy}
use hole_balancer.Config.Validate.Demo.{text}
use hole_balancer.Pool.Demo.{demo}
use hole_balancer.Fallback.Tracker.{new_tracker}
use hole_balancer.Metrics.{new_metrics}
use hole_balancer.Stats.{new_collector}
use hole_balancer.Control.{Manager}
use hole_balancer.Control.Agreement.{Agrees}
use hole_balancer.Admin.Types.{
  Server, Call, Request, decoded, undecoded, get_overview, post_upstreams, delete_upstream,
  post_drain, put_strategy, put_fallback, post_stats_reset,
}
use hole_balancer.Admin.Routes.{handle, handle_all}
use hole_balancer.Admin.Routes.Locked.{HasRefusalCode, handle_all-Refuses}
use hole_balancer.Admin.Routes.Agreement.{handle_all-Agrees}

abbrev office : Manager
office = record {
  pool = demo "round-robin";
  fallback = record { servers = "1.1.1.1:53" ∷ []; retry = none; rr = 0 };
  cfg = record {
    strategy = "round-robin";
    fallback_enabled = true;
    fallback_servers = "1.1.1.1:53" ∷ [];
    upstreams = [];
  };
  stats = new_collector 0;
  allow_write = true;
  persist = true;
}

abbrev open_server : Server
open_server = record {
  control = office;
  path = "/etc/hole-balancer.yaml";
  tracker = some (new_tracker 0);
  metrics = new_metrics;
  allow_control = true;
  version = "1.0";
  started = 0;
  has_probe = true;
  sweeps = 0;
}

abbrev locked_server : Server
locked_server = record open_server {
  control = record office { allow_write = false };
  allow_control = false;
}

abbrev call : Call
call = record { now = 60; zone = 0; written = false; text = text }

-- A new strategy, a resolver, an upstream that is unknown, a bad body and a reset.
abbrev requests : List (Call × Request)
requests =
    (call, put_strategy (decoded "failover"))
    ∷ (call, put_fallback (decoded (record { enabled = true; servers = "9.9.9.9" ∷ [] })))
    ∷ (call, delete_upstream "nowhere")
    ∷ (call, post_upstreams (undecoded "EOF"))
    ∷ (call, post_drain "east")
    ∷ (call, post_stats_reset)
    ∷ (call, get_overview)
    ∷ []

handle_all-Refuses_example :
    (handle_all requests locked_server ≡ locked_server)
    × All (λ x. HasRefusalCode x.1 (handle x.0 x.1 locked_server).1.code) requests
handle_all-Refuses_example = handle_all-Refuses locked_server requests refl refl

office-Agrees : Agrees office
unfolding valid_strategy
office-Agrees = record { strategy = refl; valid = refl; servers = refl }

handle_all-Agrees_example : Agrees (handle_all requests open_server).control
handle_all-Agrees_example = handle_all-Agrees requests open_server office-Agrees
