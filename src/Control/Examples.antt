-- ===== src/Control/Examples.antt =====
-- Tests of the changes, on a pool of two upstreams and one public resolver.
use hole_balancer.Base.{true, false, none, [], ◌∷◌}
use hole_balancer.Control.{Manager, change_add}
use hole_balancer.Base.Int.{pos}
use hole_balancer.Config.Types.{Upstream}
use hole_balancer.Config.Validate.Demo.{text}
use hole_balancer.Control.Atomic.{IsAtomic, change_add-IsAtomic}
use hole_balancer.Pool.Members.Fresh.{fresh, fresh-IsSynced, fresh-some}
use hole_balancer.Pool.Demo.{demo}
use hole_balancer.Stats.{new_collector}

abbrev home : Manager
home = record {
  pool = demo "round-robin";
  fallback = record { servers = "1.1.1.1:53" ∷ []; retry = none; rr = 0 };
  cfg = record {
    strategy = "round-robin";
    fallback_enabled = true;
    fallback_servers = "1.1.1.1:53" ∷ [];
    upstreams = [];
  };
  stats = new_collector 0;
  allow_write = true;
  persist = true;
}

abbrev office : Manager
office = record home { pool = fresh }

abbrev north : Upstream
north = record {
  name = "north";
  weight = pos 0;
  endpoints = record { name = ""; addr = "10.0.0.3" } ∷ [];
}

change_add-IsAtomic_example : IsAtomic text north office (change_add false text north office)
change_add-IsAtomic_example = change_add-IsAtomic false text north office fresh-IsSynced fresh-some
