-- ===== src/System/Examples.antt =====
-- Tests of the wiring.
use hole_balancer.Base.{ℕ, ◌+◌, ◌/◌, false, some, List, [], ◌∷◌}
use hole_balancer.Pool.Demo.{demo}
use hole_balancer.System.{sweep_done}
use hole_balancer.System.Demo.{around}
use hole_balancer.System.Watch.{Event, queried, probed, Watches, handle_all, handle_all-Watches}

abbrev average : ℕ → ℕ → ℕ
average old new = (old + new) / 2

-- All three endpoints time out, twice.
abbrev outage : List Event
outage =
    queried average 1 0 false 7 (some "timeout")
    ∷ queried average 2 1 false 7 (some "timeout")
    ∷ probed average 3 2 false 7 (some "timeout")
    ∷ queried average 4 0 false 7 (some "timeout")
    ∷ queried average 5 1 false 7 (some "timeout")
    ∷ probed average 6 2 false 7 (some "timeout")
    ∷ []

handle_all-Watches_example : Watches (handle_all outage (sweep_done 0 (around (demo "random"))))
handle_all-Watches_example = handle_all-Watches 0 outage (around (demo "random"))
