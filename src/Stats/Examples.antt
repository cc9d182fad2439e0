-- ===== src/Stats/Examples.antt =====
-- Tests of the statistics: three records, an hour and a minute apart, in a zone of 330 minutes.
use hole_balancer.Base.{ℕ, ◌≡◌, false, List, [], ◌∷◌, map, arith}
use hole_balancer.Stats.{Record, new_collector, minute_series, truncate}
use hole_balancer.Stats.Ring.{run, IsTimed, minute_counts, minute_series-run}
use hole_balancer.Stats.Snapshot.{snapshot}
use hole_balancer.Stats.Snapshot.History.{Lists, snapshot-Lists}

abbrev blocked : Record
blocked = record {
  proto = "udp";
  qtype = "A";
  upstream = "pi1";
  endpoint = "lan";
  rcode = "NXDOMAIN";
  latency = 5;
  attempts = 2;
  fallback = false;
  failed = false;
}

abbrev morning : List (ℕ × Record)
morning = (7200, blocked) ∷ (10800, blocked) ∷ (10859, blocked) ∷ (10860, blocked) ∷ []

morning-IsTimed : IsTimed 7000 morning 10900
morning-IsTimed = ground arith

minute_series-run_example :
    map (λ b. b.queries) (minute_series 330 10900 (run 330 morning (new_collector 7000)))
    ≡ minute_counts morning (truncate 60 10900) 60
minute_series-run_example = minute_series-run 330 7000 10900 morning morning-IsTimed (omega arith)

snapshot-Lists_example :
    let c = run 330 morning (new_collector 7000) in Lists c (snapshot 330 10900 c)
snapshot-Lists_example = snapshot-Lists 330 7000 10900 morning
