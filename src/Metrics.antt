-- ===== src/Metrics.antt =====
-- internal/metrics/metrics.go: the counters and the histogram, and the text that they are rendered
-- to, as lines before formatting. A counter's series are a map from its label key.
pub mod Totals
pub mod Escape
mod Examples
use Prim.Native.String.{◌++◌ as append}
use hole_balancer.Base.{
  ℕ, zero, suc, ◌+◌, ◌%◌, ◌^◌, String, Bool, true, false, List, [], ◌∷◌, ◌++◌, map, Option, none,
  some, ltb, leb, ◌==◌, str_eq, if◌then◌else◌,
}
use hole_balancer.Base.Tables.{find, put}

pub record Label : Type 0 where
  pub name : String
  pub value : String

pub record Series : Type 0 where
  pub labels : List Label
  pub value : ℕ

pub record CounterVec : Type 0 where
  pub name : String
  pub help : String
  pub series : List (String × Series)

pub new_counter_vec : String → String → CounterVec
new_counter_vec name help = record { name = name; help = help; series = [] }

-- Each name and each value is followed by a zero byte.
pub label_key : List Label → String
label_key [] = ""
label_key (l ∷ labels) =
    append l.name (append "\0" (append l.value (append "\0" (label_key labels))))

-- The series of a key after Add: a new one starts at 0; the value is a uint64.
pub grown : ℕ → List Label → Option Series → Series
grown n labels none = record { labels = labels; value = n % 2 ^ 64 }
grown n labels (some s) = record s { value = (s.value + n) % 2 ^ 64 }

-- CounterVec.Add.
pub add_counter : ℕ → List Label → CounterVec → CounterVec
add_counter n labels c =
    let key = label_key labels in
    record c { series = put key (grown n labels (find key c.series)) c.series }

pub inc : List Label → CounterVec → CounterVec
inc labels c = add_counter 1 labels c

pub counter_value : List Label → CounterVec → ℕ
counter_value labels c = elim (find (label_key labels) c.series) [ none ↦ 0 | some s ↦ s.value ]

-- Seconds are numbers of nanoseconds, and `micro` is uint64(seconds * 1e6) in float64.
pub record Histogram : Type 0 where
  pub name : String
  pub help : String
  pub bounds : List ℕ
  pub buckets : List ℕ
  pub count : ℕ
  pub sum_micro : ℕ

pub new_histogram : String → String → List ℕ → Histogram
new_histogram name help bounds = record {
  name = name;
  help = help;
  bounds = bounds;
  buckets = map (λ _. 0) bounds;
  count = 0;
  sum_micro = 0;
}

-- The loop of Observe over the bounds; the two slices have one length.
pub fill_buckets : ℕ → List ℕ → List ℕ → List ℕ
fill_buckets seconds [] buckets = buckets
fill_buckets seconds (b ∷ bounds) [] = []
fill_buckets seconds (b ∷ bounds) (n ∷ buckets) =
    (if leb seconds b then (n + 1) % 2 ^ 64 else n) ∷ fill_buckets seconds bounds buckets

pub observe_seconds : (ℕ → ℕ) → ℕ → Histogram → Histogram
observe_seconds micro seconds h = record h {
  count = (h.count + 1) % 2 ^ 64;
  sum_micro = if ltb 0 seconds then (h.sum_micro + micro seconds) % 2 ^ 64 else h.sum_micro;
  buckets = fill_buckets seconds h.bounds h.buckets;
}

pub record Metrics : Type 0 where
  pub queries : CounterVec
  pub responses : CounterVec
  pub failures : CounterVec
  pub retries : CounterVec
  pub servfails : CounterVec
  pub health_checks : CounterVec
  pub state_flips : CounterVec
  pub duration : Histogram
  pub fallback_responses : CounterVec
  pub fallback_failures : CounterVec

-- The bounds that New gives the histogram.
abbrev pub duration_bounds : List ℕ
duration_bounds =
    1000000 ∷ 5000000 ∷ 10000000 ∷ 25000000 ∷ 50000000 ∷ 100000000 ∷ 250000000 ∷ 500000000
    ∷ 1000000000 ∷ 2000000000 ∷ 5000000000 ∷ []

-- New.
pub new_metrics : Metrics
new_metrics = record {
  queries = new_counter_vec "holebalancer_queries_total" "Client queries received, by transport.";
  responses =
      new_counter_vec "holebalancer_responses_total"
        "Responses returned to clients, by upstream and response code.";
  failures =
      new_counter_vec "holebalancer_upstream_failures_total"
        "Failed upstream exchanges, by reason.";
  retries =
      new_counter_vec "holebalancer_retries_total" "Query attempts beyond the first, by reason.";
  servfails =
      add_counter 0 []
        (new_counter_vec "holebalancer_servfail_total" "Queries that exhausted every upstream.");
  health_checks =
      new_counter_vec "holebalancer_health_checks_total" "Active health probes, by result.";
  state_flips =
      new_counter_vec "holebalancer_endpoint_state_changes_total" "Endpoint health transitions.";
  duration =
      new_histogram "holebalancer_query_duration_seconds"
        "End-to-end time to answer a client query, including retries." duration_bounds;
  fallback_responses =
      new_counter_vec "holebalancer_fallback_responses_total"
        "Queries answered by a public resolver because no Pi-hole could. These were NOT filtered.";
  fallback_failures =
      new_counter_vec "holebalancer_fallback_failures_total"
        "Failed attempts against a public resolver, by reason.";
}
