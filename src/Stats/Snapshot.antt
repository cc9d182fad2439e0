-- ===== src/Stats/Snapshot.antt =====
-- internal/stats/stats.go: Snapshot and counts. A share or a rate in float64 is kept as the two
-- numbers that are divided, and a time is not formatted.
pub mod Ordered
pub mod History
use hole_balancer.Base.{
  ℕ, ◌+◌, ◌-◌, ◌*◌, ◌%◌, ◌^◌, String, Bool, List, [], ◌∷◌, map, Option, none, some, ltb, ◌==◌, ◌&&◌,
  if◌then◌else◌, length,
}
use hole_balancer.Base.Tables.{tally_of}
use hole_balancer.Base.Texts.{str_less}
use hole_balancer.Base.Sorting.{sort_slice}
use hole_balancer.Stats.{NodeStat, Bucket, Collector, minute_series, hour_series}

-- A quotient, or the zero that stays where nothing is divided.
pub data Ratio : Type 0 where
  unset : Ratio
  over : ℕ → ℕ → Ratio

pub record Count : Type 0 where
  pub name : String
  pub count : ℕ
  pub share : Ratio

pub record NodeView : Type 0 where
  pub name : String
  pub queries : ℕ
  pub share : Ratio
  pub retries : ℕ
  pub average : Ratio
  pub last_seen : Option ℕ

pub record Snapshot : Type 0 where
  pub since : ℕ
  pub uptime : ℕ
  pub total : ℕ
  pub fallback : ℕ
  pub failed : ℕ
  pub retries : ℕ
  pub average : Ratio
  pub per_second : Ratio
  pub per_minute : Ratio
  pub blocked_share : Ratio
  pub top_node : String
  pub top_node_count : ℕ
  pub nodes : List NodeView
  pub protos : List Count
  pub rcodes : List Count
  pub qtypes : List Count
  pub minutes : List Bucket
  pub hours : List Bucket

-- n / m where m is positive.
abbrev pub per : ℕ → ℕ → Ratio
per n m = if ltb 0 m then over n m else unset

-- The comparison of both sorts.
abbrev pub comes_first : ℕ → String → ℕ → String → Bool
comes_first n s m t = if n == m then str_less s t else ltb m n

abbrev pub count_first : Count → Count → Bool
count_first a b = comes_first a.count a.name b.count b.name

abbrev pub node_first : NodeView → NodeView → Bool
node_first a b = comes_first a.queries a.name b.queries b.name

abbrev pub count_of : ℕ → String × ℕ → Count
count_of total (name, n) = record { name = name; count = n; share = per n total }

unfoldable pub counts : List (String × ℕ) → ℕ → List Count
counts m total = sort_slice count_first (map (count_of total) m)

abbrev pub node_of : ℕ → String × NodeStat → NodeView
node_of total (name, n) = record {
  name = name;
  queries = n.queries;
  share = per n.queries total;
  retries = n.retries;
  average = per n.latency_su n.latency_n;
  last_seen = if n.last == 0 then none else some n.last;
}

-- The loop over the map of upstreams, and the sort after it.
unfoldable pub sorted_nodes : List (String × NodeStat) → ℕ → List NodeView
sorted_nodes m total = sort_slice node_first (map (node_of total) m)

-- The sum of the points, a uint64.
pub recent_queries : ℕ → List Bucket → ℕ
recent_queries sum [] = sum
recent_queries sum (b ∷ bs) = recent_queries ((sum + b.queries) % 2 ^ 64) bs

-- The first node, if it has queries.
abbrev pub top_of : List NodeView → String × ℕ
top_of [] = ("", 0)
top_of (n ∷ nodes) = if ltb 0 n.queries then (n.name, n.queries) else ("", 0)

-- Snapshot; `zone` and `now` are as for Record, and `now` is not before the start.
unfoldable pub snapshot : ℕ → ℕ → Collector → Snapshot
snapshot zone now c =
    let minutes = minute_series zone now c in
    let nodes = sorted_nodes c.by_upstream c.total in
    record {
      since = c.started;
      uptime = now - c.started;
      total = c.total;
      fallback = c.fallback;
      failed = c.failed;
      retries = c.retried;
      average = per c.latency_su c.latency_n;
      per_second = per c.total (now - c.started);
      per_minute = per (recent_queries 0 minutes) (length minutes);
      blocked_share = per (tally_of "NXDOMAIN" c.by_rcode) c.total;
      top_node = (top_of nodes).0;
      top_node_count = (top_of nodes).1;
      nodes = nodes;
      protos = counts c.by_proto c.total;
      rcodes = counts c.by_rcode c.total;
      qtypes = counts c.by_qtype c.total;
      minutes = minutes;
      hours = hour_series zone now c;
    }
