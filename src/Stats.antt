-- ===== src/Stats.antt =====
-- internal/stats/stats.go: the collector, Record, ForgetUpstream, Reset and series. A time is a
-- number of seconds since the zero time, never 0 in use; `zone` is the offset of the local time in
-- minutes, modulo a day, which Minute() and Hour() add and Truncate does not.
pub mod Ring
pub mod Rcodes
pub mod Snapshot
mod Examples
use hole_balancer.Base.{
  ℕ, zero, suc, ◌+◌, ◌-◌, ◌*◌, ◌/◌, ◌%◌, ◌^◌, String, Bool, true, false, List, [], ◌∷◌, Option,
  none, some, ltb, ◌==◌, str_eq, if◌then◌else◌, not, ◌&&◌,
}
use hole_balancer.Base.Tables.{find, put, erase, bump}
use hole_balancer.Pool.Types.{update}

pub record Record : Type 0 where
  pub proto : String
  pub qtype : String
  pub upstream : String
  pub endpoint : String
  pub rcode : String
  pub latency : ℕ
  pub attempts : ℕ
  pub fallback : Bool
  pub failed : Bool

pub record NodeStat : Type 0 where
  pub queries : ℕ
  pub failures : ℕ
  pub retries : ℕ
  pub latency_su : ℕ
  pub latency_n : ℕ
  pub last : ℕ

-- `at` is 0 where the bucket is unused.
pub record Bucket : Type 0 where
  pub at : ℕ
  pub queries : ℕ
  pub fallback : ℕ
  pub failed : ℕ
  pub blocked : ℕ

-- The two rings are functions of the slot.
pub record Collector : Type 0 where
  pub started : ℕ
  pub total : ℕ
  pub fallback : ℕ
  pub failed : ℕ
  pub retried : ℕ
  pub latency_su : ℕ
  pub latency_n : ℕ
  pub by_proto : List (String × ℕ)
  pub by_rcode : List (String × ℕ)
  pub by_qtype : List (String × ℕ)
  pub by_upstream : List (String × NodeStat)
  pub minutes : ℕ → Bucket
  pub hours : ℕ → Bucket

abbrev pub empty_bucket : ℕ → Bucket
empty_bucket start = record { at = start; queries = 0; fallback = 0; failed = 0; blocked = 0 }

abbrev pub new_node : NodeStat
new_node = record {
  queries = 0;
  failures = 0;
  retries = 0;
  latency_su = 0;
  latency_n = 0;
  last = 0;
}

pub new_collector : ℕ → Collector
new_collector now = record {
  started = now;
  total = 0;
  fallback = 0;
  failed = 0;
  retried = 0;
  latency_su = 0;
  latency_n = 0;
  by_proto = [];
  by_rcode = [];
  by_qtype = [];
  by_upstream = [];
  minutes = λ _. empty_bucket 0;
  hours = λ _. empty_bucket 0;
}

-- Reset: everything but the configuration, as at the start.
pub reset : ℕ → Collector → Collector
reset now c = new_collector now

-- An increment of a uint64.
abbrev pub next : ℕ → ℕ
next n = (n + 1) % 2 ^ 64

abbrev pub next_if : Bool → ℕ → ℕ
next_if b n = if b then next n else n

abbrev pub bump_if : String → List (String × ℕ) → List (String × ℕ)
bump_if key m = if str_eq key "" then m else bump key m

pub minute_index : ℕ → ℕ → ℕ
minute_index zone t = ((t / 60 + zone) % 60) % 60

pub hour_index : ℕ → ℕ → ℕ
hour_index zone t = (((t / 60 + zone) / 60) % 24) % 24

abbrev pub truncate : ℕ → ℕ → ℕ
truncate step t = t / step * step

pub add_to_bucket : Bucket → ℕ → Record → Bool → Bucket
add_to_bucket b start r blocked =
    let fresh = if b.at == start then b else empty_bucket start in
    record fresh {
      queries = next fresh.queries;
      fallback = next_if r.fallback fresh.fallback;
      failed = next_if r.failed fresh.failed;
      blocked = next_if blocked fresh.blocked;
    }

abbrev pub extra_attempts : Record → ℕ → ℕ
extra_attempts r n = if ltb 1 r.attempts then (n + (r.attempts - 1)) % 2 ^ 64 else n

pub count_node : ℕ → Record → NodeStat → NodeStat
count_node now r n = record n {
  queries = next n.queries;
  last = now;
  retries = extra_attempts r n.retries;
  latency_su = if ltb 0 r.latency then n.latency_su + r.latency else n.latency_su;
  latency_n = next_if (ltb 0 r.latency) n.latency_n;
}

pub count_upstream : ℕ → Record → List (String × NodeStat) → List (String × NodeStat)
count_upstream now r m = if str_eq r.upstream "" then m else elim (find r.upstream m) [
  | none ↦ put r.upstream (count_node now r new_node) m
  | some n ↦ put r.upstream (count_node now r n) m
]

-- One slot of a ring, written in place.
pub add_to_ring : (ℕ → Bucket) → ℕ → ℕ → Record → ℕ → Bucket
add_to_ring ring slot start r =
    update ring slot (add_to_bucket (ring slot) start r (str_eq r.rcode "NXDOMAIN"))

-- Collector.Record.
pub add_record : ℕ → ℕ → Record → Collector → Collector
add_record zone now r c = record c {
  total = next c.total;
  by_proto = bump_if r.proto c.by_proto;
  by_qtype = bump_if r.qtype c.by_qtype;
  by_rcode = bump_if r.rcode c.by_rcode;
  retried = extra_attempts r c.retried;
  latency_su = if ltb 0 r.latency then c.latency_su + r.latency else c.latency_su;
  latency_n = next_if (ltb 0 r.latency) c.latency_n;
  failed = next_if r.failed c.failed;
  fallback = next_if (not r.failed && r.fallback) c.fallback;
  by_upstream = count_upstream now r c.by_upstream;
  minutes = add_to_ring c.minutes (minute_index zone now) (truncate 60 now) r;
  hours = add_to_ring c.hours (hour_index zone now) (truncate 3600 now) r;
}

pub forget_upstream : String → Collector → Collector
forget_upstream name c = record c { by_upstream = erase name c.by_upstream }

-- One point of series: the bucket of the period that starts at `at`, where the slot holds it.
pub point : (ℕ → Bucket) → ℕ → ℕ → Bucket
point ring slot at = if (ring slot).at == at then ring slot else empty_bucket at

-- The loop of series: `n` periods, oldest first; `index` is minuteIndex or hourIndex.
pub series_from : (ℕ → Bucket) → (ℕ → ℕ) → ℕ → ℕ → ℕ → List Bucket
series_from ring index newest step zero = []
series_from ring index newest step (suc i) =
    let at = newest - i * step in point ring (index at) at ∷ series_from ring index newest step i

pub minute_series : ℕ → ℕ → Collector → List Bucket
minute_series zone now c = series_from c.minutes (minute_index zone) (truncate 60 now) 60 60

pub hour_series : ℕ → ℕ → Collector → List Bucket
hour_series zone now c = series_from c.hours (hour_index zone) (truncate 3600 now) 3600 24
