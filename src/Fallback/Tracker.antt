-- ===== src/Fallback/Tracker.antt =====
-- internal/fallback/fallback.go: Tracker. Times and durations are numbers of nanoseconds; the clock
-- is Go's monotonic clock, so the `now` of a call is an argument that is no earlier than the one of
-- the call before. `episodes` and the durations, signed 64-bit in Go, are taken not to overflow.
pub mod Verdict
pub mod Windows
mod Examples
use hole_balancer.Base.{
  ℕ, ◌+◌, ◌-◌, ◌%◌, ◌^◌, String, Bool, true, false, not, ◌&&◌, List, [], ◌∷◌, ltb, ◌==◌,
  if◌then◌else◌,
}
use hole_balancer.Base.Tables.{bump}

pub record Tracker : Type 0 where
  pub window_start : ℕ
  pub queries : ℕ
  pub failures : ℕ
  pub per_server : List (String × ℕ)
  pub episodes : ℕ
  pub total : ℕ
  pub longest : ℕ
  pub in_outage : Bool
  pub outage_start : ℕ

pub record Summary : Type 0 where
  pub start : ℕ
  pub end_at : ℕ
  pub queries : ℕ
  pub failures : ℕ
  pub per_server : List (String × ℕ)
  pub episodes : ℕ
  pub total_outage : ℕ
  pub longest_outage : ℕ
  pub ongoing : Bool

pub new_tracker : ℕ → Tracker
new_tracker now = record {
  window_start = now;
  queries = 0;
  failures = 0;
  per_server = [];
  episodes = 0;
  total = 0;
  longest = 0;
  in_outage = false;
  outage_start = 0;
}

pub add_outage_locked : ℕ → Tracker → Tracker
add_outage_locked d t = record t {
  total = t.total + d;
  longest = if ltb t.longest d then d else t.longest;
}

pub observe : ℕ → Bool → Tracker → Tracker
observe now all_down t =
    if all_down && not t.in_outage
    then record t { in_outage = true; outage_start = now; episodes = t.episodes + 1 }
    else if not all_down && t.in_outage
    then add_outage_locked (now - t.outage_start) (record t { in_outage = false })
    else t

pub record_query : String → Bool → Tracker → Tracker
record_query server ok t =
    if ok
    then record t { queries = (t.queries + 1) % 2 ^ 64; per_server = bump server t.per_server }
    else record t { queries = (t.queries + 1) % 2 ^ 64; failures = (t.failures + 1) % 2 ^ 64 }

pub is_empty : Summary → Bool
is_empty s = (s.queries == 0) && (s.episodes == 0) && not s.ongoing

-- The outage that is still in progress is counted so far.
pub snapshot_locked : ℕ → Tracker → Summary
snapshot_locked now t =
    let d = now - t.outage_start in
    record {
      start = t.window_start;
      end_at = now;
      queries = t.queries;
      failures = t.failures;
      per_server = t.per_server;
      episodes = t.episodes;
      total_outage = if t.in_outage then t.total + d else t.total;
      longest_outage =
          if t.in_outage then (if ltb t.longest d then d else t.longest) else t.longest;
      ongoing = t.in_outage;
    }

-- `take` of the source: the summary of the window, and a tracker that starts the next one.
pub take_window : ℕ → Tracker → Tracker × Summary
take_window now t = (
  record t {
    window_start = now;
    queries = 0;
    failures = 0;
    per_server = [];
    episodes = if t.in_outage then 1 else 0;
    total = 0;
    longest = 0;
    outage_start = if t.in_outage then now else t.outage_start;
  },
  snapshot_locked now t,
)

-- Report: the tracker after it, and the summary that it logs, if any.
pub report : ℕ → Tracker → Tracker × List Summary
report now t =
    let s = (take_window now t).1 in ((take_window now t).0, if is_empty s then [] else s ∷ [])
