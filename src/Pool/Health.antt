-- ===== src/Pool/Health.antt =====
-- internal/pool/pool.go: ReportProbe, ReportQuery, record and SetInitial. The clock, the measured
-- latency and the float64 arithmetic of the moving average (`mix old sample`) are arguments. The
-- functions take a call whole. The source stores `up` and calls back after it has unlocked the
-- endpoint, so what a call that overlaps another one on the same endpoint does is not covered. The
-- state change callback gets what the call returns beside the pool.
pub mod Streak
pub mod Frame
mod Examples
pub mod Keep
pub mod Silent
pub mod Local
use hole_balancer.Base.{
  ℕ, ◌+◌, ◌%◌, ◌^◌, String, Bool, true, false, not, ◌&&◌, Option, none, some, ltb, leb, ◌==◌,
  if◌then◌else◌,
}
use hole_balancer.Pool.Types.{Endpoint, Pool, update}

-- What onChange is called with.
pub record Change : Type 0 where
  pub endpoint : ℕ
  pub up : Bool
  pub reason : String

-- The new moving average.
pub sample : (ℕ → ℕ → ℕ) → Bool → ℕ → Endpoint → Endpoint
sample mix ok latency e =
    if ok && ltb 0 latency
    then record e {
      latency_ewma = if e.latency_ewma == 0 then latency else mix e.latency_ewma latency;
    }
    else e

-- The two streak counters and the last error.
pub tally : Bool → Option String → Endpoint → Endpoint
tally true error e = record e { failures = 0; successes = e.successes + 1 }
tally false none e = record e { successes = 0; failures = e.failures + 1 }
tally false (some text) e = record e { successes = 0; failures = e.failures + 1; last_err = text }

-- Whether the counters move the endpoint, and the reason that is reported.
pub flip : ℕ → ℕ → Bool → Endpoint → Option (Bool × String)
flip rise fall true e = if not e.up && leb rise e.successes then some (true, "recovered") else none
flip rise fall false e = if e.up && leb fall e.failures then some (false, e.last_err) else none

pub apply : ℕ → Option (Bool × String) → Endpoint → Endpoint
apply now none e = e
apply now (some (true, reason)) e = record e { last_change = some now; last_err = ""; up = true }
apply now (some (false, reason)) e = record e { last_change = some now; up = false }

-- The part of record that moves the health verdict.
pub judge : ℕ → ℕ → Bool → Option String → ℕ → Endpoint → Endpoint × Option (Bool × String)
judge rise fall ok error now e =
    let t = tally ok error e in (apply now (flip rise fall ok t) t, flip rise fall ok t)

abbrev to_change : ℕ → Option (Bool × String) → Option Change
to_change e none = none
to_change e (some (up, reason)) = some (record { endpoint = e; up = up; reason = reason })

-- record, on the endpoint that `e` points to.
pub record_outcome :
    (ℕ → ℕ → ℕ) → Pool → ℕ → Bool → ℕ → Option String → Bool → ℕ → Pool × Option Change
record_outcome mix p e ok latency error affects_health now =
    let measured = sample mix ok latency (p.endpoint e) in
    let judged = judge p.rise p.fall ok error now measured in
    if affects_health
    then (record p { endpoint = update p.endpoint e judged.0 }, to_change e judged.1)
    else (record p { endpoint = update p.endpoint e measured }, none)

pub report_probe : (ℕ → ℕ → ℕ) → Pool → ℕ → Bool → ℕ → Option String → ℕ → Pool × Option Change
report_probe mix p e ok latency error now = record_outcome mix p e ok latency error true now

pub count_query : Bool → Endpoint → Endpoint
count_query ok e = record e {
  total_queries = (e.total_queries + 1) % 2 ^ 64;
  total_fails = if ok then e.total_fails else (e.total_fails + 1) % 2 ^ 64;
}

pub report_query : (ℕ → ℕ → ℕ) → Pool → ℕ → Bool → ℕ → Option String → ℕ → Pool × Option Change
report_query mix p e ok latency error now =
    record_outcome mix (record p { endpoint = update p.endpoint e (count_query ok (p.endpoint e)) })
      e ok latency error p.passive now

-- The first verdict, past the thresholds.
pub initial : ℕ → ℕ → Bool → ℕ → Option String → ℕ → Endpoint → Endpoint
initial rise fall true latency error now e = record e {
  successes = rise;
  failures = 0;
  latency_ewma = latency;
  last_err = "";
  last_change = some now;
  up = true;
}
initial rise fall false latency none now e = record e {
  successes = 0;
  failures = fall;
  last_change = some now;
  up = false;
}
initial rise fall false latency (some text) now e = record e {
  successes = 0;
  failures = fall;
  last_err = text;
  last_change = some now;
  up = false;
}

abbrev initial_reason : Bool → Option String → String
initial_reason false (some text) = text
initial_reason _ _ = "initial probe"

abbrev pub same_bool : Bool → Bool → Bool
same_bool true b = b
same_bool false b = not b

pub set_initial : Pool → ℕ → Bool → ℕ → Option String → ℕ → Pool × Option Change
set_initial p e up latency error now = (
  record p {
    endpoint = update p.endpoint e (initial p.rise p.fall up latency error now (p.endpoint e));
  },
  if same_bool (p.endpoint e).up up
      then none
      else some (record { endpoint = e; up = up; reason = initial_reason up error }),
)
