-- ===== src/Fallback/Tracker/Examples.antt =====
-- Tests of the fallback tracker: an outage of 30 that a report at 20 cuts in two.
use hole_balancer.Base.{ℕ, ◌≡◌, refl, ◌≤◌, ◌%◌, ◌^◌, List, [], ◌∷◌, true, false, All, arith}
use hole_balancer.Base.Counting.{sum_of}
use hole_balancer.Fallback.Tracker.{new_tracker}
use hole_balancer.Fallback.Tracker.Windows.{
  Call, observed, asked, reported, logged, IsTimed, down_time, asked_of, logged-down_time,
  logged-totals,
}

abbrev long_night : List (ℕ × Call)
long_night =
    (10, observed true)
    ∷ (15, asked "1.1.1.1" true)
    ∷ (20, reported)
    ∷ (25, observed true)
    ∷ (40, observed false)
    ∷ (50, reported)
    ∷ (60, asked "9.9.9.9" false)
    ∷ []

long_night-IsTimed : IsTimed 5 long_night 70
long_night-IsTimed = ground arith

long_night-down_time : down_time false 5 long_night 70 ≡ 30
long_night-down_time = refl

logged-down_time_example :
    sum_of (λ r. r.total_outage) (logged (new_tracker 5) long_night 70)
    ≡ down_time false 5 long_night 70
logged-down_time_example = logged-down_time 5 long_night 70 long_night-IsTimed

logged-totals_example :
    (sum_of (λ r. r.queries) (logged (new_tracker 5) long_night 70) % 2 ^ 64
      ≡ asked_of long_night % 2 ^ 64)
    × All (λ r. r.longest_outage ≤ r.total_outage) (logged (new_tracker 5) long_night 70)
logged-totals_example = logged-totals 5 long_night 70 long_night-IsTimed
