-- ===== src/Fallback/Tracker/Windows.antt =====
-- What the reports of a tracker add up to, over any sequence of calls.
use hole_balancer.Base.{
  ℕ, ◌+◌, ◌-◌, ◌%◌, ◌^◌, ◌≤◌, ◌<◌, ◌++◌, ◌≡◌, refl, String, Bool, true, false, List, [], ◌∷◌, All,
  All-append, ap, if◌then◌else◌, arith, Bool-cases, inl, inr,
}
use hole_balancer.Fallback.Tracker.{
  Tracker, Summary, new_tracker, observe, add_outage_locked, record_query, snapshot_locked,
  take_window, is_empty, report,
}
use hole_balancer.Fallback.Tracker.Verdict.{observe-verdict}
use hole_balancer.Base.Counting.{sum_of, sum_of-append}

-- A call of the tracker that carries its time.
pub data Call : Type 0 where
  observed : Bool → Call
  asked : String → Bool → Call
  reported : Call

pub step : Tracker → ℕ → Call → Tracker × List Summary
step t now (observed all_down) = (observe now all_down t, [])
step t now (asked server ok) = (record_query server ok t, [])
step t now reported = report now t

-- The summaries that a history of timed calls logs, and the one of a snapshot at its end.
pub logged : Tracker → List (ℕ × Call) → ℕ → List Summary
logged t [] finish = snapshot_locked finish t ∷ []
logged t ((now, c) ∷ rest) finish = (step t now c).1 ++ logged (step t now c).0 rest finish

-- The times of a history that starts at `from` and is over at `finish` do not decrease.
abbrev pub IsTimed : ℕ → List (ℕ × Call) → ℕ → Type 0
IsTimed from [] finish = from ≤ finish
IsTimed from ((now, c) ∷ rest) finish = (from ≤ now) × IsTimed now rest finish

-- Whether everything is down after a call.
abbrev pub verdict : Bool → Call → Bool
verdict down (observed all_down) = all_down
verdict down (asked server ok) = down
verdict down reported = down

-- The time for which everything is down: the sum of the gaps between calls that the verdict before
-- them covers.
abbrev pub down_time : Bool → ℕ → List (ℕ × Call) → ℕ → ℕ
down_time down from [] finish = if down then finish - from else 0
down_time down from ((now, c) ∷ rest) finish =
    (if down then now - from else 0) + down_time (verdict down c) now rest finish

-- The queries of a history.
abbrev pub asked_of : List (ℕ × Call) → ℕ
asked_of [] = 0
asked_of ((now, asked server ok) ∷ rest) = 1 + asked_of rest
asked_of ((now, observed d) ∷ rest) = asked_of rest
asked_of ((now, reported) ∷ rest) = asked_of rest

-- What a tracker would report at a time.
so_far : Tracker → ℕ → ℕ
so_far t now = if t.in_outage then t.total + (now - t.outage_start) else t.total

-- What holds of a tracker between calls: no outage has begun in the future, and a window without
-- an episode has no outage time.
record IsStarted (t : Tracker) (now : ℕ) : Type 0 where
  begun : t.in_outage ≡ true → t.outage_start ≤ now
  counted : t.episodes ≡ 0 → t.total ≡ 0
  flagged : t.in_outage ≡ true → 0 < t.episodes
  bounded : t.longest ≤ t.total

module _ (t : Tracker) (from now : ℕ) (s : IsStarted t from) (le : from ≤ now) where
  so_far-later : so_far t now ≡ so_far t from + (if t.in_outage then now - from else 0)
  unfolding so_far
  so_far-later = ground (arith, s.begun)

  observe-so_far : (d : Bool) → so_far (observe now d t) now ≡ so_far t now
  unfolding so_far observe add_outage_locked
  observe-so_far true = ground (arith, s.begun)
  observe-so_far false = ground (arith, s.begun)

  report-so_far :
      so_far (report now t).0 now + sum_of (λ r. r.total_outage) (report now t).1 ≡ so_far t now
  unfolding so_far report take_window snapshot_locked is_empty
  report-so_far = ground (arith, s.begun, s.counted)

  observe-IsStarted : (d : Bool) → IsStarted (observe now d t) now
  unfolding observe add_outage_locked
  observe-IsStarted true = record {
    begun = ground (arith, s.begun);
    counted = ground (arith, s.counted, s.begun);
    flagged = ground (arith, s.flagged);
    bounded = ground (arith, s.bounded);
  }
  observe-IsStarted false = record {
    begun = ground (arith, s.begun);
    counted = ground (arith, s.counted, s.flagged);
    flagged = ground (arith, s.flagged);
    bounded = ground (arith, s.bounded);
  }

  record_query-IsStarted : (server : String) (ok : Bool) → IsStarted (record_query server ok t) now
  unfolding record_query
  record_query-IsStarted server true = record {
    begun = ground (arith, s.begun);
    counted = s.counted;
    flagged = s.flagged;
    bounded = s.bounded;
  }
  record_query-IsStarted server false = record {
    begun = ground (arith, s.begun);
    counted = s.counted;
    flagged = s.flagged;
    bounded = s.bounded;
  }

  report-IsStarted : IsStarted (report now t).0 now
  unfolding report take_window
  report-IsStarted = record {
    begun = ground arith;
    counted = ground arith;
    flagged = ground arith;
    bounded = ground arith;
  }

  step-IsStarted : (c : Call) → IsStarted (step t now c).0 now
  unfolding step
  step-IsStarted (observed d) = observe-IsStarted d
  step-IsStarted (asked server ok) = record_query-IsStarted server ok
  step-IsStarted reported = report-IsStarted

  step-verdict : (c : Call) → (step t now c).0.in_outage ≡ verdict t.in_outage c
  unfolding step report take_window record_query
  step-verdict (observed d) = observe-verdict now d t
  step-verdict (asked server true) = refl
  step-verdict (asked server false) = refl
  step-verdict reported = refl

  step-so_far :
      (c : Call)
      → so_far (step t now c).0 now + sum_of (λ r. r.total_outage) (step t now c).1
        ≡ so_far t from + (if t.in_outage then now - from else 0)
  unfolding step record_query so_far
  step-so_far (observed d) = omega (arith, observe-so_far d, so_far-later)
  step-so_far (asked server true) = omega (arith, so_far-later)
  step-so_far (asked server false) = omega (arith, so_far-later)
  step-so_far reported = omega (arith, report-so_far, so_far-later)

logged-so_far :
    (t : Tracker) (from : ℕ) (calls : List (ℕ × Call)) (finish : ℕ)
    → IsStarted t from
    → IsTimed from calls finish
    → sum_of (λ r. r.total_outage) (logged t calls finish)
      ≡ so_far t from + down_time t.in_outage from calls finish
unfolding logged so_far snapshot_locked
logged-so_far t from [] finish s h = ground (arith, s.begun)
logged-so_far t from ((now, c) ∷ rest) finish s h =
    let next = (step t now c).0 in
    omega (
      arith,
      sum_of-append (λ r. r.total_outage) (step t now c).1 (logged next rest finish),
      step-so_far t from now s h.0 c,
      logged-so_far next now rest finish (step-IsStarted t from now s h.0 c) h.1,
      ap (λ b. down_time b now rest finish) (step-verdict t from now s h.0 c),
    )

new_tracker-IsStarted : (now : ℕ) → IsStarted (new_tracker now) now
unfolding new_tracker
new_tracker-IsStarted now = record {
  begun = λ e. cc;
  counted = λ e. refl;
  flagged = λ e. cc;
  bounded = omega arith;
}

-- From a new tracker, over any sequence of calls of Observe, RecordQuery and Report whose times do
-- not decrease, the outage durations of the logged summaries and of a last snapshot add up to the
-- time for which everything was down: no part of an outage that spans reports is lost or counted
-- twice, and a window that Report drops as quiet had no outage in it.
pub logged-down_time :
    (start : ℕ) (calls : List (ℕ × Call)) (finish : ℕ)
    → IsTimed start calls finish
    → sum_of (λ r. r.total_outage) (logged (new_tracker start) calls finish)
      ≡ down_time false start calls finish
unfolding so_far new_tracker
logged-down_time start calls finish h =
    omega
      (arith, logged-so_far (new_tracker start) start calls finish (new_tracker-IsStarted start) h)

report-longest :
    (t : Tracker) (from now : ℕ)
    → IsStarted t from
    → All (λ r. r.longest_outage ≤ r.total_outage) (report now t).1
unfolding report take_window snapshot_locked
report-longest t from now s = ground (arith, s.bounded)

step-longest :
    (t : Tracker) (from now : ℕ) (c : Call)
    → IsStarted t from
    → All (λ r. r.longest_outage ≤ r.total_outage) (step t now c).1
unfolding step
step-longest t from now (observed d) s = tt
step-longest t from now (asked server ok) s = tt
step-longest t from now reported s = report-longest t from now s

logged-longest_lem :
    (t : Tracker) (from : ℕ) (calls : List (ℕ × Call)) (finish : ℕ)
    → IsStarted t from
    → IsTimed from calls finish
    → All (λ r. r.longest_outage ≤ r.total_outage) (logged t calls finish)
unfolding logged snapshot_locked
logged-longest_lem t from [] finish s h = (ground (arith, s.bounded), tt)
logged-longest_lem t from ((now, c) ∷ rest) finish s h =
    All-append (λ r. r.longest_outage ≤ r.total_outage) (step t now c).1
      (logged (step t now c).0 rest finish) (step-longest t from now c s)
      (logged-longest_lem (step t now c).0 now rest finish (step-IsStarted t from now s h.0 c) h.1)

logged-queries :
    (t : Tracker) (calls : List (ℕ × Call)) (finish : ℕ)
    → sum_of (λ r. r.queries) (logged t calls finish) % 2 ^ 64
      ≡ (t.queries + asked_of calls) % 2 ^ 64
unfolding logged snapshot_locked step observe add_outage_locked record_query report take_window
    is_empty
logged-queries t [] finish = omega arith
logged-queries t ((now, observed d) ∷ rest) finish =
    ground (arith, logged-queries (observe now d t) rest finish)
logged-queries t ((now, asked server true) ∷ rest) finish =
    omega (arith, logged-queries (record_query server true t) rest finish)
logged-queries t ((now, asked server false) ∷ rest) finish =
    omega (arith, logged-queries (record_query server false t) rest finish)
logged-queries t ((now, reported) ∷ rest) finish =
    ground (arith, logged-queries (report now t).0 rest finish)

-- From a new tracker, over any sequence of calls whose times do not decrease: the query counts of
-- the logged summaries and of a last snapshot add up, in uint64, to the calls of RecordQuery, and
-- no summary's longest outage is longer than its total.
pub logged-totals :
    (start : ℕ) (calls : List (ℕ × Call)) (finish : ℕ)
    → IsTimed start calls finish
    → (sum_of (λ r. r.queries) (logged (new_tracker start) calls finish) % 2 ^ 64
        ≡ asked_of calls % 2 ^ 64)
      × All (λ r. r.longest_outage ≤ r.total_outage) (logged (new_tracker start) calls finish)
unfolding new_tracker
logged-totals start calls finish h = (
  omega (arith, logged-queries (new_tracker start) calls finish),
  logged-longest_lem (new_tracker start) start calls finish (new_tracker-IsStarted start) h,
)

-- A second Observe of the same verdict, at any time, changes nothing.
pub observe-idempotent :
    (now later : ℕ) (d : Bool) (t : Tracker) → observe later d (observe now d t) ≡ observe now d t
unfolding observe add_outage_locked
observe-idempotent now later true t = elim (Bool-cases t.in_outage) [ inl e ↦ rw e | inr e ↦ rw e ]
observe-idempotent now later false t = elim (Bool-cases t.in_outage) [ inl e ↦ rw e | inr e ↦ rw e ]
