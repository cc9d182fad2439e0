-- ===== src/Stats/Ring.antt =====
-- What the ring of minutes holds after any history of records.
use hole_balancer.Base.{
  ℕ, zero, suc, ◌+◌, ◌-◌, ◌*◌, ◌%◌, ◌^◌, ◌≤◌, ◌<◌, ◌≡◌, refl, List, [], ◌∷◌, ◌==◌, if◌then◌else◌,
  arith, Bool-cases, inl, inr, map,
}
use hole_balancer.Stats.{
  Record, Collector, new_collector, add_record, add_to_ring, add_to_bucket, point, minute_index,
  truncate, minute_series, series_from,
}

-- A history of timed records.
abbrev pub run : ℕ → List (ℕ × Record) → Collector → Collector
run zone [] c = c
run zone ((now, r) ∷ rest) c = run zone rest (add_record zone now r c)

-- Times do not decrease from `from`, and stay below `limit`.
abbrev pub IsTimed : ℕ → List (ℕ × Record) → ℕ → Type 0
IsTimed from [] limit = from ≤ limit
IsTimed from ((now, r) ∷ rest) limit = (from ≤ now) × IsTimed now rest limit

-- The records of the minute that starts at a time.
abbrev pub minute_count : ℕ → List (ℕ × Record) → ℕ
minute_count at [] = 0
minute_count at ((now, r) ∷ rest) =
    let later = minute_count at rest in if truncate 60 now == at then 1 + later else later

-- What series reads for a minute.
abbrev shown : ℕ → ℕ → Collector → ℕ
shown zone at c = (point c.minutes (minute_index zone at) at).queries

-- The slot of a minute does not hold it before it has come.
abbrev IsPast : ℕ → ℕ → ℕ → Collector → Type 0
IsPast zone at from c = (c.minutes (minute_index zone at)).at ≡ at → at ≤ from

module _ (zone at now : ℕ) (r : Record) (c : Collector) (whole : at % 60 ≡ 0)
    (fits : now < at + 3600) where
  add_record-IsPast :
      (from : ℕ) → from ≤ now → IsPast zone at from c → IsPast zone at now (add_record zone now r c)
  unfolding add_record add_to_ring add_to_bucket minute_index
  add_record-IsPast from le past = ground (arith, past)

  add_record-shown :
      (from : ℕ)
      → from ≤ now
      → IsPast zone at from c
      → shown zone at (add_record zone now r c)
        ≡ (if truncate 60 now == at then (shown zone at c + 1) % 2 ^ 64 else shown zone at c)
  unfolding add_record add_to_ring add_to_bucket minute_index point
  add_record-shown from le past = ground (arith, past)

IsTimed-le :
    (from : ℕ) (recs : List (ℕ × Record)) (limit : ℕ) → IsTimed from recs limit → from ≤ limit
IsTimed-le from [] limit h = h
IsTimed-le from ((now, r) ∷ rest) limit h = omega (arith, h.0, IsTimed-le now rest limit h.1)

run-shown :
    (zone at from : ℕ) (recs : List (ℕ × Record)) (limit : ℕ) (c : Collector)
    → at % 60 ≡ 0
    → limit < at + 3600
    → IsTimed from recs limit
    → IsPast zone at from c
    → shown zone at c < 2 ^ 64
    → shown zone at (run zone recs c) ≡ (shown zone at c + minute_count at recs) % 2 ^ 64
run-shown zone at from [] limit c whole fits timed past small = omega arith
run-shown zone at from ((now, r) ∷ rest) limit c whole fits timed past small =
    let soon : now < at + 3600 = omega (arith, IsTimed-le now rest limit timed.1) in
    let step = add_record-shown zone at now r c whole soon from timed.0 past in
    let ih =
      run-shown zone at now rest limit (add_record zone now r c) whole fits timed.1
        (add_record-IsPast zone at now r c whole soon from timed.0 past) (ground (arith, step)) in
    elim (Bool-cases (truncate 60 now == at)) [
      | inl hit ↦ let s = rw hit at step in rw hit (omega (arith, ih, s))
      | inr miss ↦ let s = rw miss at step in rw miss (omega (arith, ih, s))
    ]

-- The points of `n` minutes up to the newest, counted from the history itself.
abbrev pub minute_counts : List (ℕ × Record) → ℕ → ℕ → List ℕ
minute_counts recs newest zero = []
minute_counts recs newest (suc i) =
    (minute_count (newest - i * 60) recs % 2 ^ 64) ∷ minute_counts recs newest i

new_collector-shown : (zone at start : ℕ) → shown zone at (new_collector start) ≡ 0
unfolding new_collector point
new_collector-shown zone at start = ground arith

new_collector-IsPast : (zone at start : ℕ) → IsPast zone at start (new_collector start)
unfolding new_collector
new_collector-IsPast zone at start e = omega (arith, e)

cons_eq : {a b : ℕ} {xs ys : List ℕ} → a ≡ b → xs ≡ ys → a ∷ xs ≡ b ∷ ys
cons_eq e f = rw (e, f)

series_from-counts :
    (zone start now : ℕ) (recs : List (ℕ × Record)) (n : ℕ)
    → IsTimed start recs now
    → n ≤ 60
    → 3600 ≤ now
    → map
        (λ b. b.queries)
        (series_from
          (run zone recs (new_collector start)).minutes
          (minute_index zone)
          (truncate 60 now)
          60
          n)
      ≡ minute_counts recs (truncate 60 now) n
unfolding series_from
series_from-counts zone start now recs zero timed few late = refl
series_from-counts zone start now recs (suc i) timed few late =
    let at = truncate 60 now - i * 60 in
    let empty = new_collector-shown zone at start in
    let here =
      run-shown zone at start recs now (new_collector start) (omega arith) (omega arith) timed
        (new_collector-IsPast zone at start) (omega (arith, empty)) in
    cons_eq (omega (arith, here, empty))
      (series_from-counts zone start now recs i timed (omega arith) late)

-- From a new collector and any history of records whose times do not decrease, in any time zone:
-- the sixty points of the last hour count, for each minute, the records of that minute, in uint64,
-- though a slot of the ring serves many minutes.
pub minute_series-run :
    (zone start now : ℕ) (recs : List (ℕ × Record))
    → IsTimed start recs now
    → 3600 ≤ now
    → map (λ b. b.queries) (minute_series zone now (run zone recs (new_collector start)))
      ≡ minute_counts recs (truncate 60 now) 60
unfolding minute_series
minute_series-run zone start now recs timed late =
    series_from-counts zone start now recs 60 timed (omega arith) late
