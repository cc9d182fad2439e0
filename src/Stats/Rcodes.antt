-- ===== src/Stats/Rcodes.antt =====
-- The totals of the collector after any history of records.
use hole_balancer.Base.{
  ℕ, ◌+◌, ◌%◌, ◌^◌, ◌<◌, ◌≡◌, refl, String, false, List, [], ◌∷◌, str_eq, length, if◌then◌else◌,
  arith, Bool-cases, inl, inr, eq_iff,
}
use hole_balancer.Base.Tables.{tally_of, tally_of-bump, tally_of-bump_other}
use hole_balancer.Stats.{Record, Collector, new_collector, add_record, bump_if}
use hole_balancer.Stats.Ring.{run}

-- The records that carry a code.
abbrev pub rcode_count : String → List (ℕ × Record) → ℕ
rcode_count code [] = 0
rcode_count code ((now, r) ∷ rest) =
    let later = rcode_count code rest in if str_eq r.rcode code then 1 + later else later

tally_of-bump_if :
    (key code : String) (m : List (String × ℕ))
    → str_eq code "" ≡ false
    → tally_of code (bump_if key m)
      ≡ (if str_eq key code then (tally_of code m + 1) % 2 ^ 64 else tally_of code m)
tally_of-bump_if key code m n = elim (Bool-cases (str_eq key code)) [
  | inl hit ↦
      let same : key ≡ code = (eq_iff key code).0 hit in
      rw (hit, same) (rw n (tally_of-bump code m))
  | inr miss ↦ elim (Bool-cases (str_eq key "")) [
    | inl unnamed ↦ rw (miss, unnamed) refl
    | inr given ↦ rw (miss, given) (tally_of-bump_other key code m miss)
  ]
]

run-rcode :
    (zone : ℕ) (code : String) (recs : List (ℕ × Record)) (c : Collector)
    → str_eq code "" ≡ false
    → tally_of code c.by_rcode < 2 ^ 64
    → tally_of code (run zone recs c).by_rcode
      ≡ (tally_of code c.by_rcode + rcode_count code recs) % 2 ^ 64
unfolding add_record
run-rcode zone code [] c n small = omega arith
run-rcode zone code ((now, r) ∷ rest) c n small =
    let step = tally_of-bump_if r.rcode code c.by_rcode n in
    let ih = run-rcode zone code rest (add_record zone now r c) n (ground (arith, step)) in
    elim (Bool-cases (str_eq r.rcode code)) [
      | inl hit ↦ let s = rw hit at step in rw hit (omega (arith, ih, s))
      | inr miss ↦ let s = rw miss at step in rw miss (omega (arith, ih, s))
    ]

run-total :
    (zone : ℕ) (recs : List (ℕ × Record)) (c : Collector)
    → c.total < 2 ^ 64
    → (run zone recs c).total ≡ (c.total + length recs) % 2 ^ 64
unfolding add_record
run-total zone [] c small = omega arith
run-total zone ((now, r) ∷ rest) c small =
    omega (arith, run-total zone rest (add_record zone now r c) (omega arith))

-- From a new collector and any history of records: the total is the number of records, and the
-- tally of a named response code is the number of records that carry it, both in uint64.
pub run-tallies :
    (zone start : ℕ) (code : String) (recs : List (ℕ × Record))
    → str_eq code "" ≡ false
    → let c = run zone recs (new_collector start) in
      (c.total ≡ length recs % 2 ^ 64) × (tally_of code c.by_rcode ≡ rcode_count code recs % 2 ^ 64)
unfolding new_collector
run-tallies zone start code recs n = (
  omega (arith, run-total zone recs (new_collector start) (omega arith)),
  omega (arith, run-rcode zone code recs (new_collector start) n (omega arith)),
)
