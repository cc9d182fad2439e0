-- ===== src/Metrics/Totals.antt =====
-- What the counters and the histogram hold after any sequence of calls.
use hole_balancer.Base.{
  ℕ, ◌+◌, ◌%◌, ◌^◌, ◌≤◌, ◌<◌, ◌≡◌, refl, ◌∙◌, ap, String, List, [], ◌∷◌, map, Option, none, some,
  leb, str_eq, if◌then◌else◌, arith, Bool-cases, inl, inr, eq_iff, length,
}
use hole_balancer.Base.Tables.{find, find-put, find-put_other}
use hole_balancer.Metrics.{
  Label, Series, CounterVec, new_counter_vec, label_key, grown, add_counter, counter_value,
  Histogram, new_histogram, fill_buckets, observe_seconds,
}

-- A sequence of calls of Add.
abbrev pub add_all : List (ℕ × List Label) → CounterVec → CounterVec
add_all [] c = c
add_all ((n, labels) ∷ calls) c = add_all calls (add_counter n labels c)

-- What the calls add under one key.
abbrev pub added : String → List (ℕ × List Label) → ℕ
added key [] = 0
added key ((n, labels) ∷ calls) =
    let later = added key calls in if str_eq (label_key labels) key then n + later else later

abbrev or_zero : Option Series → ℕ
or_zero none = 0
or_zero (some s) = s.value

grown-value :
    (n : ℕ) (labels : List Label) (o : Option Series)
    → (grown n labels o).value ≡ (or_zero o + n) % 2 ^ 64
unfolding grown
grown-value n labels none = omega arith
grown-value n labels (some s) = refl

abbrev value_at : String → CounterVec → ℕ
value_at key c = or_zero (find key c.series)

add_counter-value :
    (n : ℕ) (labels : List Label) (c : CounterVec) (key : String)
    → value_at key c < 2 ^ 64
    → value_at key (add_counter n labels c)
      ≡ (if str_eq (label_key labels) key then (value_at key c + n) % 2 ^ 64 else value_at key c)
unfolding add_counter
add_counter-value n labels c key small =
    let new = grown n labels (find (label_key labels) c.series) in
    elim (Bool-cases (str_eq (label_key labels) key)) [
      | inl hit ↦
          let same = (eq_iff (label_key labels) key).0 hit in
          rw (hit, same)
            (ap or_zero (find-put key (grown n labels (find key c.series)) c.series)
              ∙ grown-value n labels (find key c.series))
      | inr miss ↦ rw miss (ap or_zero (find-put_other (label_key labels) key new c.series miss))
    ]

add_all-value :
    (calls : List (ℕ × List Label)) (c : CounterVec) (key : String)
    → value_at key c < 2 ^ 64
    → value_at key (add_all calls c) ≡ (value_at key c + added key calls) % 2 ^ 64
add_all-value [] c key small = omega arith
add_all-value ((n, labels) ∷ calls) c key small =
    let one = add_counter-value n labels c key small in
    let ih = add_all-value calls (add_counter n labels c) key (ground (arith, one)) in
    elim (Bool-cases (str_eq (label_key labels) key)) [
      | inl hit ↦ let s = rw hit at one in rw hit (omega (arith, ih, s))
      | inr miss ↦ let s = rw miss at one in rw miss (omega (arith, ih, s))
    ]

-- After any calls of Add on a new counter, the value of a label set is the sum, as a uint64, of what
-- was added under its key.
pub counter_value-add_all :
    (name help : String) (calls : List (ℕ × List Label)) (labels : List Label)
    → counter_value labels (add_all calls (new_counter_vec name help))
      ≡ added (label_key labels) calls % 2 ^ 64
unfolding counter_value new_counter_vec
counter_value-add_all name help calls labels =
    omega (arith, add_all-value calls (new_counter_vec name help) (label_key labels) (omega arith))

-- A sequence of samples.
abbrev pub observe_all : (ℕ → ℕ) → List ℕ → Histogram → Histogram
observe_all micro [] h = h
observe_all micro (s ∷ samples) h = observe_all micro samples (observe_seconds micro s h)

-- The samples that are no larger than a bound.
abbrev pub at_most : List ℕ → ℕ → ℕ
at_most [] b = 0
at_most (s ∷ samples) b = let later = at_most samples b in if leb s b then 1 + later else later

abbrev wrapped : (ℕ → ℕ) → List ℕ → List ℕ
wrapped g bounds = map (λ b. g b % 2 ^ 64) bounds

cons_eq : {a b : ℕ} {xs ys : List ℕ} → a ≡ b → xs ≡ ys → a ∷ xs ≡ b ∷ ys
cons_eq e f = rw (e, f)

fill_buckets-wrapped :
    (g : ℕ → ℕ) (s : ℕ) (bounds : List ℕ)
    → fill_buckets s bounds (wrapped g bounds)
      ≡ wrapped (λ b. g b + (if leb s b then 1 else 0)) bounds
unfolding fill_buckets
fill_buckets-wrapped g s [] = refl
fill_buckets-wrapped g s (b ∷ bounds) = cons_eq (ground arith) (fill_buckets-wrapped g s bounds)

wrapped_congr :
    (f g : ℕ → ℕ) (bounds : List ℕ) → ((b : ℕ) → f b ≡ g b) → wrapped f bounds ≡ wrapped g bounds
wrapped_congr f g [] h = refl
wrapped_congr f g (b ∷ bounds) h = cons_eq (ap (λ n. n % 2 ^ 64) (h b)) (wrapped_congr f g bounds h)

observe_all-buckets :
    (micro : ℕ → ℕ) (samples : List ℕ) (h : Histogram) (g : ℕ → ℕ)
    → h.buckets ≡ wrapped g h.bounds
    → (observe_all micro samples h).buckets ≡ wrapped (λ b. g b + at_most samples b) h.bounds
unfolding observe_seconds
observe_all-buckets micro [] h g e = e ∙ wrapped_congr g (λ b. g b + 0) h.bounds (λ b. omega arith)
observe_all-buckets micro (s ∷ samples) h g e =
    observe_all-buckets micro samples (observe_seconds micro s h)
      (λ b. g b + (if leb s b then 1 else 0))
      (ap (fill_buckets s h.bounds) e ∙ fill_buckets-wrapped g s h.bounds)
    ∙ wrapped_congr (λ b. g b + (if leb s b then 1 else 0) + at_most samples b)
        (λ b. g b + at_most (s ∷ samples) b) h.bounds (λ b. ground arith)

observe_all-count :
    (micro : ℕ → ℕ) (samples : List ℕ) (h : Histogram)
    → h.count < 2 ^ 64
    → (observe_all micro samples h).count ≡ (h.count + length samples) % 2 ^ 64
unfolding observe_seconds
observe_all-count micro [] h small = omega arith
observe_all-count micro (s ∷ samples) h small =
    omega (arith, observe_all-count micro samples (observe_seconds micro s h) (omega arith))

at_most_mono : (samples : List ℕ) (a b : ℕ) → a ≤ b → at_most samples a ≤ at_most samples b
at_most_mono [] a b h = omega arith
at_most_mono (s ∷ samples) a b h = ground (arith, at_most_mono samples a b h)

at_most-length : (samples : List ℕ) (b : ℕ) → at_most samples b ≤ length samples
at_most-length [] b = omega arith
at_most-length (s ∷ samples) b = ground (arith, at_most-length samples b)

-- After fewer than 2 ^ 64 samples on a new histogram, the bucket of each bound counts the samples
-- that are no larger than it, the count is the number of samples, and the buckets are cumulative: of
-- two bounds the smaller never counts more, and no bucket counts more than the count.
pub histogram-cumulative :
    (micro : ℕ → ℕ) (name help : String) (bounds samples : List ℕ) (a b : ℕ)
    → length samples < 2 ^ 64
    → a ≤ b
    → let h = observe_all micro samples (new_histogram name help bounds) in
      (h.buckets ≡ map (at_most samples) bounds)
      × (h.count ≡ length samples)
      × (at_most samples a ≤ at_most samples b)
      × (at_most samples b ≤ h.count)
unfolding new_histogram
histogram-cumulative micro name help bounds samples a b few ordered =
    let new = new_histogram name help bounds in
    let count : (observe_all micro samples new).count ≡ length samples =
      omega (arith, observe_all-count micro samples new (omega arith)) in
    (
      observe_all-buckets micro samples new (λ _. 0) (zeros bounds) ∙ small bounds,
      count,
      at_most_mono samples a b ordered,
      omega (arith, count, at_most-length samples b),
    )
  where
    zeros : (bounds : List ℕ) → map (λ _. 0) bounds ≡ wrapped (λ _. 0) bounds
    zeros [] = refl
    zeros (b ∷ bounds) = cons_eq refl (zeros bounds)

    small :
        (bounds : List ℕ)
        → wrapped (λ b. 0 + at_most samples b) bounds ≡ map (at_most samples) bounds
    small [] = refl
    small (b ∷ bounds) = cons_eq (omega (arith, at_most-length samples b)) (small bounds)
