-- ===== src/Metrics/Examples.antt =====
-- Tests of the metrics.
use hole_balancer.Base.{◌≤◌, ◌≡◌, [], ◌∷◌, ◌++◌, refl, none, some, arith}
use hole_balancer.Metrics.{new_histogram}
use hole_balancer.Metrics.Escape.{
  quote, read_value_from, read_value, escape_label_value, read_value-escape,
}
use hole_balancer.Metrics.Totals.{observe_all, at_most, histogram-cumulative}

histogram-cumulative_example :
    let h = observe_all (λ n. n) (3 ∷ 9 ∷ 30 ∷ []) (new_histogram "seconds" "" (5 ∷ 10 ∷ [])) in
    (h.buckets ≡ 1 ∷ 2 ∷ [])
    × (h.count ≡ 3)
    × (at_most (3 ∷ 9 ∷ 30 ∷ []) 5 ≤ at_most (3 ∷ 9 ∷ 30 ∷ []) 10)
    × (at_most (3 ∷ 9 ∷ 30 ∷ []) 10 ≤ h.count)
histogram-cumulative_example =
    histogram-cumulative (λ n. n) "seconds" "" (5 ∷ 10 ∷ []) (3 ∷ 9 ∷ 30 ∷ []) 5 10 (omega arith)
      (omega arith)

-- A quote, a backslash and a line feed.
read_value-escape_example :
    read_value (escape_label_value (34 ∷ 92 ∷ 10 ∷ 65 ∷ []) ++ (quote ∷ 44 ∷ []))
    ≡ some (34 ∷ 92 ∷ 10 ∷ 65 ∷ [], 44 ∷ [])
read_value-escape_example = read_value-escape (34 ∷ 92 ∷ 10 ∷ 65 ∷ []) (44 ∷ [])

-- A raw line feed is refused.
read_value_raw : read_value (65 ∷ 10 ∷ 66 ∷ quote ∷ []) ≡ none
unfolding read_value_from
read_value_raw = refl
