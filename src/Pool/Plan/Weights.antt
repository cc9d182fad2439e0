-- ===== src/Pool/Plan/Weights.antt =====
-- internal/pool/pool.go, weightedPick: which draws choose which upstream.
use hole_balancer.Base.{
  ℕ, zero, suc, ◌+◌, ◌-◌, ◌≤◌, ◌<◌, ◌≡◌, refl, sym, subst, ◌∙◌, ◌↔◌, List, [], ◌∷◌, arith, length,
  take, All,
}
use hole_balancer.Base.Counting.{sum_of}
use hole_balancer.Base.Int.{pos, pos_part, pos-sub, pos-sub_neg, pos-add}
use native.Mathlib.Decide.{dec_lt}
use hole_balancer.Pool.Types.{Pool}
use hole_balancer.Pool.Plan.{total_weight, pick_from, weighted_pick}

abbrev pub weight_of : Pool → ℕ → ℕ
weight_of p u = pos_part (p.upstream u).weight

-- No weight is negative, which the configuration checks.
abbrev pub NonNegative : Pool → List ℕ → Type 0
NonNegative p = All (λ u. (p.upstream u).weight ≡ pos (weight_of p u))

-- The weight of the upstreams before index `j`.
abbrev pub weight_before : Pool → ℕ → List ℕ → ℕ
weight_before p j ups = sum_of (weight_of p) (take j ups)

module _ (p : Pool) where
  pub total_weight-pos :
      (ups : List ℕ) → NonNegative p ups → total_weight p ups ≡ pos (sum_of (weight_of p) ups)
  unfolding total_weight
  total_weight-pos [] h = refl
  total_weight-pos (u ∷ ups) h =
      ground
        (arith, total_weight-pos ups h.1, h.0, pos-add (weight_of p u) (sum_of (weight_of p) ups))

  pick_from-stop :
      (n i last u : ℕ) (ups : List ℕ)
      → (p.upstream u).weight ≡ pos (weight_of p u)
      → n < weight_of p u
      → pick_from p (pos n) i last (u ∷ ups) ≡ i
  unfolding pick_from
  pick_from-stop n i last u ups h l = rw h (rw (pos-sub_neg n (weight_of p u) l) (ground arith))

  pick_from-next :
      (n i last u : ℕ) (ups : List ℕ)
      → (p.upstream u).weight ≡ pos (weight_of p u)
      → weight_of p u ≤ n
      → pick_from p (pos n) i last (u ∷ ups)
        ≡ pick_from p (pos (n - weight_of p u)) (i + 1) last ups
  unfolding pick_from
  pick_from-next n i last u ups h l = rw h (rw (pos-sub n (weight_of p u) l) (ground arith))

  -- The loop stops in the interval that holds the draw.
  pub pick_from-interval :
      (n i last : ℕ) (ups : List ℕ)
      → NonNegative p ups
      → n < sum_of (weight_of p) ups
      → (j : ℕ) × (pick_from p (pos n) i last ups ≡ i + j)
        × (j < length ups)
        × (weight_before p j ups ≤ n)
        × (n < weight_before p (suc j) ups)
  pick_from-interval n i last [] h l = elim l [ ]
  pick_from-interval n i last (u ∷ ups) h l = elim (dec_lt n (weight_of p u)) [
    | yes here ↦ (
      0,
      rw (pick_from-stop n i last u ups h.0 here) (omega arith),
      omega arith,
      omega arith,
      omega arith,
    )
    | no beyond ↦
        let r = pick_from-interval (n - weight_of p u) (i + 1) last ups h.1 (omega arith) in
        (
          suc r.0,
          rw (pick_from-next n i last u ups h.0 (omega arith)) (omega (arith, r.1)),
          omega (arith, r.2),
          omega (arith, r.3),
          omega (arith, r.4),
        )
  ]

  -- The weights before an index grow with the index.
  weight_before_mono :
      (i j : ℕ) (ups : List ℕ) → i ≤ j → weight_before p i ups ≤ weight_before p j ups
  weight_before_mono zero j ups h = omega arith
  weight_before_mono (suc i) zero ups h = elim h [ ]
  weight_before_mono (suc i) (suc j) [] h = omega arith
  weight_before_mono (suc i) (suc j) (u ∷ ups) h =
      omega (arith, weight_before_mono i j ups (omega arith))

  -- An index out of range only comes from an empty list or a draw out of range.
  pub weighted_pick-lt :
      (int_n : ℕ → ℕ) (ups : List ℕ)
      → ((n : ℕ) → 0 < n → int_n n < n)
      → NonNegative p ups
      → 0 < length ups
      → weighted_pick p int_n ups < length ups
  unfolding weighted_pick
  weighted_pick-lt int_n ups law h l =
      rw (total_weight-pos ups h) (elim (dec_lt 0 (sum_of (weight_of p) ups)) [
        | yes some_weight ↦
            let r =
              pick_from-interval (int_n (sum_of (weight_of p) ups)) 0 (length ups - 1) ups h
                (law _ some_weight) in
            ground (arith, r.1, r.2)
        | no none_weight ↦ ground (arith, law (length ups) l)
      ])

  interval_unique :
      (ups : List ℕ) (n i j : ℕ)
      → weight_before p i ups ≤ n
      → n < weight_before p (suc i) ups
      → weight_before p j ups ≤ n
      → n < weight_before p (suc j) ups
      → i ≡ j
  interval_unique ups n i j a b c d = elim (dec_lt i j) [
    | yes lt ↦ absurd (omega (arith, weight_before_mono (suc i) j ups lt))
    | no ge ↦ elim (dec_lt j i) [
      | yes lt ↦ absurd (omega (arith, weight_before_mono (suc j) i ups lt))
      | no ge' ↦ omega arith
    ]
  ]

  -- The draws that belong to index `j`.
  abbrev pub InInterval : ℕ → List ℕ → ℕ → Type 0
  InInterval n ups j = (weight_before p j ups ≤ n) × (n < weight_before p (suc j) ups)

  pick_of_draw :
      (ups : List ℕ) (n j : ℕ)
      → NonNegative p ups
      → n < sum_of (weight_of p) ups
      → pick_from p (pos n) 0 (length ups - 1) ups ≡ 0 + j
      → weighted_pick p (λ _. n) ups ≡ j
  unfolding weighted_pick
  pick_of_draw ups n j h l e = rw (total_weight-pos ups h) (ground arith)

  -- Where some upstream has a weight, index `j` is chosen by exactly the draws of an interval as
  -- long as the weight of the upstream at `j`: those from the weight of all before it.
  pub weighted_pick-share :
      (ups : List ℕ) (n j : ℕ)
      → NonNegative p ups
      → n < sum_of (weight_of p) ups
      → (weighted_pick p (λ _. n) ups ≡ j) ↔ InInterval n ups j
  weighted_pick-share ups n j h l =
      let r = pick_from-interval n 0 (length ups - 1) ups h l in
      let e : weighted_pick p (λ _. n) ups ≡ r.0 = pick_of_draw ups n r.0 h l r.1 in
      (
        λ q. subst (InInterval n ups) (sym e ∙ q) (r.3, r.4),
        λ b. e ∙ interval_unique ups n r.0 j r.3 r.4 b.0 b.1,
      )
