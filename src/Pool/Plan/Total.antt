-- ===== src/Pool/Plan/Total.antt =====
-- internal/pool/pool.go, orderLocked: when it returns, and the upstreams of its result.
use hole_balancer.Base.{
  ℕ, zero, suc, ◌+◌, ◌%◌, ◌^◌, ◌<◌, ◌≡◌, refl, inl, inr, true, false, List, [], ◌∷◌, ◌++◌, some,
  arith, ltb, ltb→le, str_eq, length, take, drop, Bool-cases, eq_iff, ◌∙◌,
}
use hole_balancer.Base.Counting.{count, count-append, count-Perm, sum_of, sum_of-Perm}
use hole_balancer.Base.Int.{pos}
use hole_balancer.Config.Types.{strategy_failover, strategy_round_robin, strategy_least_latency}
use mathlib.Core.List.{Perm}
use hole_balancer.Pool.Types.{Pool}
use hole_balancer.Pool.Plan.{
  Draws, effective_latency, slice_stable, next_rr, swap_first, weighted_pick, order_locked,
}
use hole_balancer.Pool.Plan.Order.{rotate_from-eq, rotation_start-lt}
use hole_balancer.Pool.Plan.Sort.{count-slice_stable, swap_first_total}
use hole_balancer.Pool.Plan.Weights.{weight_of, NonNegative, weighted_pick-lt}

-- What math/rand documents: a shuffle keeps every element, and a draw below `n` is below `n`.
pub record IsRandom (d : Draws) : Type 0 where
  pub upstreams : (xs : List ℕ) → Perm (d.shuffle_upstreams xs) xs
  pub secondary : (xs : List ℕ) → Perm (d.shuffle_secondary xs) xs
  pub last_resort : (xs : List ℕ) → Perm (d.shuffle_last_resort xs) xs
  pub drained : (xs : List ℕ) → Perm (d.shuffle_drained xs) xs
  pub bounded : (n : ℕ) → 0 < n → d.int_n n < n

-- No upstream on the heap has a negative weight.
abbrev pub HasWeights : Pool → Type 0
HasWeights p = (u : ℕ) → (p.upstream u).weight ≡ pos (weight_of p u)

HasWeights-NonNegative : (p : Pool) (us : List ℕ) → HasWeights p → NonNegative p us
HasWeights-NonNegative p [] h = tt
HasWeights-NonNegative p (u ∷ us) h = (h u, HasWeights-NonNegative p us h)

count-take-drop : (a s : ℕ) (xs : List ℕ) → count a (take s xs) + count a (drop s xs) ≡ count a xs
count-take-drop a zero xs = ground arith
count-take-drop a (suc s) [] = ground arith
count-take-drop a (suc s) (x ∷ xs) = ground (arith, count-take-drop a s xs)

count-rotation : (a s : ℕ) (xs : List ℕ) → count a (drop s xs ++ take s xs) ≡ count a xs
count-rotation a s xs =
    omega (arith, count-append a (drop s xs) (take s xs), count-take-drop a s xs)

length-eq-sum_of : (xs : List ℕ) → length xs ≡ sum_of (λ _. 1) xs
length-eq-sum_of [] = refl
length-eq-sum_of (x ∷ xs) = omega (arith, length-eq-sum_of xs)

pub length-Perm : {xs ys : List ℕ} → Perm xs ys → length xs ≡ length ys
length-Perm {xs} {ys} h =
    omega (arith, length-eq-sum_of xs, length-eq-sum_of ys, sum_of-Perm (λ _. 1) h)

-- The order holds the same upstreams.
abbrev pub Ordered : Pool → Draws → List ℕ → Type 0
Ordered p d ups =
    (o : List ℕ) × (rr : ℕ) × (order_locked p d ups ≡ some (o, rr))
    × ((a : ℕ) → count a o ≡ count a ups)

module _ (p : Pool) (d : Draws) (ups : List ℕ) (several : ltb (length ups) 2 ≡ false) where
  -- Round robin rotates by the counter, and moves the counter on.
  pub order_locked-rotation :
      p.strategy ≡ strategy_round_robin
      → p.rr < 2 ^ 63
      → let s = p.rr % length ups in
        order_locked p d ups ≡ some (drop s ups ++ take s ups, next_rr p.rr)
  unfolding order_locked
  order_locked-rotation e c =
      let r = rotation_start-lt p.rr (length ups) (ground arith) c in
      rw several (
        rw e (
          rw (r.0, order_locked)
            (rw (rotate_from-eq ups (p.rr % length ups) r.1, order_locked) refl)))

  -- Failover keeps the order of the configuration.
  pub order_locked-failover :
      p.strategy ≡ strategy_failover → order_locked p d ups ≡ some (ups, p.rr)
  unfolding order_locked
  order_locked-failover e = rw several (rw e refl)

  pub order_locked-latency :
      p.strategy ≡ strategy_least_latency
      → order_locked p d ups ≡ some (slice_stable (effective_latency p) ups, p.rr)
  unfolding order_locked
  order_locked-latency e = rw several (rw e refl)

  pub order_locked-random :
      str_eq p.strategy strategy_failover ≡ false
      → str_eq p.strategy strategy_round_robin ≡ false
      → str_eq p.strategy strategy_least_latency ≡ false
      → (ys : List ℕ)
      → swap_first (weighted_pick p d.int_n (d.shuffle_upstreams ups)) (d.shuffle_upstreams ups)
        ≡ some ys
      → order_locked p d ups ≡ some (ys, p.rr)
  unfolding order_locked
  order_locked-random f g h ys e = rw several (rw f (rw g (rw h (rw (e, order_locked) refl))))

  random_total :
      IsRandom d
      → HasWeights p
      → (ys : List ℕ) × (swap_first
            (weighted_pick p d.int_n (d.shuffle_upstreams ups))
            (d.shuffle_upstreams ups)
          ≡ some ys)
        × ((a : ℕ) → count a ys ≡ count a ups)
  random_total r w =
      let ys = d.shuffle_upstreams ups in
      let n =
        weighted_pick-lt p d.int_n ys r.bounded (HasWeights-NonNegative p ys w)
          (omega (arith, length-Perm (r.upstreams ups), ltb→le (length ups) 2 several)) in
      let s = swap_first_total (weighted_pick p d.int_n ys) ys n in
      (s.0, s.1, λ a. s.2 a ∙ count-Perm a (r.upstreams ups))

  -- Every strategy returns, and a name that is none of the others draws at random.
  pub order_locked-total : IsRandom d → HasWeights p → p.rr < 2 ^ 63 → Ordered p d ups
  order_locked-total r w c = elim (Bool-cases (str_eq p.strategy strategy_failover)) [
    | inl e ↦ (ups, p.rr, order_locked-failover ((eq_iff _ _).0 e), λ a. refl)
    | inr f ↦ elim (Bool-cases (str_eq p.strategy strategy_round_robin)) [
      | inl e ↦ (
        _,
        _,
        order_locked-rotation ((eq_iff _ _).0 e) c,
        λ a. count-rotation a (p.rr % length ups) ups,
      )
      | inr g ↦ elim (Bool-cases (str_eq p.strategy strategy_least_latency)) [
        | inl e ↦ (
          _,
          _,
          order_locked-latency ((eq_iff _ _).0 e),
          λ a. count-slice_stable (effective_latency p) a ups,
        )
        | inr h ↦ let s = random_total r w in (s.0, p.rr, order_locked-random f g h s.0 s.1, s.2)
      ]
    ]
  ]

-- With one upstream or none there is nothing to order.
pub order_locked-few :
    (p : Pool) (d : Draws) (ups : List ℕ)
    → ltb (length ups) 2 ≡ true
    → order_locked p d ups ≡ some (ups, p.rr)
unfolding order_locked
order_locked-few p d ups e = rw e refl

pub order_locked-Ordered :
    (p : Pool) (d : Draws) (ups : List ℕ)
    → IsRandom d
    → HasWeights p
    → p.rr < 2 ^ 63
    → Ordered p d ups
order_locked-Ordered p d ups r w c = elim (Bool-cases (ltb (length ups) 2)) [
  | inl e ↦ (ups, p.rr, order_locked-few p d ups e, λ a. refl)
  | inr e ↦ order_locked-total p d ups e r w c
]
