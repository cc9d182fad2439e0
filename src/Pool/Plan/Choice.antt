-- ===== src/Pool/Plan/Choice.antt =====
-- internal/pool/pool.go, Plan: which upstream each strategy asks first.
use hole_balancer.Base.{
  ℕ, zero, suc, ◌+◌, ◌%◌, ◌^◌, ◌≤◌, ◌<◌, ◌≡◌, refl, subst, sym, ap, ◌∙◌, true, false, List, [], ◌∷◌,
  ◌++◌, some, arith, ltb, keep, flat_map, inl, inr, Bool-cases, length, All, get_elem?,
  get_elem?-lt, drop, take, set, str_eq, ◌==◌, ==_self, ltb→lt,
}
use hole_balancer.Base.Counting.{Perm_of_count, All-Perm}
use mathlib.Core.List.{Perm}
use mathlib.Core.List.Perm
use hole_balancer.Config.Types.{strategy_failover, strategy_round_robin, strategy_least_latency}
use hole_balancer.Pool.Types.{Pool, paths, healthy, active}
use hole_balancer.Pool.Plan.{
  Draws, split, order_locked, first_path, other_paths, down_paths, tiers, plan, next_rr,
  effective_latency, insert_by, slice_stable, weighted_pick, swap_first,
}
use hole_balancer.Pool.Plan.Order.{drop_step}
use hole_balancer.Pool.Plan.Sort.{
  Sorted, slice_stable-Sorted, keep-slice_stable, count-slice_stable,
}
use hole_balancer.Pool.Plan.Total.{
  order_locked-rotation, order_locked-failover, order_locked-latency, order_locked-random,
  order_locked-few, length-Perm,
}
use hole_balancer.Pool.Plan.Tiers.{
  in_rotation, in_rotation-healthy, split-up, first_path-healthy, plan-tiers,
}
use native.Mathlib.Nat.{mod-lt}

-- The plan starts with the preferred path of `u`, and leaves the counter at `rr`.
abbrev pub Starts : Pool → Draws → ℕ → ℕ → Type 0
Starts p d u rr =
    (e : ℕ) × (rest : List ℕ) × (active p u ≡ some e)
    × (plan p d ≡ some (e ∷ rest, record p { rr = rr }))

-- The first of the upstreams with the least key.
abbrev pub IsFastest : (ℕ → ℕ) → ℕ → List ℕ → Type 0
IsFastest key u us =
    All (λ v. key u ≤ key v) us × ((rest : List ℕ) × (keep (λ v. key v == key u) us ≡ u ∷ rest))

module _ (p : Pool) (d : Draws) where
  -- The upstream that an order puts first is asked first, on its preferred path.
  plan-head :
      (u rr : ℕ) (us : List ℕ)
      → order_locked p d (in_rotation p) ≡ some (u ∷ us, rr)
      → healthy p u ≡ true
      → Starts p d u rr
  unfolding tiers
  plan-head u rr us o h =
      let f = first_path-healthy p u h in
      let o' : order_locked p d (split p p.upstreams).up ≡ some (u ∷ us, rr) =
        subst (λ l. order_locked p d l ≡ some (u ∷ us, rr)) (sym (split-up p p.upstreams)) o in
      let t = plan-tiers p d (u ∷ us) rr o' (rw f.1 (omega arith)) in
      let others = d.shuffle_secondary (flat_map (other_paths p) (u ∷ us)) in
      let low =
        d.shuffle_last_resort
          (flat_map (down_paths p) (u ∷ us) ++ flat_map (paths p) (split p p.upstreams).down) in
      (
        f.0,
        flat_map (first_path p) us ++ (others ++ low),
        f.2,
        t
            ∙ ap
                (λ l.
                  some ((l ++ flat_map (first_path p) us) ++ (others ++ low), record p { rr = rr }))
                f.1,
      )

  -- An upstream in rotation is healthy.
  healthy_at :
      (us : List ℕ) (i u : ℕ)
      → All (λ v. healthy p v ≡ true) us
      → get_elem? us i ≡ some u
      → healthy p u ≡ true
  healthy_at [] i u h g = cc
  healthy_at (v ∷ us) zero u h g = ground arith
  healthy_at (v ∷ us) (suc i) u h g = healthy_at us i u h.1 g

  healthy-in_rotation : (i u : ℕ) → get_elem? (in_rotation p) i ≡ some u → healthy p u ≡ true
  healthy-in_rotation i u g = healthy_at (in_rotation p) i u (in_rotation-healthy p p.upstreams) g

  -- Under failover the plan starts with the preferred path of the first upstream, in the order of
  -- the configuration, that is up and not drained.
  pub plan-failover :
      (u : ℕ) (us : List ℕ)
      → p.strategy ≡ strategy_failover
      → in_rotation p ≡ u ∷ us
      → Starts p d u p.rr
  plan-failover u us e q =
      plan-head u p.rr us (in_order ∙ ap (λ l. some (l, p.rr)) q)
        (healthy-in_rotation 0 u (rw q refl))
    where
      in_order : order_locked p d (in_rotation p) ≡ some (in_rotation p, p.rr)
      in_order = elim (Bool-cases (ltb (length (in_rotation p)) 2)) [
        | inl few ↦ order_locked-few p d (in_rotation p) few
        | inr several ↦ order_locked-failover p d (in_rotation p) several e
      ]

  -- Under round robin, with several upstreams in rotation and a counter below 2 ^ 63, the plan
  -- starts with the one that the counter points at, modulo their number, and moves the counter on.
  pub plan-round_robin :
      p.strategy ≡ strategy_round_robin
      → 2 ≤ length (in_rotation p)
      → p.rr < 2 ^ 63
      → (u : ℕ) × (get_elem? (in_rotation p) (p.rr % length (in_rotation p)) ≡ some u)
        × Starts p d u (p.rr + 1)
  unfolding next_rr
  plan-round_robin e l c =
      let ups = in_rotation p in
      let s = p.rr % length ups in
      let g = get_elem?-lt ups s (mod-lt p.rr (omega arith)) in
      let o = order_locked-rotation p d ups (ground arith) e c in
      let step : drop s ups ++ take s ups ≡ g.0 ∷ (drop (s + 1) ups ++ take s ups) =
        ap (λ l. l ++ take s ups) (drop_step ups s g.0 g.1) in
      let rr : next_rr p.rr ≡ p.rr + 1 = omega arith in
      (
        g.0,
        g.1,
        plan-head g.0 (p.rr + 1) (drop (s + 1) ups ++ take s ups)
            (o
              ∙ (ap (λ l. some (l, next_rr p.rr)) step
                  ∙ ap (λ k. some (g.0 ∷ (drop (s + 1) ups ++ take s ups), k)) rr))
            (healthy-in_rotation s g.0 g.1),
      )

  -- The entry at `i` comes first after the swap.
  swap_first-head :
      (i u : ℕ) (xs : List ℕ)
      → get_elem? xs i ≡ some u
      → (rest : List ℕ) × (swap_first i xs ≡ some (u ∷ rest))
  unfolding swap_first
  swap_first-head i u [] g = cc
  swap_first-head zero u (x ∷ xs) g = (xs, ground arith)
  swap_first-head (suc i) u (x ∷ xs) g = (set xs i x, rw (g, swap_first) refl)

  -- Under the random strategy the plan starts with the upstream that the weighted draw picks from
  -- the shuffled upstreams in rotation.
  pub plan-random :
      (u : ℕ)
      → str_eq p.strategy strategy_failover ≡ false
      → str_eq p.strategy strategy_round_robin ≡ false
      → str_eq p.strategy strategy_least_latency ≡ false
      → 2 ≤ length (in_rotation p)
      → let ups = d.shuffle_upstreams (in_rotation p) in
        get_elem? ups (weighted_pick p d.int_n ups) ≡ some u
        → healthy p u ≡ true
        → Starts p d u p.rr
  plan-random u f g h l at up =
      let ups = d.shuffle_upstreams (in_rotation p) in
      let s = swap_first-head (weighted_pick p d.int_n ups) u ups at in
      plan-head u p.rr s.0
        (order_locked-random p d (in_rotation p) (ground arith) f g h (u ∷ s.0) s.1) up

  sorted-IsFastest :
      (key : ℕ → ℕ) (us ys : List ℕ) (u : ℕ) → slice_stable key us ≡ u ∷ ys → IsFastest key u us
  sorted-IsFastest key us ys u e =
      let s : Sorted key (u ∷ ys) = subst (Sorted key) e (slice_stable-Sorted key us) in
      let k = keep-slice_stable key (key u) us in
      let perm : Perm (u ∷ ys) us =
        subst (λ l. Perm l us) e (Perm_of_count _ us (λ a. count-slice_stable key a us)) in
      let first : keep (λ v. key v == key u) (u ∷ ys) ≡ u ∷ keep (λ v. key v == key u) ys =
        rw (==_self (key u)) refl in
      (
        All-Perm (λ v. key u ≤ key v) perm (omega arith, s.0),
        (keep (λ v. key v == key u) ys, sym k ∙ (ap (keep (λ v. key v == key u)) e ∙ first)),
      )

  slice_stable-few :
      (key : ℕ → ℕ) (us : List ℕ) → ltb (length us) 2 ≡ true → slice_stable key us ≡ us
  unfolding slice_stable insert_by
  slice_stable-few key [] h = refl
  slice_stable-few key (u ∷ []) h = refl
  slice_stable-few key (u ∷ v ∷ us) h = absurd (omega (arith, ltb→lt (suc (suc (length us))) 2 h))

  latency_order :
      p.strategy ≡ strategy_least_latency
      → order_locked p d (in_rotation p)
        ≡ some (slice_stable (effective_latency p) (in_rotation p), p.rr)
  latency_order e = elim (Bool-cases (ltb (length (in_rotation p)) 2)) [
    | inl few ↦
        order_locked-few p d (in_rotation p) few
        ∙ ap (λ l. some (l, p.rr))
            (sym (slice_stable-few (effective_latency p) (in_rotation p) few))
    | inr several ↦ order_locked-latency p d (in_rotation p) several e
  ]

  -- Under least-latency the plan starts with an upstream in rotation whose latency is the least of
  -- those in rotation, and the first such one in the order of the configuration. An upstream that
  -- has not been measured counts as an hour.
  pub plan-least_latency :
      p.strategy ≡ strategy_least_latency
      → 0 < length (in_rotation p)
      → (u : ℕ) × IsFastest (effective_latency p) u (in_rotation p) × Starts p d u p.rr
  plan-least_latency e l = go (slice_stable (effective_latency p) ups) refl
    where
      ups : List ℕ
      ups = in_rotation p

      perm : Perm (slice_stable (effective_latency p) ups) ups
      perm = Perm_of_count _ ups (λ a. count-slice_stable (effective_latency p) a ups)

      go :
          (ys : List ℕ)
          → slice_stable (effective_latency p) ups ≡ ys
          → (u : ℕ) × IsFastest (effective_latency p) u (in_rotation p) × Starts p d u p.rr
      go [] q = absurd (omega (arith, length-Perm perm, ap length q))
      go (u ∷ ys) q = (
        u,
        sorted-IsFastest (effective_latency p) ups ys u q,
        plan-head u p.rr ys (latency_order e ∙ ap (λ l. some (l, p.rr)) q)
            (All-Perm (λ v. healthy p v ≡ true) (Perm.symm (subst (λ l. Perm l ups) q perm))
              (in_rotation-healthy p p.upstreams)).0,
      )
