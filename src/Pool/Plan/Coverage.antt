-- ===== src/Pool/Plan/Coverage.antt =====
-- internal/pool/pool.go, Plan: the paths that are in a plan.
use hole_balancer.Base.{
  ℕ, ◌+◌, ◌^◌, ◌<◌, ◌≡◌, refl, subst, not, ◌&&◌, List, [], ◌∷◌, ◌++◌, Option, none, some, arith,
  ◌==◌, keep, flat_map, inl, inr, Bool-cases,
}
use hole_balancer.Base.Counting.{
  count, Distinct, count-append, count-flat_map, count-Perm, sum_of, sum_of-Perm, Perm_of_count,
}
use mathlib.Core.List.{Perm}
use hole_balancer.Pool.Types.{Pool, paths, is_up, active, first_up, drained}
use hole_balancer.Pool.Plan.{
  Draws, split, first_path, same_path, other_paths, down_paths, tiers, or_drained, plan,
}
use hole_balancer.Pool.Plan.Total.{IsRandom, HasWeights, order_locked-Ordered}

-- No upstream on the heap lists a path twice.
abbrev pub HasDistinctPaths : Pool → Type 0
HasDistinctPaths p = (u : ℕ) → Distinct (paths p u)

module _ (p : Pool) where
  count-keep_other :
      (a x : ℕ) (es : List ℕ)
      → count x es ≡ 0
      → count a (keep (λ e. not (e == x) && is_up p e) es) ≡ count a (keep (is_up p) es)
  count-keep_other a x [] h = refl
  count-keep_other a x (e ∷ es) h = ground (arith, count-keep_other a x es)

  count-keep_split :
      (a : ℕ) (es : List ℕ)
      → count a (keep (is_up p) es) + count a (keep (λ e. not (is_up p e)) es) ≡ count a es
  count-keep_split a [] = omega arith
  count-keep_split a (e ∷ es) = ground (arith, count-keep_split a es)

  -- The preferred path, the other healthy ones and the ones that are down make up a list of paths.
  count-three_tiers :
      (a : ℕ) (es : List ℕ) (o : Option ℕ)
      → first_up p es ≡ o
      → Distinct es
      → count a (elim o [ none ↦ [] | some e ↦ e ∷ [] ])
          + count a (keep (λ e. not (same_path e o) && is_up p e) es)
          + count a (keep (λ e. not (is_up p e)) es)
        ≡ count a es
  count-three_tiers a [] none e h = omega arith
  count-three_tiers a [] (some x) e h = cc
  count-three_tiers a (y ∷ es) none e h = ground (arith, count-three_tiers a es none)
  count-three_tiers a (y ∷ es) (some x) e h = elim (Bool-cases (is_up p y)) [
    | inl up ↦
        let same : y ≡ x = ground arith in
        ground (
          arith,
          same,
          count-keep_other a x es (subst (λ z. count z es ≡ 0) same h.0),
          count-keep_split a es,
        )
    | inr down ↦ ground (arith, count-three_tiers a es (some x))
  ]

  count-paths :
      (a u : ℕ)
      → HasDistinctPaths p
      → count a (first_path p u) + count a (other_paths p u) + count a (down_paths p u)
        ≡ count a (paths p u)
  unfolding first_path other_paths down_paths active
  count-paths a u h = count-three_tiers a (paths p u) (active p u) refl (h u)

  sum-tiers :
      (a : ℕ) (us : List ℕ)
      → HasDistinctPaths p
      → sum_of (λ u. count a (first_path p u)) us
          + sum_of (λ u. count a (other_paths p u)) us
          + sum_of (λ u. count a (down_paths p u)) us
        ≡ sum_of (λ u. count a (paths p u)) us
  sum-tiers a [] h = omega arith
  sum-tiers a (u ∷ us) h = omega (arith, count-paths a u h, sum-tiers a us h)

  -- The three tiers hold every path of the ordered upstreams and of those that are down, once.
  count-tiers :
      (d : Draws) (a : ℕ) (ordered down : List ℕ)
      → IsRandom d
      → HasDistinctPaths p
      → count a (tiers p d ordered down)
        ≡ sum_of (λ u. count a (paths p u)) ordered + count a (flat_map (paths p) down)
  unfolding tiers
  count-tiers d a ordered down r h =
      let first = flat_map (first_path p) ordered in
      let other = flat_map (other_paths p) ordered in
      let low = flat_map (down_paths p) ordered in
      let rest = flat_map (paths p) down in
      omega (
        arith,
        count-append a first (d.shuffle_secondary other ++ d.shuffle_last_resort (low ++ rest)),
        count-append a (d.shuffle_secondary other) (d.shuffle_last_resort (low ++ rest)),
        count-append a low rest,
        count-Perm a (r.secondary other),
        count-Perm a (r.last_resort (low ++ rest)),
        count-flat_map a (first_path p) ordered,
        count-flat_map a (other_paths p) ordered,
        count-flat_map a (down_paths p) ordered,
        sum-tiers a ordered h,
      )

  -- The paths of the upstreams that are not drained.
  abbrev pub undrained_paths : List ℕ → List ℕ
  undrained_paths us = flat_map (paths p) (keep (λ u. not (drained p u)) us)

  count-split :
      (a : ℕ) (us : List ℕ)
      → sum_of (λ u. count a (paths p u)) (split p us).up
          + count a (flat_map (paths p) (split p us).down)
        ≡ count a (undrained_paths us)
  unfolding split
  count-split a [] = omega arith
  count-split a (u ∷ us) =
      let s = split p us in
      let below = keep (λ v. not (drained p v)) us in
      ground (
        arith,
        count-split a us,
        count-append a (paths p u) (flat_map (paths p) s.down),
        count-append a (paths p u) (flat_map (paths p) below),
      )

  split-out : (us : List ℕ) → (split p us).out ≡ keep (drained p) us
  unfolding split
  split-out [] = refl
  split-out (u ∷ us) = ground (arith, split-out us)

abbrev pub or_else : List ℕ → List ℕ → List ℕ
or_else [] other = other
or_else (x ∷ xs) other = x ∷ xs

-- The paths that Plan must offer: those of the upstreams in service, or those of the drained ones
-- where nothing else is left.
abbrev pub candidates : Pool → List ℕ
candidates p =
    or_else (undrained_paths p p.upstreams) (flat_map (paths p) (keep (drained p) p.upstreams))

or_drained-Perm :
    (p : Pool) (d : Draws) (out ts cs : List ℕ)
    → IsRandom d
    → Perm ts cs
    → Perm (or_drained p d out ts) (or_else cs (flat_map (paths p) out))
unfolding or_drained
or_drained-Perm p d out [] [] r h = r.drained _
or_drained-Perm p d out [] (c ∷ cs) r h = absurd (ground (arith, count-Perm c h))
or_drained-Perm p d out (t ∷ ts) [] r h = absurd (ground (arith, count-Perm t h))
or_drained-Perm p d out (t ∷ ts) (c ∷ cs) r h = h

-- The call of Plan returns, and offers exactly the candidates.
abbrev pub Covers : Pool → Draws → Type 0
Covers p d =
    (es : List ℕ) × (rr : ℕ) × (plan p d ≡ some (es, record p { rr = rr })) × Perm es (candidates p)

-- With a counter below 2 ^ 63, weights that are not negative and no path listed twice for one
-- upstream, Plan returns for every strategy and every outcome of the draws, changes nothing but the
-- counter, and its list is a reordering of the candidates: each path of each upstream that is not
-- drained exactly once, or each path of the drained ones if there is no other.
pub plan-Covers :
    (p : Pool) (d : Draws)
    → IsRandom d
    → HasWeights p
    → HasDistinctPaths p
    → p.rr < 2 ^ 63
    → Covers p d
unfolding plan
plan-Covers p d r w h c =
    let s = split p p.upstreams in
    let o = order_locked-Ordered p d s.up r w c in
    let same : Perm o.0 s.up = Perm_of_count o.0 s.up o.3 in
    let ts = tiers p d o.0 s.down in
    let perm : Perm ts (undrained_paths p p.upstreams) = Perm_of_count ts _ (λ a. omega (
      arith,
      count-tiers p d a o.0 s.down r h,
      sum_of-Perm (λ u. count a (paths p u)) same,
      count-split p a p.upstreams,
    )) in
    (
      or_drained p d s.out ts,
      o.1,
      rw (o.2, plan) refl,
      rw (← split-out p p.upstreams) (or_drained-Perm p d s.out ts _ r perm),
    )

-- The call of Plan writes the counter and nothing else.
pub plan-same :
    (p q : Pool) (d : Draws) (es : List ℕ)
    → plan p d ≡ some (es, q)
    → q ≡ record p { strategy = p.strategy; rr = q.rr }
unfolding plan
plan-same p q d es h = ground arith
