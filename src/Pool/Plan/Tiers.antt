-- ===== src/Pool/Plan/Tiers.antt =====
-- internal/pool/pool.go, Plan: the order of the tiers, and who is asked first.
use hole_balancer.Base.{
  ℕ, ◌^◌, ◌<◌, ◌≡◌, refl, subst, ap, Bool, true, false, not, ◌&&◌, List, [], ◌∷◌, ◌++◌, map, some,
  arith, keep, flat_map, inl, inr, Bool-cases, length, length-append, length-map, All, All-append,
}
use hole_balancer.Base.Counting.{Perm_of_count, All-Perm}
use mathlib.Core.List.{Perm}
use mathlib.Core.List.Perm
use hole_balancer.Pool.Types.{Pool, paths, is_up, any_up, healthy, active, first_up, drained}
use hole_balancer.Pool.Members.{healthy_upstreams}
use hole_balancer.Pool.Plan.{
  Draws, split, order_locked, first_path, other_paths, down_paths, tiers, or_drained, plan,
}
use hole_balancer.Pool.Plan.Total.{IsRandom, HasWeights, length-Perm, order_locked-Ordered}

-- The back pointers lead to the upstream that lists the path.
abbrev pub HasOwners : Pool → Type 0
HasOwners p = (u : ℕ) → All (λ e. (p.endpoint e).upstream ≡ u) (paths p u)

-- The upstreams that are not drained and have a path that is up.
abbrev pub in_rotation : Pool → List ℕ
in_rotation p = keep (λ u. healthy p u && not (drained p u)) p.upstreams

module _ (p : Pool) where
  pub split-up : (us : List ℕ) → (split p us).up ≡ keep (λ u. healthy p u && not (drained p u)) us
  unfolding split
  split-up [] = refl
  split-up (u ∷ us) = ground (arith, split-up us)

  split-down_unhealthy : (us : List ℕ) → All (λ u. any_up p (paths p u) ≡ false) (split p us).down
  unfolding split healthy
  split-down_unhealthy [] = tt
  split-down_unhealthy (u ∷ us) = ground (arith, split-down_unhealthy us)

  -- A healthy upstream has a first path, and it is up.
  first_up-any_up :
      (es : List ℕ) → any_up p es ≡ true → (e : ℕ) × (first_up p es ≡ some e) × (is_up p e ≡ true)
  first_up-any_up [] h = cc
  first_up-any_up (e ∷ es) h = elim (Bool-cases (is_up p e)) [
    | inl up ↦ (e, rw up refl, up)
    | inr down ↦ let r = first_up-any_up es (ground arith) in (r.0, rw down r.1, r.2)
  ]

  All-keep {ℓ} : (f : ℕ → Bool) (P : ℕ → Type ℓ) (es : List ℕ) → All P es → All P (keep f es)
  All-keep f P [] h = tt
  All-keep f P (e ∷ es) h = elim (Bool-cases (f e)) [
    | inl t ↦ rw t (h.0, All-keep f P es h.1)
    | inr t ↦ rw t (All-keep f P es h.1)
  ]

  keep-All {ℓ} :
      (f : ℕ → Bool) (P : ℕ → Type ℓ) (es : List ℕ)
      → ((e : ℕ) → f e ≡ true → P e)
      → All P (keep f es)
  keep-All f P [] h = tt
  keep-All f P (e ∷ es) h = elim (Bool-cases (f e)) [
    | inl t ↦ rw t (h e t, keep-All f P es h)
    | inr t ↦ rw t (keep-All f P es h)
  ]

  first_up-All {ℓ} :
      (P : ℕ → Type ℓ) (es : List ℕ) (e : ℕ) → first_up p es ≡ some e → All P es → P e
  first_up-All P [] e f h = cc
  first_up-All P (x ∷ es) e f h = elim (Bool-cases (is_up p x)) [
    | inl up ↦ let same : x ≡ e = ground arith in subst P same h.0
    | inr down ↦ first_up-All P es e (ground arith) h.1
  ]

  any_up-down : (es : List ℕ) → any_up p es ≡ false → All (λ e. is_up p e ≡ false) es
  any_up-down [] h = tt
  any_up-down (e ∷ es) h = ground (arith, any_up-down es)

  -- The first path of an upstream that answers: its only entry in tier one.
  pub first_path-healthy :
      (u : ℕ)
      → healthy p u ≡ true
      → (e : ℕ) × (first_path p u ≡ e ∷ []) × (active p u ≡ some e) × (is_up p e ≡ true)
  unfolding first_path healthy active
  first_path-healthy u h =
      let r = first_up-any_up (paths p u) h in (r.0, rw (r.1, first_path) refl, r.1, r.2)

  -- Tier one of healthy upstreams: one path each, up, and on the way to that upstream.
  first_paths :
      HasOwners p
      → (us : List ℕ) → All (λ u. healthy p u ≡ true) us
      → All (λ e. is_up p e ≡ true) (flat_map (first_path p) us)
        × (map (λ e. (p.endpoint e).upstream) (flat_map (first_path p) us) ≡ us)
  first_paths own [] h = (tt, refl)
  first_paths own (u ∷ us) h =
      let r = first_path-healthy u h.0 in
      let rest = first_paths own us h.1 in
      let owned : (p.endpoint r.0).upstream ≡ u =
        first_up-All (λ e. (p.endpoint e).upstream ≡ u) (paths p u) r.0 (unfold active in r.2)
          (own u) in
      rw r.1 ((r.3, rest.0), cc)

  others_up : (us : List ℕ) → All (λ e. is_up p e ≡ true) (flat_map (other_paths p) us)
  unfolding other_paths
  others_up [] = tt
  others_up (u ∷ us) =
      All-append (λ e. is_up p e ≡ true) (other_paths p u) _
        (keep-All _ _ (paths p u) (λ e h. ground arith)) (others_up us)

  low_down : (us : List ℕ) → All (λ e. is_up p e ≡ false) (flat_map (down_paths p) us)
  unfolding down_paths
  low_down [] = tt
  low_down (u ∷ us) =
      All-append (λ e. is_up p e ≡ false) (down_paths p u) _
        (keep-All _ _ (paths p u) (λ e h. ground arith)) (low_down us)

  All-down :
      (us : List ℕ)
      → All (λ u. any_up p (paths p u) ≡ false) us
      → All (λ e. is_up p e ≡ false) (flat_map (paths p) us)
  All-down [] h = tt
  All-down (u ∷ us) h =
      All-append (λ e. is_up p e ≡ false) (paths p u) _ (any_up-down (paths p u) h.0)
        (All-down us h.1)

  or_drained-some : (d : Draws) (out ts : List ℕ) → 0 < length ts → or_drained p d out ts ≡ ts
  unfolding or_drained
  or_drained-some d out [] h = elim h [ ]
  or_drained-some d out (t ∷ ts) h = refl

  -- A plan whose first tier is not empty is its tiers.
  pub plan-tiers :
      (d : Draws) (ordered : List ℕ) (rr : ℕ)
      → order_locked p d (split p p.upstreams).up ≡ some (ordered, rr)
      → 0 < length (flat_map (first_path p) ordered)
      → plan p d ≡ some (tiers p d ordered (split p p.upstreams).down, record p { rr = rr })
  unfolding plan tiers
  plan-tiers d ordered rr e h =
      let s = split p p.upstreams in
      let firsts = flat_map (first_path p) ordered in
      let others = d.shuffle_secondary (flat_map (other_paths p) ordered) in
      let low =
        d.shuffle_last_resort (flat_map (down_paths p) ordered ++ flat_map (paths p) s.down) in
      let some_path : 0 < length (tiers p d ordered s.down) =
        omega (arith, h, length-append firsts (others ++ low)) in
      rw (e, plan) (rw (or_drained-some d s.out (tiers p d ordered s.down) some_path) refl)

  pub in_rotation-healthy :
      (us : List ℕ)
      → All (λ u. healthy p u ≡ true) (keep (λ u. healthy p u && not (drained p u)) us)
  in_rotation-healthy us = keep-All _ _ us (λ u h. ground arith)

-- The three parts of a plan.
abbrev pub Tiered : Pool → Draws → Type 0
Tiered p d =
    (firsts : List ℕ) × (others : List ℕ) × (low : List ℕ) × (rr : ℕ) × (plan p d
      ≡ some (firsts ++ (others ++ low), record p { rr = rr }))
    × All (λ e. is_up p e ≡ true) firsts
    × All (λ e. is_up p e ≡ true) others
    × All (λ e. is_up p e ≡ false) low
    × Perm (map (λ e. (p.endpoint e).upstream) firsts) (in_rotation p)

-- While some upstream is in rotation, Plan returns a list in three parts: paths that are up and
-- belong to the upstreams in rotation, one path for each, then more paths that are up, then paths
-- that are down.
pub plan-Tiered :
    (p : Pool) (d : Draws)
    → IsRandom d
    → HasWeights p
    → HasOwners p
    → p.rr < 2 ^ 63
    → 0 < healthy_upstreams p
    → Tiered p d
unfolding plan tiers healthy_upstreams
plan-Tiered p d r w own c some_up =
    let s = split p p.upstreams in
    let o = order_locked-Ordered p d s.up r w c in
    let same : Perm o.0 (in_rotation p) =
      subst (Perm o.0) (split-up p p.upstreams) (Perm_of_count o.0 s.up o.3) in
    let f =
      first_paths p own o.0 (All-Perm _ (Perm.symm same) (in_rotation-healthy p p.upstreams)) in
    let low = flat_map (down_paths p) o.0 ++ flat_map (paths p) s.down in
    (
      flat_map (first_path p) o.0,
      d.shuffle_secondary (flat_map (other_paths p) o.0),
      d.shuffle_last_resort low,
      o.1,
      plan-tiers p d o.0 o.1 o.2 (
          omega (
            arith,
            length-Perm same,
            ap length f.1,
            length-map (flat_map (first_path p) o.0) (λ e. (p.endpoint e).upstream),
            some_up,
          )),
      f.0,
      All-Perm _ (Perm.symm (r.secondary _)) (others_up p o.0),
      All-Perm _ (Perm.symm (r.last_resort low)) (
          All-append (λ e. is_up p e ≡ false) _ _ (low_down p o.0)
            (All-down p s.down (split-down_unhealthy p p.upstreams))),
      rw f.1 same,
    )
