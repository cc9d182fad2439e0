-- ===== src/Pool/Members/Change.antt =====
-- internal/pool/pool.go, Add and Remove: what they answer, and the pool after them.
use hole_balancer.Base.{
  ℕ, zero, suc, ◌+◌, ◌≤◌, ◌<◌, ◌≡◌, ◌≢◌, ◌⊎◌, refl, sym, subst, ap, ◌∙◌, String, Bool, not, List,
  [], ◌∷◌, ◌++◌, none, some, arith, All, Pairwise, flat_map, length, keep, take, drop, get_elem?,
  inl, inr, Bool-cases, Option-cases, str_eq, eq_iff, if◌then◌else◌, ◌==◌,
}
use hole_balancer.Base.Counting.{count, Distinct}
use hole_balancer.Base.Int.{pos, pos_part}
use hole_balancer.Config.Types.{Upstream as UpstreamConfig}
use hole_balancer.Pool.Types.{Pool, paths}
use hole_balancer.Pool.Members.{
  ok, err, not_found, last_upstream, append_upstream, conflict, add, index_of, remove_at, remove,
}
use hole_balancer.Pool.Members.Sync.{IsSynced, Clear, conflict-none}
use hole_balancer.Pool.Members.Append.{Adds, append_upstream-IsSynced, append_upstream-Adds}

-- Where Add succeeds on a pool in step, with a weight that is not negative, the result is in step; no
-- upstream of the pool has the name or one of the addresses of the new one; the new upstream stands
-- last and its paths stand last; it has the name, the weight and the addresses that are asked for, is
-- not drained and all its paths are down; and the other upstreams and their paths are as before.
pub add-IsSynced :
    (p q : Pool) (uc : UpstreamConfig) (u : ℕ)
    → IsSynced p
    → uc.weight ≡ pos (pos_part uc.weight)
    → add p uc ≡ ok (u, q)
    → IsSynced q × All (Clear p uc) p.upstreams × Adds p uc u q
unfolding add
add-IsSynced p q uc u s w h = elim (Option-cases (conflict p p.upstreams uc)) [
  | inl clear ↦
      let c = conflict-none p p.upstreams uc clear in
      let same : append_upstream p uc ≡ q = ground arith in
      let first : p.next_upstream ≡ u = ground arith in
      (
        subst IsSynced same (append_upstream-IsSynced p uc s w c),
        c,
        subst (λ v. Adds p uc v q) first
            (subst (Adds p uc p.next_upstream) same (append_upstream-Adds p uc s)),
      )
  | inr (e, clash) ↦ absurd (ground arith)
]

module _ (p : Pool) where
  keep_ne : (u : ℕ) (us : List ℕ) → count u us ≡ 0 → keep (λ v. not (v == u)) us ≡ us
  keep_ne u [] h = refl
  keep_ne u (v ∷ us) h = ground (arith, keep_ne u us)

  get_elem?-ne : (u j x : ℕ) (us : List ℕ) → count u us ≡ 0 → get_elem? us j ≡ some x → u ≢ x
  get_elem?-ne u j x [] h g e = cc
  get_elem?-ne u zero x (v ∷ us) h g e = ground arith
  get_elem?-ne u (suc j) x (v ∷ us) h g e = get_elem?-ne u j x us (ground arith) g e

  -- What Remove finds at an index: an upstream of that name, and taking it out is dropping it.
  abbrev pub Found : String → List ℕ → ℕ → Type 0
  Found name us i =
      (u : ℕ) × (get_elem? us i ≡ some u)
      × ((p.upstream u).name ≡ name)
      × (take i us ++ drop (i + 1) us ≡ keep (λ v. not (v == u)) us)
      × (length (keep (λ v. not (v == u)) us) + 1 ≡ length us)

  keep_head :
      (x u : ℕ) (us : List ℕ)
      → u ≢ x
      → keep (λ v. not (v == x)) (u ∷ us) ≡ u ∷ keep (λ v. not (v == x)) us
  keep_head x u us ne = ground arith

  Found-head :
      (name : String) (u : ℕ) (us : List ℕ)
      → count u us ≡ 0
      → (p.upstream u).name ≡ name
      → Found name (u ∷ us) 0
  Found-head name u us d h = (
    u,
    refl,
    h,
    ground (arith, keep_ne u us d),
    ground (arith, keep_ne u us d, ap length (keep_ne u us d)),
  )

  Found-tail :
      (name : String) (u j : ℕ) (us : List ℕ)
      → count u us ≡ 0
      → Found name us j
      → Found name (u ∷ us) (suc j)
  Found-tail name u j us d f =
      let ne = get_elem?-ne u j f.0 us d f.1 in
      let next : suc j + 1 ≡ suc (j + 1) = omega arith in
      let kept = keep_head f.0 u us ne in
      (
        f.0,
        f.1,
        f.2,
        ap (λ k. u ∷ (take j us ++ drop k (u ∷ us))) next ∙ (ap (λ l. u ∷ l) f.3 ∙ sym kept),
        omega (arith, ap length kept, f.4),
      )

  index_of-Found :
      (name : String) (us : List ℕ) (i : ℕ)
      → Distinct us
      → index_of p name us ≡ some i
      → Found name us i
  unfolding index_of
  index_of-Found name [] i d h = cc
  index_of-Found name (u ∷ us) i d h = elim (Bool-cases (str_eq (p.upstream u).name name)) [
    | inl hit ↦
        let same : 0 ≡ i = ground arith in
        subst (Found name (u ∷ us)) same (Found-head name u us d.0 ((eq_iff _ _).0 hit))
    | inr miss ↦ elim (Option-cases (index_of p name us)) [
      | inl lost ↦ absurd (ground arith)
      | inr (j, e) ↦
          let same : suc j ≡ i = ground arith in
          subst (Found name (u ∷ us)) same
            (Found-tail name u j us d.0 (index_of-Found name us j d.1 e))
    ]
  ]

  keep-append : (f : ℕ → Bool) (xs ys : List ℕ) → keep f (xs ++ ys) ≡ keep f xs ++ keep f ys
  keep-append f [] ys = refl
  keep-append f (x ∷ xs) ys = ground (arith, keep-append f xs ys)

  keep-own :
      (u v : ℕ) (es : List ℕ)
      → All (λ e. (p.endpoint e).upstream ≡ v) es
      → keep (λ e. not ((p.endpoint e).upstream == u)) es ≡ (if v == u then [] else es)
  keep-own u v [] h = ground arith
  keep-own u v (e ∷ es) h = ground (arith, keep-own u v es h.1)

  -- Filtering the paths by their owner is filtering the upstreams.
  keep-flat_map :
      (u : ℕ) (us : List ℕ)
      → ((v : ℕ) → All (λ e. (p.endpoint e).upstream ≡ v) (paths p v))
      → keep (λ e. not ((p.endpoint e).upstream == u)) (flat_map (paths p) us)
        ≡ flat_map (paths p) (keep (λ v. not (v == u)) us)
  keep-flat_map u [] h = refl
  keep-flat_map u (v ∷ us) h =
      keep-append _ (paths p v) (flat_map (paths p) us)
      ∙ ground (arith, keep-own u v (paths p v) (h v), keep-flat_map u us h)

  All-keep {ℓ} : (f : ℕ → Bool) (P : ℕ → Type ℓ) (us : List ℕ) → All P us → All P (keep f us)
  All-keep f P [] h = tt
  All-keep f P (u ∷ us) h = elim (Bool-cases (f u)) [
    | inl t ↦ rw t (h.0, All-keep f P us h.1)
    | inr t ↦ rw t (All-keep f P us h.1)
  ]

  Pairwise-keep {ℓ} :
      (f : ℕ → Bool) (R : ℕ → ℕ → Type ℓ) (us : List ℕ) → Pairwise R us → Pairwise R (keep f us)
  Pairwise-keep f R [] h = tt
  Pairwise-keep f R (u ∷ us) h = elim (Bool-cases (f u)) [
    | inl t ↦ rw t (All-keep f (R u) us h.0, Pairwise-keep f R us h.1)
    | inr t ↦ rw t (Pairwise-keep f R us h.1)
  ]

  count-keep-le : (f : ℕ → Bool) (a : ℕ) (us : List ℕ) → count a (keep f us) ≤ count a us
  count-keep-le f a [] = omega arith
  count-keep-le f a (u ∷ us) = ground (arith, count-keep-le f a us)

  Distinct-keep : (f : ℕ → Bool) (us : List ℕ) → Distinct us → Distinct (keep f us)
  Distinct-keep f [] h = tt
  Distinct-keep f (u ∷ us) h = elim (Bool-cases (f u)) [
    | inl t ↦ rw t (omega (arith, count-keep-le f u us, h.0), Distinct-keep f us h.1)
    | inr t ↦ rw t (Distinct-keep f us h.1)
  ]

  -- What a successful Remove does to the pool: one upstream of that name is gone from the slices.
  abbrev pub Removes : String → Pool → Type 0
  Removes name q =
      (u : ℕ) × ((p.upstream u).name ≡ name)
      × (q.upstreams ≡ keep (λ v. not (v == u)) p.upstreams)
      × (length q.upstreams + 1 ≡ length p.upstreams)
      × (0 < length q.upstreams)

  remove_at-IsSynced :
      (name : String) (i : ℕ)
      → IsSynced p
      → length p.upstreams ≢ 1
      → (f : Found name p.upstreams i)
      → IsSynced (remove_at p i f.0) × Removes name (remove_at p i f.0)
  unfolding remove_at
  remove_at-IsSynced name i s several f = (
    record {
      owners = s.owners;
      distinct_paths = s.distinct_paths;
      weights = s.weights;
      allocated = s.allocated;
      known = rw f.3 (All-keep _ _ p.upstreams s.known);
      distinct = rw f.3 (Distinct-keep _ p.upstreams s.distinct);
      flat = rw (f.3, s.flat) (keep-flat_map f.0 p.upstreams s.owners);
      apart = rw f.3 (Pairwise-keep _ _ p.upstreams s.apart);
    },
    (f.0, f.2, f.3, rw f.3 f.4, omega (arith, f.4, ap length f.3)),
  )

  -- Where Remove succeeds, exactly one upstream, of the given name, leaves the pool with its paths,
  -- another one is left, and the pool stays in step.
  pub remove-IsSynced :
      (q : Pool) (name : String) → IsSynced p → remove p name ≡ ok q → IsSynced q × Removes name q
  unfolding remove
  remove-IsSynced q name s h = elim (Option-cases (index_of p name p.upstreams)) [
    | inl lost ↦ absurd (ground arith)
    | inr (i, e) ↦
        let f = index_of-Found name p.upstreams i s.distinct e in
        elim (Bool-cases (length p.upstreams == 1)) [
          | inl only ↦ absurd (ground arith)
          | inr several ↦
              let same : remove_at p i f.0 ≡ q = ground (arith, f.1) in
              subst (λ r. IsSynced r × Removes name r) same
                (remove_at-IsSynced name i s (ground arith) f)
        ]
  ]

  -- No upstream of the pool has the name.
  abbrev pub Unnamed : String → List ℕ → Type 0
  Unnamed name us = All (λ u. (p.upstream u).name ≢ name) us

  index_of-none : (name : String) (us : List ℕ) → index_of p name us ≡ none → Unnamed name us
  unfolding index_of
  index_of-none name [] h = tt
  index_of-none name (u ∷ us) h = (
    λ e. ground (arith, eq_iff (p.upstream u).name name),
    index_of-none name us (ground (arith, eq_iff (p.upstream u).name name)),
  )

  -- The three answers of Remove: no upstream of that name, the only upstream, or success.
  pub remove-cases :
      (name : String)
      → IsSynced p
      → ((remove p name ≡ err (not_found name)) × Unnamed name p.upstreams)
        ⊎ (((remove p name ≡ err last_upstream) × (length p.upstreams ≡ 1))
            ⊎ ((q : Pool) × (remove p name ≡ ok q)))
  unfolding remove
  remove-cases name s = elim (Option-cases (index_of p name p.upstreams)) [
    | inl lost ↦ inl (rw (lost, remove) refl, index_of-none name p.upstreams lost)
    | inr (i, e) ↦
        let f = index_of-Found name p.upstreams i s.distinct e in
        elim (Bool-cases (length p.upstreams == 1)) [
          | inl only ↦ inr (inl (ground arith, ground arith))
          | inr several ↦ inr (inr (remove_at p i f.0, ground (arith, f.1)))
        ]
  ]

-- Remove writes the two slices and nothing else.
pub remove-same_endpoints :
    (p q : Pool) (name : String)
    → remove p name ≡ ok q
    → q ≡ record p { upstreams = q.upstreams; endpoints = q.endpoints }
unfolding remove remove_at
remove-same_endpoints p q name h = ground arith
