-- ===== src/Pool/Plan/Sort.antt =====
-- internal/pool/pool.go, orderLocked: the stable sort of the least-latency case, and the swap of
-- the weighted draw.
use hole_balancer.Base.{
  ℕ, zero, suc, ◌≤◌, ◌<◌, ◌≡◌, refl, List, [], ◌∷◌, some, arith, ◌==◌, length, get_elem?,
  get_elem?-lt, set, keep, All, All-mono,
}
use hole_balancer.Base.Counting.{count}
use hole_balancer.Pool.Plan.{insert_by, slice_stable, swap_first}

abbrev pub Sorted : (ℕ → ℕ) → List ℕ → Type 0
Sorted key [] = Unit
Sorted key (x ∷ xs) = All (λ y. key x ≤ key y) xs × Sorted key xs

module _ (key : ℕ → ℕ) where
  count-insert_by : (a x : ℕ) (ys : List ℕ) → count a (insert_by key x ys) ≡ count a (x ∷ ys)
  unfolding insert_by
  count-insert_by a x [] = refl
  count-insert_by a x (y ∷ ys) = ground (arith, count-insert_by a x ys)

  pub count-slice_stable : (a : ℕ) (xs : List ℕ) → count a (slice_stable key xs) ≡ count a xs
  unfolding slice_stable
  count-slice_stable a [] = refl
  count-slice_stable a (x ∷ xs) =
      ground (arith, count-insert_by a x (slice_stable key xs), count-slice_stable a xs)

  All-insert_by :
      (k x : ℕ) (ys : List ℕ)
      → k ≤ key x
      → All (λ y. k ≤ key y) ys
      → All (λ y. k ≤ key y) (insert_by key x ys)
  unfolding insert_by
  All-insert_by k x [] h a = (h, tt)
  All-insert_by k x (y ∷ ys) h a = ground (arith, All-insert_by k x ys h a.1)

  insert_by-Sorted : (x : ℕ) (ys : List ℕ) → Sorted key ys → Sorted key (insert_by key x ys)
  unfolding insert_by
  insert_by-Sorted x [] s = (tt, tt)
  insert_by-Sorted x (y ∷ ys) s = ground (
    arith,
    insert_by-Sorted x ys s.1,
    All-insert_by (key y) x ys,
    All-mono (λ z. key y ≤ key z) (λ z. key x ≤ key z) ys,
  )

  pub slice_stable-Sorted : (xs : List ℕ) → Sorted key (slice_stable key xs)
  unfolding slice_stable
  slice_stable-Sorted [] = tt
  slice_stable-Sorted (x ∷ xs) = insert_by-Sorted x _ (slice_stable-Sorted xs)

  keep-insert_by :
      (k x : ℕ) (ys : List ℕ)
      → keep (λ y. key y == k) (insert_by key x ys) ≡ keep (λ y. key y == k) (x ∷ ys)
  unfolding insert_by
  keep-insert_by k x [] = refl
  keep-insert_by k x (y ∷ ys) = ground (arith, keep-insert_by k x ys)

  -- Upstreams with the same key stay in their order.
  pub keep-slice_stable :
      (k : ℕ) (xs : List ℕ)
      → keep (λ y. key y == k) (slice_stable key xs) ≡ keep (λ y. key y == k) xs
  unfolding slice_stable
  keep-slice_stable k [] = refl
  keep-slice_stable k (x ∷ xs) =
      ground (arith, keep-insert_by k x (slice_stable key xs), keep-slice_stable k xs)

count-set :
    (a x y i : ℕ) (xs : List ℕ)
    → get_elem? xs i ≡ some y
    → count a (y ∷ set xs i x) ≡ count a (x ∷ xs)
count-set a x y i [] h = ground arith
count-set a x y zero (z ∷ xs) h = ground arith
count-set a x y (suc i) (z ∷ xs) h = ground (arith, count-set a x y i xs h)

-- An index in range is swapped with the first one, and no entry is lost.
pub swap_first_total :
    (i : ℕ) (xs : List ℕ)
    → i < length xs
    → (ys : List ℕ) × (swap_first i xs ≡ some ys) × ((a : ℕ) → count a ys ≡ count a xs)
unfolding swap_first
swap_first_total zero xs h = (xs, refl, λ a. refl)
swap_first_total (suc i) [] h = elim h [ ]
swap_first_total (suc i) (x ∷ xs) h =
    let g = get_elem?-lt xs i (omega arith) in
    (g.0 ∷ set xs i x, rw (g.1, swap_first) refl, λ a. count-set a x g.0 i xs g.1)
