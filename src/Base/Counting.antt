-- ===== src/Base/Counting.antt =====
-- How often a number stands in a list, and lists that are equal up to order.
use hole_balancer.Base.Tests.{◌==◌, if◌then◌else◌}
use hole_balancer.Base.Lists.{flat_map, All}
use Prim.Native.Nat.{ℕ, ◌+◌, ◌<◌}
use mathlib.Core.Path.{◌≡◌, refl, sym, subst}
use mathlib.Core.Logic.{∥∥₁_elim}
use mathlib.Core.Bool.{Bool, true, false}
use mathlib.Core.List.{List, [], ◌∷◌, ◌++◌, Perm, Permᴰ, perm_middle}
use mathlib.Core.List.Perm
use native.Mathlib.Nat.{ℕ_set}
use native.Mathlib.Decide.{ℕ_discrete}
use native.Mathlib.Omega.{arith}

abbrev pub count : ℕ → List ℕ → ℕ
count key [] = 0
count key (j ∷ js) = let later = count key js in if j == key then 1 + later else later

-- No number stands twice.
abbrev pub Distinct : List ℕ → Type 0
Distinct [] = Unit {0}
Distinct (x ∷ xs) = (count x xs ≡ 0) × Distinct xs

-- A sum over a list does not depend on its order.
abbrev pub sum_of {ℓ} : {A : Type ℓ} → (A → ℕ) → List A → ℕ
sum_of f [] = 0
sum_of f (x ∷ xs) = f x + sum_of f xs

pub sum_of-append {ℓ} :
    {A : Type ℓ} (f : A → ℕ) (l r : List A) → sum_of f (l ++ r) ≡ sum_of f l + sum_of f r
sum_of-append f [] r = omega arith
sum_of-append f (x ∷ l) r = omega (arith, sum_of-append f l r)

sum_of-Permᴰ {ℓ} :
    {A : Type ℓ} (f : A → ℕ) {xs ys : List A} → Permᴰ xs ys → sum_of f xs ≡ sum_of f ys
sum_of-Permᴰ f Permᴰ.nil = refl
sum_of-Permᴰ f (Permᴰ.cons {l₁ = xs} {l₂ = ys} e p) = ground (arith, sum_of-Permᴰ f p)
sum_of-Permᴰ f (Permᴰ.swap e e') = ground arith
sum_of-Permᴰ f (Permᴰ.trans p q) = omega (arith, sum_of-Permᴰ f p, sum_of-Permᴰ f q)

pub sum_of-Perm {ℓ} :
    {A : Type ℓ} (f : A → ℕ) {xs ys : List A} → Perm xs ys → sum_of f xs ≡ sum_of f ys
sum_of-Perm f p = ∥∥₁_elim p (ℕ_set _ _) (sum_of-Permᴰ f)

pub count-eq-sum_of : (a : ℕ) (xs : List ℕ) → count a xs ≡ sum_of (λ x. if x == a then 1 else 0) xs
count-eq-sum_of a [] = refl
count-eq-sum_of a (x ∷ xs) = ground (arith, count-eq-sum_of a xs)

pub count-append : (key : ℕ) (l r : List ℕ) → count key (l ++ r) ≡ count key l + count key r
count-append key l r = omega (
  arith,
  count-eq-sum_of key l,
  count-eq-sum_of key r,
  count-eq-sum_of key (l ++ r),
  sum_of-append (λ x. if x == key then 1 else 0) l r,
)

pub count-Perm : (a : ℕ) {xs ys : List ℕ} → Perm xs ys → count a xs ≡ count a ys
count-Perm a {xs} {ys} p = omega (
  arith,
  count-eq-sum_of a xs,
  count-eq-sum_of a ys,
  sum_of-Perm (λ x. if x == a then 1 else 0) p,
)

pub count-flat_map {ℓ} :
    {A : Type ℓ} (a : ℕ) (f : A → List ℕ) (xs : List A)
    → count a (flat_map f xs) ≡ sum_of (λ x. count a (f x)) xs
count-flat_map a f [] = refl
count-flat_map a f (x ∷ xs) =
    omega (arith, count-append a (f x) (flat_map f xs), count-flat_map a f xs)

-- A number that occurs splits the list.
split_at :
    (a : ℕ) (ys : List ℕ) → 0 < count a ys → (l : List ℕ) × (r : List ℕ) × (ys ≡ l ++ (a ∷ r))
split_at a [] h = elim h [ ]
split_at a (y ∷ ys) h = go (y == a) refl (split_at a ys)
  where
    go :
        (b : Bool)
        → (y == a) ≡ b
        → (0 < count a ys → (l : List ℕ) × (r : List ℕ) × (ys ≡ l ++ (a ∷ r)))
        → (l : List ℕ) × (r : List ℕ) × (y ∷ ys ≡ l ++ (a ∷ r))
    go true e rec = ([], ys, ground arith)
    go false e rec = let s = rec (ground arith) in (y ∷ s.0, s.1, ground (arith, s.2))

-- Equal counts give a permutation.
pub Perm_of_count : (xs ys : List ℕ) → ((a : ℕ) → count a xs ≡ count a ys) → Perm xs ys
Perm_of_count [] [] h = Perm.nil
Perm_of_count [] (y ∷ ys) h = absurd (ground (arith, h y))
Perm_of_count (x ∷ xs) ys h =
    let s = split_at x ys (ground (arith, h x)) in
    Perm.trans
      (Perm.cons x (
        Perm_of_count xs (s.0 ++ s.1)
          (λ a. ground (arith, h a, s.2, count-append a s.0 s.1, count-append a s.0 (x ∷ s.1)))))
      (subst (Perm (x ∷ (s.0 ++ s.1))) (sym s.2) (Perm.symm (perm_middle s.0 s.1)))

module _ {ℓ} (P : ℕ → Type ℓ) where
  -- What holds of all entries holds of each number that occurs.
  pub All-count : (a : ℕ) (xs : List ℕ) → All P xs → 0 < count a xs → P a
  All-count a [] h l = elim l [ ]
  All-count a (x ∷ xs) h l = elim (ℕ_discrete x a) [
    | yes e ↦ subst P e h.0
    | no ne ↦ All-count a xs h.1 (ground arith)
  ]

  count-All : (xs : List ℕ) → ((a : ℕ) → 0 < count a xs → P a) → All P xs
  count-All [] h = tt
  count-All (x ∷ xs) h = (h x (ground arith), count-All xs (λ a l. h a (ground arith)))

  pub All-Perm : {xs ys : List ℕ} → Perm xs ys → All P xs → All P ys
  All-Perm {xs} {ys} perm h =
      count-All ys (λ a l. All-count a xs h (omega (arith, count-Perm a perm)))
