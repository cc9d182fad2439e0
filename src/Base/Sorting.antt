-- ===== src/Base/Sorting.antt =====
-- sort.Slice with a test of which of two entries comes first. Where the test orders all entries,
-- its contract leaves one result, which insertion gives.
use mathlib.Core.Path.{◌≡◌}
use mathlib.Core.Logic.{inl, inr}
use mathlib.Core.Bool.{Bool, true, false}
use mathlib.Core.List.{List, [], ◌∷◌, Perm}
use mathlib.Core.List.Perm
use hole_balancer.Base.Tests.{if◌then◌else◌, Bool-cases}
use hole_balancer.Base.Lists.{All, All-mono, Pairwise}

module _ {ℓ} {A : Type ℓ} where
  abbrev pub insert_less : (A → A → Bool) → A → List A → List A
  insert_less less x [] = x ∷ []
  insert_less less x (y ∷ ys) =
      let rest = insert_less less x ys in if less x y then x ∷ y ∷ ys else y ∷ rest

  abbrev pub sort_slice : (A → A → Bool) → List A → List A
  sort_slice less [] = []
  sort_slice less (x ∷ xs) = insert_less less x (sort_slice less xs)

  insert_less-Perm :
      (less : A → A → Bool) (x : A) (ys : List A) → Perm (insert_less less x ys) (x ∷ ys)
  insert_less-Perm less x [] = Perm.refl (x ∷ [])
  insert_less-Perm less x (y ∷ ys) = elim (Bool-cases (less x y)) [
    | inl b ↦ rw b (Perm.refl (x ∷ y ∷ ys))
    | inr b ↦ rw b (Perm.trans (Perm.cons y (insert_less-Perm less x ys)) (Perm.swap x y ys))
  ]

  pub sort_slice-Perm : (less : A → A → Bool) (xs : List A) → Perm (sort_slice less xs) xs
  sort_slice-Perm less [] = Perm.nil
  sort_slice-Perm less (x ∷ xs) =
      Perm.trans (insert_less-Perm less x (sort_slice less xs))
        (Perm.cons x (sort_slice-Perm less xs))

module _ {ℓ κ} {A : Type ℓ} (P : A → Type κ) (less : A → A → Bool) where
  All-insert_less : (x : A) (ys : List A) → P x → All P ys → All P (insert_less less x ys)
  All-insert_less x [] h a = (h, tt)
  All-insert_less x (y ∷ ys) h a = elim (Bool-cases (less x y)) [
    | inl b ↦ rw b (h, a)
    | inr b ↦ rw b (a.0, All-insert_less x ys h a.1)
  ]

  All-sort_slice : (xs : List A) → All P xs → All P (sort_slice less xs)
  All-sort_slice [] a = tt
  All-sort_slice (x ∷ xs) a = All-insert_less x _ a.0 (All-sort_slice xs a.1)

module _ {ℓ κ} {A : Type ℓ} (R D : A → A → Type κ) (less : A → A → Bool)
    (below : (x y : A) → less x y ≡ true → R x y)
    (above : (x y : A) → D x y → less x y ≡ false → R y x)
    (trans : (x y z : A) → R x y → R y z → R x z) where
  insert_less-Pairwise :
      (x : A) (ys : List A) → All (D x) ys → Pairwise R ys → Pairwise R (insert_less less x ys)
  insert_less-Pairwise x [] d p = (tt, tt)
  insert_less-Pairwise x (y ∷ ys) d p = elim (Bool-cases (less x y)) [
    | inl b ↦
        let first = below x y b in
        rw b ((first, All-mono (R y) (R x) ys (λ z r. trans x y z first r) p.0), p)
    | inr b ↦
        rw b
          (All-insert_less (R y) less x ys (above x y d.0 b) p.0, insert_less-Pairwise x ys d.1 p.1)
  ]

  -- Entries that the test tells apart come out in order.
  pub sort_slice-Pairwise : (xs : List A) → Pairwise D xs → Pairwise R (sort_slice less xs)
  sort_slice-Pairwise [] d = tt
  sort_slice-Pairwise (x ∷ xs) d =
      insert_less-Pairwise x _ (All-sort_slice (D x) less xs d.0) (sort_slice-Pairwise xs d.1)
