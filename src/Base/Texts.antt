-- ===== src/Base/Texts.antt =====
-- The order of texts: by their characters' numbers, which is the order of their bytes in UTF-8.
use Prim.Native.Nat.{ℕ, Ordering, compare as compare_ℕ}
use Prim.Native.Char.{code}
use Prim.Native.String.compare
use Prim.Native.String.{String, [], ◌∷◌, compare, then}
use text.Mathlib.TextEquality.{path_by_compare, eq_iff}
use mathlib.Core.Path.{◌≡◌, refl, sym, ◌∙◌}
use mathlib.Core.Bool.{Bool, true, false}
use native.Mathlib.Omega.{arith}
use hole_balancer.Base.Tests.{str_eq}

abbrev pub IsBelow : String → String → Type 0
IsBelow s t = compare s t ≡ Ordering.lt

-- Go's < on strings.
abbrev pub str_less : String → String → Bool
str_less s t = elim (compare s t) [ Ordering.lt ↦ true | _ ↦ false ]

then_trans :
    (a b c : ℕ) (x y z : Ordering)
    → (x ≡ Ordering.lt → y ≡ Ordering.lt → z ≡ Ordering.lt)
    → then (compare_ℕ a b) x ≡ Ordering.lt
    → then (compare_ℕ b c) y ≡ Ordering.lt
    → then (compare_ℕ a c) z ≡ Ordering.lt
then_trans a b c x y z f h k = ground (arith, f)

then_flip :
    (a b : ℕ) (x y : Ordering)
    → (x ≡ Ordering.gt → y ≡ Ordering.lt)
    → then (compare_ℕ a b) x ≡ Ordering.gt
    → then (compare_ℕ b a) y ≡ Ordering.lt
then_flip a b x y f h = ground (arith, f)

pub IsBelow-trans : (s t u : String) → IsBelow s t → IsBelow t u → IsBelow s u
IsBelow-trans s [] [] h k = let e = sym compare.nil-nil ∙ k in cc
IsBelow-trans [] (d ∷ t) [] h k = let e = sym (compare.cons-nil d t) ∙ k in cc
IsBelow-trans (c ∷ s) [] u h k = let e = sym (compare.cons-nil c s) ∙ h in cc
IsBelow-trans (c ∷ s) (d ∷ t) [] h k = let e = sym (compare.cons-nil d t) ∙ k in cc
IsBelow-trans [] t (e ∷ u) h k = compare.nil-cons e u
IsBelow-trans (c ∷ s) (d ∷ t) (e ∷ u) h k =
    compare.cons-cons c e s u
    ∙ then_trans (code c) (code d) (code e) (compare s t) (compare t u) (compare s u)
        (IsBelow-trans s t u) (sym (compare.cons-cons c d s t) ∙ h)
        (sym (compare.cons-cons d e t u) ∙ k)

pub above_flip : (s t : String) → compare s t ≡ Ordering.gt → IsBelow t s
above_flip [] [] h = let e = sym compare.nil-nil ∙ h in cc
above_flip [] (d ∷ t) h = let e = sym (compare.nil-cons d t) ∙ h in cc
above_flip (c ∷ s) [] h = compare.nil-cons c s
above_flip (c ∷ s) (d ∷ t) h =
    compare.cons-cons d c t s
    ∙ then_flip (code c) (code d) (compare s t) (compare t s) (above_flip s t)
        (sym (compare.cons-cons c d s t) ∙ h)

pub str_less-IsBelow : (s t : String) → str_less s t ≡ true → IsBelow s t
str_less-IsBelow s t h = go (compare s t) refl h
  where
    go :
        (o : Ordering)
        → compare s t ≡ o
        → elim o as (λ x. Bool) [ Ordering.lt ↦ true | _ ↦ false ] ≡ true
        → IsBelow s t
    go Ordering.lt e h = e
    go Ordering.eq e h = cc
    go Ordering.gt e h = cc

-- Of two texts that differ, the one that is not below is above.
pub str_less-above : (s t : String) → str_eq s t ≡ false → str_less s t ≡ false → IsBelow t s
str_less-above s t d h = go (compare s t) refl h
  where
    go :
        (o : Ordering)
        → compare s t ≡ o
        → elim o as (λ x. Bool) [ Ordering.lt ↦ true | _ ↦ false ] ≡ false
        → IsBelow t s
    go Ordering.lt e h = cc
    go Ordering.eq e h = let same : str_eq s t ≡ true = (eq_iff s t).1 (path_by_compare s t e) in cc
    go Ordering.gt e h = above_flip s t e
