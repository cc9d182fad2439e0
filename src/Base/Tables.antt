-- ===== src/Base/Tables.antt =====
-- Maps keyed by texts, as association lists: a Go map whose order of iteration is left open.
use hole_balancer.Base.Tests.{str_eq, str_eq_self, if◌then◌else◌, Bool-cases}
use Prim.Native.Nat.{ℕ, ◌+◌, ◌%◌, ◌^◌}
use Prim.Native.String.{String}
use text.Mathlib.TextEquality.{eq_iff}
use mathlib.Core.Path.{◌≡◌, refl}
use mathlib.Core.Logic.{inl, inr}
use mathlib.Core.Bool.{false}
use mathlib.Core.List.{List, [], ◌∷◌}
use mathlib.Core.Option.{Option, none, some}
use native.Mathlib.Omega.{arith}

module _ {ℓ} {A : Type ℓ} where
  abbrev pub find : String → List (String × A) → Option A
  find k [] = none
  find k ((j, a) ∷ rest) = if str_eq j k then some a else find k rest

  abbrev pub put : String → A → List (String × A) → List (String × A)
  put k a [] = (k, a) ∷ []
  put k a ((j, b) ∷ rest) =
      let put_rest = put k a rest in if str_eq j k then (j, a) ∷ rest else (j, b) ∷ put_rest

  abbrev pub erase : String → List (String × A) → List (String × A)
  erase k [] = []
  erase k ((j, b) ∷ rest) =
      let erased = erase k rest in if str_eq j k then erased else (j, b) ∷ erased

  pub find-put : (k : String) (a : A) (m : List (String × A)) → find k (put k a m) ≡ some a
  find-put k a [] = ground (arith, str_eq_self k)
  find-put k a ((j, b) ∷ rest) = ground (arith, find-put k a rest)

  pub find-put_other :
      (k l : String) (a : A) (m : List (String × A))
      → str_eq k l ≡ false
      → find l (put k a m) ≡ find l m
  find-put_other k l a [] h = ground arith
  find-put_other k l a ((j, b) ∷ rest) h = elim (Bool-cases (str_eq j k)) [
    | inl e ↦ let same : j ≡ k = (eq_iff j k).0 e in rw (e, same, h)
    | inr e ↦ rw e (ground (arith, find-put_other k l a rest h))
  ]

  pub find-erase : (k : String) (m : List (String × A)) → find k (erase k m) ≡ none
  find-erase k [] = refl
  find-erase k ((j, b) ∷ rest) = ground (arith, find-erase k rest)

  pub find-erase_other :
      (k l : String) (m : List (String × A)) → str_eq k l ≡ false → find l (erase k m) ≡ find l m
  find-erase_other k l [] h = refl
  find-erase_other k l ((j, b) ∷ rest) h = elim (Bool-cases (str_eq j k)) [
    | inl e ↦
        let same : j ≡ k = (eq_iff j k).0 e in rw e (rw (same, h) (find-erase_other k l rest h))
    | inr e ↦ rw e (ground (arith, find-erase_other k l rest h))
  ]

-- What `m[k]` reads of a map of counters, 0 where the key is missing.
abbrev pub tally_of : String → List (String × ℕ) → ℕ
tally_of k m = elim (find k m) [ none ↦ 0 | some n ↦ n ]

-- `m[k]++` on a map of uint64.
abbrev pub bump : String → List (String × ℕ) → List (String × ℕ)
bump k m = put k ((tally_of k m + 1) % 2 ^ 64) m

pub tally_of-bump :
    (k : String) (m : List (String × ℕ)) → tally_of k (bump k m) ≡ (tally_of k m + 1) % 2 ^ 64
tally_of-bump k m = rw (find-put k ((tally_of k m + 1) % 2 ^ 64) m, tally_of)

pub tally_of-bump_other :
    (k l : String) (m : List (String × ℕ))
    → str_eq k l ≡ false
    → tally_of l (bump k m) ≡ tally_of l m
tally_of-bump_other k l m h = rw (find-put_other k l ((tally_of k m + 1) % 2 ^ 64) m h, tally_of)

-- An increment of a wrapped counter.
pub wrap_step : (a : ℕ) → (a % 2 ^ 64 + 1) % 2 ^ 64 ≡ (a + 1) % 2 ^ 64
wrap_step a = omega arith
