-- ===== src/Pool/Plan/Order.antt =====
-- internal/pool/pool.go, orderLocked: what each strategy does to the order of the upstreams.
use hole_balancer.Base.{
  ℕ, zero, suc, ◌+◌, ◌-◌, ◌%◌, ◌^◌, ◌≤◌, ◌<◌, ◌≡◌, refl, ap, ◌∙◌, List, [], ◌∷◌, ◌++◌, some, arith,
  length, get_elem?, get_elem?-lt, take, drop,
}
use native.Mathlib.Nat.{mod-eq_of_lt, mod-eq-sub-mod, mod-lt, add_assoc}
use hole_balancer.Pool.Plan.{rotation_start, rotate_from}

sub_of : (i j n : ℕ) → i ≡ n + j → i - n ≡ j
sub_of i j n e = omega arith

wrap_index : (i j n : ℕ) → i ≡ n + j → j < n → i % n ≡ j
wrap_index i j n e h =
    mod-eq-sub-mod {n = i} {m = n} (omega arith)
    ∙ (ap (λ t. t % n) (sub_of i j n e) ∙ mod-eq_of_lt h)

module _ {ℓ} {A : Type ℓ} where
  pub drop_step :
      (xs : List A) (i : ℕ) (x : A) → get_elem? xs i ≡ some x → drop i xs ≡ x ∷ drop (i + 1) xs
  drop_step [] i x h = ground arith
  drop_step (y ∷ ys) zero x h = ground arith
  drop_step (y ∷ ys) (suc i) x h = ground (arith, drop_step ys i x h)

  -- One round of the loop that reads index `j`.
  round :
      (out : List A) (s i k j : ℕ) (x : A) (xs : List A)
      → (s + i) % length out ≡ j
      → get_elem? out j ≡ some x
      → rotate_from out s (i + 1) k ≡ some xs
      → rotate_from out s i (suc k) ≡ some (x ∷ xs)
  unfolding rotate_from
  round out s i k j x xs e g h =
      rw (e, rotate_from) (rw (g, rotate_from) (rw (h, rotate_from) refl))

  -- The rounds that wrap around read from the front.
  wrapped :
      (out : List A) (s i k j : ℕ)
      → s + i ≡ length out + j
      → j + k ≤ s
      → s < length out
      → rotate_from out s i k ≡ some (take k (drop j out))
  unfolding rotate_from
  wrapped out s i zero j e h l = refl
  wrapped out s i (suc k) j e h l =
      let g = get_elem?-lt out j (omega arith) in
      rw (drop_step out j g.0 g.1) (
        round out s i k j g.0 (take k (drop (j + 1) out))
          (wrap_index (s + i) j (length out) e (omega arith)) g.1
          (wrapped out s (i + 1) k (j + 1) (omega arith) (omega arith) l))

  drop_all : (n : ℕ) (xs : List A) → length xs ≤ n → drop n xs ≡ []
  drop_all zero [] h = refl
  drop_all zero (x ∷ xs) h = elim h [ ]
  drop_all (suc n) [] h = refl
  drop_all (suc n) (x ∷ xs) h = drop_all n xs (omega arith)

  -- The whole loop from round `i`: the tail of the list, and then its front.
  unwrapped :
      (out : List A) (s i k m : ℕ)
      → s + i + k ≡ length out
      → s < length out
      → m ≡ k + s
      → rotate_from out s i m ≡ some (drop (s + i) out ++ take s out)
  unwrapped out s i zero m e l q =
      let m' : m ≡ s = omega arith in
      rw (m', drop_all (s + i) out (omega arith))
        (wrapped out s i s 0 (omega arith) (omega arith) l)
  unwrapped out s i (suc k) m e l q =
      let g = get_elem?-lt out (s + i) (omega arith) in
      let m' : m ≡ suc (k + s) = omega arith in
      rw (m', drop_step out (s + i) g.0 g.1)
        (round out s i (k + s) (s + i) g.0 _ (mod-eq_of_lt (omega arith)) g.1
          (rw (add_assoc s i 1) (unwrapped out s (i + 1) k (k + s) (omega arith) l refl)))

  -- Round robin: a rotation of the list.
  pub rotate_from-eq :
      (out : List A) (s : ℕ)
      → s < length out
      → rotate_from out s 0 (length out) ≡ some (drop s out ++ take s out)
  rotate_from-eq out s l =
      let z : s + 0 ≡ s = omega arith in
      rw z at (unwrapped out s 0 (length out - s) (length out) (omega arith) l (omega arith))

-- Below the largest int the counter gives an index of the list.
pub rotation_start-lt :
    (rr n : ℕ) → 0 < n → rr < 2 ^ 63 → (rotation_start rr n ≡ some (rr % n)) × (rr % n < n)
unfolding rotation_start
rotation_start-lt rr n h l = (ground arith, mod-lt rr h)
