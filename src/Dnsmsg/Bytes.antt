-- ===== src/Dnsmsg/Bytes.antt =====
-- Bytes of a message at known places.
use hole_balancer.Base.{
  ℕ, suc, ◌+◌, ◌*◌, ◌<◌, ◌≡◌, refl, List, [], ◌∷◌, ◌++◌, length, take, drop, arith, get_elem?, some,
  subst, zero,
}
use hole_balancer.Dnsmsg.Header.{byte_at, uint16}

module _ {ℓ} {A : Type ℓ} where
  get_elem?-append_self :
      (pre : List A) (x : A) (post : List A) → get_elem? (pre ++ x ∷ post) (length pre) ≡ some x
  get_elem?-append_self [] x post = refl
  get_elem?-append_self (y ∷ pre) x post = get_elem?-append_self pre x post

pub byte_at-append :
    (pre : List ℕ) (x : ℕ) (post : List ℕ) → byte_at (pre ++ x ∷ post) (length pre) ≡ x
byte_at-append pre x post = rw (get_elem?-append_self pre x post, byte_at)

pub drop-append_suc :
    (pre : List ℕ) (x : ℕ) (post : List ℕ) → drop (length pre + 1) (pre ++ x ∷ post) ≡ post
drop-append_suc pre x post =
    subst (λ n. drop n (pre ++ x ∷ post) ≡ post) {x = suc (length pre)} (omega arith) (go pre)
  where
    go : (pre : List ℕ) → drop (suc (length pre)) (pre ++ x ∷ post) ≡ post
    go [] = refl
    go (y ∷ pre) = go pre

byte_at-append_suc :
    (pre : List ℕ) (a b : ℕ) (post : List ℕ) → byte_at (pre ++ (a ∷ b ∷ post)) (length pre + 1) ≡ b
byte_at-append_suc pre a b post =
    subst (λ n. byte_at (pre ++ (a ∷ b ∷ post)) n ≡ b) {x = suc (length pre)} (omega arith) (go pre)
  where
    go : (pre : List ℕ) → byte_at (pre ++ (a ∷ b ∷ post)) (suc (length pre)) ≡ b
    go [] = refl
    go (y ∷ pre) = go pre

pub uint16-append :
    (pre : List ℕ) (a b : ℕ) (post : List ℕ)
    → uint16 (pre ++ (a ∷ b ∷ post)) (length pre) ≡ a * 256 + b
uint16-append pre a b post =
    omega (arith, byte_at-append pre a (b ∷ post), byte_at-append_suc pre a b post)

pub byte_at-take : (n i : ℕ) (xs : List ℕ) → i < n → byte_at (take n xs) i ≡ byte_at xs i
byte_at-take zero i xs h = absurd (omega arith)
byte_at-take (suc n) i [] h = refl
byte_at-take (suc n) zero (x ∷ xs) h = refl
byte_at-take (suc n) (suc i) (x ∷ xs) h = byte_at-take n i xs (omega arith)
