-- ===== src/Proxy/Slots.antt =====
-- internal/proxy/proxy.go: acquire and release, the slots that bound the queries in flight. The
-- buffered channel is its number of free and of used places.
use hole_balancer.Base.{
  ℕ, ◌+◌, ◌-◌, ◌≤◌, ◌≡◌, Bool, true, false, ltb, ◌⊎◌, inl, inr, refl, Bool-cases, if◌then◌else◌,
  arith,
}

pub record Slots : Type 0 where
  pub limit : ℕ
  pub used : ℕ

unfoldable pub new_slots : ℕ → Slots
new_slots limit = record { limit = limit; used = 0 }

-- A slot, if one is free.
pub acquire : Slots → Slots × Bool
acquire s = if ltb s.used s.limit then (record s { used = s.used + 1 }, true) else (s, false)

-- release receives from the channel; it would block on an empty one.
pub release : Slots → Slots
release s = record s { used = s.used - 1 }

pub acquire-used : (s : Slots) → (acquire s).0.used ≡ s.used + (if (acquire s).1 then 1 else 0)
unfolding acquire
acquire-used s = ground arith

-- The limit stays, and no slot is taken beyond it.
pub acquire-limit :
    (s : Slots)
    → ((acquire s).0.limit ≡ s.limit) × (s.used ≤ s.limit → (acquire s).0.used ≤ s.limit)
unfolding acquire
acquire-limit s = ground arith

pub release-used : (s : Slots) (n : ℕ) → s.used ≡ n + 1 → (release s).used ≡ n
unfolding release
release-used s n h = omega (arith, h)

pub release-limit : (s : Slots) → (release s).limit ≡ s.limit
unfolding release
release-limit s = refl

-- What the goroutines of the two listeners do, in any order: a query arrives, and is either taken on
-- or shed; or one of those in flight ends.
pub data Step : Slots × ℕ → Slots × ℕ → Type 0 where
  arrives : {s t : Slots} {n : ℕ} → acquire s ≡ (t, true) → Step (s, n) (t, n + 1)
  sheds : {s t : Slots} {n : ℕ} → acquire s ≡ (t, false) → Step (s, n) (t, n)
  ends : {s : Slots} {n : ℕ} → Step (s, n + 1) (release s, n)

pub data Reach (start : Slots × ℕ) : Slots × ℕ → Type 0 where
  here : Reach start start
  next : {b c : Slots × ℕ} → Reach start b → Step b c → Reach start c

abbrev pub IsBounded : ℕ → Slots × ℕ → Type 0
IsBounded limit (s, n) = (s.limit ≡ limit) × (s.used ≡ n) × (n ≤ limit)

Step-IsBounded : (limit : ℕ) {b c : Slots × ℕ} → Step b c → IsBounded limit b → IsBounded limit c
unfolding acquire release
Step-IsBounded limit (arrives e) h = ground arith
Step-IsBounded limit (sheds e) h = ground arith
Step-IsBounded limit ends h = ground arith

-- In every history of arriving, shed and ending queries, the used slots are the queries in flight,
-- and there are never more of them than the limit; a query is shed only at the limit.
pub Reach-IsBounded :
    (limit : ℕ) (b : Slots × ℕ)
    → Reach (new_slots limit, 0) b
    → IsBounded limit b × (((acquire b.0).1 ≡ true) ⊎ (b.1 ≡ limit))
unfolding acquire new_slots
Reach-IsBounded limit b r = let h = bounded r in (h, free (Bool-cases (ltb b.0.used b.0.limit)) h)
  where
    free :
        ((ltb b.0.used b.0.limit ≡ true) ⊎ (ltb b.0.used b.0.limit ≡ false))
        → IsBounded limit b
        → ((acquire b.0).1 ≡ true) ⊎ (b.1 ≡ limit)
    free (inl l) h = inl (rw l refl)
    free (inr l) h = inr (ground (arith, h, l))

    bounded : {c : Slots × ℕ} → Reach (new_slots limit, 0) c → IsBounded limit c
    bounded here = ground arith
    bounded (next r st) = Step-IsBounded limit st (bounded r)
