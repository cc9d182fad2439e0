-- ===== src/Pool/Health/Streak.antt =====
-- internal/pool/pool.go, record: the rise and fall thresholds as a function of the outcomes seen.
use hole_balancer.Base.{
  ℕ, suc, ◌+◌, ◌≤◌, ◌<◌, ◌≡◌, ◌⊎◌, inl, inr, String, Bool, true, false, not, ◌&&◌, ◌||◌, ◌∙◌, List,
  [], ◌∷◌, Option, none, some, arith, ltb, leb, if◌then◌else◌, Bool-cases,
}
use hole_balancer.Pool.Types.{Endpoint}
use hole_balancer.Pool.Health.{tally, flip, apply, judge, initial}

-- One outcome that feeds the verdict: whether it succeeded, its error and its time.
pub record Outcome : Type 0 where
  pub ok : Bool
  pub error : Option String
  pub now : ℕ

-- A sequence of outcomes, oldest first.
pub judge_all : ℕ → ℕ → Endpoint → List Outcome → Endpoint
judge_all rise fall e [] = e
judge_all rise fall e (o ∷ os) = judge_all rise fall (judge rise fall o.ok o.error o.now e).0 os

-- Between calls: an endpoint that is up has not failed often enough, one that is down has not
-- succeeded often enough, and at most one streak is running.
pub record IsSettled (rise fall : ℕ) (e : Endpoint) : Type 0 where
  pub standing : e.up ≡ true → e.failures < fall
  pub fallen : e.up ≡ false → e.successes < rise
  pub one_streak : (e.successes ≡ 0) ⊎ (e.failures ≡ 0)

-- Every outcome keeps this, for thresholds of at least one.
pub judge-IsSettled :
    (rise fall now : ℕ) (ok : Bool) (error : Option String) (e : Endpoint)
    → 1 ≤ rise
    → 1 ≤ fall
    → IsSettled rise fall e
    → IsSettled rise fall (judge rise fall ok error now e).0
unfolding judge tally flip apply
judge-IsSettled rise fall now true error e r f s = ground arith
judge-IsSettled rise fall now false none e r f s = ground arith
judge-IsSettled rise fall now false (some text) e r f s = ground arith

pub initial-IsSettled :
    (rise fall latency now : ℕ) (up : Bool) (error : Option String) (e : Endpoint)
    → 1 ≤ rise
    → 1 ≤ fall
    → IsSettled rise fall (initial rise fall up latency error now e)
unfolding initial
initial-IsSettled rise fall latency now true error e r f = ground arith
initial-IsSettled rise fall latency now false none e r f = ground arith
initial-IsSettled rise fall latency now false (some text) e r f = ground arith

-- The description of the verdict: the outcomes newest first, and how long the newest streak is.
abbrev pub streak : Bool → List Outcome → ℕ
streak b [] = 0
streak true (o ∷ older) = if o.ok then suc (streak true older) else 0
streak false (o ∷ older) = if o.ok then 0 else suc (streak false older)

-- Up again after `rise` successes in a row, down again after `fall` failures in a row.
pub stands : ℕ → ℕ → List Outcome → Bool
stands rise fall [] = false
stands rise fall (o ∷ older) =
    let before = stands rise fall older in
    if before then not (leb fall (streak false (o ∷ older))) else leb rise (streak true (o ∷ older))

-- An endpoint that has seen exactly these outcomes, newest first.
pub record Saw (rise fall : ℕ) (seen : List Outcome) (e : Endpoint) : Type 0 where
  pub successes_are : e.successes ≡ streak true seen
  pub failures_are : e.failures ≡ streak false seen
  pub up_is : e.up ≡ stands rise fall seen

judge-Saw :
    (rise fall : ℕ) (seen : List Outcome) (o : Outcome) (e : Endpoint)
    → 1 ≤ rise
    → 1 ≤ fall
    → Saw rise fall seen e
    → Saw rise fall (o ∷ seen) (judge rise fall o.ok o.error o.now e).0
unfolding judge tally flip apply stands
judge-Saw rise fall seen o e r f s = ground arith

-- The outcomes newest first, put before those already seen.
abbrev pub onto : List Outcome → List Outcome → List Outcome
onto [] seen = seen
onto (o ∷ os) seen = onto os (o ∷ seen)

judge_all-onto :
    (rise fall : ℕ) (seen os : List Outcome) (e : Endpoint)
    → 1 ≤ rise
    → 1 ≤ fall
    → Saw rise fall seen e
    → Saw rise fall (onto os seen) (judge_all rise fall e os)
unfolding judge_all
judge_all-onto rise fall seen [] e r f s = s
judge_all-onto rise fall seen (o ∷ os) e r f s =
    judge_all-onto rise fall (o ∷ seen) os _ r f (judge-Saw rise fall seen o e r f s)

-- A new endpoint that is down and has no streak, after any outcomes: its counters are the lengths of
-- the newest streaks, and it is up exactly when the description of the thresholds says so.
pub judge_all-Saw :
    (rise fall : ℕ) (os : List Outcome) (e : Endpoint)
    → 1 ≤ rise
    → 1 ≤ fall
    → e.up ≡ false
    → e.successes ≡ 0
    → e.failures ≡ 0
    → Saw rise fall (onto os []) (judge_all rise fall e os)
unfolding stands
judge_all-Saw rise fall os e r f down s k =
    judge_all-onto rise fall [] os e r f
      (record { successes_are = s; failures_are = k; up_is = down })

-- Outcomes that all went one way.
abbrev pub AllWent : Bool → List Outcome → Type 0
AllWent b [] = Unit
AllWent b (o ∷ os) = (o.ok ≡ b) × AllWent b os

abbrev pub count_of : List Outcome → ℕ
count_of [] = 0
count_of (o ∷ os) = suc (count_of os)

-- The step of one more failure, and of one more success.
failed :
    (rise fall : ℕ) (o : Outcome) (e : Endpoint)
    → o.ok ≡ false
    → let e' = (judge rise fall o.ok o.error o.now e).0 in
      (e'.failures ≡ e.failures + 1) × (e'.up ≡ (e.up && ltb (e.failures + 1) fall))
unfolding judge tally flip apply
failed rise fall o e h = ground arith

succeeded :
    (rise fall : ℕ) (o : Outcome) (e : Endpoint)
    → o.ok ≡ true
    → let e' = (judge rise fall o.ok o.error o.now e).0 in
      (e'.successes ≡ e.successes + 1) × (e'.up ≡ (e.up || leb rise (e.successes + 1)))
unfolding judge tally flip apply
succeeded rise fall o e h = ground arith

stays_down :
    (rise fall : ℕ) (os : List Outcome) (e : Endpoint)
    → e.up ≡ false
    → AllWent false os
    → (judge_all rise fall e os).up ≡ false
unfolding judge_all
stays_down rise fall [] e down h = down
stays_down rise fall (o ∷ os) e down h =
    stays_down rise fall os _ (ground (arith, (failed rise fall o e h.0).1)) h.1

stays_up :
    (rise fall : ℕ) (os : List Outcome) (e : Endpoint)
    → e.up ≡ true
    → AllWent true os
    → (judge_all rise fall e os).up ≡ true
unfolding judge_all
stays_up rise fall [] e up h = up
stays_up rise fall (o ∷ os) e up h =
    stays_up rise fall os _ (ground (arith, (succeeded rise fall o e h.0).1)) h.1

-- An endpoint that is up, with fewer than `fall` failures in a row, takes more failures: it stays up
-- while all of them are fewer than `fall`, and is down from then on.
pub judge_all-failures :
    (rise fall : ℕ) (os : List Outcome) (e : Endpoint)
    → e.up ≡ true
    → e.failures < fall
    → AllWent false os
    → (judge_all rise fall e os).up ≡ ltb (e.failures + count_of os) fall
unfolding judge_all
judge_all-failures rise fall [] e up s h = ground arith
judge_all-failures rise fall (o ∷ os) e up s h =
    let e' = (judge rise fall o.ok o.error o.now e).0 in
    let step = failed rise fall o e h.0 in
    elim (Bool-cases (ltb (e.failures + 1) fall)) [
      | inl more ↦
          judge_all-failures rise fall os e' (ground (arith, step.1)) (ground (arith, step.0)) h.1
          ∙ ground (arith, step.0)
      | inr enough ↦ stays_down rise fall os e' (ground (arith, step.1)) h.1 ∙ ground arith
    ]

-- An endpoint that is down, with fewer than `rise` successes in a row, takes more successes: it
-- comes up when all of them are `rise`, and no sooner.
pub judge_all-successes :
    (rise fall : ℕ) (os : List Outcome) (e : Endpoint)
    → e.up ≡ false
    → e.successes < rise
    → AllWent true os
    → (judge_all rise fall e os).up ≡ leb rise (e.successes + count_of os)
unfolding judge_all
judge_all-successes rise fall [] e down s h = ground arith
judge_all-successes rise fall (o ∷ os) e down s h =
    let e' = (judge rise fall o.ok o.error o.now e).0 in
    let step = succeeded rise fall o e h.0 in
    elim (Bool-cases (leb rise (e.successes + 1))) [
      | inl enough ↦ stays_up rise fall os e' (ground (arith, step.1)) h.1 ∙ ground arith
      | inr more ↦
          judge_all-successes rise fall os e' (ground (arith, step.1)) (ground (arith, step.0)) h.1
          ∙ ground (arith, step.0)
    ]
