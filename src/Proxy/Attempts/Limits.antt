-- ===== src/Proxy/Attempts/Limits.antt =====
-- internal/proxy/proxy.go, the loop of forward: how many rounds of the network it can see.
use hole_balancer.Base.{
  ℕ, zero, suc, ◌+◌, ◌≤◌, ◌<◌, ◌≡◌, refl, ap, sym, ◌∙◌, String, true, List, [], ◌∷◌, some, arith,
  Bool-cases, inl, inr, length, take,
}
use hole_balancer.Fallback.Resolver.{enabled, rcode_of}
use hole_balancer.System.{System, all_down}
use hole_balancer.Dnsclient.{Sent, Sent-cases}
use hole_balancer.Proxy.Types.{World, Query, Attempt}
use hole_balancer.Proxy.Attempts.{
  attempts_for, begin_attempt, failed_attempt, won_attempt, try_attempts, code_reason,
  upstream_returned,
}

pub length-take : (n : ℕ) (xs : List ℕ) → length (take n xs) ≤ n
length-take zero xs = omega arith
length-take (suc n) [] = omega arith
length-take (suc n) (x ∷ xs) = omega (arith, length-take n xs)

-- A round that a query may send in: one of the budget, and the first one while no Pi-hole answers and
-- public DNS is there to take over.
abbrev pub InBudget : Query → System → ℕ → Type 0
InBudget cfg s j =
    (j < cfg.max_attempts) × (enabled s.resolver ≡ true → all_down s.pool ≡ true → j ≡ 0)

pub attempts_for-InBudget :
    (cfg : Query) (s : System) (planned j : ℕ) → j < attempts_for cfg s planned → InBudget cfg s j
unfolding attempts_for
attempts_for-InBudget cfg s planned j h = (ground arith, λ e d. ground arith)

-- The same world, but for what the endpoints answer.
abbrev pub answering : World → (ℕ → String → ℕ × Sent) → World
answering w ex = record w { exchange = ex }

module _ (w : World) (ex : ℕ → String → ℕ × Sent) where
  pub try_attempts-answering :
      (cfg : Query) (n i : ℕ) (es : List ℕ) (st : Attempt)
      → ((j : ℕ) → j < n → ex j ≡ w.exchange j)
      → i + length es ≤ n
      → try_attempts (answering w ex) cfg i es st ≡ try_attempts w cfg i es st
  unfolding try_attempts failed_attempt won_attempt
  try_attempts-answering cfg n i [] st h l = refl
  try_attempts-answering cfg n i (e ∷ es) st h l =
      let begun = begin_attempt i st in
      let addr = (begun.system.pool.endpoint e).addr in
      let sent = ex i addr in
      let same : ex i addr ≡ w.exchange i addr =
        ap (λ (f : String → ℕ × Sent). f addr) (h i (omega arith)) in
      let kind : (w.exchange i addr).1 ≡ sent.1 = ap (λ (v : ℕ × Sent). v.1) (sym same) in
      let later = λ (st' : Attempt). try_attempts-answering cfg n (i + 1) es st' h (omega arith) in
      elim (Bool-cases (w.cancelled i)) [
        | inl stop ↦ rw stop refl
        | inr go ↦ elim (Sent-cases sent.1) [
          | inl (reason, text, x) ↦
              let next = λ (v : ℕ × Sent). failed_attempt w i e v.0 reason text begun in
              rw (go, x, kind ∙ x)
                (later (next sent) ∙ ap (λ v. try_attempts w cfg (i + 1) es (next v)) same)
          | inr (resp, x) ↦ elim (Bool-cases (cfg.should_retry (rcode_of resp))) [
            | inl again ↦
                let next = λ (v : ℕ × Sent).
                  record (failed_attempt w i e v.0 (code_reason w resp) (upstream_returned w resp)
                    begun) { last_resp = some resp } in
                rw (go, x, kind ∙ x, again)
                  (later (next sent) ∙ ap (λ v. try_attempts w cfg (i + 1) es (next v)) same)
            | inr used ↦
                rw (go, x, kind ∙ x, used)
                  (ap (λ (v : ℕ × Sent). (won_attempt w i e v.0 resp begun, some resp)) same)
          ]
        ]
      ]
