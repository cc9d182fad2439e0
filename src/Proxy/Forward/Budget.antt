-- ===== src/Proxy/Forward/Budget.antt =====
-- internal/proxy/proxy.go, forward: how many rounds of the network one query can see.
use hole_balancer.Base.{
  ℕ, ◌≡◌, refl, ap, ◌∙◌, String, List, none, some, arith, Option, Option-cases, inl, inr, length,
  take,
}
use hole_balancer.Pool.Types.{Pool}
use hole_balancer.Pool.Members.{healthy_upstreams}
use hole_balancer.Pool.Plan.{Draws, plan}
use hole_balancer.Pool.Plan.Coverage.{plan-same}
use hole_balancer.System.{System, all_down}
use hole_balancer.Dnsclient.{Sent}
use hole_balancer.Proxy.Types.{World, Query, Attempt}
use hole_balancer.Proxy.Attempts.{attempts_for, try_attempts}
use hole_balancer.Proxy.Attempts.Limits.{
  InBudget, attempts_for-InBudget, answering, length-take, try_attempts-answering,
}
use hole_balancer.Proxy.Forward.{
  resolve_via_fallback, file_record, with_code, give_up, after_attempts, start_attempt, forward,
}

-- The health of the upstreams is the same after Plan.
plan-all_down :
    (p q : Pool) (d : Draws) (es : List ℕ) → plan p d ≡ some (es, q) → all_down q ≡ all_down p
unfolding healthy_upstreams hole_balancer.Pool.Types.healthy
plan-all_down p q d es h = ap all_down (plan-same p q d es h)

module _ (w : World) (ex : ℕ → String → ℕ × Sent) where
  give_up-answering :
      (req : List ℕ) (st : Attempt) → give_up (answering w ex) req st ≡ give_up w req st
  unfolding give_up with_code file_record
  give_up-answering req st = elim (Option-cases st.last_resp) [
    | inl e ↦ rw e refl
    | inr (resp, e) ↦ rw e refl
  ]

  after_attempts-answering :
      (req : List ℕ) (r : Attempt × Option (List ℕ))
      → after_attempts (answering w ex) req r ≡ after_attempts w req r
  unfolding after_attempts resolve_via_fallback file_record
  after_attempts-answering req (st, some resp) = refl
  after_attempts-answering req (st, none) = go (resolve_via_fallback w st)
    where
      go :
          (x : Option (Attempt × Option (List ℕ)))
          → elim x [
            | none ↦ none
            | some (st', some resp) ↦ some (file_record (answering w ex) st', some resp)
            | some (st', none) ↦ some (give_up (answering w ex) req st')
          ]
            ≡ elim x [
              | none ↦ none
              | some (st', some resp) ↦ some (file_record w st', some resp)
              | some (st', none) ↦ some (give_up w req st')
            ]
      go none = refl
      go (some (st', some resp)) = refl
      go (some (st', none)) = ap some (give_up-answering req st')

-- A round of the budget after planning is one before it.
planned-InBudget :
    (cfg : Query) (s : System) (q : Pool) (d : Draws) (es : List ℕ) (j : ℕ)
    → plan s.pool d ≡ some (es, q)
    → InBudget cfg (record s { pool = q }) j
    → InBudget cfg s j
planned-InBudget cfg s q d es j e b =
    (b.0, λ on down. b.1 on (plan-all_down s.pool q d es e ∙ down))

-- What a query comes to, its reply and all it leaves behind, depends on no exchange past the attempt
-- budget, and on none past the first round while no Pi-hole answers and public DNS is there to take
-- over: with other answers in those rounds, forward does the same.
pub forward-answering :
    (w : World) (ex : ℕ → String → ℕ × Sent) (cfg : Query) (s : System) (req : List ℕ)
    (proto : String)
    → ((j : ℕ) → InBudget cfg s j → ex j ≡ w.exchange j)
    → forward (answering w ex) cfg s req proto ≡ forward w cfg s req proto
unfolding forward
forward-answering w ex cfg s req proto h = elim (Option-cases (plan s.pool w.draws)) [
  | inl e ↦ rw (e, forward) refl
  | inr ((es, q), e) ↦
      let planned : System = record s { pool = q } in
      let k = attempts_for cfg planned (length es) in
      rw (e, forward)
        (after_attempts-answering w ex req
            (try_attempts (answering w ex) cfg 0 (take k es) (start_attempt w req proto planned))
          ∙ ap (after_attempts w req) (
              try_attempts-answering w ex cfg k 0 (take k es) (start_attempt w req proto planned)
                (λ j l. h j (
                  planned-InBudget cfg s q w.draws es j e
                    (attempts_for-InBudget cfg planned (length es) j l)))
                (omega (arith, length-take k es))))
]
