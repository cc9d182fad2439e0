-- ===== src/Proxy/Attempts/Keep.antt =====
-- What the loop of forward keeps of the pool.
use hole_balancer.Base.{
  ℕ, ◌+◌, sym, subst, String, Bool, true, false, List, [], ◌∷◌, Option, none, some, Bool-cases, inl,
  inr, if_split, ltb,
}
use hole_balancer.Fallback.Resolver.{rcode_of}
use hole_balancer.Pool.Types.{Pool}
use hole_balancer.Pool.Health.{report_query}
use hole_balancer.System.Reports.{query_reported-pool}
use hole_balancer.Dnsclient.{Sent-cases}
use hole_balancer.Proxy.Types.{World, Query, Attempt}
use hole_balancer.Proxy.Attempts.{
  begin_attempt, failed_attempt, won_attempt, try_attempts, code_reason, upstream_returned,
}

module _ {ℓ} (P : Pool → Type ℓ) (w : World) (cfg : Query)
    (kept : (p : Pool) (e : ℕ) (ok : Bool) (latency now : ℕ) (error : Option String)
      → P p
      → P (report_query w.mix p e ok latency error now).0) where
  begin_attempt-P : (i : ℕ) (st : Attempt) → P st.system.pool → P (begin_attempt i st).system.pool
  unfolding begin_attempt
  begin_attempt-P i st h =
      if_split (λ (x : Attempt). P x.system.pool) (ltb 0 i) _ _ (λ _. h) (λ _. h)

  failed_attempt-P :
      (i e rtt : ℕ) (reason text : String) (st : Attempt)
      → P st.system.pool
      → P (failed_attempt w i e rtt reason text st).system.pool
  unfolding failed_attempt
  failed_attempt-P i e rtt reason text st h =
      subst P (sym (query_reported-pool w.mix (w.clock i) e false rtt (some text) st.system))
        (kept st.system.pool e false rtt (w.clock i) (some text) h)

  won_attempt-P :
      (i e rtt : ℕ) (resp : List ℕ) (st : Attempt)
      → P st.system.pool
      → P (won_attempt w i e rtt resp st).system.pool
  unfolding won_attempt
  won_attempt-P i e rtt resp st h =
      subst P (sym (query_reported-pool w.mix (w.clock i) e true rtt none st.system))
        (kept st.system.pool e true rtt (w.clock i) none h)

  -- A property of the pool that every ReportQuery keeps is kept by the loop.
  pub try_attempts-P :
      (i : ℕ) (es : List ℕ) (st : Attempt)
      → P st.system.pool
      → P (try_attempts w cfg i es st).0.system.pool
  unfolding try_attempts
  try_attempts-P i [] st h = h
  try_attempts-P i (e ∷ es) st h = elim (Bool-cases (w.cancelled i)) [
    | inl stop ↦ rw stop h
    | inr go ↦
        let begun = begin_attempt i st in
        let b = begin_attempt-P i st h in
        let sent = w.exchange i (begun.system.pool.endpoint e).addr in
        elim (Sent-cases sent.1) [
          | inl (reason, text, x) ↦ rw go (
              rw (x, try_attempts)
                (try_attempts-P (i + 1) es (failed_attempt w i e sent.0 reason text begun)
                  (failed_attempt-P i e sent.0 reason text begun b)))
          | inr (resp, x) ↦ elim (Bool-cases (cfg.should_retry (rcode_of resp))) [
            | inl again ↦
                let failed =
                  failed_attempt w i e sent.0 (code_reason w resp) (upstream_returned w resp)
                    begun in
                rw go (
                  rw (x, try_attempts)
                    (rw (again, try_attempts)
                      (try_attempts-P (i + 1) es (record failed { last_resp = some resp })
                        (failed_attempt-P i e sent.0 (code_reason w resp) (upstream_returned w resp)
                          begun b))))
            | inr used ↦ rw go (
                rw (x, try_attempts)
                  (rw (used, try_attempts) (won_attempt-P i e sent.0 resp begun b)))
          ]
        ]
  ]
