-- ===== src/Config/Validate/Starts.antt =====
-- The pool that a validated document starts.
use hole_balancer.Base.{
  ◌≤◌, ◌≡◌, subst, true, not, ◌&&◌, [], ◌∷◌, ◌==◌, str_eq, length, arith, All, Pairwise,
}
use hole_balancer.Base.Int.{ℤ, pos, negsuc, pos_part, ltb_ℤ}
use hole_balancer.Pool.Types.{Pool}
use hole_balancer.Pool.Members.{new}
use hole_balancer.Pool.Members.Sync.{IsSynced}
use hole_balancer.Pool.Members.Start.{new-keeps}
use hole_balancer.Pool.Health.Keep.{IsHealthy}
use hole_balancer.Config.Types.{Upstream, contains, valid_strategy}
use hole_balancer.Config.Document.{Config, Health, Query}
use hole_balancer.Config.Checked.{
  no_listener, bad_strategy, not_positive, below_one, no_probe_name, bad_level, no_upstream, valid,
  require, bind-valid, require-valid,
}
use hole_balancer.Config.Validate.{
  Text, check_health, check_query, check_fallback, resolve_type, resolve_codes, prepare_upstreams,
  validate,
}
use hole_balancer.Config.Validate.Usable.{OtherAddr, valid_inj, prepare_upstreams-Usable}

at_least_one : (z : ℤ) → not (ltb_ℤ z (pos 1)) ≡ true → 1 ≤ pos_part z
at_least_one (pos n) h = ground (arith, h)
at_least_one (negsuc n) h = ground (arith, h)

module _ (text : Text) where
  check_health-thresholds :
      (h k : Health) → check_health text h ≡ valid k → (1 ≤ pos_part k.rise) × (1 ≤ pos_part k.fall)
  unfolding check_health
  check_health-thresholds h k e =
      let (_, _, e1) =
        bind-valid (require (ltb_ℤ (pos 0) h.interval) (not_positive "health.interval")) _ e in
      let (_, _, e2) =
        bind-valid (require (ltb_ℤ (pos 0) h.timeout) (not_positive "health.timeout")) _ e1 in
      let (_, r, e3) =
        bind-valid (require (not (ltb_ℤ h.rise (pos 1))) (below_one "health.rise")) _ e2 in
      let (_, f, e4) =
        bind-valid (require (not (ltb_ℤ h.fall (pos 1))) (below_one "health.fall")) _ e3 in
      let (_, _, e5) = bind-valid (resolve_type text h.probe.type_name) _ e4 in
      let (_, _, e6) = bind-valid (require (not (str_eq h.probe.name "")) no_probe_name) _ e5 in
      let same = valid_inj e6 in
      (
        subst (λ (x : Health). 1 ≤ pos_part x.rise) same
            (at_least_one h.rise (require-valid _ _ r)),
        subst (λ (x : Health). 1 ≤ pos_part x.fall) same
            (at_least_one h.fall (require-valid _ _ f)),
      )

  check_query-limits :
      (q k : Query)
      → check_query text q ≡ valid k
      → (1 ≤ pos_part k.max_attempts) × (1 ≤ pos_part k.max_concurrent)
  unfolding check_query
  check_query-limits q k e =
      let (_, _, e1) =
        bind-valid (require (ltb_ℤ (pos 0) q.timeout) (not_positive "query.timeout")) _ e in
      let (_, a, e2) =
        bind-valid (require (not (ltb_ℤ q.max_attempts (pos 1))) (below_one "query.max_attempts")) _
          e1 in
      let (_, c, e3) =
        bind-valid
          (require (not (ltb_ℤ q.max_concurrent (pos 1))) (below_one "query.max_concurrent")) _
          e2 in
      let (_, _, e4) = bind-valid (resolve_codes text q.retry_rcodes) _ e3 in
      let same = valid_inj e4 in
      (
        subst (λ (x : Query). 1 ≤ pos_part x.max_attempts) same
            (at_least_one q.max_attempts (require-valid _ _ a)),
        subst (λ (x : Query). 1 ≤ pos_part x.max_concurrent) same
            (at_least_one q.max_concurrent (require-valid _ _ c)),
      )

  -- The pool that New builds from a document.
  abbrev pub started : Config → Pool
  started d =
      new d.strategy (pos_part d.health.rise) (pos_part d.health.fall) d.health.passive d.upstreams

  -- In a document that Validate accepted, no upstream lists an address twice; New builds from it a
  -- pool in step (its endpoints are the paths of its upstreams in order, every back pointer is right,
  -- no upstream occurs twice, no two upstreams share a name or an address) with every endpoint settled
  -- and thresholds of at least one; and the attempt budget and the concurrency limit are at least one.
  pub validate-IsSynced :
      (c d : Config)
      → validate text c ≡ valid d
      → IsSynced (started d)
        × IsHealthy (started d)
        × (1 ≤ pos_part d.query.max_attempts)
        × (1 ≤ pos_part d.query.max_concurrent)
        × All (λ (u : Upstream). Pairwise OtherAddr u.endpoints) d.upstreams
  unfolding validate
  validate-IsSynced c d e =
      let (_, _, e1) =
        bind-valid (require (not (str_eq c.listen.udp "" && str_eq c.listen.tcp "")) no_listener) _
          e in
      let (_, _, e2) =
        bind-valid (require (valid_strategy c.strategy) (bad_strategy c.strategy)) _ e1 in
      let (query, q, e3) = bind-valid (check_query text c.query) _ e2 in
      let (health, h, e4) = bind-valid (check_health text c.health) _ e3 in
      let (fallback, _, e5) = bind-valid (check_fallback text c.fallback) _ e4 in
      let (_, _, e6) =
        bind-valid
          (require (contains ("debug" ∷ "info" ∷ "warn" ∷ "error" ∷ []) c.log.level)
            (bad_level c.log.level))
          _ e5 in
      let (_, _, e7) = bind-valid (require (not (length c.upstreams == 0)) no_upstream) _ e6 in
      let (us, u, e8) = bind-valid (prepare_upstreams text 0 [] [] c.upstreams) _ e7 in
      let t = check_health-thresholds c.health health h in
      let clean = prepare_upstreams-Usable text 0 [] [] c.upstreams u in
      let k = new-keeps c.strategy _ _ health.passive us t.0 t.1 clean.usable in
      let l = check_query-limits c.query query q in
      subst
        (λ (x : Config).
          IsSynced (started x)
          × IsHealthy (started x)
          × (1 ≤ pos_part x.query.max_attempts)
          × (1 ≤ pos_part x.query.max_concurrent)
          × All (λ (u : Upstream). Pairwise OtherAddr u.endpoints) x.upstreams)
        (valid_inj e8) (k.0, k.1, l.0, l.1, clean.own_addrs)
