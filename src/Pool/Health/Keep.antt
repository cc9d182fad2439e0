-- ===== src/Pool/Health/Keep.antt =====
-- internal/pool/pool.go: what the reports do to a pool in step with settled endpoints.
use hole_balancer.Base.{
  ℕ, ◌≤◌, ◌≡◌, refl, ◌∙◌, String, Bool, true, false, Option, none, some, arith, ◌==◌, inl, inr,
  Bool-cases,
}
use hole_balancer.Pool.Types.{Endpoint, Pool, update}
use hole_balancer.Pool.Members.Sync.{IsSynced}
use hole_balancer.Pool.Health.{
  sample, tally, flip, apply, judge, record_outcome, report_probe, report_query, count_query,
  initial, set_initial,
}
use hole_balancer.Pool.Health.Streak.{IsSettled, judge-IsSettled, initial-IsSettled}
use hole_balancer.Pool.Health.Frame.{renewed-IsSynced}

-- Thresholds of at least one, and every endpoint settled.
pub record IsHealthy (p : Pool) : Type 0 where
  pub rise_pos : 1 ≤ p.rise
  pub fall_pos : 1 ≤ p.fall
  pub settled : (e : ℕ) → IsSettled p.rise p.fall (p.endpoint e)

sample-Renews :
    (mix : ℕ → ℕ → ℕ) (ok : Bool) (latency : ℕ) (e : Endpoint)
    → ((sample mix ok latency e).upstream ≡ e.upstream) × ((sample mix ok latency e).addr ≡ e.addr)
unfolding sample
sample-Renews mix ok latency e = ground arith

judge-Renews :
    (rise fall now : ℕ) (ok : Bool) (error : Option String) (e : Endpoint)
    → ((judge rise fall ok error now e).0.upstream ≡ e.upstream)
      × ((judge rise fall ok error now e).0.addr ≡ e.addr)
unfolding judge tally flip apply
judge-Renews rise fall now true error e = ground arith
judge-Renews rise fall now false none e = ground arith
judge-Renews rise fall now false (some text) e = ground arith

initial-Renews :
    (rise fall latency now : ℕ) (up : Bool) (error : Option String) (e : Endpoint)
    → let x = initial rise fall up latency error now e in
      (x.upstream ≡ e.upstream) × (x.addr ≡ e.addr)
unfolding initial
initial-Renews rise fall latency now true error e = ground arith
initial-Renews rise fall latency now false none e = ground arith
initial-Renews rise fall latency now false (some text) e = ground arith

sample-IsSettled :
    (rise fall : ℕ) (mix : ℕ → ℕ → ℕ) (ok : Bool) (latency : ℕ) (e : Endpoint)
    → IsSettled rise fall e
    → IsSettled rise fall (sample mix ok latency e)
unfolding sample
sample-IsSettled rise fall mix ok latency e s = ground arith

-- A write of a settled endpoint.
pub renewed-IsHealthy :
    (p : Pool) (e : ℕ) (x : Endpoint)
    → IsHealthy p
    → IsSettled p.rise p.fall x
    → IsHealthy (record p { endpoint = update p.endpoint e x })
renewed-IsHealthy p e x h s = record {
  rise_pos = h.rise_pos;
  fall_pos = h.fall_pos;
  settled =
      λ j. elim (Bool-cases (j == e)) [ inl hit ↦ rw hit s | inr miss ↦ rw miss (h.settled j) ];
}

module _ (mix : ℕ → ℕ → ℕ) (p : Pool) (e : ℕ) (ok : Bool) (latency now : ℕ)
    (error : Option String) where
  record_outcome-keeps :
      (affects : Bool)
      → IsSynced p
      → IsHealthy p
      → let q = (record_outcome mix p e ok latency error affects now).0 in IsSynced q × IsHealthy q
  unfolding record_outcome
  record_outcome-keeps true s h =
      let m = sample mix ok latency (p.endpoint e) in
      let k = judge-Renews p.rise p.fall now ok error m in
      let l = sample-Renews mix ok latency (p.endpoint e) in
      (
        renewed-IsSynced p e _ (k.0 ∙ l.0, k.1 ∙ l.1) s,
        renewed-IsHealthy p e _ h (
            judge-IsSettled p.rise p.fall now ok error m h.rise_pos h.fall_pos
              (sample-IsSettled p.rise p.fall mix ok latency (p.endpoint e) (h.settled e))),
      )
  record_outcome-keeps false s h = (
    renewed-IsSynced p e _ (sample-Renews mix ok latency (p.endpoint e)) s,
    renewed-IsHealthy p e _ h
        (sample-IsSettled p.rise p.fall mix ok latency (p.endpoint e) (h.settled e)),
  )

pub report_probe-keeps :
    (mix : ℕ → ℕ → ℕ) (p : Pool) (e : ℕ) (ok : Bool) (latency now : ℕ) (error : Option String)
    → IsSynced p
    → IsHealthy p
    → let q = (report_probe mix p e ok latency error now).0 in IsSynced q × IsHealthy q
unfolding report_probe
report_probe-keeps mix p e ok latency now error s h =
    record_outcome-keeps mix p e ok latency now error true s h

pub report_query-keeps :
    (mix : ℕ → ℕ → ℕ) (p : Pool) (e : ℕ) (ok : Bool) (latency now : ℕ) (error : Option String)
    → IsSynced p
    → IsHealthy p
    → let q = (report_query mix p e ok latency error now).0 in IsSynced q × IsHealthy q
unfolding report_query count_query
report_query-keeps mix p e ok latency now error s h =
    let x = count_query ok (p.endpoint e) in
    record_outcome-keeps mix (record p { endpoint = update p.endpoint e x }) e ok latency now error
      p.passive (renewed-IsSynced p e x (refl, refl) s)
      (renewed-IsHealthy p e x h (counted (p.endpoint e) (h.settled e)))
  where
    counted :
        (y : Endpoint) → IsSettled p.rise p.fall y → IsSettled p.rise p.fall (count_query ok y)
    counted y t = record { standing = t.standing; fallen = t.fallen; one_streak = t.one_streak }

pub set_initial-keeps :
    (p : Pool) (e : ℕ) (up : Bool) (latency now : ℕ) (error : Option String)
    → IsSynced p
    → IsHealthy p
    → let q = (set_initial p e up latency error now).0 in IsSynced q × IsHealthy q
unfolding set_initial
set_initial-keeps p e up latency now error s h = (
  renewed-IsSynced p e _ (initial-Renews p.rise p.fall latency now up error (p.endpoint e)) s,
  renewed-IsHealthy p e _ h
      (initial-IsSettled p.rise p.fall latency now up error (p.endpoint e) h.rise_pos h.fall_pos),
)
