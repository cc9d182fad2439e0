-- ===== src/System/Watch.antt =====
-- internal/pool/pool.go, internal/health/health.go and cmd/hole-balancer/main.go: the fallback tracker
-- and the health of the pool, for sweeps and reports that do not overlap.
use hole_balancer.Base.{
  ℕ, String, Bool, not, ◌&&◌, List, [], ◌∷◌, Option, none, some, ◌==◌, ◌≡◌, refl, ◌∙◌, ap, sym,
  keep, length, fun_ext,
}
use hole_balancer.Pool.Types.{Pool, paths, any_up, healthy, drained}
use hole_balancer.Pool.Members.{healthy_upstreams}
use hole_balancer.Pool.Health.{Change}
use hole_balancer.Pool.Health.Silent.{
  Rewrites, SameVerdicts, report_query-Rewrites, report_query-silent, report_probe-Rewrites,
  report_probe-silent,
}
use hole_balancer.Fallback.Tracker.Verdict.{observe-verdict}
use hole_balancer.System.{
  System, all_down, sweep_done, on_change, after_report, query_reported, probe_reported,
}

-- The tracker is in an outage exactly while no upstream answers.
pub Watches : System → Type 0
Watches s = s.tracker.in_outage ≡ all_down s.pool

keep_congr : (f g : ℕ → Bool) (xs : List ℕ) → ((x : ℕ) → f x ≡ g x) → keep f xs ≡ keep g xs
keep_congr f g xs h = ap (λ k. keep k xs) (fun_ext h)

-- The number of healthy upstreams hangs on the verdicts alone.
module _ (p q : Pool) (w : Rewrites p q) (same : SameVerdicts p q) where
  any_up-same : (es : List ℕ) → any_up (record p { endpoint = q.endpoint }) es ≡ any_up p es
  any_up-same [] = refl
  any_up-same (e ∷ es) = rw (same e, any_up-same es) refl

  all_down-same : all_down q ≡ all_down p
  unfolding healthy_upstreams healthy
  all_down-same =
      ap all_down w.same
      ∙ ap (λ us. length us == 0)
          (keep_congr _ _ p.upstreams
            (λ u. ap (λ b. b && not (drained p u)) (any_up-same (paths p u))))

after_report-Watches :
    (now : ℕ) (s : System) (r : Pool × Option Change)
    → Rewrites s.pool r.0
    → (r.1 ≡ none → SameVerdicts s.pool r.0)
    → Watches s
    → Watches (after_report now s r)
unfolding Watches after_report on_change sweep_done
after_report-Watches now s (q, none) w silent h = h ∙ sym (all_down-same s.pool q w (silent refl))
after_report-Watches now s (q, some c) w silent h = observe-verdict now (all_down q) s.tracker

-- What tells the pool and the tracker of the health of an endpoint, in any order.
pub data Event : Type 0 where
  swept : ℕ → Event
  queried : (mix : ℕ → ℕ → ℕ) (now e : ℕ) (ok : Bool) (latency : ℕ) (error : Option String) → Event
  probed : (mix : ℕ → ℕ → ℕ) (now e : ℕ) (ok : Bool) (latency : ℕ) (error : Option String) → Event

abbrev pub handle : Event → System → System
handle (swept now) s = sweep_done now s
handle (queried mix now e ok latency error) s = query_reported mix now e ok latency error s
handle (probed mix now e ok latency error) s = probe_reported mix now e ok latency error s

abbrev pub handle_all : List Event → System → System
handle_all [] s = s
handle_all (v ∷ events) s = handle_all events (handle v s)

pub sweep_done-Watches : (now : ℕ) (s : System) → Watches (sweep_done now s)
unfolding Watches sweep_done
sweep_done-Watches now s = observe-verdict now (all_down s.pool) s.tracker

handle-Watches : (v : Event) (s : System) → Watches s → Watches (handle v s)
unfolding Watches query_reported probe_reported
handle-Watches (swept now) s h = sweep_done-Watches now s
handle-Watches (queried mix now e ok latency error) s h =
    after_report-Watches now s _ (report_query-Rewrites mix s.pool e ok latency now error)
      (report_query-silent mix s.pool e ok latency now error) h
handle-Watches (probed mix now e ok latency error) s h =
    after_report-Watches now s _ (report_probe-Rewrites mix s.pool e ok latency now error)
      (report_probe-silent mix s.pool e ok latency now error) h

-- From a sweep of the health checker on, through any sequence of sweeps and of reports of queries and
-- of probes that each end, their callbacks included, before the next one starts: after each of them the
-- fallback tracker is in an outage exactly when no upstream that is not drained answers.
pub handle_all-Watches :
    (now : ℕ) (events : List Event) (s : System) → Watches (handle_all events (sweep_done now s))
handle_all-Watches now events s = go _ events (sweep_done-Watches now s)
  where
    go : (t : System) (events : List Event) → Watches t → Watches (handle_all events t)
    go t [] h = h
    go t (v ∷ events) h = go (handle v t) events (handle-Watches v t h)
