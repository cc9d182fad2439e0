-- ===== src/Pool/History.antt =====
-- internal/pool/pool.go: the calls that change a pool, one after another in any order. A step is one
-- whole call, with no other call running beside it: record and SetInitial store `up` and call back
-- after they have unlocked the endpoint, and ReportQuery locks it twice, so calls that overlap in the
-- program need not be a sequence of these steps.
use hole_balancer.Base.{
  ℕ, ◌^◌, ◌≤◌, ◌<◌, ◌≡◌, ◌≢◌, subst, sym, String, Bool, List, Option, some, arith, All, All-unit,
  Pairwise-mono, flat_map, fun_ext,
}
use hole_balancer.Base.Counting.{Distinct}
use hole_balancer.Base.Int.{pos, pos_part}
use hole_balancer.Config.Types.{Upstream as UpstreamConfig}
use hole_balancer.Pool.Types.{Pool, paths, set_drained}
use hole_balancer.Pool.Members.{ok, set_strategy-same, add, remove, set_strategy, new}
use hole_balancer.Pool.Members.Sync.{Apart, IsSynced}
use hole_balancer.Pool.Members.Change.{add-IsSynced, remove-IsSynced, remove-same_endpoints}
use hole_balancer.Pool.Members.Start.{IsUsable, add-IsHealthy, new-keeps}
use hole_balancer.Pool.Plan.{Draws, plan}
use hole_balancer.Pool.Plan.Total.{IsRandom}
use hole_balancer.Pool.Plan.Coverage.{Covers, plan-Covers, plan-same}
use hole_balancer.Pool.Health.{report_probe, report_query, set_initial}
use hole_balancer.Pool.Health.Keep.{
  IsHealthy, report_probe-keeps, report_query-keeps, set_initial-keeps,
}

-- One whole call that returns.
pub data Step (mix : ℕ → ℕ → ℕ) : Pool → Pool → Type 0 where
  adds :
      {p q : Pool} (uc : UpstreamConfig) (u : ℕ)
      → uc.weight ≡ pos (pos_part uc.weight)
      → add p uc ≡ ok (u, q)
      → Step mix p q
  removes : {p q : Pool} (name : String) → remove p name ≡ ok q → Step mix p q
  drains : {p q : Pool} (u : ℕ) (v : Bool) → q ≡ set_drained p u v → Step mix p q
  switches : {p q : Pool} (name : String) → set_strategy p name ≡ ok q → Step mix p q
  plans : {p q : Pool} (d : Draws) (es : List ℕ) → plan p d ≡ some (es, q) → Step mix p q
  probes :
      {p q : Pool} (e : ℕ) (ok? : Bool) (latency now : ℕ) (error : Option String)
      → q ≡ (report_probe mix p e ok? latency error now).0
      → Step mix p q
  queries :
      {p q : Pool} (e : ℕ) (ok? : Bool) (latency now : ℕ) (error : Option String)
      → q ≡ (report_query mix p e ok? latency error now).0
      → Step mix p q
  initials :
      {p q : Pool} (e : ℕ) (up : Bool) (latency now : ℕ) (error : Option String)
      → q ≡ (set_initial p e up latency error now).0
      → Step mix p q

pub data Reach (mix : ℕ → ℕ → ℕ) (p : Pool) : Pool → Type 0 where
  here : Reach mix p p
  next : {q r : Pool} → Reach mix p q → Step mix q r → Reach mix p r

abbrev pub IsWell : Pool → Type 0
IsWell p = IsSynced p × IsHealthy p

remove-IsHealthy : (p q : Pool) (name : String) → IsHealthy p → remove p name ≡ ok q → IsHealthy q
remove-IsHealthy p q name h e =
    let same = remove-same_endpoints p q name e in
    subst IsHealthy (sym same)
      (record { rise_pos = h.rise_pos; fall_pos = h.fall_pos; settled = h.settled })

module _ (p : Pool) (u : ℕ) (v : Bool) where
  same_paths : (w : ℕ) → paths (set_drained p u v) w ≡ paths p w
  unfolding set_drained
  same_paths w = ground arith

  same_weight : (w : ℕ) → ((set_drained p u v).upstream w).weight ≡ (p.upstream w).weight
  unfolding set_drained
  same_weight w = ground arith

  same_name : (w : ℕ) → ((set_drained p u v).upstream w).name ≡ (p.upstream w).name
  unfolding set_drained
  same_name w = ground arith

  drained-Apart : (a b : ℕ) → Apart p a b → Apart (set_drained p u v) a b
  drained-Apart a b h = (rw (same_name a, same_name b) h.0, rw (same_paths a, same_paths b) far)
    where
      far :
          All
            (λ e.
              All
                (λ f. ((set_drained p u v).endpoint e).addr ≢ ((set_drained p u v).endpoint f).addr)
                (paths p b))
            (paths p a)
      far = unfold set_drained in h.1

  set_drained-IsWell : IsWell p → IsWell (set_drained p u v)
  unfolding set_drained
  set_drained-IsWell (s, h) = (
    record {
      owners =
          λ w. subst (All (λ e. (p.endpoint e).upstream ≡ w)) (sym (same_paths w)) (s.owners w);
      distinct_paths = λ w. subst Distinct (sym (same_paths w)) (s.distinct_paths w);
      weights = λ w. subst (λ z. z ≡ pos (pos_part z)) (sym (same_weight w)) (s.weights w);
      allocated = λ w. subst (All (λ e. e < p.next_endpoint)) (sym (same_paths w)) (s.allocated w);
      known = s.known;
      distinct = s.distinct;
      flat = subst (λ f. p.endpoints ≡ flat_map f p.upstreams) (sym (fun_ext same_paths)) s.flat;
      apart =
          Pairwise-mono (λ _. Unit {0}) (Apart p) (Apart (set_drained p u v)) p.upstreams
            (λ a b _ _ h. drained-Apart a b h) (All-unit p.upstreams) s.apart;
    },
    record { rise_pos = h.rise_pos; fall_pos = h.fall_pos; settled = h.settled },
  )

-- A pool that differs in the strategy and the counter alone.
pub retuned-IsWell :
    (p : Pool) (strategy : String) (rr : ℕ)
    → IsWell p
    → IsWell (record p { strategy = strategy; rr = rr })
retuned-IsWell p strategy rr (s, h) = (
  record {
    owners = s.owners;
    distinct_paths = s.distinct_paths;
    weights = s.weights;
    allocated = s.allocated;
    known = s.known;
    distinct = s.distinct;
    flat = s.flat;
    apart = s.apart;
  },
  record { rise_pos = h.rise_pos; fall_pos = h.fall_pos; settled = h.settled },
)

-- The call of Plan moves the counter and nothing else.
pub plan-retunes :
    (p q : Pool) (d : Draws) (es : List ℕ)
    → plan p d ≡ some (es, q)
    → q ≡ record p { strategy = p.strategy; rr = q.rr }
plan-retunes p q d es h = plan-same p q d es h

set_strategy-retunes :
    (p q : Pool) (name : String)
    → set_strategy p name ≡ ok q
    → q ≡ record p { strategy = q.strategy; rr = p.rr }
set_strategy-retunes p q name h = set_strategy-same p q name h

-- Every call keeps the pool in step and its endpoints settled.
pub Step-IsWell : {mix : ℕ → ℕ → ℕ} {p q : Pool} → Step mix p q → IsWell p → IsWell q
Step-IsWell {p} {q} (adds uc u w e) (s, h) =
    ((add-IsSynced p q uc u s w e).0, add-IsHealthy p q uc u h e)
Step-IsWell {p} {q} (removes name e) (s, h) =
    ((remove-IsSynced p q name s e).0, remove-IsHealthy p q name h e)
Step-IsWell {p} (drains u v e) w = subst IsWell (sym e) (set_drained-IsWell p u v w)
Step-IsWell {p} {q} (switches name e) w =
    subst IsWell (sym (set_strategy-retunes p q name e)) (retuned-IsWell p q.strategy p.rr w)
Step-IsWell {p} {q} (plans d es e) w =
    subst IsWell (sym (plan-retunes p q d es e)) (retuned-IsWell p p.strategy q.rr w)
Step-IsWell {mix} {p} (probes e b latency now error h) (s, k) =
    subst IsWell (sym h) (report_probe-keeps mix p e b latency now error s k)
Step-IsWell {mix} {p} (queries e b latency now error h) (s, k) =
    subst IsWell (sym h) (report_query-keeps mix p e b latency now error s k)
Step-IsWell {p} (initials e b latency now error h) (s, k) =
    subst IsWell (sym h) (set_initial-keeps p e b latency now error s k)

pub Reach-IsWell : {mix : ℕ → ℕ → ℕ} {p q : Pool} → Reach mix p q → IsWell p → IsWell q
Reach-IsWell here w = w
Reach-IsWell (next r st) w = Step-IsWell st (Reach-IsWell r w)

-- After any history of calls, one after another, on a pool that New built from usable upstreams (no
-- negative weight, no name or address in common), with thresholds of at least one, where Add is given
-- no negative weight: the pool is in step (its endpoints are the paths of its upstreams in order, every
-- back pointer is right, no upstream occurs twice, no two upstreams share a name or an address) and
-- every endpoint is settled; and with fair draws, while the counter is below 2 ^ 63, Plan returns a
-- reordering of the candidates.
pub Reach-Covers :
    (mix : ℕ → ℕ → ℕ) (strategy : String) (rise fall : ℕ) (passive : Bool)
    (ucs : List UpstreamConfig) (q : Pool) (d : Draws)
    → 1 ≤ rise
    → 1 ≤ fall
    → IsUsable ucs
    → Reach mix (new strategy rise fall passive ucs) q
    → IsRandom d
    → q.rr < 2 ^ 63
    → IsSynced q × IsHealthy q × Covers q d
Reach-Covers mix strategy rise fall passive ucs q d r f u h rand c =
    let w = Reach-IsWell h (new-keeps strategy rise fall passive ucs r f u) in
    (w.0, w.1, plan-Covers q d rand w.0.weights w.0.distinct_paths c)
