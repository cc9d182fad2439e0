-- ===== src/Pool/Health/Frame.antt =====
-- internal/pool/pool.go, ReportProbe, ReportQuery and SetInitial on the whole pool.
use hole_balancer.Base.{
  ℕ, ◌≤◌, ◌≡◌, ◌≢◌, sym, ◌∙◌, String, Bool, true, false, List, [], ◌∷◌, Option, none, some, arith,
  if◌then◌else◌, All, All-mono, Pairwise-mono,
}
use hole_balancer.Pool.Types.{Endpoint, Pool, update, paths}
use hole_balancer.Pool.Members.Sync.{Apart, IsSynced}
use hole_balancer.Pool.Health.{
  Change, sample, tally, flip, apply, judge, record_outcome, report_query, count_query, same_bool,
}

-- The moving average stays at or below what both of its arguments are below.
abbrev pub IsMean : (ℕ → ℕ → ℕ) → Type 0
IsMean mix = (a b m : ℕ) → a ≤ m → b ≤ m → mix a b ≤ m

-- With passive checks off, a query moves the latency and the totals of its endpoint and nothing
-- else: no verdict, no streak, no error, and no callback.
pub report_query-passive_off :
    (mix : ℕ → ℕ → ℕ) (p : Pool) (e : ℕ) (ok : Bool) (latency now : ℕ) (error : Option String)
    → p.passive ≡ false
    → let r = report_query mix p e ok latency error now in
      let old = p.endpoint e in
      (r.1 ≡ none)
      × (r.0.endpoint e ≡ sample mix ok latency (count_query ok old))
      × ((r.0.endpoint e).up ≡ old.up)
      × ((r.0.endpoint e).successes ≡ old.successes)
      × ((r.0.endpoint e).failures ≡ old.failures)
      × ((r.0.endpoint e).last_err ≡ old.last_err)
unfolding report_query record_outcome sample count_query
report_query-passive_off mix p e ok latency now error h = ground arith

-- The callback that a step from the old to the new endpoint calls for.
abbrev pub change_between : ℕ → Bool → Endpoint → Endpoint → Option Change
change_between e ok old new =
    if same_bool old.up new.up
    then none
    else some
        (record { endpoint = e; up = new.up; reason = if ok then "recovered" else new.last_err })

-- A report calls back exactly when the endpoint's state changes, with the new state: for the reason
-- "recovered" on the way up, and the endpoint's last error on the way down.
pub record_outcome-change :
    (mix : ℕ → ℕ → ℕ) (p : Pool) (e : ℕ) (ok : Bool) (latency now : ℕ) (error : Option String)
    (affects : Bool)
    → let r = record_outcome mix p e ok latency error affects now in
      r.1 ≡ change_between e ok (p.endpoint e) (r.0.endpoint e)
unfolding record_outcome sample judge tally flip apply
record_outcome-change mix p e true latency now error affects = ground arith
record_outcome-change mix p e false latency now none affects = ground arith
record_outcome-change mix p e false latency now (some text) affects = ground arith

-- A write that keeps an endpoint's owner and address.
abbrev pub Renews : Pool → ℕ → Endpoint → Type 0
Renews p e x = (x.upstream ≡ (p.endpoint e).upstream) × (x.addr ≡ (p.endpoint e).addr)

module _ (p : Pool) (e : ℕ) (x : Endpoint) (keeps : Renews p e x) where
  abbrev pub q : Pool
  q = record p { endpoint = update p.endpoint e x }

  same_owner : (j : ℕ) → (q.endpoint j).upstream ≡ (p.endpoint j).upstream
  same_owner j = ground (arith, keeps.0)

  same_addr : (j : ℕ) → (q.endpoint j).addr ≡ (p.endpoint j).addr
  same_addr j = ground (arith, keeps.1)

  pub renewed-IsSynced : IsSynced p → IsSynced q
  renewed-IsSynced s = record {
    owners = λ u. All-mono _ _ (paths p u) (λ j h. same_owner j ∙ h) (s.owners u);
    distinct_paths = s.distinct_paths;
    weights = s.weights;
    allocated = s.allocated;
    known = s.known;
    distinct = s.distinct;
    flat = s.flat;
    apart =
        Pairwise-mono (λ _. Unit {0}) (Apart p) (Apart q) p.upstreams
          (λ u v _ _ a. (a.0, apart_paths u v a.1)) (units p.upstreams) s.apart;
  }
    where
      units : (us : List ℕ) → All (λ _. Unit {0}) us
      units [] = tt
      units (u ∷ us) = (tt, units us)

      apart_paths :
          (u v : ℕ)
          → All (λ i. All (λ j. (p.endpoint i).addr ≢ (p.endpoint j).addr) (paths p v)) (paths p u)
          → All (λ i. All (λ j. (q.endpoint i).addr ≢ (q.endpoint j).addr) (paths p v)) (paths p u)
      apart_paths u v = All-mono _ _ (paths p u) (λ i.
          All-mono _ _ (paths p v) (λ j ne same. ne (sym (same_addr i) ∙ (same ∙ same_addr j))))
