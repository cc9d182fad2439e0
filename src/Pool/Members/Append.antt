-- ===== src/Pool/Members/Append.antt =====
-- internal/pool/pool.go, buildUpstream and the appends after it.
use hole_balancer.Base.{
  ℕ, ◌+◌, ◌≤◌, ◌<◌, ◌≡◌, ◌≢◌, refl, sym, subst, ap, ◌∙◌, String, List, [], ◌∷◌, ◌++◌, arith, All,
  All-mono, All-append, All-same_map, All-both, Pairwise-mono, Pairwise-snoc, flat_map, append-nil,
  append_assoc, false, map,
}
use mathlib.Core.Path.{ap₂}
use hole_balancer.Base.Counting.{Distinct, count-append}
use hole_balancer.Base.Int.{pos, pos_part}
use hole_balancer.Config.Types.{Endpoint as EndpointConfig, Upstream as UpstreamConfig}
use hole_balancer.Pool.Types.{Endpoint, Upstream, Pool, paths}
use hole_balancer.Pool.Members.{alloc_endpoints, build_upstream, append_upstream}
use hole_balancer.Pool.Members.Build.{
  Allocates, alloc_endpoints-Allocates, update_self, update_other,
}
use hole_balancer.Pool.Members.Sync.{Apart, IsSynced, Clear}
use native.Mathlib.Decide.{ℕ_discrete}

-- Two configured upstreams with different names, and no address in common.
abbrev pub ApartSpecs : UpstreamConfig → UpstreamConfig → Type 0
ApartSpecs uc uc' =
    (uc.name ≢ uc'.name)
    × All
        (λ (ec : EndpointConfig). All (λ (ec' : EndpointConfig). ec.addr ≢ ec'.addr) uc'.endpoints)
        uc.endpoints

-- What Add does to a pool, for the new upstream `u`.
pub record Adds (p : Pool) (uc : UpstreamConfig) (u : ℕ) (q : Pool) : Type 0 where
  pub at_end : q.upstreams ≡ p.upstreams ++ u ∷ []
  pub paths_at_end : q.endpoints ≡ p.endpoints ++ paths q u
  pub name : (q.upstream u).name ≡ uc.name
  pub weight : (q.upstream u).weight ≡ uc.weight
  pub in_rotation : (q.upstream u).drained ≡ false
  pub addrs : map (λ e. (q.endpoint e).addr) (paths q u) ≡ map (λ ec. ec.addr) uc.endpoints
  pub starts_down : All (λ e. (q.endpoint e).up ≡ false) (paths q u)
  pub others : All (λ v. q.upstream v ≡ p.upstream v) p.upstreams
  pub other_paths : All (λ v. All (λ e. q.endpoint e ≡ p.endpoint e) (paths p v)) p.upstreams

module _ (p : Pool) (uc : UpstreamConfig) where
  abbrev n : ℕ
  n = p.next_upstream

  abbrev built : List ℕ × Pool
  built = alloc_endpoints (record p { next_upstream = n + 1 }) n uc.endpoints

  abbrev fresh : Upstream
  fresh = record { name = uc.name; weight = uc.weight; endpoints = built.0; drained = false }

  abbrev q : Pool
  q = append_upstream p uc

  facts : Allocates (record p { next_upstream = n + 1 }) n uc.endpoints built.0 built.1
  facts = alloc_endpoints-Allocates (record p { next_upstream = n + 1 }) n uc.endpoints

  pub upstream_new : q.upstream n ≡ fresh
  unfolding append_upstream build_upstream
  upstream_new = update_self built.1.upstream n fresh

  upstream_old : (u : ℕ) → u ≢ n → q.upstream u ≡ p.upstream u
  unfolding append_upstream build_upstream
  upstream_old u h =
      update_other built.1.upstream n u fresh h ∙ ap (λ (f : ℕ → Upstream). f u) facts.same_heap

  endpoint_old : (e : ℕ) → e < p.next_endpoint → q.endpoint e ≡ p.endpoint e
  unfolding append_upstream build_upstream
  endpoint_old e h = facts.frame e h

  pub upstreams_grow : q.upstreams ≡ p.upstreams ++ n ∷ []
  unfolding append_upstream build_upstream
  upstreams_grow = ap (λ l. l ++ n ∷ []) facts.same_upstreams

  endpoints_grow : q.endpoints ≡ p.endpoints ++ built.0
  unfolding append_upstream build_upstream
  endpoints_grow =
      ap₂ ◌++◌ facts.same_endpoints
        (ap (λ (x : Upstream). x.endpoints) (update_self built.1.upstream n fresh))

  -- What holds of the paths of every upstream, held of the old ones and holds of the new one.
  paths_all {ℓ} :
      (P : ℕ → List ℕ → Type ℓ)
      → P n built.0
      → ((u : ℕ) → P u (paths p u))
      → (u : ℕ) → P u (paths q u)
  paths_all P new old u = elim (ℕ_discrete u n) [
    | yes e ↦
        subst (λ v. P v (paths q v)) (sym e)
          (subst (P n) (sym (ap (λ (x : Upstream). x.endpoints) upstream_new)) new)
    | no ne ↦ subst (P u) (sym (ap (λ (x : Upstream). x.endpoints) (upstream_old u ne))) (old u)
  ]

  module _ (s : IsSynced p) where
    next_grows : p.next_endpoint ≤ q.next_endpoint
    unfolding append_upstream build_upstream
    next_grows = facts.grown

    next_upstream_is : q.next_upstream ≡ n + 1
    unfolding append_upstream build_upstream
    next_upstream_is = facts.same_next

    -- An old path keeps everything that is stored for it.
    old_path : (u : ℕ) → All (λ e. q.endpoint e ≡ p.endpoint e) (paths p u)
    old_path u = All-mono _ _ (paths p u) endpoint_old (s.allocated u)

    owners_kept : (u : ℕ) → All (λ e. (q.endpoint e).upstream ≡ u) (paths q u)
    owners_kept =
        paths_all (λ u es. All (λ e. (q.endpoint e).upstream ≡ u) es) new_owned
          (λ u.
            All-both _ _ (λ e. (q.endpoint e).upstream ≡ u) (paths p u)
              (λ e a b. ap (λ (x : Endpoint). x.upstream) a ∙ b) (old_path u) (s.owners u))
      where
        new_owned : All (λ e. (q.endpoint e).upstream ≡ n) built.0
        new_owned = unfold append_upstream build_upstream in facts.owned

    -- An old upstream is not the new one.
    old_ne : (u : ℕ) → u < n → u ≢ n
    old_ne u h = omega arith

    pub names_kept : (u : ℕ) → u < n → q.upstream u ≡ p.upstream u
    names_kept u h = upstream_old u (old_ne u h)

    paths_kept : (u : ℕ) → u < n → paths q u ≡ paths p u
    paths_kept u h = ap (λ (x : Upstream). x.endpoints) (names_kept u h)

    Apart-old : (u v : ℕ) → u < n → v < n → Apart p u v → Apart q u v
    Apart-old u v hu hv a = (
      rw (names_kept u hu, names_kept v hv) a.0,
      rw (paths_kept u hu, paths_kept v hv)
          (All-both (λ e. q.endpoint e ≡ p.endpoint e)
            (λ e. All (λ f. (p.endpoint e).addr ≢ (p.endpoint f).addr) (paths p v))
            (λ e. All (λ f. (q.endpoint e).addr ≢ (q.endpoint f).addr) (paths p v)) (paths p u)
            (λ e old apart_from.
              All-both (λ f. q.endpoint f ≡ p.endpoint f)
                (λ f. (p.endpoint e).addr ≢ (p.endpoint f).addr)
                (λ f. (q.endpoint e).addr ≢ (q.endpoint f).addr) (paths p v)
                (λ f old' ne same. ne (sym (addr_of old) ∙ (same ∙ addr_of old'))) (old_path v)
                apart_from)
            (old_path u) a.1),
    )
      where
        addr_of : {e : ℕ} → q.endpoint e ≡ p.endpoint e → (q.endpoint e).addr ≡ (p.endpoint e).addr
        addr_of h = ap (λ (x : Endpoint). x.addr) h

    Apart-new : (u : ℕ) → u < n → Clear p uc u → Apart q u n
    Apart-new u h c = (
      rw (names_kept u h, upstream_new) c.0,
      rw (paths_kept u h, ap (λ (x : Upstream). x.endpoints) upstream_new)
          (All-both _ _ _ (paths p u)
            (λ e old apart_from. rw old (new_addrs (p.endpoint e).addr apart_from)) (old_path u)
            c.1),
    )
      where
        new_addrs :
            (addr : String)
            → All (λ (ec : EndpointConfig). addr ≢ ec.addr) uc.endpoints
            → All (λ f. addr ≢ (q.endpoint f).addr) built.0
        new_addrs addr =
            All-same_map (λ t. addr ≢ t) (λ f. (q.endpoint f).addr)
              (λ (ec : EndpointConfig). ec.addr) built.0 uc.endpoints
              (unfold append_upstream build_upstream in facts.addrs)

    flat_append :
        (us : List ℕ)
        → All (λ u. u < n) us
        → flat_map (paths q) (us ++ n ∷ []) ≡ flat_map (paths p) us ++ built.0
    flat_append [] h = rw append-nil (ap (λ (x : Upstream). x.endpoints) upstream_new)
    flat_append (u ∷ us) h =
        rw (paths_kept u h.0, flat_append us h.1)
          (sym (append_assoc (paths p u) (flat_map (paths p) us) built.0))

    Distinct-append : (us : List ℕ) → Distinct us → All (λ u. u < n) us → Distinct (us ++ n ∷ [])
    Distinct-append [] d h = (refl, tt)
    Distinct-append (u ∷ us) d h =
        (ground (arith, d.0, count-append u us (n ∷ []), h.0), Distinct-append us d.1 h.1)

    -- Appending a clear upstream keeps the pool in step.
    pub append_upstream-IsSynced :
        uc.weight ≡ pos (pos_part uc.weight) → All (Clear p uc) p.upstreams → IsSynced q
    append_upstream-IsSynced w c = record {
      owners = owners_kept;
      distinct_paths = paths_all (λ _ es. Distinct es) facts.distinct s.distinct_paths;
      weights = λ u. elim (ℕ_discrete u n) [
        | yes e ↦
            subst (λ v. (q.upstream v).weight ≡ pos (pos_part (q.upstream v).weight)) (sym e)
              (subst (λ (x : Upstream). x.weight ≡ pos (pos_part x.weight)) (sym upstream_new) w)
        | no ne ↦ rw (upstream_old u ne) (s.weights u)
      ];
      allocated =
          paths_all (λ _ es. All (λ e. e < q.next_endpoint) es)
            (unfold append_upstream build_upstream in facts.below)
            (λ u. All-mono _ _ (paths p u) (λ e h. omega (arith, next_grows)) (s.allocated u));
      known =
          rw (upstreams_grow, next_upstream_is)
            (All-append (λ u. u < n + 1) p.upstreams (n ∷ [])
              (All-mono _ _ p.upstreams (λ u h. omega arith) s.known) (omega arith, tt));
      distinct = rw upstreams_grow (Distinct-append p.upstreams s.distinct s.known);
      flat = rw upstreams_grow (
          endpoints_grow ∙ (ap (λ l. l ++ built.0) s.flat ∙ sym (flat_append p.upstreams s.known)));
      apart = rw upstreams_grow (
          Pairwise-snoc (Apart q) p.upstreams n
            (Pairwise-mono (λ u. u < n) (Apart p) (Apart q) p.upstreams Apart-old s.known s.apart)
            (All-both _ _ _ p.upstreams (λ u h k. Apart-new u h k) s.known c));
    }

    pub append_upstream-Adds : Adds p uc n q
    append_upstream-Adds = record {
      at_end = upstreams_grow;
      paths_at_end =
          endpoints_grow
          ∙ ap (λ l. p.endpoints ++ l) (sym (ap (λ (x : Upstream). x.endpoints) upstream_new));
      name = ap (λ (x : Upstream). x.name) upstream_new;
      weight = ap (λ (x : Upstream). x.weight) upstream_new;
      in_rotation = ap (λ (x : Upstream). x.drained) upstream_new;
      addrs =
          subst
            (λ (x : Upstream).
              map (λ e. (q.endpoint e).addr) x.endpoints ≡ map (λ ec. ec.addr) uc.endpoints)
            (sym upstream_new) (unfold append_upstream build_upstream in facts.addrs);
      starts_down =
          subst (λ (x : Upstream). All (λ e. (q.endpoint e).up ≡ false) x.endpoints)
            (sym upstream_new) (unfold append_upstream build_upstream in facts.starts_down);
      others = All-mono _ _ p.upstreams (λ u h. names_kept u h) s.known;
      other_paths = All-mono _ _ p.upstreams (λ u h. old_path u) s.known;
    }

    -- An upstream that clashes with none of the old ones and not with the new one.
    Clear-old : (uc' : UpstreamConfig) (u : ℕ) → u < n → Clear p uc' u → Clear q uc' u
    Clear-old uc' u h c = (
      rw (names_kept u h) c.0,
      rw (paths_kept u h) (
          All-both (λ e. q.endpoint e ≡ p.endpoint e)
            (λ e. All (λ (ec : EndpointConfig). (p.endpoint e).addr ≢ ec.addr) uc'.endpoints)
            (λ e. All (λ (ec : EndpointConfig). (q.endpoint e).addr ≢ ec.addr) uc'.endpoints)
            (paths p u) (λ e old apart_from. rw old apart_from) (old_path u) c.1),
    )

    Clear-new : (uc' : UpstreamConfig) → ApartSpecs uc uc' → Clear q uc' n
    Clear-new uc' a = (
      rw upstream_new a.0,
      rw (ap (λ (x : Upstream). x.endpoints) upstream_new) (
          All-same_map (λ t. All (λ (ec : EndpointConfig). t ≢ ec.addr) uc'.endpoints)
            (λ f. (q.endpoint f).addr) (λ (ec : EndpointConfig). ec.addr) built.0 uc.endpoints
            (unfold append_upstream build_upstream in facts.addrs) a.1),
    )

    pub append_upstream-Clear :
        (uc' : UpstreamConfig)
        → ApartSpecs uc uc'
        → All (Clear p uc') p.upstreams
        → All (Clear q uc') q.upstreams
    append_upstream-Clear uc' a c = rw upstreams_grow (
        All-append (Clear q uc') p.upstreams (n ∷ [])
          (All-both (λ u. u < n) (Clear p uc') (Clear q uc') p.upstreams
            (λ u h k. Clear-old uc' u h k) s.known c)
          (Clear-new uc' a, tt))
