-- ===== src/Proxy/Forward/Replies.antt =====
-- What forward replies and records, and that it replies at all.
use hole_balancer.Base.{
  ℕ, ◌^◌, ◌<◌, ◌≡◌, refl, ◌∙◌, ap, String, false, not, ◌&&◌, List, [], ◌∷◌, map, Option, none, some,
  length, take, arith,
}
use hole_balancer.Dnsmsg.Header.{Header, ok, parse_header}
use hole_balancer.Dnsmsg.Message.{Question, parse_question, error_response}
use hole_balancer.Dnsmsg.Message.Answered.{error_response-question}
use hole_balancer.Pool.Types.{Pool}
use hole_balancer.Pool.Plan.{plan}
use hole_balancer.Pool.Plan.Total.{IsRandom}
use hole_balancer.Pool.Plan.Coverage.{plan-Covers}
use hole_balancer.Pool.Members.Sync.{IsSynced}
use hole_balancer.Fallback.Resolver.{Resolver}
use hole_balancer.Stats.{Record, add_record}
use hole_balancer.System.{System, label}
use hole_balancer.Metrics.{inc}
use hole_balancer.Proxy.Types.{World, Query, serv_fail}
use hole_balancer.Proxy.Attempts.{attempts_for, try_attempts}
use hole_balancer.Proxy.Attempts.Race.{race, addr_of, try_attempts-Races}
use hole_balancer.Proxy.Forward.{after_attempts, start_attempt, forward, resolve_query}
use hole_balancer.Proxy.Forward.Filed.{by_fallback, or_else, reply_of, is_none, replied}
use hole_balancer.Proxy.Forward.Ends.{after_attempts-Ends}

-- The race of a query, over the planned endpoints that it may try.
abbrev pub race_of : World → Query → System → List ℕ → Option (List ℕ) × Option (List ℕ)
race_of w cfg s es = race w cfg 0 none (map (addr_of s) (take (attempts_for cfg s (length es)) es))

module _ (w : World) (cfg : Query) (s : System) (req : List ℕ) (proto : String) where
  -- How forward serves a query when Plan returns the given endpoints and pool.
  pub record Served (es : List ℕ) (q : Pool) : Type 0 where
    pub system : System
    pub rec : Record
    pub returns :
        forward w cfg s req proto
        ≡ some (system, reply_of w req s.resolver (race_of w cfg (record s { pool = q }) es))
    pub stats : system.stats ≡ add_record w.zone (w.clock 0) rec s.stats
    pub proto_kept : rec.proto ≡ proto
    pub is_failed : rec.failed ≡ (
        is_none (race_of w cfg (record s { pool = q }) es).0 && is_none (by_fallback w s.resolver))
    pub is_fallback : rec.fallback ≡ (
        is_none (race_of w cfg (record s { pool = q }) es).0
        && not (is_none (by_fallback w s.resolver)))

  forward-planned :
      (es : List ℕ) (q : Pool)
      → plan s.pool w.draws ≡ some (es, q)
      → let planned = record s { pool = q } in
        forward w cfg s req proto
        ≡ after_attempts w req (
            try_attempts w cfg 0
              (take (attempts_for cfg planned (length es)) es)
              (start_attempt w req proto planned))
  unfolding forward
  forward-planned es q e = rw (e, forward) refl

  forward-Served :
      (es : List ℕ) (q : Pool)
      → plan s.pool w.draws ≡ some (es, q)
      → s.resolver.rr < 2 ^ 63
      → Served es q
  forward-Served es q e l =
      let planned : System = record s { pool = q } in
      let start = start_attempt w req proto planned in
      let tried = take (attempts_for cfg planned (length es)) es in
      let looped = try_attempts w cfg 0 tried start in
      let h = try_attempts-Races w cfg 0 tried start in
      let k = h.kept in
      let ends =
        after_attempts-Ends w req looped.0 (k.failed, k.fallback) looped.1
          (omega (arith, l, ap (λ (r : Resolver). r.rr) k.resolver)) in
      record {
        system = ends.system;
        rec = ends.filed.rec;
        returns =
            forward-planned es q e
            ∙ ends.returns
            ∙ replied ends.system (rw (k.resolver, h.reply, h.last) refl);
        stats = ends.filed.stats ∙ ap (add_record w.zone (w.clock 0) ends.filed.rec) k.stats;
        proto_kept = ends.filed.proto ∙ k.proto;
        is_failed = ends.filed.is_failed ∙ rw (k.resolver, h.reply) refl;
        is_fallback = ends.filed.is_fallback ∙ rw (k.resolver, h.reply) refl;
      }

-- With a pool in step, fair draws and both round-robin counters below 2 ^ 63, forward returns. Its
-- reply is that of the race over the planned endpoints: the first message that is not to be retried,
-- or else what public DNS answers, or else the last message whose code was to be retried, or else a
-- new SERVFAIL. It files one record, for the transport of the query: as failed where neither the race
-- nor public DNS gave a message, as fallback where only public DNS did.
pub forward-Serves :
    (w : World) (cfg : Query) (s : System) (req : List ℕ) (proto : String)
    → IsSynced s.pool
    → IsRandom w.draws
    → s.pool.rr < 2 ^ 63
    → s.resolver.rr < 2 ^ 63
    → (es : List ℕ) × (q : Pool) × (plan s.pool w.draws ≡ some (es, q))
      × Served w cfg s req proto es q
forward-Serves w cfg s req proto y d l k =
    let (es, rr, e, perm) = plan-Covers s.pool w.draws d y.weights y.distinct_paths l in
    (es, record (s.pool) { rr = rr }, e, forward-Served w cfg s req proto es _ e k)

or_else-some :
    (a b c d : Option (List ℕ))
    → (m : List ℕ) × (d ≡ some m)
    → (m : List ℕ) × (or_else a (or_else b (or_else c d)) ≡ some m)
or_else-some (some m) b c d h = (m, refl)
or_else-some none (some m) c d h = (m, refl)
or_else-some none none (some m) d h = (m, refl)
or_else-some none none none d h = h

-- A query with a readable question is answered by forward.
forward-some :
    (w : World) (cfg : Query) (s : System) (req : List ℕ) (proto : String) (hdr : Header)
    (question : Question)
    → IsSynced s.pool
    → IsRandom w.draws
    → s.pool.rr < 2 ^ 63
    → s.resolver.rr < 2 ^ 63
    → parse_header req ≡ ok hdr
    → hdr.qr ≡ false
    → parse_question req ≡ ok question
    → (t : System) × (m : List ℕ) × (forward w cfg s req proto ≡ some (t, some m))
forward-some w cfg s req proto hdr question y d l k p query h =
    let (es, q, e, v) = forward-Serves w cfg s req proto y d l k in
    let r = race_of w cfg (record s { pool = q }) es in
    let (m, same) =
      or_else-some r.0 (by_fallback w s.resolver) r.1 (error_response req serv_fail)
        (error_response-question req serv_fail hdr question p query h) in
    (v.system, m, v.returns ∙ replied v.system same)

-- With a pool in step, fair draws and both round-robin counters below 2 ^ 63, Resolve replies to
-- every query whose header and question can be read, whatever the endpoints and the public resolvers
-- do.
pub resolve_query-some :
    (w : World) (cfg : Query) (s : System) (req : List ℕ) (proto : String) (hdr : Header)
    (question : Question)
    → IsSynced s.pool
    → IsRandom w.draws
    → s.pool.rr < 2 ^ 63
    → s.resolver.rr < 2 ^ 63
    → parse_header req ≡ ok hdr
    → hdr.qr ≡ false
    → parse_question req ≡ ok question
    → (t : System) × (m : List ℕ) × (resolve_query w cfg s req proto ≡ some (t, some m))
unfolding resolve_query
resolve_query-some w cfg s req proto hdr question y d l k p query h =
    let m = s.metrics in
    let counted : System = record s {
      metrics = record m { queries = inc (label "proto" proto ∷ []) m.queries };
    } in
    let (t, m, e) = forward-some w cfg counted req proto hdr question y d l k p query h in
    rw (p, resolve_query) (rw query (rw (e, resolve_query) (_, _, refl)))
