-- ===== src/Proxy/Attempts/Race.antt =====
-- The loop of forward, seen from the client: which message it ends with.
use hole_balancer.Base.{
  ℕ, ◌+◌, ◌≡◌, refl, ◌∙◌, ap, fun_ext, String, true, false, List, [], ◌∷◌, map, Option, none, some,
  ltb, if◌then◌else◌, Bool-cases, inl, inr, arith,
}
use hole_balancer.Fallback.Resolver.{rcode_of}
use hole_balancer.System.{System}
use hole_balancer.System.Reports.{query_reported-addr, query_reported-rest}
use hole_balancer.Dnsclient.{received, lost, Sent-cases}
use hole_balancer.Proxy.Types.{World, Query, Attempt}
use hole_balancer.Proxy.Attempts.{
  begin_attempt, failed_attempt, won_attempt, try_attempts, code_reason, upstream_returned,
}

-- The first message that is not to be retried, of the addresses asked before a cancellation; and the
-- last one that was.
unfoldable pub race :
    World → Query → ℕ → Option (List ℕ) → List String → Option (List ℕ) × Option (List ℕ)
race w cfg i last [] = (none, last)
race w cfg i last (addr ∷ addrs) =
    if w.cancelled i then (none, last) else elim ((w.exchange i addr).1) [
      | lost reason text ↦ race w cfg (i + 1) last addrs
      | received resp ↦ elim (cfg.should_retry (rcode_of resp)) [
        | true ↦ race w cfg (i + 1) (some resp) addrs
        | false ↦ (some resp, last)
      ]
    ]

abbrev pub addr_of : System → ℕ → String
addr_of s e = (s.pool.endpoint e).addr

-- What a round keeps of the loop variables.
pub record Kept (a b : Attempt) : Type 0 where
  pub addr : addr_of b.system ≡ addr_of a.system
  pub resolver : b.system.resolver ≡ a.system.resolver
  pub stats : b.system.stats ≡ a.system.stats
  pub proto : b.rec.proto ≡ a.rec.proto
  pub failed : b.rec.failed ≡ a.rec.failed
  pub fallback : b.rec.fallback ≡ a.rec.fallback

Kept-refl : (a : Attempt) → Kept a a
Kept-refl a = record {
  addr = refl;
  resolver = refl;
  stats = refl;
  proto = refl;
  failed = refl;
  fallback = refl;
}

begin_attempt-Kept : (i : ℕ) (st : Attempt) → Kept st (begin_attempt i st)
unfolding begin_attempt
begin_attempt-Kept i st = elim (Bool-cases (ltb 0 i)) [
  | inl l ↦ rw l (record {
    addr = refl;
    resolver = refl;
    stats = refl;
    proto = refl;
    failed = refl;
    fallback = refl;
  })
  | inr l ↦ rw l (record {
    addr = refl;
    resolver = refl;
    stats = refl;
    proto = refl;
    failed = refl;
    fallback = refl;
  })
]

begin_attempt-last : (i : ℕ) (st : Attempt) → (begin_attempt i st).last_resp ≡ st.last_resp
unfolding begin_attempt
begin_attempt-last i st = ground arith

failed_attempt-Kept :
    (w : World) (i e rtt : ℕ) (reason text : String) (st : Attempt)
    → Kept st (failed_attempt w i e rtt reason text st)
unfolding failed_attempt
failed_attempt-Kept w i e rtt reason text st =
    let rest = query_reported-rest w.mix (w.clock i) e false rtt (some text) st.system in
    record {
      addr = fun_ext (query_reported-addr w.mix (w.clock i) e false rtt (some text) st.system);
      resolver = rest.0;
      stats = rest.1;
      proto = refl;
      failed = refl;
      fallback = refl;
    }

failed_attempt-last :
    (w : World) (i e rtt : ℕ) (reason text : String) (st : Attempt)
    → (failed_attempt w i e rtt reason text st).last_resp ≡ st.last_resp
unfolding failed_attempt
failed_attempt-last w i e rtt reason text st = refl

won_attempt-Kept :
    (w : World) (i e rtt : ℕ) (resp : List ℕ) (st : Attempt)
    → Kept st (won_attempt w i e rtt resp st)
      × ((won_attempt w i e rtt resp st).last_resp ≡ st.last_resp)
unfolding won_attempt
won_attempt-Kept w i e rtt resp st =
    let rest = query_reported-rest w.mix (w.clock i) e true rtt none st.system in
    (
      record {
        addr = fun_ext (query_reported-addr w.mix (w.clock i) e true rtt none st.system);
        resolver = rest.0;
        stats = rest.1;
        proto = refl;
        failed = refl;
        fallback = refl;
      },
      refl,
    )

Kept-trans : {a b c : Attempt} → Kept a b → Kept b c → Kept a c
Kept-trans h k = record {
  addr = k.addr ∙ h.addr;
  resolver = k.resolver ∙ h.resolver;
  stats = k.stats ∙ h.stats;
  proto = k.proto ∙ h.proto;
  failed = k.failed ∙ h.failed;
  fallback = k.fallback ∙ h.fallback;
}

module _ (w : World) (cfg : Query) where
  -- The loop ends as a race does, and keeps the rest of its variables.
  pub record Races (st : Attempt) (r : Attempt × Option (List ℕ))
      (ends : Option (List ℕ) × Option (List ℕ)) : Type 0 where
    pub reply : r.1 ≡ ends.0
    pub last : r.0.last_resp ≡ ends.1
    pub kept : Kept st r.0

  -- A later round, in the terms of an earlier one.
  carry :
      (i : ℕ) (es : List ℕ) (st st' : Attempt) (last : Option (List ℕ))
      → Kept st st'
      → st'.last_resp ≡ last
      → Races st'
          (try_attempts w cfg i es st')
          (race w cfg i st'.last_resp (map (addr_of st'.system) es))
      → Races st (try_attempts w cfg i es st') (race w cfg i last (map (addr_of st.system) es))
  carry i es st st' last k l h =
      let same =
        ap (λ f. race w cfg i st'.last_resp (map f es)) k.addr
        ∙ ap (λ o. race w cfg i o (map (addr_of st.system) es)) l in
      record {
        reply = h.reply ∙ ap (λ r. r.0) same;
        last = h.last ∙ ap (λ r. r.1) same;
        kept = Kept-trans k h.kept;
      }

  pub try_attempts-Races :
      (i : ℕ) (es : List ℕ) (st : Attempt)
      → Races st
          (try_attempts w cfg i es st)
          (race w cfg i st.last_resp (map (addr_of st.system) es))
  unfolding try_attempts race
  try_attempts-Races i [] st = record { reply = refl; last = refl; kept = Kept-refl st }
  try_attempts-Races i (e ∷ es) st = elim (Bool-cases (w.cancelled i)) [
    | inl stop ↦
        let same : Kept st (record st { last_reason = "canceled" }) = record {
          addr = refl;
          resolver = refl;
          stats = refl;
          proto = refl;
          failed = refl;
          fallback = refl;
        } in
        rw stop (record { reply = refl; last = refl; kept = same })
    | inr go ↦
        let begun = begin_attempt i st in
        let k = begin_attempt-Kept i st in
        let same : (begun.system.pool.endpoint e).addr ≡ (st.system.pool.endpoint e).addr =
          ap (λ f. f e) k.addr in
        elim (Sent-cases (w.exchange i (st.system.pool.endpoint e).addr).1) [
          | inl (reason, text, x) ↦
              rw (go, same, x)
                (let st' =
                    failed_attempt w i e (w.exchange i (begun.system.pool.endpoint e).addr).0 reason
                      text begun in
                  carry (i + 1) es st st' st.last_resp
                    (Kept-trans k (failed_attempt-Kept w i e _ reason text begun))
                    (failed_attempt-last w i e _ reason text begun ∙ begin_attempt-last i st)
                    (try_attempts-Races (i + 1) es st'))
          | inr (resp, x) ↦
              rw (go, same, x)
                (elim (Bool-cases (cfg.should_retry (rcode_of resp))) [
                  | inl again ↦
                      let rtt = (w.exchange i (begun.system.pool.endpoint e).addr).0 in
                      let failed =
                        failed_attempt w i e rtt (code_reason w resp) (upstream_returned w resp)
                          begun in
                      let f =
                        failed_attempt-Kept w i e rtt (code_reason w resp)
                          (upstream_returned w resp) begun in
                      let st' : Attempt = record failed { last_resp = some resp } in
                      rw again (
                        carry (i + 1) es st st' (some resp)
                          (Kept-trans {c = st'} k (record {
                            addr = f.addr;
                            resolver = f.resolver;
                            stats = f.stats;
                            proto = f.proto;
                            failed = f.failed;
                            fallback = f.fallback;
                          }))
                          refl (try_attempts-Races (i + 1) es st'))
                  | inr used ↦
                      let won =
                        won_attempt-Kept w i e (w.exchange i (begun.system.pool.endpoint e).addr).0
                          resp begun in
                      rw used (record {
                        reply = refl;
                        last = won.1 ∙ begin_attempt-last i st;
                        kept = Kept-trans k won.0;
                      })
                ])
        ]
  ]
