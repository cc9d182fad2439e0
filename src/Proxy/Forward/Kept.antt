-- ===== src/Proxy/Forward/Kept.antt =====
-- What a query leaves of the pool and of the resolver.
use hole_balancer.Base.{
  ℕ, ◌+◌, ◌≤◌, ◌≡◌, refl, sym, ap, ◌∙◌, subst, String, Bool, true, List, [], ◌∷◌, Option, none,
  some, Bool-cases, Option-cases, inl, inr, arith, length, take,
}
use hole_balancer.Dnsmsg.Header.{Header, Parsed, ok, err, parse_header}
use hole_balancer.Pool.Types.{Pool}
use hole_balancer.Pool.Health.{report_query}
use hole_balancer.Pool.Plan.{plan}
use hole_balancer.Pool.Plan.Counter.{plan-rr}
use hole_balancer.Fallback.Resolver.{Resolver, Outcome, enabled, answer, refused, panics, resolve}
use hole_balancer.Fallback.Resolver.Counter.{resolve-rr}
use hole_balancer.Metrics.{inc}
use hole_balancer.System.{System, label}
use hole_balancer.Proxy.Types.{World, Query, Attempt}
use hole_balancer.Proxy.Attempts.{attempts_for, try_attempts}
use hole_balancer.Proxy.Attempts.Keep.{try_attempts-P}
use hole_balancer.Proxy.Attempts.Race.{try_attempts-Races}
use hole_balancer.Proxy.Forward.{
  resolve_via_fallback, file_record, give_up, after_attempts, start_attempt, forward, resolve_query,
}

-- The pool is the same, and the counter of the resolver moved by one at most.
abbrev Leaves : System → System → Type 0
Leaves s t = (t.pool ≡ s.pool) × (t.resolver.rr ≤ s.resolver.rr + 1)

abbrev pub gives {ℓ} : {A : Type ℓ} → A → Option (List ℕ) → Option (A × Option (List ℕ))
gives a o = some (a, o)

gives-first {ℓ} : {A : Type ℓ} {a b : A} {o p : Option (List ℕ)} → gives a o ≡ gives b p → a ≡ b
gives-first e = cc

resolve_via_fallback-Leaves :
    (w : World) (st st' : Attempt) (o : Option (List ℕ))
    → resolve_via_fallback w st ≡ gives st' o
    → Leaves st.system st'.system
unfolding resolve_via_fallback
resolve_via_fallback-Leaves w st st' o h = elim (Bool-cases (enabled st.system.resolver)) [
  | inr off ↦
      let f = rw off at h in
      subst (λ (x : Attempt). Leaves st.system x.system) (gives-first f) (refl, omega arith)
  | inl on ↦
      let f = rw on at h in
      go (resolve st.system.resolver w.fallback_cancelled w.fallback_exchange).0 refl on
]
  where
    moved :
        (resolve st.system.resolver w.fallback_cancelled w.fallback_exchange).2.rr
        ≤ st.system.resolver.rr + 1
    moved = resolve-rr st.system.resolver w.fallback_cancelled w.fallback_exchange

    go :
        (x : Outcome)
        → (resolve st.system.resolver w.fallback_cancelled w.fallback_exchange).0 ≡ x
        → enabled st.system.resolver ≡ true
        → Leaves st.system st'.system
    go panics e on = let f = rw on at h in let g = rw (e, resolve_via_fallback) at f in cc
    go (refused y) e on =
        let f = rw on at h in
        let g = rw (e, resolve_via_fallback) at f in
        subst (λ (x : Attempt). Leaves st.system x.system) (gives-first g) (refl, moved)
    go (answer resp server) e on =
        let f = rw on at h in
        let g = rw (e, resolve_via_fallback) at f in
        subst (λ (x : Attempt). Leaves st.system x.system) (gives-first g) (refl, moved)

after_attempts-Leaves :
    (w : World) (req : List ℕ) (st : Attempt) (o p : Option (List ℕ)) (t : System)
    → after_attempts w req (st, o) ≡ gives t p
    → Leaves st.system t
unfolding after_attempts file_record give_up
after_attempts-Leaves w req st (some resp) p t h =
    subst (Leaves st.system) (gives-first h) (refl, omega arith)
after_attempts-Leaves w req st none p t h = go (resolve_via_fallback w st) refl
  where
    go :
        (x : Option (Attempt × Option (List ℕ)))
        → resolve_via_fallback w st ≡ x
        → Leaves st.system t
    go none e = let f = rw (e, after_attempts) at h in cc
    go (some (st', some resp)) e =
        let f = rw (e, after_attempts) at h in
        let l = resolve_via_fallback-Leaves w st st' (some resp) e in
        subst (Leaves st.system) (gives-first f) l
    go (some (st', none)) e =
        let f = rw (e, after_attempts) at h in
        let l = resolve_via_fallback-Leaves w st st' none e in
        subst (Leaves st.system) (gives-first f) l

-- A property of the pool that Plan's write of the counter and every ReportQuery keep is kept by a
-- query, and the two counters move by one at most.
module _ {ℓ} (P : Pool → Type ℓ) (w : World) (cfg : Query)
    (kept : (p : Pool) (e : ℕ) (ok : Bool) (latency now : ℕ) (error : Option String)
      → P p
      → P (report_query w.mix p e ok latency error now).0)
    (steady : (p : Pool) (e : ℕ) (ok : Bool) (latency now : ℕ) (error : Option String)
      → (report_query w.mix p e ok latency error now).0.rr ≡ p.rr)
    (planned : (p q : Pool) (es : List ℕ) → plan p w.draws ≡ some (es, q) → P p → P q) where
  abbrev Moves : System → System → Type ℓ
  Moves s t = P t.pool × (t.pool.rr ≤ s.pool.rr + 1) × (t.resolver.rr ≤ s.resolver.rr + 1)

  forward-Moves :
      (s t : System) (req : List ℕ) (proto : String) (o : Option (List ℕ))
      → P s.pool
      → forward w cfg s req proto ≡ gives t o
      → Moves s t
  unfolding forward
  forward-Moves s t req proto o h e = elim (Option-cases (plan s.pool w.draws)) [
    | inl x ↦ let f = rw (x, forward) at e in cc
    | inr ((es, q), x) ↦
        let f = rw (x, forward) at e in
        let start = start_attempt w req proto (record s { pool = q }) in
        let tried = take (attempts_for cfg (record s { pool = q }) (length es)) es in
        let looped = try_attempts w cfg 0 tried start in
        let left = after_attempts-Leaves w req looped.0 looped.1 o t f in
        let pool = try_attempts-P P w cfg kept 0 tried start (planned s.pool q es x h) in
        let rr =
          try_attempts-P (λ p. p.rr ≡ q.rr) w cfg
            (λ p e ok latency now error k. steady p e ok latency now error ∙ k) 0 tried start
            refl in
        let same = (try_attempts-Races w cfg 0 tried start).kept.resolver in
        (
          subst P (sym left.0) pool,
          omega (arith, plan-rr s.pool q w.draws es x, rr, ap (λ (p : Pool). p.rr) left.0),
          omega (arith, left.1, ap (λ (r : Resolver). r.rr) same),
        )
  ]

  pub resolve_query-Moves :
      (s t : System) (req : List ℕ) (proto : String) (o : Option (List ℕ))
      → P s.pool
      → resolve_query w cfg s req proto ≡ gives t o
      → Moves s t
  unfolding resolve_query
  resolve_query-Moves s t req proto o h e = go (parse_header req) refl
    where
      counted : System
      counted =
          let m = s.metrics in
          record s { metrics = record m { queries = inc (label "proto" proto ∷ []) m.queries } }

      go : (x : Parsed Header) → parse_header req ≡ x → Moves s t
      go (err y) p =
          let f = rw (p, resolve_query) at e in
          subst (Moves s) (gives-first f) (h, omega arith, omega arith)
      go (ok hdr) p = elim (Bool-cases hdr.qr) [
        | inl r ↦
            let f = rw (p, resolve_query) at e in
            let g = rw r at f in subst (Moves s) (gives-first g) (h, omega arith, omega arith)
        | inr q ↦ elim (Option-cases (forward w cfg counted req proto)) [
          | inl x ↦
              let f = rw (p, resolve_query) at e in
              let g = rw q at f in let k = rw (x, resolve_query) at g in cc
          | inr ((t', reply), x) ↦
              let f = rw (p, resolve_query) at e in
              let g = rw q at f in
              let k = rw (x, resolve_query) at g in
              subst (Moves s) (gives-first k) (forward-Moves counted t' req proto reply h x)
        ]
      ]
