-- ===== src/Proxy/Service.antt =====
-- internal/proxy/proxy.go: Resolve, query after query, on one running server.
use hole_balancer.Base.{
  ℕ, ◌+◌, ◌^◌, ◌<◌, ◌≤◌, ◌≡◌, refl, sym, ap, ◌∙◌, subst, String, false, List, [], ◌∷◌, Option, none,
  some, length, arith,
}
use hole_balancer.Dnsmsg.Header.{Header, ok, parse_header}
use hole_balancer.Dnsmsg.Message.{Question, parse_question}
use hole_balancer.Pool.Types.{Pool}
use hole_balancer.Pool.Health.Keep.{report_query-keeps}
use hole_balancer.Pool.Health.Silent.{report_query-Rewrites}
use hole_balancer.Pool.Plan.Total.{IsRandom}
use hole_balancer.Pool.History.{IsWell, retuned-IsWell, plan-retunes}
use hole_balancer.Dnsclient.Exchange.{Wire}
use hole_balancer.System.{System}
use hole_balancer.Proxy.Types.{World, Query}
use hole_balancer.Proxy.Forward.{resolve_query}
use hole_balancer.Proxy.Forward.Kept.{resolve_query-Moves, gives}
use hole_balancer.Proxy.Forward.Replies.{resolve_query-some}
use hole_balancer.Proxy.Client.{networked, AreGenuine, resolve_query-AreGenuine}

-- One query, with the networks that it meets and the rest of its world.
pub record Asked : Type 0 where
  pub show : ℕ → String
  pub wires : ℕ → String → Wire
  pub public_wires : ℕ → String → Wire
  pub world : World
  pub proto : String
  pub req : List ℕ

abbrev pub met : Asked → World
met a = networked a.show a.wires a.public_wires a.proto a.req a.world

-- The queries one after the other; `none` is a panic.
pub serve_all : Query → List Asked → System → Option (System × List (Option (List ℕ)))
serve_all cfg [] s = some (s, [])
serve_all cfg (a ∷ rest) s = elim (resolve_query (met a) cfg s a.req a.proto) [
  | none ↦ none
  | some (t, reply) ↦ elim (serve_all cfg rest t) [
    | none ↦ none
    | some (u, replies) ↦ some (u, reply ∷ replies)
  ]
]

-- The reply to a query is genuine, and it is there if the header and the question can be read.
abbrev pub IsServed : Asked → Option (List ℕ) → Type 0
IsServed a reply =
    AreGenuine a.req reply
    × ((hdr : Header) (question : Question)
        → parse_header a.req ≡ ok hdr
        → hdr.qr ≡ false
        → parse_question a.req ≡ ok question
        → (m : List ℕ) × (reply ≡ some m))

abbrev pub AreServed : List Asked → List (Option (List ℕ)) → Type 0
AreServed [] [] = Unit
AreServed [] (o ∷ os) = ⊥
AreServed (a ∷ rest) [] = ⊥
AreServed (a ∷ rest) (o ∷ os) = IsServed a o × AreServed rest os

abbrev pub AreFair : List Asked → Type 0
AreFair [] = Unit
AreFair (a ∷ rest) = IsRandom a.world.draws × AreFair rest

-- What one query asks of the server, with `n` queries to come.
abbrev pub IsFit : ℕ → System → Type 0
IsFit n s = IsWell s.pool × (s.pool.rr + n ≤ 2 ^ 63) × (s.resolver.rr + n ≤ 2 ^ 63)

same_reply :
    {t u : System} {o : Option (List ℕ)} {m : List ℕ} → gives t o ≡ gives u (some m) → o ≡ some m
same_reply e = cc

resolve_query-IsFit :
    (a : Asked) (cfg : Query) (s t : System) (n : ℕ) (o : Option (List ℕ))
    → IsFit (n + 1) s
    → resolve_query (met a) cfg s a.req a.proto ≡ gives t o
    → IsFit n t
resolve_query-IsFit a cfg s t n o (well, low, public_low) e =
    let moved =
      resolve_query-Moves IsWell (met a) cfg
        (λ p i up latency now error h.
          report_query-keeps a.world.mix p i up latency now error h.0 h.1)
        (λ p i up latency now error.
          ap (λ (q : Pool). q.rr) (report_query-Rewrites a.world.mix p i up latency now error).same)
        (λ p q es x h.
          subst IsWell (sym (plan-retunes p q a.world.draws es x))
            (retuned-IsWell p p.strategy q.rr h))
        s t a.req a.proto o well e in
    (moved.0, omega (arith, moved.1), omega (arith, moved.2))

-- One query is served, and leaves a server fit for the others.
resolve_query-IsServed :
    (a : Asked) (cfg : Query) (s : System) (n : ℕ)
    → IsFit (n + 1) s
    → IsRandom a.world.draws
    → (t : System) × (o : Option (List ℕ)) × (resolve_query (met a) cfg s a.req a.proto ≡ gives t o)
      × IsServed a o
      × IsFit n t
resolve_query-IsServed a cfg s n fit fair =
    let (well, low, public_low) = fit in
    let below : s.pool.rr < 2 ^ 63 = omega (arith, low) in
    let public_below : s.resolver.rr < 2 ^ 63 = omega (arith, public_low) in
    let (t, o, e, genuine) =
      resolve_query-AreGenuine a.show a.wires a.public_wires a.world cfg s a.req a.proto well.0 fair
        below public_below in
    (
      t,
      o,
      e,
      (
        genuine,
        λ hdr question p q h.
            let (u, m, x) =
              resolve_query-some (met a) cfg s a.req a.proto hdr question well.0 fair below
                public_below p q h in
            (m, same_reply (sym e ∙ x)),
      ),
      resolve_query-IsFit a cfg s t n o fit e,
    )

-- On a server whose pool is in step, with settled endpoints, and whose two round-robin counters stay
-- below 2 ^ 63, with fair draws, and whatever all networks do: a sequence of queries is served to its end, no query
-- brings the server down, each reply has the identifier of its query and QR set, and each query whose
-- header and question can be read has a reply.
pub serve_all-AreServed :
    (cfg : Query) (queries : List Asked) (s : System)
    → IsFit (length queries) s
    → AreFair queries
    → (u : System) × (replies : List (Option (List ℕ))) × (serve_all cfg queries s
        ≡ some (u, replies))
      × AreServed queries replies
unfolding serve_all
serve_all-AreServed cfg [] s fit fair = (s, [], refl, tt)
serve_all-AreServed cfg (a ∷ rest) s fit fair =
    let (t, o, e, served, next) =
      resolve_query-IsServed a cfg s (length rest)
        (fit.0, omega (arith, fit.1), omega (arith, fit.2)) fair.0 in
    let (u, replies, x, others) = serve_all-AreServed cfg rest t next fair.1 in
    (u, o ∷ replies, rw (e, serve_all) (rw (x, serve_all) refl), (served, others))
