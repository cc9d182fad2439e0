-- ===== src/Proxy/Client.antt =====
-- internal/proxy/proxy.go and internal/fallback/fallback.go: the calls of dnsclient.Exchange for one
-- query, over the transport of the query.
use hole_balancer.Base.{
  ℕ, ◌+◌, ◌^◌, ◌<◌, ◌≡◌, refl, ◌∙◌, String, true, List, [], ◌∷◌, Option, none, some, Bool-cases,
  inl, inr,
}
use hole_balancer.Dnsmsg.Header.{
  Header, Parsed, ok, err, parse_header, message_id, validate_response,
}
use hole_balancer.Dnsmsg.Message.{error_response}
use hole_balancer.Dnsmsg.Message.Reply.{error_response-answering}
use hole_balancer.Dnsclient.{received, Sent-cases, classify}
use hole_balancer.Dnsclient.Exchange.{Wire, Answer, given, failed, exchange, sent_of}
use hole_balancer.Dnsclient.Exchange.Answers.{exchange-validated}
use hole_balancer.Fallback.Resolver.{
  Resolver, Outcome, Exchanged, reply, answer, refused, panics, enabled, resolve, rcode_of,
}
use hole_balancer.Fallback.Resolver.{failed as failed_exchange}
use hole_balancer.Fallback.Resolver.Answers.{resolve-answer}
use hole_balancer.Pool.Plan.Total.{IsRandom}
use hole_balancer.Pool.Members.Sync.{IsSynced}
use hole_balancer.Metrics.{inc}
use hole_balancer.System.{System, label}
use hole_balancer.Proxy.Types.{World, Query, serv_fail}
use hole_balancer.Proxy.Attempts.Race.{race}
use hole_balancer.Proxy.Forward.{forward, resolve_query}
use hole_balancer.Proxy.Forward.Filed.{by_fallback, or_else, answer_of}
use hole_balancer.Proxy.Forward.Replies.{forward-Serves}

abbrev pub exchanged_of : Answer → Exchanged
exchanged_of (given resp) = reply resp
exchanged_of (failed e) = failed_exchange (classify (some e)) e.text

-- The world of a query whose exchanges meet the given networks.
abbrev pub networked :
    (ℕ → String) → (ℕ → String → Wire) → (ℕ → String → Wire) → String → List ℕ → World → World
networked show wires public_wires proto req w = record w {
  exchange = λ i addr. let x = exchange show (wires i addr) proto req in (x.1, sent_of x.0);
  fallback_exchange = λ i server. exchanged_of (exchange show (public_wires i server) proto req).0;
}

-- What ValidateResponse accepts for the query.
abbrev pub IsGenuine : List ℕ → List ℕ → Type 0
IsGenuine req m = validate_response m (message_id req) ≡ none

abbrev pub AreGenuine : List ℕ → Option (List ℕ) → Type 0
AreGenuine req none = Unit {0}
AreGenuine req (some m) = IsGenuine req m

or_else-AreGenuine :
    (req : List ℕ) (a b : Option (List ℕ))
    → AreGenuine req a
    → AreGenuine req b
    → AreGenuine req (or_else a b)
or_else-AreGenuine req (some m) b h k = h
or_else-AreGenuine req none b h k = k

module _ (w : World) (req : List ℕ)
    (checks : (i : ℕ) (addr : String) (m : List ℕ)
      → (w.exchange i addr).1 ≡ received m
      → IsGenuine req m)
    (public_checks : (i : ℕ) (addr : String) (m : List ℕ)
      → w.fallback_exchange i addr ≡ reply m
      → IsGenuine req m) where
  race-AreGenuine :
      (cfg : Query) (i : ℕ) (last : Option (List ℕ)) (addrs : List String)
      → AreGenuine req last
      → AreGenuine req (race w cfg i last addrs).0 × AreGenuine req (race w cfg i last addrs).1
  unfolding race
  race-AreGenuine cfg i last [] h = (tt, h)
  race-AreGenuine cfg i last (addr ∷ addrs) h = elim (Bool-cases (w.cancelled i)) [
    | inl c ↦ rw c (tt, h)
    | inr c ↦ elim (Sent-cases (w.exchange i addr).1) [
      | inl (reason, text, e) ↦ rw c (rw (e, race) (race-AreGenuine cfg (i + 1) last addrs h))
      | inr (m, e) ↦ elim (Bool-cases (cfg.should_retry (rcode_of m))) [
        | inl b ↦ rw c (
            rw (e, race)
              (rw (b, race) (race-AreGenuine cfg (i + 1) (some m) addrs (checks i addr m e))))
        | inr b ↦ rw c (rw (e, race) (rw (b, race) (checks i addr m e, h)))
      ]
    ]
  ]

  by_fallback-AreGenuine : (r : Resolver) → r.rr < 2 ^ 63 → AreGenuine req (by_fallback w r)
  by_fallback-AreGenuine r l = elim (Bool-cases (enabled r)) [
    | inr off ↦ rw off tt
    | inl on ↦ rw on (go (resolve r w.fallback_cancelled w.fallback_exchange).0 refl on)
  ]
    where
      go :
          (o : Outcome)
          → (resolve r w.fallback_cancelled w.fallback_exchange).0 ≡ o
          → enabled r ≡ true
          → AreGenuine req (answer_of o)
      go panics e on = tt
      go (refused x) e on = tt
      go (answer m by) e on =
          let (j, gave) = resolve-answer r w.fallback_cancelled w.fallback_exchange m by on l e in
          public_checks j by m gave

error_response-AreGenuine :
    (req : List ℕ) (hdr : Header)
    → parse_header req ≡ ok hdr
    → AreGenuine req (error_response req serv_fail)
error_response-AreGenuine req hdr p = go (error_response req serv_fail) refl
  where
    go : (o : Option (List ℕ)) → error_response req serv_fail ≡ o → AreGenuine req o
    go none e = tt
    go (some m) e = (error_response-answering req serv_fail m hdr p e).3

module _ (w : World) (cfg : Query) (req : List ℕ) (proto : String) (hdr : Header)
    (checks : (i : ℕ) (addr : String) (m : List ℕ)
      → (w.exchange i addr).1 ≡ received m
      → IsGenuine req m)
    (public_checks : (i : ℕ) (addr : String) (m : List ℕ)
      → w.fallback_exchange i addr ≡ reply m
      → IsGenuine req m)
    (fair : IsRandom w.draws) (long : parse_header req ≡ ok hdr) where
  forward-AreGenuine :
      (s : System)
      → IsSynced s.pool
      → s.pool.rr < 2 ^ 63
      → s.resolver.rr < 2 ^ 63
      → (t : System) × (o : Option (List ℕ)) × (forward w cfg s req proto ≡ some (t, o))
        × AreGenuine req o
  forward-AreGenuine s y l k =
      let (es, q, e, v) = forward-Serves w cfg s req proto y fair l k in
      let planned : System = record s { pool = q } in
      let raced = race-AreGenuine w req checks public_checks cfg 0 none _ tt in
      (
        v.system,
        _,
        v.returns,
        or_else-AreGenuine req _ _ raced.0 (
            or_else-AreGenuine req _ _
              (by_fallback-AreGenuine w req checks public_checks s.resolver k)
              (or_else-AreGenuine req _ _ raced.1 (error_response-AreGenuine req hdr long))),
      )

networked-checks :
    (show : ℕ → String) (wires public_wires : ℕ → String → Wire) (proto : String) (req : List ℕ)
    (w : World) (i : ℕ) (addr : String) (m : List ℕ)
    → ((networked show wires public_wires proto req w).exchange i addr).1 ≡ received m
    → IsGenuine req m
networked-checks show wires public_wires proto req w i addr m e =
    go (exchange show (wires i addr) proto req).0 refl e
  where
    go :
        (x : Answer)
        → (exchange show (wires i addr) proto req).0 ≡ x
        → sent_of x ≡ received m
        → IsGenuine req m
    go (failed f) q h = cc
    go (given n) q h = exchange-validated show (wires i addr) proto req m (q ∙ cc)

networked-public_checks :
    (show : ℕ → String) (wires public_wires : ℕ → String → Wire) (proto : String) (req : List ℕ)
    (w : World) (i : ℕ) (addr : String) (m : List ℕ)
    → (networked show wires public_wires proto req w).fallback_exchange i addr ≡ reply m
    → IsGenuine req m
networked-public_checks show wires public_wires proto req w i addr m e =
    go (exchange show (public_wires i addr) proto req).0 refl e
  where
    go :
        (x : Answer)
        → (exchange show (public_wires i addr) proto req).0 ≡ x
        → exchanged_of x ≡ reply m
        → IsGenuine req m
    go (failed f) q h = cc
    go (given n) q h = exchange-validated show (public_wires i addr) proto req m (q ∙ cc)

-- With a pool in step, fair draws and both round-robin counters below 2 ^ 63, and whatever the
-- networks to the endpoints and to the public resolvers do: Resolve returns, and a reply that it
-- gives has a readable header, the identifier of the query and QR set.
pub resolve_query-AreGenuine :
    (show : ℕ → String) (wires public_wires : ℕ → String → Wire) (w : World) (cfg : Query)
    (s : System) (req : List ℕ) (proto : String)
    → IsSynced s.pool
    → IsRandom w.draws
    → s.pool.rr < 2 ^ 63
    → s.resolver.rr < 2 ^ 63
    → let world = networked show wires public_wires proto req w in
      (t : System) × (o : Option (List ℕ)) × (resolve_query world cfg s req proto ≡ some (t, o))
      × AreGenuine req o
unfolding resolve_query
resolve_query-AreGenuine show wires public_wires w cfg s req proto y fair l k =
    go (parse_header req) refl
  where
    world : World
    world = networked show wires public_wires proto req w

    go :
        (x : Parsed Header)
        → parse_header req ≡ x
        → (t : System) × (o : Option (List ℕ)) × (resolve_query world cfg s req proto ≡ some (t, o))
          × AreGenuine req o
    go (err e) p = rw (p, resolve_query) (_, none, refl, tt)
    go (ok hdr) p = elim (Bool-cases hdr.qr) [
      | inl r ↦ rw (p, resolve_query) (rw r (_, none, refl, tt))
      | inr q ↦
          let m = s.metrics in
          let counted : System = record s {
            metrics = record m { queries = inc (label "proto" proto ∷ []) m.queries };
          } in
          let (t, o, e, g) =
            forward-AreGenuine world cfg req proto hdr
              (networked-checks show wires public_wires proto req w)
              (networked-public_checks show wires public_wires proto req w) fair p counted y l k in
          rw (p, resolve_query) (rw q (rw (e, resolve_query) (_, o, refl, g)))
    ]
