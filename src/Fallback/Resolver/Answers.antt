-- ===== src/Fallback/Resolver/Answers.antt =====
-- Which servers Resolve asks, and when it answers.
use hole_balancer.Base.{
  ℕ, ◌<◌, ◌%◌, ◌^◌, ◌≡◌, refl, String, Bool, true, false, List, [], ◌∷◌, ◌++◌, map, none, length,
  take, drop, arith, ◌==◌, subst, sym, ap, ◌∙◌,
}
use hole_balancer.Config.Types.{contains}
use hole_balancer.Pool.Plan.{next_rr}
use hole_balancer.Pool.Plan.Order.{rotation_start-lt, rotate_from-eq}
use hole_balancer.Fallback.Resolver.{
  Resolver, Exchanged, reply, answer, enabled, try_servers, resolve,
}
use hole_balancer.Fallback.Resolver.Rounds.{
  IsSafe, IsGood, IsGiven, contains-rotation, try_servers-IsGiven, try_servers-IsSafe,
  try_servers-prefix, try_servers-answer,
}

contains-length : (xs : List String) (s : String) → contains xs s ≡ true → 0 < length xs
contains-length [] s h = cc
contains-length (x ∷ xs) s h = omega arith

-- Resolve is the loop over the rotated list.
resolve-rotated :
    (r : Resolver) (is_cancelled : ℕ → Bool) (exchange : ℕ → String → Exchanged)
    → 0 < length r.servers
    → r.rr < 2 ^ 63
    → let s = r.rr % length r.servers in
      let tried =
        try_servers r.retry is_cancelled exchange 0 none (drop s r.servers ++ take s r.servers) in
      resolve r is_cancelled exchange ≡ (tried.0, tried.1, record r { rr = next_rr r.rr })
unfolding resolve enabled
resolve-rotated r is_cancelled exchange n l =
    let start = rotation_start-lt r.rr (length r.servers) n l in
    let some_server : (length r.servers == 0) ≡ false = ground arith in
    rw some_server (
      rw (start.0, resolve)
        (rw (rotate_from-eq r.servers (r.rr % length r.servers) start.1, resolve) refl))

-- Below 2 ^ 63 calls, Resolve does not panic.
pub resolve-IsSafe :
    (r : Resolver) (is_cancelled : ℕ → Bool) (exchange : ℕ → String → Exchanged)
    → enabled r ≡ true
    → r.rr < 2 ^ 63
    → IsSafe (resolve r is_cancelled exchange).0
unfolding enabled
resolve-IsSafe r is_cancelled exchange on l =
    subst (λ o. IsSafe o.0) (sym (resolve-rotated r is_cancelled exchange (ground (arith, on)) l))
      (try_servers-IsSafe r.retry is_cancelled exchange 0 none
        (drop (r.rr % length r.servers) r.servers ++ take (r.rr % length r.servers) r.servers))

-- Below 2 ^ 63 calls, an answer is a message that an exchange with its server gave.
pub resolve-answer :
    (r : Resolver) (is_cancelled : ℕ → Bool) (exchange : ℕ → String → Exchanged) (resp : List ℕ)
    (by : String)
    → enabled r ≡ true
    → r.rr < 2 ^ 63
    → (resolve r is_cancelled exchange).0 ≡ answer resp by
    → (j : ℕ) × (exchange j by ≡ reply resp)
unfolding enabled
resolve-answer r is_cancelled exchange resp by on l h =
    try_servers-answer r.retry is_cancelled exchange 0 none
      (drop (r.rr % length r.servers) r.servers ++ take (r.rr % length r.servers) r.servers) resp by
      (sym (ap (λ o. o.0) (resolve-rotated r is_cancelled exchange (ground (arith, on)) l)) ∙ h)

-- With a counter below 2 ^ 63, no cancellation and a configured server that always gives a message
-- whose code is not retried, Resolve answers with a message that some server gave.
pub resolve-IsGiven :
    (r : Resolver) (is_cancelled : ℕ → Bool) (exchange : ℕ → String → Exchanged) (good : String)
    → r.rr < 2 ^ 63
    → ((i : ℕ) → is_cancelled i ≡ false)
    → contains r.servers good ≡ true
    → IsGood r.retry is_cancelled exchange good
    → IsGiven r.retry is_cancelled exchange (resolve r is_cancelled exchange).0
resolve-IsGiven r is_cancelled exchange good l c h g =
    let some_server : 0 < length r.servers = contains-length r.servers good h in
    subst (λ o. IsGiven r.retry is_cancelled exchange o.0)
      (sym (resolve-rotated r is_cancelled exchange some_server l))
      (try_servers-IsGiven r.retry is_cancelled exchange 0 none _ good c g
        (contains-rotation (r.rr % length r.servers) r.servers good h))

-- With a counter below 2 ^ 63 and a server configured, Resolve moves the counter on by one and asks
-- servers in the configured order from the one that the counter points at, modulo their number,
-- and around: each place of the list at most once, and none is passed over.
pub resolve-rotation :
    (r : Resolver) (is_cancelled : ℕ → Bool) (exchange : ℕ → String → Exchanged)
    → 0 < length r.servers
    → r.rr < 2 ^ 63
    → let s = r.rr % length r.servers in
      let result = resolve r is_cancelled exchange in
      (result.2 ≡ record r { rr = next_rr r.rr })
      × ((untried : List String) × (drop s r.servers ++ take s r.servers
            ≡ map (λ n. n.server) result.1 ++ untried))
resolve-rotation r is_cancelled exchange n l =
    let s = r.rr % length r.servers in
    let e = resolve-rotated r is_cancelled exchange n l in
    let asked =
      try_servers-prefix r.retry is_cancelled exchange 0 none
        (drop s r.servers ++ take s r.servers) in
    rw e (refl, asked)
