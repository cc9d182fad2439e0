-- ===== src/Fallback/Resolver/Rounds.antt =====
-- The loop of Resolve, round by round.
use hole_balancer.Base.{
  ℕ, ◌+◌, ◌≡◌, refl, ◌⊎◌, inl, inr, ◌∙◌, String, Bool, true, false, not, ◌&&◌, ◌||◌, List, [], ◌∷◌,
  ◌++◌, map, Option, some, take, drop, arith, zero, suc, Bool-cases, str_eq, eq_iff, ap, subst, sym,
}
use hole_balancer.Config.Types.{contains}
use hole_balancer.Fallback.Resolver.{
  Exchanged, reply, failed, Error, Outcome, answer, refused, cancelled, Note, rcode_of, retries,
  is_last, try_servers, exchange_error, retry_code,
}

pub contains-append :
    (xs ys : List String) (s : String) → contains (xs ++ ys) s ≡ (contains xs s || contains ys s)
contains-append [] ys s = refl
contains-append (x ∷ xs) ys s = ground (arith, contains-append xs ys s)

pub contains-rotation :
    (k : ℕ) (xs : List String) (s : String)
    → contains xs s ≡ true
    → contains (drop k xs ++ take k xs) s ≡ true
contains-rotation k xs s h = ground (arith, contains-append (drop k xs) (take k xs) s, parts k xs)
  where
    parts :
        (k : ℕ) (xs : List String)
        → (contains (take k xs) s || contains (drop k xs) s) ≡ contains xs s
    parts zero xs = refl
    parts (suc k) [] = refl
    parts (suc k) (x ∷ xs) = ground (arith, parts k xs)

-- No panic.
abbrev pub IsSafe : Outcome → Type 0
IsSafe o =
    ((resp : List ℕ) × (server : String) × (o ≡ answer resp server))
    ⊎ ((e : Error) × (o ≡ refused e))

module _ (retry : Option (ℕ → Bool)) (is_cancelled : ℕ → Bool)
    (exchange : ℕ → String → Exchanged) where
  -- A server that always gives a message whose code is not one to retry.
  abbrev pub IsGood : String → Type 0
  IsGood good =
      (i : ℕ)
      → (resp : List ℕ) × (exchange i good ≡ reply resp) × (retries retry (rcode_of resp) ≡ false)

  -- An answer is a message that the exchange with its server gave in some round.
  abbrev pub IsGiven : Outcome → Type 0
  IsGiven o =
      (i : ℕ) × (resp : List ℕ) × (server : String) × (o ≡ answer resp server)
      × (exchange i server ≡ reply resp)

  abbrev pub tried : ℕ → Option Error → List String → Outcome × List Note
  tried = try_servers retry is_cancelled exchange

  abbrev noted : String → Exchanged → Outcome × List Note → Outcome × List Note
  noted server gave later =
      (later.0, record { server = server; gave = gave; used = false } ∷ later.1)

  failed-apart : {reason text : String} {resp : List ℕ} → ¬ (failed reason text ≡ reply resp)
  failed-apart e = cc

  retried-apart :
      {i : ℕ} {server : String} (b : Bool) (resp : List ℕ)
      → exchange i server ≡ reply resp
      → (retries retry (rcode_of resp) && b) ≡ true
      → ¬ ((r : List ℕ) × (exchange i server ≡ reply r) × (retries retry (rcode_of r) ≡ false))
  retried-apart b resp e again g =
      let same : resp ≡ g.0 = cc in
      let f : retries retry (rcode_of resp) ≡ false =
        ap (λ r. retries retry (rcode_of r)) same ∙ g.2 in
      ground (arith, f, again)

  -- What one round does.
  abbrev Round : ℕ → Option Error → String → List String → Type 0
  Round i last server rest =
      ((e : Error) × (tried i last (server ∷ rest)
          ≡ noted server (exchange i server) (tried (i + 1) (some e) rest))
        × (¬ IsGood server))
      ⊎ ((resp : List ℕ) × (exchange i server ≡ reply resp)
          × (tried i last (server ∷ rest) ≡ (
            answer resp server,
            record { server = server; gave = reply resp; used = true } ∷ [],
          )))

  try_servers-Round :
      (i : ℕ) (last : Option Error) (server : String) (rest : List String)
      → is_cancelled i ≡ false
      → Round i last server rest
  unfolding try_servers
  try_servers-Round i last server rest c = go (exchange i server) refl
    where
      go : (x : Exchanged) → exchange i server ≡ x → Round i last server rest
      go (failed reason text) e = inl (
        exchange_error text,
        rw c (rw (e, try_servers) refl),
        λ g. failed-apart (sym e ∙ (g i).1),
      )
      go (reply resp) e = elim (Bool-cases (retries retry (rcode_of resp) && not (is_last rest))) [
        | inl again ↦ inl (
          retry_code server (rcode_of resp),
          rw c (rw (e, try_servers) (rw again refl)),
          λ g. retried-apart (not (is_last rest)) resp e again (g i),
        )
        | inr used ↦ inr (resp, e, rw c (rw (e, try_servers) (rw used refl)))
      ]

  pub try_servers-IsGiven :
      (i : ℕ) (last : Option Error) (servers : List String) (good : String)
      → ((i : ℕ) → is_cancelled i ≡ false)
      → IsGood good
      → contains servers good ≡ true
      → IsGiven (tried i last servers).0
  try_servers-IsGiven i last [] good c g h = cc
  try_servers-IsGiven i last (server ∷ rest) good c g h =
      elim (try_servers-Round i last server rest (c i)) [
        | inl (e, again, bad) ↦
            let here : contains rest good ≡ true = elim (Bool-cases (str_eq server good)) [
              | inl q ↦ absurd (bad (subst IsGood (sym ((eq_iff server good).0 q)) g))
              | inr n ↦ ground (arith, h, n)
            ] in
            let later = try_servers-IsGiven (i + 1) (some e) rest good c g here in
            subst IsGiven (sym (ap (λ r. r.0) again)) later
        | inr (resp, given, used) ↦ (i, resp, server, ap (λ r. r.0) used, given)
      ]

  -- The loop ends in an answer or in an error.
  pub try_servers-IsSafe :
      (i : ℕ) (last : Option Error) (servers : List String) → IsSafe (tried i last servers).0
  unfolding try_servers
  try_servers-IsSafe i last [] = inr (_, refl)
  try_servers-IsSafe i last (server ∷ rest) = elim (Bool-cases (is_cancelled i)) [
    | inl stopped ↦ inr (cancelled, rw stopped refl)
    | inr c ↦ elim (try_servers-Round i last server rest c) [
      | inl (e, again, bad) ↦
          subst IsSafe (sym (ap (λ r. r.0) again)) (try_servers-IsSafe (i + 1) (some e) rest)
      | inr (resp, given, used) ↦ inl (resp, server, ap (λ r. r.0) used)
    ]
  ]

  -- An answer is a message that an exchange with its server gave.
  pub try_servers-answer :
      (i : ℕ) (last : Option Error) (servers : List String) (resp : List ℕ) (by : String)
      → (tried i last servers).0 ≡ answer resp by
      → (j : ℕ) × (exchange j by ≡ reply resp)
  unfolding try_servers
  try_servers-answer i last [] resp by h = cc
  try_servers-answer i last (server ∷ rest) resp by h = elim (Bool-cases (is_cancelled i)) [
    | inl stopped ↦ let f = rw stopped at h in cc
    | inr c ↦ elim (try_servers-Round i last server rest c) [
      | inl (e, again, bad) ↦
          try_servers-answer (i + 1) (some e) rest resp by (sym (ap (λ r. r.0) again) ∙ h)
      | inr (m, given, used) ↦
          let same : answer m server ≡ answer resp by = sym (ap (λ r. r.0) used) ∙ h in (i, cc)
    ]
  ]

  -- The servers that are asked are the first ones of the order, and only the last of them can have
  -- been used.
  pub try_servers-prefix :
      (i : ℕ) (last : Option Error) (servers : List String)
      → (untried : List String) × (servers
          ≡ map (λ n. n.server) (tried i last servers).1 ++ untried)
  unfolding try_servers
  try_servers-prefix i last [] = ([], refl)
  try_servers-prefix i last (server ∷ rest) = elim (Bool-cases (is_cancelled i)) [
    | inl stopped ↦ (server ∷ rest, rw stopped refl)
    | inr c ↦ elim (try_servers-Round i last server rest c) [
      | inl (e, again, bad) ↦
          let later = try_servers-prefix (i + 1) (some e) rest in
          (later.0, rw again (ap (λ l. server ∷ l) later.1))
      | inr (resp, given, used) ↦ (rest, rw used refl)
    ]
  ]
