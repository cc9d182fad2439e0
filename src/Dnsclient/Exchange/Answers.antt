-- ===== src/Dnsclient/Exchange/Answers.antt =====
-- Which messages Exchange returns.
use hole_balancer.Base.{
  ℕ, ◌≡◌, ◌↔◌, refl, sym, ◌∙◌, ap, subst, String, Bool, true, false, ◌&&◌, List, [], ◌∷◌, ◌++◌,
  Option, none, some, leb, ◌==◌, length, All, arith, Bool-cases, Option-cases, inl, inr,
}
use hole_balancer.Dnsmsg.Header.{header_len, message_id, validate_response}
use hole_balancer.Dnsclient.{Failure}
use hole_balancer.Dnsclient.Exchange.{
  Wire, Answer, given, failed, await_reply, exchange_udp, checked, exchange, connected,
}

-- A datagram that is long enough for a header and carries the identifier.
abbrev pub has_id : ℕ → List ℕ → Bool
has_id id d = leb header_len (length d) && (message_id d == id)

-- The first such datagram.
pub record IsFirst (id : ℕ) (datagrams : List (List ℕ)) (resp : List ℕ) : Type 0 where
  pub skipped : List (List ℕ)
  pub rest : List (List ℕ)
  pub places : datagrams ≡ skipped ++ resp ∷ rest
  pub strays : All (λ d. has_id id d ≡ false) skipped
  pub carries : has_id id resp ≡ true

module _ (id : ℕ) (fault : Failure) where
  await_reply-skips :
      (d : List ℕ) (ds : List (List ℕ))
      → has_id id d ≡ false
      → await_reply id fault (d ∷ ds) ≡ await_reply id fault ds
  unfolding await_reply
  await_reply-skips d ds h = ground arith

  await_reply-stops :
      (d : List ℕ) (ds : List (List ℕ))
      → has_id id d ≡ true
      → await_reply id fault (d ∷ ds) ≡ given d
  unfolding await_reply
  await_reply-stops d ds h = ground arith

  await_reply-past :
      (skipped : List (List ℕ)) (resp : List ℕ) (rest : List (List ℕ))
      → All (λ d. has_id id d ≡ false) skipped
      → has_id id resp ≡ true
      → await_reply id fault (skipped ++ resp ∷ rest) ≡ given resp
  await_reply-past [] resp rest h k = await_reply-stops resp rest k
  await_reply-past (d ∷ ds) resp rest h k =
      await_reply-skips d (ds ++ resp ∷ rest) h.0 ∙ await_reply-past ds resp rest h.1 k

  await_reply-IsFirst :
      (ds : List (List ℕ)) (resp : List ℕ)
      → await_reply id fault ds ≡ given resp
      → IsFirst id ds resp
  unfolding await_reply
  await_reply-IsFirst [] resp e = cc
  await_reply-IsFirst (d ∷ ds) resp e = elim (Bool-cases (has_id id d)) [
    | inl h ↦
        let stopped = await_reply-stops d ds h in
        let same : d ≡ resp = cc in
        record {
          skipped = [];
          rest = ds;
          places = ap (λ x. x ∷ ds) same;
          strays = tt;
          carries = subst (λ x. has_id id x ≡ true) same h;
        }
    | inr h ↦
        let later = await_reply-IsFirst ds resp (sym (await_reply-skips d ds h) ∙ e) in
        record {
          skipped = d ∷ later.skipped;
          rest = later.rest;
          places = ap (λ xs. d ∷ xs) later.places;
          strays = (h, later.strays);
          carries = later.carries;
        }
  ]

checked-given :
    (show : ℕ → String) (ctx_err : Option Failure) (query resp : List ℕ) (x : Answer)
    → checked show ctx_err query x ≡ given resp
    → (x ≡ given resp) × (validate_response resp (message_id query) ≡ none)
checked-given show none query resp (failed e) h = cc
checked-given show (some c) query resp (failed e) h = cc
checked-given show ctx_err query resp (given m) h =
    elim (Option-cases (validate_response m (message_id query))) [
      | inl v ↦
          let g = rw (v, checked) at h in
          let same : m ≡ resp = cc in
          (ap given same, subst (λ x. validate_response x (message_id query) ≡ none) same v)
      | inr (e, v) ↦ let g = rw (v, checked) at h in cc
    ]

connected-given :
    (dial set_deadline : Option Failure) (later : Answer) (resp : List ℕ)
    → connected dial set_deadline later ≡ given resp
    → (later ≡ given resp) × (dial ≡ none) × (set_deadline ≡ none)
connected-given (some e) set_deadline later resp h = cc
connected-given none (some e) later resp h = cc
connected-given none none later resp h = (h, refl, refl)

-- Whatever the network does, a message that Exchange returns has a readable header, the identifier
-- of the query and QR set.
pub exchange-validated :
    (show : ℕ → String) (w : Wire) (proto : String) (query resp : List ℕ)
    → (exchange show w proto query).0 ≡ given resp
    → validate_response resp (message_id query) ≡ none
unfolding exchange
exchange-validated show w proto query resp e =
    (checked-given show w.ctx_err query resp _ (connected-given w.dial w.set_deadline _ resp e).0).1

exchange_udp-given :
    (w : Wire) (query resp : List ℕ)
    → exchange_udp w query ≡ given resp
    → (w.wrote ≡ none) × IsFirst (message_id query) w.datagrams resp
unfolding exchange_udp
exchange_udp-given w query resp e = elim (Option-cases w.wrote) [
  | inl o ↦
      let f = rw (o, exchange_udp) at e in
      (o, await_reply-IsFirst (message_id query) w.read_fault w.datagrams resp f)
  | inr (x, o) ↦ let f = rw (o, exchange_udp) at e in cc
]

exchange_udp-first :
    (w : Wire) (query resp : List ℕ)
    → w.wrote ≡ none
    → IsFirst (message_id query) w.datagrams resp
    → exchange_udp w query ≡ given resp
unfolding exchange_udp
exchange_udp-first w query resp o h =
    rw (o, exchange_udp)
      (ap (await_reply (message_id query) w.read_fault) h.places
        ∙ await_reply-past (message_id query) w.read_fault h.skipped resp h.rest h.strays h.carries)

connected-none :
    (dial set_deadline : Option Failure) (later : Answer)
    → dial ≡ none
    → set_deadline ≡ none
    → connected dial set_deadline later ≡ later
connected-none none none later d s = refl
connected-none (some e) set_deadline later d s = cc
connected-none none (some e) later d s = cc

checked-valid :
    (show : ℕ → String) (ctx_err : Option Failure) (query resp : List ℕ)
    → validate_response resp (message_id query) ≡ none
    → checked show ctx_err query (given resp) ≡ given resp
checked-valid show ctx_err query resp v = rw (v, checked) refl

-- Over UDP, Exchange returns a message exactly when the dial, SetDeadline and Write succeed, the
-- message is the first of the arriving datagrams that is long enough for a header and carries the
-- identifier of the query, and ValidateResponse accepts it.
pub exchange-udp :
    (show : ℕ → String) (w : Wire) (query resp : List ℕ)
    → ((exchange show w "udp" query).0 ≡ given resp) ↔ (
        (w.dial ≡ none)
        × (w.set_deadline ≡ none)
        × (w.wrote ≡ none)
        × IsFirst (message_id query) w.datagrams resp
        × (validate_response resp (message_id query) ≡ none))
unfolding exchange
exchange-udp show w query resp = (there, back)
  where
    there :
        (exchange show w "udp" query).0 ≡ given resp
        → (w.dial ≡ none)
          × (w.set_deadline ≡ none)
          × (w.wrote ≡ none)
          × IsFirst (message_id query) w.datagrams resp
          × (validate_response resp (message_id query) ≡ none)
    there e =
        let (x, d, s) = connected-given w.dial w.set_deadline _ resp e in
        let (y, v) = checked-given show w.ctx_err query resp _ x in
        let (o, first) = exchange_udp-given w query resp y in (d, s, o, first, v)

    back :
        (w.dial ≡ none)
          × (w.set_deadline ≡ none)
          × (w.wrote ≡ none)
          × IsFirst (message_id query) w.datagrams resp
          × (validate_response resp (message_id query) ≡ none)
        → (exchange show w "udp" query).0 ≡ given resp
    back (d, s, o, first, v) =
        connected-none w.dial w.set_deadline _ d s
        ∙ ap (checked show w.ctx_err query) (exchange_udp-first w query resp o first)
        ∙ checked-valid show w.ctx_err query resp v
