-- ===== src/Proxy/Listen/Balance.antt =====
-- internal/proxy/listen.go, serveTCPConn: the slots in use when a round and a connection end.
use hole_balancer.Base.{
  ℕ, ◌+◌, ◌≡◌, refl, sym, ◌∙◌, subst, Bool, true, false, List, [], ◌∷◌, Option, none, some, arith,
  Bool-cases, inl, inr, if◌then◌else◌,
}
use hole_balancer.Dnsclient.{Failure}
use hole_balancer.Dnsclient.Framing.{write_message}
use hole_balancer.Dnsclient.Framing.Frames.{AreBytes, reader}
use hole_balancer.System.{System}
use hole_balancer.Proxy.Types.{Query}
use hole_balancer.Proxy.Slots.{Slots, acquire, acquire-used, release-used}
use hole_balancer.Proxy.Forward.{resolve_query, overloaded}
use hole_balancer.Proxy.Listen.{
  Server, Round, Turn, goes_on, closes, dies, written, shed, resolved, freed, taken, answer_one,
  ConnEnd, closed, panics, out_of_fuel, serve_tcp_conn,
}
use hole_balancer.Proxy.Listen.Conversation.{
  Conversation, ended, died, after_reply, answer_all, bytes_of, serve_tcp_conn-answers,
}

-- The other goroutines give back the slots that they take.
abbrev pub IsNeutral : Round → Type 0
IsNeutral e =
    ((srv : Server) → (e.before srv).slots.used ≡ srv.slots.used)
    × ((srv : Server) → (e.during srv).slots.used ≡ srv.slots.used)

abbrev TurnLeaves : ℕ → Turn → Type 0
TurnLeaves n (goes_on after resp bytes) = after.slots.used ≡ n
TurnLeaves n (closes after) = after.slots.used ≡ n
TurnLeaves n dies = Unit

abbrev ConversationLeaves : ℕ → Conversation → Type 0
ConversationLeaves n (ended after replies) = after.slots.used ≡ n
ConversationLeaves n died = Unit

-- An end with so many slots in use; a panic ends the process.
abbrev pub EndLeaves : ℕ → ConnEnd → Type 0
EndLeaves n (closed after bytes) = after.slots.used ≡ n
EndLeaves n panics = Unit
EndLeaves n out_of_fuel = ⊥

written-TurnLeaves :
    (n : ℕ) (srv : Server) (resp : List ℕ) (p : List ℕ × Option Failure)
    → srv.slots.used ≡ n
    → TurnLeaves n (written srv resp p)
written-TurnLeaves n srv resp (bytes, none) h = h
written-TurnLeaves n srv resp (bytes, some e) h = h

shed-TurnLeaves :
    (n : ℕ) (e : Round) (held : Slots) (x : System × Option (List ℕ))
    → held.used ≡ n
    → TurnLeaves n (shed e held x)
shed-TurnLeaves n e held (t, none) h = h
shed-TurnLeaves n e held (t, some resp) h = written-TurnLeaves n _ resp _ h

resolved-TurnLeaves :
    (n : ℕ) (e : Round) (held : Slots) (x : Option (System × Option (List ℕ)))
    → IsNeutral e
    → held.used ≡ n + 1
    → TurnLeaves n (resolved e held x)
resolved-TurnLeaves n e held none k h = tt
resolved-TurnLeaves n e held (some (t, o)) k h =
    go o (release-used (e.during (record { system = t; slots = held })).slots n (k.1 _ ∙ h))
  where
    go :
        (o : Option (List ℕ))
        → (freed e t held).slots.used ≡ n
        → TurnLeaves n (resolved e held (some (t, o)))
    go none h = h
    go (some resp) h = elim (Bool-cases e.write_deadline) [
      | inl d ↦ rw d (written-TurnLeaves n (freed e t held) resp (write_message e.wrote resp) h)
      | inr d ↦ rw d h
    ]

answer_one-TurnLeaves :
    (cfg : Query) (e : Round) (srv : Server) (req : List ℕ)
    → IsNeutral e
    → TurnLeaves srv.slots.used (answer_one cfg e srv req)
unfolding answer_one
answer_one-TurnLeaves cfg e srv req k =
    let now = e.before srv in
    subst (λ n. TurnLeaves n (answer_one cfg e srv req)) (k.0 srv)
      (go now (acquire now.slots) (acquire-used now.slots))
  where
    go :
        (now : Server) (slot : Slots × Bool)
        → slot.0.used ≡ now.slots.used + (if slot.1 then 1 else 0)
        → TurnLeaves now.slots.used (taken cfg e now.system req slot)
    go now (held, false) h =
        shed-TurnLeaves now.slots.used e held (overloaded now.system req) (omega (arith, h))
    go now (held, true) h =
        resolved-TurnLeaves now.slots.used e held (resolve_query e.world cfg now.system req "tcp") k
          (omega (arith, h))

after_reply-ConversationLeaves :
    (n : ℕ) (resp : List ℕ) (c : Conversation)
    → ConversationLeaves n c
    → ConversationLeaves n (after_reply resp c)
after_reply-ConversationLeaves n resp (ended srv later) h = h
after_reply-ConversationLeaves n resp died h = tt

answer_all-ConversationLeaves :
    (cfg : Query) (env : ℕ → Round) (i : ℕ) (msgs : List (List ℕ)) (srv : Server)
    → ((i : ℕ) → IsNeutral (env i))
    → ConversationLeaves srv.slots.used (answer_all cfg env i msgs srv)
unfolding answer_all
answer_all-ConversationLeaves cfg env i [] srv k = refl
answer_all-ConversationLeaves cfg env i (msg ∷ msgs) srv k =
    elim (Bool-cases (env i).read_deadline) [
      | inr d ↦ rw (d, answer_all) refl
      | inl d ↦
          rw (d, answer_all)
            (go (answer_one cfg (env i) srv msg) (answer_one-TurnLeaves cfg (env i) srv msg (k i))
              (λ after. answer_all-ConversationLeaves cfg env (i + 1) msgs after k))
    ]
  where
    go :
        (t : Turn)
        → TurnLeaves srv.slots.used t
        → ((after : Server)
            → ConversationLeaves after.slots.used (answer_all cfg env (i + 1) msgs after))
        → ConversationLeaves srv.slots.used (elim t [
          | dies ↦ died
          | closes after ↦ ended after []
          | goes_on after resp bytes ↦ after_reply resp (answer_all cfg env (i + 1) msgs after)
        ])
    go dies h later = tt
    go (closes after) h later = h
    go (goes_on after resp bytes) h later =
        after_reply-ConversationLeaves _ resp _ (
          subst (λ n. ConversationLeaves n (answer_all cfg env (i + 1) msgs after)) h (later after))

-- When the other goroutines give back the slots that they take: after serveTCPConn, however it
-- ends but for a panic, as many slots are in use as before it, and it always ends.
pub serve_tcp_conn-EndLeaves :
    (cfg : Query) (env : ℕ → Round) (bytes : List ℕ) (fault : Option Failure) (srv : Server)
    → AreBytes bytes
    → ((i : ℕ) → IsNeutral (env i))
    → EndLeaves srv.slots.used (serve_tcp_conn cfg env (reader bytes fault) srv)
serve_tcp_conn-EndLeaves cfg env bytes fault srv h k =
    let (s, e) = serve_tcp_conn-answers cfg env bytes fault srv h in
    subst (EndLeaves srv.slots.used) (sym e) (
      go (answer_all cfg env 0 s.messages srv)
        (answer_all-ConversationLeaves cfg env 0 s.messages srv k))
  where
    go :
        (c : Conversation)
        → ConversationLeaves srv.slots.used c
        → EndLeaves srv.slots.used (bytes_of c)
    go (ended after replies) h = h
    go died h = tt
