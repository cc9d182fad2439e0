-- ===== src/Proxy/Listen/Conversation.antt =====
-- serveTCPConn as a conversation: messages in, messages out.
use hole_balancer.Base.{
  ℕ, suc, zero, ◌+◌, ◌<◌, ◌≡◌, refl, sym, ◌∙◌, ap, Bool, true, false, List, [], ◌∷◌, ◌++◌, Option,
  none, some, length, All, flat_map, arith, Bool-cases, inl, inr, append_assoc, length-append,
}
use hole_balancer.Dnsclient.{Failure}
use hole_balancer.Dnsclient.Framing.{Reader, read_message, write_message, framed, got, not_read}
use hole_balancer.Dnsclient.Framing.Frames.{
  write_message-none, IsFrame, AreBytes, Split, split, reader, read_message-framed,
}
use hole_balancer.System.{System}
use hole_balancer.Proxy.Types.{Query}
use hole_balancer.Proxy.Slots.{Slots, acquire}
use hole_balancer.Proxy.Forward.{resolve_query, overloaded}
use hole_balancer.Proxy.Listen.{
  Server, Round, Turn, goes_on, closes, dies, written, shed, resolved, taken, answer_one, ConnEnd,
  closed, panics, after_bytes, serve_conn, serve_tcp_conn,
}

-- How a conversation ends, and the replies in order.
pub data Conversation : Type 0 where
  ended : Server → List (List ℕ) → Conversation
  died : Conversation

abbrev pub after_reply : List ℕ → Conversation → Conversation
after_reply resp (ended srv later) = ended srv (resp ∷ later)
after_reply resp died = died

-- The messages of a connection, answered one after the other from round `i`, until one is not
-- answered or the connection fails.
unfoldable pub answer_all : Query → (ℕ → Round) → ℕ → List (List ℕ) → Server → Conversation
answer_all cfg env i [] srv = ended srv []
answer_all cfg env i (req ∷ reqs) srv = elim ((env i).read_deadline) [
  | false ↦ ended srv []
  | true ↦ elim (answer_one cfg (env i) srv req) [
    | dies ↦ died
    | closes after ↦ ended after []
    | goes_on after resp bytes ↦ after_reply resp (answer_all cfg env (i + 1) reqs after)
  ]
]

-- A conversation on the wire.
abbrev pub bytes_of : Conversation → ConnEnd
bytes_of (ended srv replies) = closed srv (flat_map framed replies)
bytes_of died = panics

bytes_of-after_reply :
    (resp : List ℕ) (c : Conversation)
    → bytes_of (after_reply resp c) ≡ after_bytes (framed resp) (bytes_of c)
bytes_of-after_reply resp (ended srv later) = refl
bytes_of-after_reply resp died = refl

written-goes_on :
    (srv after : Server) (resp m bytes : List ℕ) (p : List ℕ × Option Failure)
    → written srv resp p ≡ goes_on after m bytes
    → (p ≡ (bytes, none)) × (resp ≡ m)
written-goes_on srv after resp m bytes (xs, none) h = (cc, cc)
written-goes_on srv after resp m bytes (xs, some e) h = cc

written-framed :
    (wrote : Option Failure) (srv after : Server) (resp m bytes : List ℕ)
    → written srv resp (write_message wrote resp) ≡ goes_on after m bytes
    → bytes ≡ framed m
written-framed wrote srv after resp m bytes h =
    let (p, same) = written-goes_on srv after resp m bytes (write_message wrote resp) h in
    write_message-none wrote resp bytes p ∙ ap framed same

taken-framed :
    (cfg : Query) (e : Round) (s : System) (req : List ℕ) (slot : Slots × Bool) (after : Server)
    (resp bytes : List ℕ)
    → taken cfg e s req slot ≡ goes_on after resp bytes
    → bytes ≡ framed resp
taken-framed cfg e s req (held, false) after resp bytes h = go (overloaded s req) h
  where
    go :
        (x : System × Option (List ℕ))
        → shed e held x ≡ goes_on after resp bytes
        → bytes ≡ framed resp
    go (t, none) h = cc
    go (t, some m) h = written-framed e.wrote _ after m resp bytes h
taken-framed cfg e s req (held, true) after resp bytes h =
    go (resolve_query e.world cfg s req "tcp") h
  where
    go :
        (x : Option (System × Option (List ℕ)))
        → resolved e held x ≡ goes_on after resp bytes
        → bytes ≡ framed resp
    go none h = cc
    go (some (t, none)) h = cc
    go (some (t, some m)) h = elim (Bool-cases e.write_deadline) [
      | inl d ↦ let f = rw d at h in written-framed e.wrote _ after m resp bytes f
      | inr d ↦ let f = rw d at h in cc
    ]

answer_one-framed :
    (cfg : Query) (e : Round) (srv : Server) (req : List ℕ) (after : Server) (resp bytes : List ℕ)
    → answer_one cfg e srv req ≡ goes_on after resp bytes
    → bytes ≡ framed resp
unfolding answer_one
answer_one-framed cfg e srv req after resp bytes h =
    let now = e.before srv in
    taken-framed cfg e now.system req (acquire now.slots) after resp bytes h

module _ (cfg : Query) (env : ℕ → Round) where
  -- A round of the loop, when the rounds after it agree.
  serve_conn-round :
      (fuel i : ℕ) (r left : Reader) (msg : List ℕ) (msgs : List (List ℕ)) (srv : Server)
      → read_message r ≡ got msg left
      → ((after : Server)
          → serve_conn cfg env fuel (i + 1) left after
            ≡ bytes_of (answer_all cfg env (i + 1) msgs after))
      → serve_conn cfg env (suc fuel) i r srv ≡ bytes_of (answer_all cfg env i (msg ∷ msgs) srv)
  unfolding serve_conn answer_all
  serve_conn-round fuel i r left msg msgs srv x later = elim (Bool-cases (env i).read_deadline) [
    | inr d ↦ rw (d, serve_conn, answer_all) refl
    | inl d ↦ go (answer_one cfg (env i) srv msg) refl d
  ]
    where
      go :
          (t : Turn)
          → answer_one cfg (env i) srv msg ≡ t
          → (env i).read_deadline ≡ true
          → serve_conn cfg env (suc fuel) i r srv ≡ bytes_of (answer_all cfg env i (msg ∷ msgs) srv)
      go dies t d =
          rw (d, serve_conn, answer_all) (rw (x, serve_conn) (rw (t, serve_conn, answer_all) refl))
      go (closes after) t d =
          rw (d, serve_conn, answer_all) (rw (x, serve_conn) (rw (t, serve_conn, answer_all) refl))
      go (goes_on after resp bytes) t d =
          let size = answer_one-framed cfg (env i) srv msg after resp bytes t in
          rw (d, serve_conn, answer_all)
            (rw (x, serve_conn)
              (rw (t, serve_conn, answer_all)
                (ap (after_bytes bytes) (later after)
                  ∙ ap (λ xs. after_bytes xs (bytes_of (answer_all cfg env (i + 1) msgs after)))
                      size
                  ∙ sym (bytes_of-after_reply resp (answer_all cfg env (i + 1) msgs after)))))

  serve_conn-answers :
      (fault : Option Failure) (tail : List ℕ) (e : Failure) (fuel i : ℕ) (msgs : List (List ℕ))
      (srv : Server)
      → read_message (reader tail fault) ≡ not_read e
      → All IsFrame msgs
      → length (flat_map framed msgs ++ tail) < fuel
      → serve_conn cfg env fuel i (reader (flat_map framed msgs ++ tail) fault) srv
        ≡ bytes_of (answer_all cfg env i msgs srv)
  unfolding serve_conn answer_all
  serve_conn-answers fault tail e zero i msgs srv x h l = absurd (omega arith)
  serve_conn-answers fault tail e (suc fuel) i [] srv x h l =
      elim (Bool-cases (env i).read_deadline) [
        | inl d ↦ rw (d, serve_conn) (rw (x, serve_conn) refl)
        | inr d ↦ rw (d, serve_conn) refl
      ]
  serve_conn-answers fault tail e (suc fuel) i (msg ∷ msgs) srv x h l =
      let left = flat_map framed msgs ++ tail in
      let places = append_assoc (framed msg) (flat_map framed msgs) tail in
      let size = ap (length {A = ℕ}) places in
      serve_conn-round fuel i _ (reader left fault) msg msgs srv
        (ap (λ xs. read_message (reader xs fault)) places ∙ read_message-framed msg left fault h.0)
        (λ after.
          serve_conn-answers fault tail e fuel (i + 1) msgs after x h.1
            (omega (arith, l, size, length-append (framed msg) left)))

-- Whatever bytes a client sends, and whatever happens in the rounds: they are the frames of some
-- messages, and then bytes that no message can be read from; serveTCPConn ends without running
-- out of fuel; and its effect and the bytes that it writes are those of answering the messages one
-- after the other, each reply in a frame, until one is not answered or the connection fails.
pub serve_tcp_conn-answers :
    (cfg : Query) (env : ℕ → Round) (bytes : List ℕ) (fault : Option Failure) (srv : Server)
    → AreBytes bytes
    → (s : Split bytes fault) × (serve_tcp_conn cfg env (reader bytes fault) srv
        ≡ bytes_of (answer_all cfg env 0 s.messages srv))
unfolding serve_tcp_conn
serve_tcp_conn-answers cfg env bytes fault srv h =
    let s = split bytes fault h in
    let size = ap (length {A = ℕ}) s.whole in
    (
      s,
      ap (λ xs. serve_conn cfg env (length bytes + 1) 0 (reader xs fault) srv) s.whole
          ∙ serve_conn-answers cfg env fault s.tail s.failure (length bytes + 1) 0 s.messages srv
              s.ends s.frames (omega (arith, size)),
    )
