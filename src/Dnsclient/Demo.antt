-- ===== src/Dnsclient/Demo.antt =====
-- A network for the tests: two stray datagrams come before the response.
use hole_balancer.Base.{List, [], ◌∷◌, none}
use hole_balancer.Dnsmsg.Demo.{no_error}
use hole_balancer.Dnsclient.{op}
use hole_balancer.Dnsclient.Framing.{framed}
use hole_balancer.Dnsclient.Framing.Frames.{reader}
use hole_balancer.Dnsclient.Exchange.{Wire}
use hole_balancer.Base.{ℕ, true}

-- A late reply to another query, and one that is too short.
abbrev pub late : List ℕ
late = 9 ∷ 9 ∷ 129 ∷ 128 ∷ 0 ∷ 0 ∷ 0 ∷ 0 ∷ 0 ∷ 0 ∷ 0 ∷ 0 ∷ []

abbrev pub short : List ℕ
short = 1 ∷ 2 ∷ 129 ∷ []

abbrev pub wire : Wire
wire = record {
  dial = none;
  set_deadline = none;
  wrote = none;
  datagrams = late ∷ short ∷ no_error ∷ [];
  read_fault = record { text = "i/o timeout"; chain = op "read" true ∷ [] };
  stream = reader (framed no_error) none;
  ctx_err = none;
  elapsed = 3000000;
}
