-- ===== src/Dnsclient/Exchange.antt =====
-- internal/dnsclient/dnsclient.go: Exchange, over UDP and over TCP. What one exchange meets outside
-- the process is the argument `Wire`; the buffers, which are pooled, and the close are left out.
pub mod Answers
use hole_balancer.Base.{
  ℕ, ◌+◌, String, Bool, not, List, [], ◌∷◌, Option, none, some, ltb, ◌==◌, str_eq, if◌then◌else◌,
  length,
}
use Prim.Native.String.{◌++◌ as append}
use hole_balancer.Dnsmsg.Header.{
  Error, short_message, no_question, malformed, name_too_long, label_too_long, empty_label,
  wrong_id, query_bit_clear, out_of_fuel, header_len, message_id, validate_response,
}
use hole_balancer.Dnsclient.{Failure, Sent, received, lost, dns, classify}
use hole_balancer.Dnsclient.Framing.{
  Reader, ReadResult, got, not_read, read_message, framed, max_message_size, wrap, plain_failure,
}

-- What the dial, SetDeadline and Write return, `none` for nil; the datagrams that the reads of a UDP
-- socket give before one fails, as it does at the deadline, and that error; the bytes that a TCP
-- connection brings; what ctx.Err returns after a failed exchange; and the round-trip time.
pub record Wire : Type 0 where
  pub dial : Option Failure
  pub set_deadline : Option Failure
  pub wrote : Option Failure
  pub datagrams : List (List ℕ)
  pub read_fault : Failure
  pub stream : Reader
  pub ctx_err : Option Failure
  pub elapsed : ℕ

pub data Answer : Type 0 where
  given : List ℕ → Answer
  failed : Failure → Answer

-- The text of an error of dnsmsg; `show` prints a number. `out_of_fuel` is no error of the source,
-- and the name that BuildQuery quotes is left out.
abbrev pub error_text : (ℕ → String) → Error → String
error_text show short_message = "dnsmsg: message shorter than header"
error_text show no_question = "dnsmsg: message has no question"
error_text show malformed = "dnsmsg: malformed message"
error_text show name_too_long = "dnsmsg: name exceeds 255 bytes"
error_text show label_too_long = "dnsmsg: label exceeds 63 bytes"
error_text show empty_label = "dnsmsg: empty label"
error_text show (wrong_id id want) =
    append (append "dnsmsg: response id " (show id))
      (append " does not match query id " (show want))
error_text show query_bit_clear = "dnsmsg: response has query bit clear"
error_text show out_of_fuel = ""

abbrev pub dns_failure : (ℕ → String) → Error → Failure
dns_failure show e = record { text = error_text show e; chain = dns e ∷ [] }

-- The loop of exchangeUDP.
pub await_reply : ℕ → Failure → List (List ℕ) → Answer
await_reply want_id fault [] = failed (wrap "read: " fault)
await_reply want_id fault (d ∷ ds) =
    let later = await_reply want_id fault ds in
    if ltb (length d) header_len
    then later
    else if not (message_id d == want_id)
    then later
    else given d

unfoldable pub exchange_udp : Wire → List ℕ → Answer
exchange_udp w query = elim (w.wrote) [
  | some e ↦ failed (wrap "write: " e)
  | none ↦ await_reply (message_id query) w.read_fault w.datagrams
]

abbrev pub read_answer : ReadResult → Answer
read_answer (got msg left) = given msg
read_answer (not_read e) = failed e

unfoldable pub exchange_tcp : Wire → List ℕ → Answer
exchange_tcp w query =
    if ltb max_message_size (length query)
    then failed (plain_failure "query exceeds maximum DNS message size")
    else elim (w.wrote) [
      | some e ↦ failed (wrap "write: " e)
      | none ↦ read_answer (read_message w.stream)
    ]

-- Exchange after the I/O: the error of a context that has ended stands for that of the socket.
abbrev pub checked : (ℕ → String) → Option Failure → List ℕ → Answer → Answer
checked show ctx_err query (failed e) = elim ctx_err [ some c ↦ failed c | none ↦ failed e ]
checked show ctx_err query (given resp) = elim (validate_response resp (message_id query)) [
  | some e ↦ failed (dns_failure show e)
  | none ↦ given resp
]

-- Exchange up to the I/O, by what the dial and SetDeadline return.
abbrev pub connected : Option Failure → Option Failure → Answer → Answer
connected (some e) set_deadline later = failed (wrap "dial: " e)
connected none (some e) later = failed e
connected none none later = later

-- Exchange, and the round-trip time.
unfoldable pub exchange : (ℕ → String) → Wire → String → List ℕ → Answer × ℕ
exchange show w proto query = (
  connected w.dial w.set_deadline (
      checked show w.ctx_err query
        (if str_eq proto "tcp" then exchange_tcp w query else exchange_udp w query)),
  w.elapsed,
)

-- What the forwarder reads of it.
abbrev pub sent_of : Answer → Sent
sent_of (given resp) = received resp
sent_of (failed e) = lost (classify (some e)) e.text
