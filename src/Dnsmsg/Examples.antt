-- ===== src/Dnsmsg/Examples.antt =====
-- Tests of the DNS messages, on the name `pi.hole`.
use hole_balancer.Base.{
  ℕ, ◌≤◌, ◌≡◌, refl, List, [], ◌∷◌, ◌++◌, false, some, none, length, String, str_eq, if◌then◌else◌,
}
use hole_balancer.Dnsmsg.Header.{ok, parse_header, read_header, validate_response, message_id}
use hole_balancer.Dnsmsg.Names.{parse_labels, parse_name, write_escaped}
use hole_balancer.Dnsmsg.Names.Parse.{Within, parse_name-Within}
use hole_balancer.Dnsmsg.Message.{error_response, echo_end, fill_response, response_flags}
use hole_balancer.Dnsmsg.Codes.{parse_rcode, parse_type}
use hole_balancer.Dnsmsg.Demo.{packed, query, query-header}
use hole_balancer.Dnsmsg.Message.Reply.{answering, error_response-answering}

-- The same with QR and RA set and the code SERVFAIL.
abbrev reply : List ℕ
reply = 1 ∷ 2 ∷ 129 ∷ 130 ∷ 0 ∷ 1 ∷ 0 ∷ 0 ∷ 0 ∷ 0 ∷ 0 ∷ 0 ∷ (packed ++ (0 ∷ 28 ∷ 0 ∷ 1 ∷ []))

query-reply : error_response query 2 ≡ some reply
unfolding error_response echo_end fill_response response_flags parse_header parse_name parse_labels
    write_escaped
query-reply = refl

parse_name-Within_example : Within query 12 0 (parse_name query 12)
parse_name-Within_example = parse_name-Within query 12

error_response-answering_example :
    (false ≡ false)
    × (length reply ≤ length query)
    × (parse_header reply ≡ ok (answering (read_header 258 256 1 0 0 0) 2))
    × (validate_response reply (message_id query) ≡ none)
error_response-answering_example =
    error_response-answering query 2 reply (read_header 258 256 1 0 0 0) query-header query-reply

abbrev trimmed : String → String
trimmed s = if str_eq s " refused" then "REFUSED" else s

refused-parsed : parse_rcode trimmed " refused" ≡ some 5
unfolding parse_rcode
refused-parsed = refl

aaaa-parsed : parse_type trimmed "AAAA" ≡ some 28
unfolding parse_type
aaaa-parsed = refl
