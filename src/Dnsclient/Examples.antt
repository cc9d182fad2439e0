-- ===== src/Dnsclient/Examples.antt =====
-- Tests of the exchange.
use hole_balancer.Base.{◌≡◌, ◌↔◌, none, refl, [], ◌∷◌, true, false}
use hole_balancer.Dnsmsg.Header.{message_id, validate_response}
use hole_balancer.Dnsmsg.Demo.{query, no_error}
use hole_balancer.Dnsclient.{classify_chain, as_timeout, as_op, op, eof}
use hole_balancer.Dnsclient.Exchange.{given, exchange}
use hole_balancer.Dnsclient.Exchange.Answers.{IsFirst, exchange-udp}
use hole_balancer.Dnsclient.Demo.{wire}

exchange-udp_example : ((exchange (λ n. "") wire "udp" query).0 ≡ given no_error) ↔ (
    (wire.dial ≡ none)
    × (wire.set_deadline ≡ none)
    × (wire.wrote ≡ none)
    × IsFirst (message_id query) wire.datagrams no_error
    × (validate_response no_error (message_id query) ≡ none))
exchange-udp_example = exchange-udp (λ n. "") wire query no_error

-- A timeout counts as one wherever it happened; a refused dial does not.
classify-timeout : classify_chain (op "dial" true ∷ []) ≡ "timeout"
unfolding classify_chain as_timeout
classify-timeout = refl

classify-dial : classify_chain (op "dial" false ∷ []) ≡ "dial"
unfolding classify_chain as_timeout as_op
classify-dial = refl

classify-eof : classify_chain (op "read" false ∷ eof ∷ []) ≡ "eof"
unfolding classify_chain as_timeout
classify-eof = refl
