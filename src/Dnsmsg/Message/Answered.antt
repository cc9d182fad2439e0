-- ===== src/Dnsmsg/Message/Answered.antt =====
-- Which queries ErrorResponse answers.
use hole_balancer.Base.{ℕ, ◌+◌, ◌≡◌, refl, List, some, false, arith, take}
use hole_balancer.Dnsmsg.Header.{Header, Parsed, ok, err, parse_header}
use hole_balancer.Dnsmsg.Names.{parse_name}
use hole_balancer.Dnsmsg.Message.{Question, parse_question, error_response, echo_end, fill_response}

-- ErrorResponse answers every query that is no response and whose question can be read.
pub error_response-question :
    (req : List ℕ) (rcode : ℕ) (hdr : Header) (q : Question)
    → parse_header req ≡ ok hdr
    → hdr.qr ≡ false
    → parse_question req ≡ ok q
    → (resp : List ℕ) × (error_response req rcode ≡ some resp)
unfolding error_response echo_end parse_question
error_response-question req rcode hdr q p query h = go (parse_name req 12) refl
  where
    go :
        (r : Parsed (List ℕ × ℕ))
        → parse_name req 12 ≡ r
        → (resp : List ℕ) × (error_response req rcode ≡ some resp)
    go (err e) n = absurd (ground (arith, h, p, n))
    go (ok (name, off)) n =
        (fill_response (take (off + 4) req) hdr rcode, ground (arith, h, p, n, query))
