-- ===== src/Dnsmsg/Demo.antt =====
-- A query for the tests: the AAAA record of `pi.hole`.
use hole_balancer.Base.{ℕ, ◌≡◌, refl, sym, ◌∙◌, ap, true, List, [], ◌∷◌, ◌++◌}
use hole_balancer.Dnsmsg.Header.{Header, ok, parse_header, read_header}
use hole_balancer.Dnsmsg.Names.{parse_labels, parse_name, write_escaped, trim_dot, dot}
use hole_balancer.Dnsmsg.Message.{Question, parse_question, class_inet}

abbrev pub pi_hole : List ℕ
pi_hole = 112 ∷ 105 ∷ 46 ∷ 104 ∷ 111 ∷ 108 ∷ 101 ∷ []

abbrev pub packed : List ℕ
packed = 2 ∷ 112 ∷ 105 ∷ 4 ∷ 104 ∷ 111 ∷ 108 ∷ 101 ∷ 0 ∷ []

abbrev pub query : List ℕ
query = 1 ∷ 2 ∷ 1 ∷ 0 ∷ 0 ∷ 1 ∷ 0 ∷ 0 ∷ 0 ∷ 0 ∷ 0 ∷ 0 ∷ (packed ++ (0 ∷ 28 ∷ 0 ∷ 1 ∷ []))

pub query-header : parse_header query ≡ ok (read_header 258 256 1 0 0 0)
unfolding parse_header
query-header = refl

abbrev pub pi_hole_question : Question
pi_hole_question = record { name = trim_dot pi_hole ++ (dot ∷ []); qtype = 28; class = class_inet }

pub query-question : parse_question query ≡ ok pi_hole_question
unfolding parse_question parse_name parse_labels write_escaped parse_header
query-question = refl

-- A response to the query, with the code NOERROR.
abbrev pub no_error : List ℕ
no_error = 1 ∷ 2 ∷ 129 ∷ 128 ∷ 0 ∷ 0 ∷ 0 ∷ 0 ∷ 0 ∷ 0 ∷ 0 ∷ 0 ∷ []

no_error-header : parse_header no_error ≡ ok (read_header 258 33152 0 0 0 0)
unfolding parse_header
no_error-header = refl

pub no_error-qr : (hdr : Header) → parse_header no_error ≡ ok hdr → hdr.qr ≡ true
no_error-qr hdr e =
    let same : ok (read_header 258 33152 0 0 0 0) ≡ ok hdr = sym no_error-header ∙ e in
    let equal : read_header 258 33152 0 0 0 0 ≡ hdr = cc in sym (ap (λ (h : Header). h.qr) equal)
