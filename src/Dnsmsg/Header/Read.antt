-- ===== src/Dnsmsg/Header/Read.antt =====
-- What ParseHeader and ValidateResponse return on a message of known length.
use hole_balancer.Base.{
  ℕ, ◌≤◌, ◌≡◌, List, true, none, length, ltb, ltb→le, arith, if_false, Bool-cases, inl, inr,
}
use hole_balancer.Dnsmsg.Header.{
  Header, ok, uint16, parse_header, read_header, validate_response, message_id,
}

abbrev pub header_of : List ℕ → Header
header_of msg =
    read_header (uint16 msg 0) (uint16 msg 2) (uint16 msg 4) (uint16 msg 6) (uint16 msg 8)
      (uint16 msg 10)

pub parse_header-long : (msg : List ℕ) → 12 ≤ length msg → parse_header msg ≡ ok (header_of msg)
unfolding parse_header
parse_header-long msg h = if_false (ltb (length msg) 12) _ _ (ground arith)

pub parse_header-ok :
    (msg : List ℕ) (h : Header) → parse_header msg ≡ ok h → (12 ≤ length msg) × (h ≡ header_of msg)
unfolding parse_header
parse_header-ok msg h e = elim (Bool-cases (ltb (length msg) 12)) [
  | inl short ↦ let f = rw short at e in cc
  | inr long ↦ let f = rw long at e in (ltb→le _ _ long, cc)
]

pub message_id-long : (msg : List ℕ) → 2 ≤ length msg → message_id msg ≡ uint16 msg 0
unfolding message_id
message_id-long msg h = if_false (ltb (length msg) 2) _ _ (ground arith)

pub validate_response-ok :
    (resp : List ℕ) (hdr : Header) (id : ℕ)
    → parse_header resp ≡ ok hdr
    → hdr.id ≡ id
    → hdr.qr ≡ true
    → validate_response resp id ≡ none
unfolding validate_response
validate_response-ok resp hdr id e i q = rw (e, validate_response) (ground (arith, i, q))
