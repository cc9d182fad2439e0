-- ===== src/Dnsmsg/Message.antt =====
-- internal/dnsmsg/dnsmsg.go: BuildQuery, ParseQuestion and ErrorResponse.
pub mod Query
pub mod Reply
pub mod Answered
use hole_balancer.Base.{
  ℕ, ◌+◌, ◌*◌, ◌/◌, ◌%◌, Bool, true, false, List, [], ◌∷◌, ◌++◌, Option, none, some, ltb, ◌==◌,
  if◌then◌else◌, length, set, take,
}
use hole_balancer.Dnsmsg.Header.{
  Parsed, ok, err, malformed, no_question, Header, header_len, uint16, parse_header,
}
use hole_balancer.Dnsmsg.Names.{parse_name, pack_name}

pub record Question : Type 0 where
  pub name : List ℕ
  pub qtype : ℕ
  pub class : ℕ

unfoldable pub parse_question : List ℕ → Parsed Question
parse_question msg = elim (parse_header msg) [
  | err e ↦ err e
  | ok hdr ↦ if hdr.qd_count == 0 then err no_question else elim (parse_name msg header_len) [
    | err e ↦ err e
    | ok (name, off) ↦
        if ltb (length msg) (off + 4)
        then err malformed
        else ok (record { name = name; qtype = uint16 msg off; class = uint16 msg (off + 2) })
  ]
]

-- binary.BigEndian.AppendUint16 to nothing.
abbrev pub uint16_bytes : ℕ → List ℕ
uint16_bytes v = ((v / 256) % 256) ∷ (v % 256) ∷ []

abbrev pub class_inet : ℕ
class_inet = 1

unfoldable pub build_query : ℕ → List ℕ → ℕ → Parsed (List ℕ)
build_query id name qtype = elim (pack_name name) [
  | err e ↦ err e
  | ok qname ↦ ok (
      uint16_bytes id
      ++ uint16_bytes 256
      ++ uint16_bytes 1
      ++ (0 ∷ 0 ∷ 0 ∷ 0 ∷ 0 ∷ 0 ∷ [])
      ++ qname
      ++ uint16_bytes qtype
      ++ uint16_bytes class_inet)
]

-- binary.BigEndian.PutUint16 into msg[i:i+2].
abbrev pub put_uint16 : List ℕ → ℕ → ℕ → List ℕ
put_uint16 msg i v = set (set msg i ((v / 256) % 256)) (i + 1) (v % 256)

-- QR=1, RA=1, the opcode and RD of the query, and the response code.
unfoldable pub response_flags : Header → ℕ → ℕ
response_flags hdr rcode =
    32768 + 128 + rcode % 16 + (hdr.opcode % 16) * 2048 + (if hdr.rd then 256 else 0)

-- How much of the query is echoed; `none` where it is too malformed to answer.
unfoldable pub echo_end : List ℕ → Header → Option ℕ
echo_end req hdr =
    if ltb 0 hdr.qd_count
    then elim (parse_name req header_len) [
      | err e ↦ none
      | ok (name, off) ↦ if ltb (length req) (off + 4) then none else some (off + 4)
    ]
    else some header_len

unfoldable pub fill_response : List ℕ → Header → ℕ → List ℕ
fill_response resp hdr rcode =
    put_uint16
      (put_uint16
        (put_uint16
          (put_uint16 (put_uint16 resp 2 (response_flags hdr rcode)) 4
            (if ltb 0 hdr.qd_count then 1 else 0))
          6 0)
        8 0)
      10 0

-- A nil response is `none`.
unfoldable pub error_response : List ℕ → ℕ → Option (List ℕ)
error_response req rcode = elim (parse_header req) [
  | err e ↦ none
  | ok hdr ↦ if hdr.qr then none else elim (echo_end req hdr) [
    | none ↦ none
    | some end_at ↦ some (fill_response (take end_at req) hdr rcode)
  ]
]
