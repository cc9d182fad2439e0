-- ===== src/Dnsmsg/Message/Reply.antt =====
-- What ErrorResponse writes.
use hole_balancer.Base.{
  ℕ, ◌+◌, ◌*◌, ◌/◌, ◌%◌, ◌<◌, ◌≤◌, ◌≡◌, refl, List, ◌∷◌, length, take, Option, none, some, Bool,
  true, false, arith, ap, sym, ◌∙◌, ltb, if◌then◌else◌,
}
use hole_balancer.Dnsmsg.Header.{
  Header, Parsed, ok, err, uint16, bit, read_header, parse_header, validate_response, message_id,
}
use hole_balancer.Dnsmsg.Header.Read.{
  header_of, parse_header-long, parse_header-ok, message_id-long, validate_response-ok,
}
use hole_balancer.Base.Slices.{length-take}
use hole_balancer.Dnsmsg.Bytes.{byte_at-take}
use hole_balancer.Dnsmsg.Message.{error_response, echo_end, fill_response, response_flags}
use hole_balancer.Dnsmsg.Names.{parse_name}
use hole_balancer.Dnsmsg.Names.Parse.{Within, parse_name-Within}

-- The header of the response that a query calls for.
abbrev pub answering : Header → ℕ → Header
answering hdr rcode = record {
  id = hdr.id;
  qr = true;
  opcode = hdr.opcode % 16;
  aa = false;
  tc = false;
  rd = hdr.rd;
  ra = true;
  rcode = rcode % 16;
  qd_count = if ltb 0 hdr.qd_count then 1 else 0;
  an_count = 0;
  ns_count = 0;
  ar_count = 0;
}

-- The bits of the flags that are put together.
flags-bits :
    (rcode opcode : ℕ) (rd : Bool)
    → let f = 32768 + 128 + rcode % 16 + (opcode % 16) * 2048 + (if rd then 256 else 0) in
      (f < 65536)
      × (bit 32768 f ≡ true)
      × ((f / 2048) % 16 ≡ opcode % 16)
      × (bit 1024 f ≡ false)
      × (bit 512 f ≡ false)
      × (bit 256 f ≡ rd)
      × (bit 128 f ≡ true)
      × (f % 16 ≡ rcode % 16)
flags-bits rcode opcode true = (
  omega arith,
  ground arith,
  omega arith,
  ground arith,
  ground arith,
  ground arith,
  ground arith,
  omega arith,
)
flags-bits rcode opcode false = (
  omega arith,
  ground arith,
  omega arith,
  ground arith,
  ground arith,
  ground arith,
  ground arith,
  omega arith,
)

halves : (v : ℕ) → v < 65536 → (v / 256) % 256 * 256 + v % 256 ≡ v
halves v h = omega arith

answering-read_header :
    (hdr : Header) (rcode id flags qd an ns ar : ℕ)
    → id ≡ hdr.id
    → flags ≡ response_flags hdr rcode
    → qd ≡ (if ltb 0 hdr.qd_count then 1 else 0)
    → an ≡ 0
    → ns ≡ 0
    → ar ≡ 0
    → read_header id flags qd an ns ar ≡ answering hdr rcode
unfolding response_flags
answering-read_header hdr rcode id flags qd an ns ar i f q a n r =
    let b = flags-bits rcode hdr.opcode hdr.rd in
    rw (i, f, q, a, n, r) (ground (arith, b.0, b.1, b.2, b.3, b.4, b.5, b.6, b.7))

-- A message of at least twelve bytes, filled in as a response.
fill_response-header :
    (resp : List ℕ) (hdr : Header) (rcode : ℕ)
    → 12 ≤ length resp
    → uint16 resp 0 ≡ hdr.id
    → (12 ≤ length (fill_response resp hdr rcode))
      × (length (fill_response resp hdr rcode) ≡ length resp)
      × (header_of (fill_response resp hdr rcode) ≡ answering hdr rcode)
unfolding fill_response response_flags
fill_response-header (b0 ∷ b1 ∷ b2 ∷ b3 ∷ b4 ∷ b5 ∷ b6 ∷ b7 ∷ b8 ∷ b9 ∷ b10 ∷ b11 ∷ rest) hdr rcode
      h i =
    (
      omega arith,
      refl,
      answering-read_header hdr rcode _ _ _ _ _ _ i
          (halves (response_flags hdr rcode) (flags-bits rcode hdr.opcode hdr.rd).0)
          (halves (if ltb 0 hdr.qd_count then 1 else 0) (ground arith)) (omega arith) (omega arith)
          (omega arith),
    )
fill_response-header _ hdr rcode h i = absurd (ground arith)

echo_end-bounds :
    (req : List ℕ) (hdr : Header) (end_at : ℕ)
    → 12 ≤ length req
    → echo_end req hdr ≡ some end_at
    → (12 ≤ end_at) × (end_at ≤ length req)
unfolding echo_end
echo_end-bounds req hdr end_at long h = go (parse_name req 12) refl (parse_name-Within req 12)
  where
    go :
        (r : Parsed (List ℕ × ℕ))
        → parse_name req 12 ≡ r
        → Within req 12 0 r
        → (12 ≤ end_at) × (end_at ≤ length req)
    go (err e) p w = (ground (arith, h, p), ground (arith, h, p))
    go (ok (name, off)) p w = (ground (arith, h, p, w.0), ground (arith, h, p, w.0))

-- Where ErrorResponse answers, the message was a query, and the response is no longer than it. Its
-- header keeps the identifier, the opcode and RD, has QR and RA set and AA and TC clear, carries
-- the given code, counts one question at most and no other record, and ValidateResponse accepts it
-- for the query's identifier.
pub error_response-answering :
    (req : List ℕ) (rcode : ℕ) (resp : List ℕ) (hdr : Header)
    → parse_header req ≡ ok hdr
    → error_response req rcode ≡ some resp
    → (hdr.qr ≡ false)
      × (length resp ≤ length req)
      × (parse_header resp ≡ ok (answering hdr rcode))
      × (validate_response resp (message_id req) ≡ none)
unfolding error_response
error_response-answering req rcode resp hdr p h = go (echo_end req hdr) refl
  where
    go :
        (o : Option ℕ)
        → echo_end req hdr ≡ o
        → (hdr.qr ≡ false)
          × (length resp ≤ length req)
          × (parse_header resp ≡ ok (answering hdr rcode))
          × (validate_response resp (message_id req) ≡ none)
    go none e = absurd (ground (arith, h, p, e))
    go (some end_at) e =
        let read = parse_header-ok req hdr p in
        let bounds = echo_end-bounds req hdr end_at read.0 e in
        let query : hdr.qr ≡ false = ground (arith, h, p, e) in
        let same : resp ≡ fill_response (take end_at req) hdr rcode = ground (arith, h, p, e) in
        let size = length-take end_at req bounds.1 in
        let id : uint16 (take end_at req) 0 ≡ hdr.id = omega (
          arith,
          byte_at-take end_at 0 req (omega arith),
          byte_at-take end_at 1 req (omega arith),
          ap (λ h. h.id) read.1,
        ) in
        let filled = fill_response-header (take end_at req) hdr rcode (omega arith) id in
        let parsed : parse_header resp ≡ ok (answering hdr rcode) =
          ap parse_header same
          ∙ parse_header-long (fill_response (take end_at req) hdr rcode) filled.0
          ∙ ap ok filled.2 in
        (
          query,
          omega (arith, ap length same, filled.1),
          parsed,
          validate_response-ok resp (answering hdr rcode) (message_id req) parsed
              (ap (λ h. h.id) read.1 ∙ sym (message_id-long req (omega arith))) refl,
        )
