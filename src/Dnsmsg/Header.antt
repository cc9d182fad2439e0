-- ===== src/Dnsmsg/Header.antt =====
-- internal/dnsmsg/dnsmsg.go: Header, ParseHeader, ID and ValidateResponse.
pub mod Read
use hole_balancer.Base.{
  ℕ, ◌+◌, ◌*◌, ◌/◌, ◌%◌, Bool, true, false, not, List, ◌∷◌, Option, none, some, ltb, ◌==◌,
  if◌then◌else◌, length, get_elem?,
}

-- The errors of the package, and the two that ValidateResponse makes itself. `out_of_fuel` is no
-- error of the source.
pub data Error : Type 0 where
  short_message : Error
  no_question : Error
  malformed : Error
  name_too_long : Error
  label_too_long : Error
  empty_label : Error
  wrong_id : ℕ → ℕ → Error
  query_bit_clear : Error
  out_of_fuel : Error

pub data Parsed {ℓ} (A : Type ℓ) : Type ℓ where
  ok : A → Parsed A
  err : Error → Parsed A

pub record Header : Type 0 where
  pub id : ℕ
  pub qr : Bool
  pub opcode : ℕ
  pub aa : Bool
  pub tc : Bool
  pub rd : Bool
  pub ra : Bool
  pub rcode : ℕ
  pub qd_count : ℕ
  pub an_count : ℕ
  pub ns_count : ℕ
  pub ar_count : ℕ

abbrev pub header_len : ℕ
header_len = 12

-- A byte of a message; every use is behind a test of the length.
abbrev pub byte_at : List ℕ → ℕ → ℕ
byte_at msg i = elim (get_elem? msg i) [ none ↦ 0 | some b ↦ b ]

-- binary.BigEndian.Uint16 of msg[i:i+2].
abbrev pub uint16 : List ℕ → ℕ → ℕ
uint16 msg i = byte_at msg i * 256 + byte_at msg (i + 1)

-- Whether the bit of value `b` is set.
abbrev pub bit : ℕ → ℕ → Bool
bit b flags = (flags / b) % 2 == 1

abbrev pub read_header : ℕ → ℕ → ℕ → ℕ → ℕ → ℕ → Header
read_header id flags qd an ns ar = record {
  id = id;
  qr = bit 32768 flags;
  opcode = (flags / 2048) % 16;
  aa = bit 1024 flags;
  tc = bit 512 flags;
  rd = bit 256 flags;
  ra = bit 128 flags;
  rcode = flags % 16;
  qd_count = qd;
  an_count = an;
  ns_count = ns;
  ar_count = ar;
}

unfoldable pub parse_header : List ℕ → Parsed Header
parse_header msg =
    if ltb (length msg) header_len
    then err short_message
    else ok (
        read_header (uint16 msg 0) (uint16 msg 2) (uint16 msg 4) (uint16 msg 6) (uint16 msg 8)
          (uint16 msg 10))

pub message_id : List ℕ → ℕ
message_id msg = if ltb (length msg) 2 then 0 else uint16 msg 0

-- `none` is a nil error.
pub validate_response : List ℕ → ℕ → Option Error
validate_response resp want_id = elim (parse_header resp) [
  | err e ↦ some e
  | ok hdr ↦
      if not (hdr.id == want_id)
      then some (wrong_id hdr.id want_id)
      else if not hdr.qr
      then some query_bit_clear
      else none
]
