-- ===== src/Dnsclient/Framing.antt =====
-- internal/dnsclient/dnsclient.go: ReadMessage and WriteMessage, the two-byte length before a message
-- on a stream. A reader is the bytes that will arrive and how the stream ends after them.
pub mod Frames
use hole_balancer.Base.{
  ℕ, ◌+◌, ◌*◌, String, List, [], ◌∷◌, ◌++◌, Option, none, some, ltb, leb, ◌==◌, if◌then◌else◌,
  length, take, drop,
}
use Prim.Native.String.{◌++◌ as append}
use hole_balancer.Dnsmsg.Header.{uint16}
use hole_balancer.Dnsmsg.Message.{uint16_bytes}
use hole_balancer.Dnsclient.{Failure, eof, unexpected_eof, plain}

abbrev pub max_message_size : ℕ
max_message_size = 65535

-- `fault` is the error of the read after the last byte, `none` for io.EOF.
pub record Reader : Type 0 where
  pub bytes : List ℕ
  pub fault : Option Failure

pub data ReadResult : Type 0 where
  got : List ℕ → Reader → ReadResult
  not_read : Failure → ReadResult

abbrev pub wrap : String → Failure → Failure
wrap before e = record { text = append before e.text; chain = e.chain }

abbrev pub plain_failure : String → Failure
plain_failure text = record { text = text; chain = plain ∷ [] }

-- The error of io.ReadFull when the stream ends before all bytes came.
abbrev pub short_read : Reader → Failure
short_read r = elim (r.fault) [
  | some e ↦ e
  | none ↦ elim (r.bytes) [
    | [] ↦ record { text = "EOF"; chain = eof ∷ [] }
    | x ∷ rest ↦ record { text = "unexpected EOF"; chain = unexpected_eof ∷ [] }
  ]
]

-- io.ReadFull for `n` bytes.
abbrev pub read_full : ℕ → Reader → ReadResult
read_full n r =
    if leb n (length r.bytes)
    then got (take n r.bytes) (record { bytes = drop n r.bytes; fault = r.fault })
    else not_read (short_read r)

abbrev pub in_body : ReadResult → ReadResult
in_body (not_read e) = not_read (wrap "read body: " e)
in_body (got msg left) = got msg left

-- ReadMessage after the length.
abbrev pub read_sized : ℕ → Reader → ReadResult
read_sized n r =
    if n == 0 then not_read (plain_failure "zero-length DNS message") else in_body (read_full n r)

abbrev pub after_length : ReadResult → ReadResult
after_length (not_read e) = not_read e
after_length (got head rest) = read_sized (uint16 head 0) rest

unfoldable pub read_message : Reader → ReadResult
read_message r = after_length (read_full 2 r)

-- The length, as a uint16, and the message.
abbrev pub framed : List ℕ → List ℕ
framed msg = uint16_bytes (length msg) ++ msg

-- WriteMessage: the bytes that are handed to the writer, and the error; `wrote` is the writer's.
unfoldable pub write_message : Option Failure → List ℕ → List ℕ × Option Failure
write_message wrote msg =
    if ltb max_message_size (length msg)
    then ([], some (plain_failure "response exceeds maximum DNS message size"))
    else (framed msg, wrote)
