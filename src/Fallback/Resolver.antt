-- ===== src/Fallback/Resolver.antt =====
-- internal/fallback/fallback.go: Resolver. What dnsclient.Exchange returns and what ctx.Err reports
-- in each round are arguments. What a round tells the tracker and the metrics is a note.
pub mod Rounds
pub mod Answers
pub mod Servers
pub mod Counter
mod Examples
use hole_balancer.Base.{
  ℕ, ◌+◌, String, Bool, true, false, not, ◌&&◌, List, [], ◌∷◌, Option, none, some, ◌==◌,
  if◌then◌else◌, length,
}
use Prim.Native.String.{◌++◌ as append}
use hole_balancer.Dnsmsg.Codes.{rcode_string}
use hole_balancer.Metrics.{Label, Metrics, inc}
use hole_balancer.Dnsmsg.Header.{ok, err, parse_header}
use hole_balancer.Pool.Plan.{rotation_start, rotate_from, next_rr}
use hole_balancer.Fallback.Tracker.{Tracker, record_query}

-- `retry` is `none` where the source has nil.
pub record Resolver : Type 0 where
  pub servers : List String
  pub retry : Option (ℕ → Bool)
  pub rr : ℕ

-- What one exchange gives: a message, or Classify's word for the error and the error's text.
pub data Exchanged : Type 0 where
  reply : List ℕ → Exchanged
  failed : String → String → Exchanged

pub data Error : Type 0 where
  disabled : Error
  cancelled : Error
  exchange_error : String → Error
  retry_code : String → ℕ → Error
  no_answer : Error

-- `panics` is an index out of range.
pub data Outcome : Type 0 where
  answer : List ℕ → String → Outcome
  refused : Error → Outcome
  panics : Outcome

-- One server that was asked, what it gave, and whether that was used.
pub record Note : Type 0 where
  pub server : String
  pub gave : Exchanged
  pub used : Bool

-- NewResolver.
pub new_resolver : Bool → List String → Option (ℕ → Bool) → Resolver
new_resolver on servers retry = record {
  servers = if on then servers else [];
  retry = retry;
  rr = 0;
}

unfoldable pub enabled : Resolver → Bool
enabled r = not (length r.servers == 0)

pub set_servers : Bool → List String → Resolver → Resolver
set_servers on servers r =
    if not on then record r { servers = [] } else record r { servers = servers }

-- The code of a response; a header that cannot be read is the zero one.
pub rcode_of : List ℕ → ℕ
rcode_of resp = elim (parse_header resp) [ err e ↦ 0 | ok hdr ↦ hdr.rcode ]

abbrev pub retries : Option (ℕ → Bool) → ℕ → Bool
retries none code = false
retries (some test) code = test code

abbrev pub is_last {ℓ} : {A : Type ℓ} → List A → Bool
is_last [] = true
is_last (x ∷ rest) = false

abbrev last_error : Option Error → Error
last_error none = no_answer
last_error (some e) = e

module _ (retry : Option (ℕ → Bool)) (is_cancelled : ℕ → Bool)
    (exchange : ℕ → String → Exchanged) where
  -- The loop of Resolve from round `i`, over the servers that are left, in the rotated order.
  pub try_servers : ℕ → Option Error → List String → Outcome × List Note
  try_servers i last [] = (refused (last_error last), [])
  try_servers i last (server ∷ rest) =
      if is_cancelled i then (refused cancelled, []) else elim (exchange i server) [
        | failed reason text ↦
            let later = try_servers (i + 1) (some (exchange_error text)) rest in
            (later.0, record { server = server; gave = failed reason text; used = false } ∷ later.1)
        | reply resp ↦
            let later = try_servers (i + 1) (some (retry_code server (rcode_of resp))) rest in
            if retries retry (rcode_of resp) && not (is_last rest)
            then (later.0, record { server = server; gave = reply resp; used = false } ∷ later.1)
            else (
              answer resp server,
              record { server = server; gave = reply resp; used = true } ∷ [],
            )
      ]

-- Resolver.record over the notes, in order; there may be no tracker.
pub record_notes : List Note → Tracker → Tracker
record_notes [] t = t
record_notes (n ∷ notes) t = record_notes notes (record_query n.server n.used t)

-- The calls of the metrics over the notes, in order.
pub count_note : (ℕ → String) → Note → Metrics → Metrics
count_note show n m =
    let server : Label = record { name = "server"; value = n.server } in
    elim (n.gave) [
      | failed reason text ↦ record m {
        fallback_failures =
            inc (server ∷ record { name = "reason"; value = reason } ∷ []) m.fallback_failures;
      }
      | reply resp ↦
          let code = rcode_string show (rcode_of resp) in
          if n.used
          then record m {
            fallback_responses =
                inc (server ∷ record { name = "rcode"; value = code } ∷ []) m.fallback_responses;
          }
          else record m {
            fallback_failures =
                inc (server ∷ record { name = "reason"; value = append "rcode_" code } ∷ [])
                  m.fallback_failures;
          }
    ]

pub count_notes : (ℕ → String) → List Note → Metrics → Metrics
count_notes show [] m = m
count_notes show (n ∷ notes) m = count_notes show notes (count_note show n m)

-- Resolve: the outcome, the notes, and the resolver with its counter moved.
pub resolve : Resolver → (ℕ → Bool) → (ℕ → String → Exchanged) → Outcome × List Note × Resolver
resolve r is_cancelled exchange =
    let n = length r.servers in
    if not (enabled r) then (refused disabled, [], r) else elim (rotation_start r.rr n) [
      | none ↦ (panics, [], record r { rr = next_rr r.rr })
      | some start ↦ elim (rotate_from r.servers start 0 n) [
        | none ↦ (panics, [], record r { rr = next_rr r.rr })
        | some servers ↦
            let tried = try_servers r.retry is_cancelled exchange 0 none servers in
            (tried.0, tried.1, record r { rr = next_rr r.rr })
      ]
    ]
