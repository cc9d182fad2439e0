-- ===== src/Dnsclient.antt =====
-- internal/dnsclient/dnsclient.go: the errors of an exchange, Classify, and what Exchange gives its
-- callers. The errors of the Go library are what errors.Is, errors.As and Error read of them.
pub mod Framing
pub mod Exchange
pub mod Demo
mod Examples
use hole_balancer.Base.{
  ℕ, String, List, [], ◌∷◌, ◌≡◌, ◌⊎◌, ◌||◌, refl, inl, inr, Bool, true, false, Option, none, some,
  str_eq, if◌then◌else◌,
}
use hole_balancer.Dnsmsg.Header.{Error, short_message, malformed}

-- One error of a chain of wrapped errors: a *net.OpError with its Op, another net.Error, each with
-- what Timeout returns, the sentinels of context and io, an error of dnsmsg, or any other.
pub data Link : Type 0 where
  op : String → Bool → Link
  net_error : Bool → Link
  deadline_exceeded : Link
  canceled : Link
  eof : Link
  unexpected_eof : Link
  dns : Error → Link
  plain : Link

pub record Failure : Type 0 where
  pub text : String
  pub chain : List Link

-- errors.As for a net.Error, with its Timeout; context.DeadlineExceeded is one.
pub as_timeout : List Link → Bool
as_timeout [] = false
as_timeout (op name timeout ∷ rest) = timeout
as_timeout (net_error timeout ∷ rest) = timeout
as_timeout (deadline_exceeded ∷ rest) = true
as_timeout (canceled ∷ rest) = as_timeout rest
as_timeout (eof ∷ rest) = as_timeout rest
as_timeout (unexpected_eof ∷ rest) = as_timeout rest
as_timeout (dns e ∷ rest) = as_timeout rest
as_timeout (plain ∷ rest) = as_timeout rest

-- errors.As for a *net.OpError, with its Op.
pub as_op : List Link → Option String
as_op [] = none
as_op (op name timeout ∷ rest) = some name
as_op (net_error timeout ∷ rest) = as_op rest
as_op (deadline_exceeded ∷ rest) = as_op rest
as_op (canceled ∷ rest) = as_op rest
as_op (eof ∷ rest) = as_op rest
as_op (unexpected_eof ∷ rest) = as_op rest
as_op (dns e ∷ rest) = as_op rest
as_op (plain ∷ rest) = as_op rest

-- errors.Is, for the sentinel that a test knows.
abbrev pub any_link : (Link → Bool) → List Link → Bool
any_link test [] = false
any_link test (l ∷ rest) = test l || any_link test rest

abbrev pub is_deadline : Link → Bool
is_deadline l = elim l [ deadline_exceeded ↦ true | _ ↦ false ]

abbrev pub is_canceled : Link → Bool
is_canceled l = elim l [ canceled ↦ true | _ ↦ false ]

abbrev pub is_eof : Link → Bool
is_eof l = elim l [ eof ↦ true | unexpected_eof ↦ true | _ ↦ false ]

abbrev pub is_malformed : Link → Bool
is_malformed l = elim l [
  | dns e ↦ elim e [ short_message ↦ true | malformed ↦ true | _ ↦ false ]
  | _ ↦ false
]

-- Classify for an error that is not nil.
pub classify_chain : List Link → String
classify_chain chain =
    if as_timeout chain
    then "timeout"
    else if any_link is_deadline chain
    then "timeout"
    else if any_link is_canceled chain
    then "canceled"
    else if any_link is_eof chain
    then "eof"
    else elim (as_op chain) [
      | some name ↦ if str_eq name "dial" then "dial" else "network"
      | none ↦ if any_link is_malformed chain then "malformed" else "error"
    ]

-- Classify; a nil error is `none`.
pub classify : Option Failure → String
classify none = "none"
classify (some e) = classify_chain e.chain

-- A message, or Classify's word for the error and the error's text.
pub data Sent : Type 0 where
  received : List ℕ → Sent
  lost : String → String → Sent

-- To split on what an exchange gave and keep the equation.
pub Sent-cases :
    (x : Sent)
    → ((reason : String) × (text : String) × (x ≡ lost reason text))
      ⊎ ((resp : List ℕ) × (x ≡ received resp))
Sent-cases (lost reason text) = inl (reason, text, refl)
Sent-cases (received resp) = inr (resp, refl)
