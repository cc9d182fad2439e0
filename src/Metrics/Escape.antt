-- ===== src/Metrics/Escape.antt =====
-- internal/metrics/metrics.go: escapeLabelValue and renderLabels, on bytes, and a strict reader of
-- the quoted values.
use hole_balancer.Base.{
  ℕ, ◌≡◌, refl, sym, ap, ◌∙◌, Bool, true, false, Option, none, some, List, [], ◌∷◌, ◌++◌, ◌==◌,
  if◌then◌else◌, Bool-cases, inl, inr, ==_iff,
}

abbrev backslash : ℕ
backslash = 92

abbrev pub quote : ℕ
quote = 34

abbrev newline : ℕ
newline = 10

-- The replacer of escapeLabelValue, byte by byte.
pub escape_label_value : List ℕ → List ℕ
escape_label_value [] = []
escape_label_value (c ∷ v) =
    let rest = escape_label_value v in
    if c == backslash
    then backslash ∷ backslash ∷ rest
    else if c == quote
    then backslash ∷ quote ∷ rest
    else if c == newline
    then backslash ∷ 110 ∷ rest
    else c ∷ rest

render_label : List ℕ × List ℕ → List ℕ
render_label (name, value) =
    (name ++ (61 ∷ quote ∷ [])) ++ (escape_label_value value ++ (quote ∷ []))

render_rest : List (List ℕ × List ℕ) → List ℕ
render_rest [] = 125 ∷ []
render_rest (l ∷ labels) = (44 ∷ []) ++ (render_label l ++ render_rest labels)

pub render_labels : List (List ℕ × List ℕ) → List ℕ
unfolding render_rest render_label
render_labels [] = []
render_labels (l ∷ labels) = (123 ∷ []) ++ (render_label l ++ render_rest labels)

-- The byte that a backslash and this byte stand for.
abbrev unescape : ℕ → Option ℕ
unescape c =
    if c == backslash
    then some backslash
    else if c == quote
    then some quote
    else if c == 110
    then some newline
    else none

-- One byte in front of the value that is read.
abbrev push_byte : ℕ → Option (List ℕ × List ℕ) → Option (List ℕ × List ℕ)
push_byte c none = none
push_byte c (some (v, rest)) = some (c ∷ v, rest)

-- What a reader of the exposition format makes of a quoted value, after a backslash or not: the
-- value, up to the closing quote, and what follows it. A raw line feed ends the line in the middle of
-- the value, which is an error, as are any other escape and the end of the text.
unfoldable pub read_value_from : Bool → List ℕ → Option (List ℕ × List ℕ)
read_value_from escaped [] = none
read_value_from true (c ∷ rest) =
    let later = read_value_from false rest in
    elim (unescape c) [ none ↦ none | some b ↦ push_byte b later ]
read_value_from false (c ∷ rest) =
    let later = read_value_from false rest in
    let escape = read_value_from true rest in
    if c == quote
    then some ([], rest)
    else if c == newline
    then none
    else if c == backslash
    then escape
    else push_byte c later

abbrev pub read_value : List ℕ → Option (List ℕ × List ℕ)
read_value = read_value_from false

read_plain :
    (c : ℕ) (xs : List ℕ)
    → (c == quote) ≡ false
    → (c == newline) ≡ false
    → (c == backslash) ≡ false
    → read_value (c ∷ xs) ≡ push_byte c (read_value xs)
unfolding read_value_from
read_plain c xs q n b = rw (q, n, b) refl

-- Whatever follows the closing quote, a reader that takes no raw line feed, no escape but those of a
-- backslash, a quote and a line feed, and no value without a closing quote, reads an escaped label
-- value back as the value, and goes on just after the closing quote.
pub read_value-escape :
    (v rest : List ℕ) → read_value (escape_label_value v ++ (quote ∷ rest)) ≡ some (v, rest)
unfolding read_value_from escape_label_value
read_value-escape [] rest = refl
read_value-escape (c ∷ v) rest = elim (Bool-cases (c == backslash)) [
  | inl b ↦
      rw (b, read_value-escape v rest)
        (ap (λ x. some (x ∷ v, rest)) (sym ((==_iff c backslash).0 b)))
  | inr nb ↦ elim (Bool-cases (c == quote)) [
    | inl q ↦
        rw (nb, q, read_value-escape v rest)
          (ap (λ x. some (x ∷ v, rest)) (sym ((==_iff c quote).0 q)))
    | inr nq ↦ elim (Bool-cases (c == newline)) [
      | inl n ↦
          rw (nb, nq, n, read_value-escape v rest)
            (ap (λ x. some (x ∷ v, rest)) (sym ((==_iff c newline).0 n)))
      | inr nn ↦
          rw (nb, nq, nn)
            (read_plain c (escape_label_value v ++ (quote ∷ rest)) nq nn nb
              ∙ ap (push_byte c) (read_value-escape v rest))
    ]
  ]
]
