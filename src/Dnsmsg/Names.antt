-- ===== src/Dnsmsg/Names.antt =====
-- internal/dnsmsg/dnsmsg.go: parseName, writeEscaped and packName. A name is a list of bytes.
pub mod Parse
mod Labels
pub mod Pack
use hole_balancer.Base.{
  ℕ, zero, suc, ◌+◌, ◌-◌, ◌/◌, ◌%◌, Bool, true, false, not, ◌&&◌, ◌||◌, List, [], ◌∷◌, ◌++◌, Option,
  none, some, ltb, leb, ◌==◌, if◌then◌else◌, length, get_elem?, take, drop,
}
use hole_balancer.Dnsmsg.Header.{
  Parsed, ok, err, malformed, name_too_long, label_too_long, empty_label, out_of_fuel, byte_at,
}

abbrev pub dot : ℕ
dot = 46

abbrev pub backslash : ℕ
backslash = 92

-- `\%03d` of a byte.
abbrev decimal : ℕ → List ℕ
decimal c = backslash ∷ (48 + c / 100) ∷ (48 + (c / 10) % 10) ∷ (48 + c % 10) ∷ []

unfoldable pub write_escaped : List ℕ → List ℕ
write_escaped [] = []
write_escaped (c ∷ label) =
    let rest = write_escaped label in
    if (c == dot) || (c == backslash)
    then backslash ∷ c ∷ rest
    else if ltb c 33 || ltb 126 c
    then decimal c ++ rest
    else c ∷ rest

-- The loop of parseName, `fuel` rounds from the offset `off`.
unfoldable pub parse_labels : ℕ → List ℕ → ℕ → ℕ → List ℕ → Parsed (List ℕ × ℕ)
parse_labels zero msg off total sb = err out_of_fuel
parse_labels (suc fuel) msg off total sb =
    let l = byte_at msg off in
    let label = take l (drop (off + 1) msg) in
    let rest =
      parse_labels fuel msg (off + 1 + l) (total + (l + 1))
        (sb ++ (write_escaped label ++ dot ∷ [])) in
    if leb (length msg) off
    then err malformed
    else if l == 0
    then ok (if length sb == 0 then dot ∷ [] else sb, off + 1)
    else if leb 64 l
    then err malformed
    else if ltb (length msg) (off + 1 + l)
    then err malformed
    else if ltb 255 (total + (l + 1))
    then err name_too_long
    else rest

-- One round takes at least one byte, so this is enough fuel.
unfoldable pub parse_name : List ℕ → ℕ → Parsed (List ℕ × ℕ)
parse_name msg off = parse_labels (length msg + 1) msg off 0 []

-- strings.TrimSuffix of a name and a dot.
abbrev pub trim_dot : List ℕ → List ℕ
trim_dot [] = []
trim_dot (c ∷ []) = if c == dot then [] else c ∷ []
trim_dot (c ∷ d ∷ rest) = c ∷ trim_dot (d ∷ rest)

-- strings.Split of a name at the dots.
abbrev pub split_dots : List ℕ → List (List ℕ)
split_dots [] = [] ∷ []
split_dots (c ∷ rest) = elim (split_dots rest) [
  | [] ↦ [] ∷ []
  | label ∷ labels ↦ if c == dot then [] ∷ label ∷ labels else (c ∷ label) ∷ labels
]

unfoldable pub pack_labels : List (List ℕ) → Parsed (List ℕ)
pack_labels [] = ok (0 ∷ [])
pack_labels (label ∷ labels) =
    let rest = pack_labels labels in
    if length label == 0
    then err empty_label
    else if ltb 63 (length label)
    then err label_too_long
    else elim rest [ err e ↦ err e | ok out ↦ ok (length label ∷ label ++ out) ]

abbrev pub is_root : List ℕ → Bool
is_root name = (length name == 0) || ((length name == 1) && (byte_at name 0 == dot))

unfoldable pub pack_name : List ℕ → Parsed (List ℕ)
pack_name name =
    if is_root name then ok (0 ∷ []) else elim (pack_labels (split_dots (trim_dot name))) [
      | err e ↦ err e
      | ok out ↦ if ltb 255 (length out) then err name_too_long else ok out
    ]
