-- ===== src/Dnsmsg/Codes/Names.antt =====
-- internal/dnsmsg/dnsmsg.go: the tables of mnemonics, read and printed.
use hole_balancer.Base.{
  ℕ, String, List, [], ◌∷◌, some, str_eq, ◌≡◌, refl, subst, eq_iff, All, Bool-cases, inl, inr,
}
use hole_balancer.Dnsmsg.Codes.{
  rcode_names, type_names, find_code, rcode_string, parse_rcode, parse_type, type_string,
}

-- What holds of every entry of a table holds of what a search by name finds.
find_code-All {κ} :
    (P : ℕ → String → Type κ) (want : String) (table : List (ℕ × String)) (c : ℕ)
    → All (λ (e : ℕ × String). P e.0 e.1) table
    → find_code want table ≡ some c
    → P c want
find_code-All P want [] c h e = cc
find_code-All P want ((d, name) ∷ rest) c h e = elim (Bool-cases (str_eq name want)) [
  | inl hit ↦
      let found = rw hit at e in
      let same : d ≡ c = cc in
      subst (P c) ((eq_iff name want).0 hit) (subst (λ k. P k name) same h.0)
  | inr miss ↦ find_code-All P want rest c h.1 (rw miss at e)
]

-- A response code and a record type that mnemonics parse to are printed as those mnemonics, trimmed
-- and in capitals.
pub parse-string :
    (fold : String → String) (show : ℕ → String) (s t : String) (c k : ℕ)
    → parse_rcode fold s ≡ some c
    → parse_type fold t ≡ some k
    → (rcode_string show c ≡ fold s) × (type_string show k ≡ fold t)
unfolding parse_rcode rcode_string parse_type type_string
parse-string fold show s t c k e f = (
  find_code-All (λ k n. rcode_string show k ≡ n) (fold s) rcode_names c
      (refl, (refl, (refl, (refl, (refl, (refl, (refl, (refl, (refl, (refl, (refl, tt))))))))))) e,
  find_code-All (λ k n. type_string show k ≡ n) (fold t) type_names k
      (refl, (refl, (refl, (refl, (refl, (refl, (refl, (refl, (refl, (refl, tt)))))))))) f,
)
