-- ===== src/Dnsmsg/Codes.antt =====
-- internal/dnsmsg/dnsmsg.go: the tables of mnemonics, RCode.String, ParseRCode, ParseType and
-- TypeString. `fold` is strings.ToUpper after strings.TrimSpace, and `show` prints a number for the
-- codes that have no name. A Go map is read by key or scanned for a value that one entry has.
pub mod Names
use hole_balancer.Base.{ℕ, String, List, [], ◌∷◌, Option, none, some, ◌==◌, str_eq, if◌then◌else◌}

abbrev pub rcode_names : List (ℕ × String)
rcode_names =
    (0, "NOERROR")
    ∷ (1, "FORMERR")
    ∷ (2, "SERVFAIL")
    ∷ (3, "NXDOMAIN")
    ∷ (4, "NOTIMP")
    ∷ (5, "REFUSED")
    ∷ (6, "YXDOMAIN")
    ∷ (7, "YXRRSET")
    ∷ (8, "NXRRSET")
    ∷ (9, "NOTAUTH")
    ∷ (10, "NOTZONE")
    ∷ []

abbrev pub type_names : List (ℕ × String)
type_names =
    (1, "A")
    ∷ (2, "NS")
    ∷ (5, "CNAME")
    ∷ (12, "PTR")
    ∷ (6, "SOA")
    ∷ (15, "MX")
    ∷ (16, "TXT")
    ∷ (28, "AAAA")
    ∷ (33, "SRV")
    ∷ (255, "ANY")
    ∷ []

abbrev pub find_name : ℕ → List (ℕ × String) → Option String
find_name code [] = none
find_name code ((c, name) ∷ rest) =
    let later = find_name code rest in if c == code then some name else later

abbrev pub find_code : String → List (ℕ × String) → Option ℕ
find_code want [] = none
find_code want ((c, name) ∷ rest) =
    let later = find_code want rest in if str_eq name want then some c else later

pub rcode_string : (ℕ → String) → ℕ → String
rcode_string show code = elim (find_name code rcode_names) [ none ↦ show code | some n ↦ n ]

-- `none` is an unknown mnemonic.
unfoldable pub parse_rcode : (String → String) → String → Option ℕ
parse_rcode fold s = find_code (fold s) rcode_names

unfoldable pub parse_type : (String → String) → String → Option ℕ
parse_type fold s = find_code (fold s) type_names

pub type_string : (ℕ → String) → ℕ → String
type_string show code = elim (find_name code type_names) [ none ↦ show code | some n ↦ n ]
