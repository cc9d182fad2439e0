-- ===== src/Dnsmsg/Message/Query.antt =====
-- internal/dnsmsg/dnsmsg.go, BuildQuery: the message that it writes, and its parse.
use hole_balancer.Base.{ℕ, List, [], ◌∷◌, ◌++◌}
use hole_balancer.Dnsmsg.Message.{uint16_bytes, class_inet}

abbrev query_header : ℕ → List ℕ
query_header id = uint16_bytes id ++ (1 ∷ 0 ∷ 0 ∷ 1 ∷ 0 ∷ 0 ∷ 0 ∷ 0 ∷ 0 ∷ 0 ∷ [])

-- A query around a packed name.
abbrev query_of : ℕ → List ℕ → ℕ → List ℕ
query_of id qname qtype =
    query_header id ++ (qname ++ (uint16_bytes qtype ++ uint16_bytes class_inet))
