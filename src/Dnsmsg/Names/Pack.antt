-- ===== src/Dnsmsg/Names/Pack.antt =====
-- internal/dnsmsg/dnsmsg.go, packName: the bytes that it writes, and their parse.
use hole_balancer.Base.{ℕ, ◌==◌, ◌||◌, Bool, ◌&&◌, not, leb}
use hole_balancer.Dnsmsg.Names.{dot, backslash}

-- The bytes that parseName prints as they are, and the dot: the printable ones but the backslash.
abbrev pub is_plain : ℕ → Bool
is_plain c = (c == dot) || (leb 33 c && (leb c 126 && not (c == backslash)))
