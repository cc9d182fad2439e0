-- ===== src/Dnsmsg/Names/Parse.antt =====
-- internal/dnsmsg/dnsmsg.go, parseName: its end, and where in the message the name lies.
use hole_balancer.Base.{
  ℕ, zero, suc, ◌+◌, ◌≤◌, ◌<◌, ◌≢◌, List, [], ◌==◌, length, arith, leb, ltb, ltb→le, if_split,
  subst,
}
use hole_balancer.Dnsmsg.Header.{Parsed, ok, err, out_of_fuel, byte_at}
use hole_balancer.Dnsmsg.Names.{parse_labels, parse_name}

-- An error is one of the source's own; a name ends past its start, inside the message, and takes
-- at most 256 bytes.
abbrev pub Within : List ℕ → ℕ → ℕ → Parsed (List ℕ × ℕ) → Type 0
Within msg off total (err e) = e ≢ out_of_fuel
Within msg off total (ok (name, after)) =
    (off < after) × (after ≤ length msg) × (after + total ≤ off + 256)

Within-later :
    (msg : List ℕ) (off total l : ℕ) (r : Parsed (List ℕ × ℕ))
    → Within msg (off + 1 + l) (total + (l + 1)) r
    → Within msg off total r
Within-later msg off total l (err e) h = h
Within-later msg off total l (ok (name, after)) h = (omega (arith, h.0), h.1, omega (arith, h.2))

-- One round, from what the later rounds return.
parse_labels-round :
    (fuel : ℕ) (msg : List ℕ) (off total : ℕ) (sb : List ℕ)
    → total ≤ 255
    → (let l = byte_at msg off in
        off + 1 + l ≤ length msg
        → total + (l + 1) ≤ 255
        → (sb' : List ℕ)
        → Within msg off total (parse_labels fuel msg (off + 1 + l) (total + (l + 1)) sb'))
    → Within msg off total (parse_labels (suc fuel) msg off total sb)
unfolding parse_labels
parse_labels-round fuel msg off total sb t later =
    let W = Within msg off total in
    if_split W (leb (length msg) off) _ _ (λ e. λ c. cc)
      (λ inside.
        if_split W (byte_at msg off == 0) _ _ (λ e. (omega arith, ground arith, omega arith))
          (λ e1.
            if_split W (leb 64 (byte_at msg off)) _ _ (λ e. λ c. cc)
              (λ e2.
                if_split W (ltb (length msg) (off + 1 + byte_at msg off)) _ _ (λ e. λ c. cc)
                  (λ fits.
                    if_split W (ltb 255 (total + (byte_at msg off + 1))) _ _ (λ e. λ c. cc)
                      (λ short. later (ltb→le _ _ fits) (ltb→le _ _ short) _)))))

parse_labels-Within :
    (fuel : ℕ) (msg : List ℕ) (off total : ℕ) (sb : List ℕ)
    → length msg ≤ fuel + off
    → total ≤ 255
    → Within msg off total (parse_labels (suc fuel) msg off total sb)
parse_labels-Within zero msg off total sb h t =
    parse_labels-round zero msg off total sb t (λ fits short sb'. absurd (omega arith))
parse_labels-Within (suc fuel) msg off total sb h t =
    parse_labels-round (suc fuel) msg off total sb t (λ fits short sb'.
      Within-later msg off total (byte_at msg off) _ (
        parse_labels-Within fuel msg (off + 1 + byte_at msg off) (total + (byte_at msg off + 1)) sb'
          (omega arith) short))

-- For every message and offset, parseName ends within one round more than the message has bytes. Its
-- result is one of the source's errors, or a name that ends after the offset, no further than the
-- end of the message, and takes at most 256 bytes of it, the zero byte at its end included.
pub parse_name-Within : (msg : List ℕ) (off : ℕ) → Within msg off 0 (parse_name msg off)
unfolding parse_name
parse_name-Within msg off =
    subst (λ n. Within msg off 0 (parse_labels n msg off 0 [])) (omega arith)
      (parse_labels-Within (length msg) msg off 0 [] (omega arith) (omega arith))
