-- ===== src/Fallback/Resolver/Counter.antt =====
-- What Resolve does to its counter.
use hole_balancer.Base.{
  ℕ, ◌+◌, ◌≤◌, String, Bool, Bool-cases, Option-cases, inl, inr, arith, length,
}
use hole_balancer.Pool.Plan.{rotation_start, rotate_from}
use hole_balancer.Pool.Plan.Counter.{next_rr-le}
use hole_balancer.Fallback.Resolver.{Resolver, Exchanged, enabled, resolve}

-- It moves by one at most.
pub resolve-rr :
    (r : Resolver) (is_cancelled : ℕ → Bool) (exchange : ℕ → String → Exchanged)
    → (resolve r is_cancelled exchange).2.rr ≤ r.rr + 1
unfolding resolve
resolve-rr r is_cancelled exchange = elim (Bool-cases (enabled r)) [
  | inr off ↦ rw (off, resolve) (omega arith)
  | inl on ↦ elim (Option-cases (rotation_start r.rr (length r.servers))) [
    | inl e ↦ rw (on, resolve) (rw (e, resolve) (next_rr-le r.rr))
    | inr (start, e) ↦ elim (Option-cases (rotate_from r.servers start 0 (length r.servers))) [
      | inl x ↦ rw (on, resolve) (rw (e, resolve) (rw (x, resolve) (next_rr-le r.rr)))
      | inr (servers, x) ↦ rw (on, resolve) (rw (e, resolve) (rw (x, resolve) (next_rr-le r.rr)))
    ]
  ]
]
