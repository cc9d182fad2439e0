-- ===== src/Pool/Types.antt =====
-- internal/pool/pool.go: Endpoint, Upstream and Pool. A pointer is a number, and the two fields
-- `upstream` and `endpoint` of the pool are the heap that it points into. Durations and times are
-- nanoseconds; a time that is still zero is `none`.
use hole_balancer.Base.{
  ℕ, String, Bool, true, false, List, [], ◌∷◌, Option, none, some, ◌==◌, if◌then◌else◌,
}
use hole_balancer.Base.Int.{ℤ}

pub record Endpoint : Type 0 where
  pub name : String
  pub addr : String
  pub upstream : ℕ
  pub up : Bool
  pub successes : ℕ
  pub failures : ℕ
  pub latency_ewma : ℕ
  pub last_change : Option ℕ
  pub last_err : String
  pub total_queries : ℕ
  pub total_fails : ℕ

pub record Upstream : Type 0 where
  pub name : String
  pub weight : ℤ
  pub endpoints : List ℕ
  pub drained : Bool

pub record Pool : Type 0 where
  pub upstream : ℕ → Upstream
  pub endpoint : ℕ → Endpoint
  pub next_upstream : ℕ
  pub next_endpoint : ℕ
  pub upstreams : List ℕ
  pub endpoints : List ℕ
  pub strategy : String
  pub rise : ℕ
  pub fall : ℕ
  pub passive : Bool
  pub rr : ℕ

-- A write through a pointer.
abbrev pub update {ℓ} : {A : Type ℓ} → (ℕ → A) → ℕ → A → ℕ → A
update f k v j = if j == k then v else f j

-- The endpoints of the upstream that a pointer leads to.
abbrev pub paths : Pool → ℕ → List ℕ
paths p u = (p.upstream u).endpoints

-- Endpoint.Healthy.
abbrev pub is_up : Pool → ℕ → Bool
is_up p e = (p.endpoint e).up

-- Upstream.Healthy over the upstream's endpoints.
abbrev pub any_up : Pool → List ℕ → Bool
any_up p [] = false
any_up p (e ∷ es) = if is_up p e then true else any_up p es

unfoldable pub healthy : Pool → ℕ → Bool
healthy p u = any_up p (paths p u)

-- Upstream.Active over the upstream's endpoints.
abbrev pub first_up : Pool → List ℕ → Option ℕ
first_up p [] = none
first_up p (e ∷ es) = if is_up p e then some e else first_up p es

unfoldable pub active : Pool → ℕ → Option ℕ
active p u = first_up p (paths p u)

abbrev pub drained : Pool → ℕ → Bool
drained p u = (p.upstream u).drained

unfoldable pub set_drained : Pool → ℕ → Bool → Pool
set_drained p u v = record p {
  upstream = update p.upstream u (record (p.upstream u) { drained = v });
}
