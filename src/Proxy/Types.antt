-- ===== src/Proxy/Types.antt =====
-- internal/proxy/proxy.go: what forward reads, and the variables of its loop.
use hole_balancer.Base.{ℕ, String, Bool, false, List, Option}
use hole_balancer.Pool.Plan.{Draws}
use hole_balancer.Fallback.Resolver.{Exchanged}
use hole_balancer.Stats.{Record}
use hole_balancer.System.{System}
use hole_balancer.Dnsclient.{Sent}

pub record World : Type 0 where
  pub draws : Draws
  pub mix : ℕ → ℕ → ℕ
  pub micro : ℕ → ℕ
  pub show_code : ℕ → String
  pub show_type : ℕ → String
  pub clock : ℕ → ℕ
  pub zone : ℕ
  pub elapsed : ℕ
  pub cancelled : ℕ → Bool
  pub exchange : ℕ → String → ℕ × Sent
  pub fallback_cancelled : ℕ → Bool
  pub fallback_exchange : ℕ → String → Exchanged

-- The part of the configuration that a query reads.
pub record Query : Type 0 where
  pub max_attempts : ℕ
  pub should_retry : ℕ → Bool

abbrev pub outage_probe_attempts : ℕ
outage_probe_attempts = 1

abbrev pub serv_fail : ℕ
serv_fail = 2

-- The variables of forward that its loop writes.
pub record Attempt : Type 0 where
  pub system : System
  pub rec : Record
  pub last_resp : Option (List ℕ)
  pub last_reason : String

abbrev pub new_record : String → String → Record
new_record proto qtype = record {
  proto = proto;
  qtype = qtype;
  upstream = "";
  endpoint = "";
  rcode = "";
  latency = 0;
  attempts = 0;
  fallback = false;
  failed = false;
}
