-- ===== src/Config/Document.antt =====
-- internal/config/config.go: the document, its defaults and its copy. Durations are whole nanoseconds.
-- `retry_codes` and `qtype` are the fields that Validate resolves; the first is a map to true,
-- held as the list of its keys, and `none` where it is nil.
use hole_balancer.Base.{ℕ, String, Bool, true, false, ◌||◌, List, [], ◌∷◌, Option, none, some, ◌==◌}
use hole_balancer.Base.Int.{ℤ, pos}
use hole_balancer.Config.Types.{Upstream, strategy_random}

pub record Listen : Type 0 where
  pub udp : String
  pub tcp : String

pub record Query : Type 0 where
  pub timeout : ℤ
  pub max_attempts : ℤ
  pub max_concurrent : ℤ
  pub retry_rcodes : List String
  pub retry_codes : Option (List ℕ)

pub record Probe : Type 0 where
  pub name : String
  pub type_name : String
  pub require_answer : Bool
  pub qtype : ℕ

pub record Health : Type 0 where
  pub interval : ℤ
  pub timeout : ℤ
  pub rise : ℤ
  pub fall : ℤ
  pub startup_timeout : ℤ
  pub probe : Probe
  pub passive : Bool

pub record Fallback : Type 0 where
  pub enabled : Bool
  pub servers : List String
  pub timeout : ℤ
  pub summary_interval : ℤ

pub record Admin : Type 0 where
  pub listen : String
  pub allow_control : Bool

pub record Log : Type 0 where
  pub level : String
  pub queries : Bool

pub record Config : Type 0 where
  pub listen : Listen
  pub strategy : String
  pub query : Query
  pub health : Health
  pub fallback : Fallback
  pub admin : Admin
  pub log : Log
  pub upstreams : List Upstream

abbrev pub has_code : ℕ → List ℕ → Bool
has_code code [] = false
has_code code (c ∷ codes) = c == code || has_code code codes

-- ShouldRetryRCode.
pub should_retry_rcode : Query → ℕ → Bool
should_retry_rcode q code = elim (q.retry_codes) [ none ↦ false | some codes ↦ has_code code codes ]

-- Default.
abbrev pub default_config : Config
default_config = record {
  listen = record { udp = ":53"; tcp = ":53" };
  strategy = strategy_random;
  query = record {
    timeout = pos 2000000000;
    max_attempts = pos 3;
    max_concurrent = pos 1024;
    retry_rcodes = "SERVFAIL" ∷ "REFUSED" ∷ [];
    retry_codes = none;
  };
  health = record {
    interval = pos 10000000000;
    timeout = pos 2000000000;
    rise = pos 2;
    fall = pos 2;
    startup_timeout = pos 3000000000;
    probe = record { name = "dns.google."; type_name = "A"; require_answer = false; qtype = 0 };
    passive = true;
  };
  fallback = record {
    enabled = true;
    servers = "8.8.8.8" ∷ "8.8.4.4" ∷ [];
    timeout = pos 2000000000;
    summary_interval = pos 86400000000000;
  };
  admin = record { listen = "127.0.0.1:8053"; allow_control = false };
  log = record { level = "info"; queries = false };
  upstreams = [];
}
