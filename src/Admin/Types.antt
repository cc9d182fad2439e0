-- ===== src/Admin/Types.antt =====
-- internal/admin/admin.go and internal/admin/api.go: the server, its requests and its responses. The
-- collector of statistics is there, and the pool, the resolver and the statistics of the server are
-- those of its control manager. The text of an error and the layout of JSON and of text are left out.
use hole_balancer.Base.{ℕ, String, Bool, List, Option}
use hole_balancer.Base.Int.{ℤ}
use hole_balancer.Config.Validate.{Text}
use hole_balancer.Control.{
  Manager, Settings, Refusal, read_only, pool_error, invalid_upstream, invalid_resolver,
  listed_twice, no_resolver, not_saved,
}
use hole_balancer.Pool.Members.{
  not_found, duplicate_name, last_upstream, address_used, unknown_strategy,
}
use hole_balancer.Pool.Status.{UpstreamStatus}
use hole_balancer.Fallback.Tracker.{Tracker}
use hole_balancer.Stats.Snapshot.{Snapshot}
use hole_balancer.Metrics.{Metrics, Label}

-- `has_probe` is whether ProbeNow is set, and `sweeps` the sweeps that it was asked for.
pub record Server : Type 0 where
  pub control : Manager
  pub path : String
  pub tracker : Option Tracker
  pub metrics : Metrics
  pub allow_control : Bool
  pub version : String
  pub started : ℕ
  pub has_probe : Bool
  pub sweeps : ℕ

-- What a request meets outside the process: the clock and the time zone, whether the configuration is written, and the
-- functions on texts.
pub record Call : Type 0 where
  pub now : ℕ
  pub zone : ℕ
  pub written : Bool
  pub text : Text

-- What decode gives: the body, or the error of the JSON decoder.
pub data Body {ℓ} (A : Type ℓ) : Type ℓ where
  decoded : A → Body A
  undecoded : String → Body A

pub record UpstreamRequest : Type 0 where
  pub name : String
  pub weight : ℤ
  pub endpoints : List String

pub record FallbackRequest : Type 0 where
  pub enabled : Bool
  pub servers : List String

-- The routes. `name` of a drain is the path value, or the query parameter `upstream`.
pub data Request : Type 0 where
  get_healthz : Request
  get_status : Request
  get_metrics : Request
  get_overview : Request
  get_stats : Request
  get_config : Request
  post_upstreams : Body UpstreamRequest → Request
  delete_upstream : String → Request
  post_upstream_drain : String → Body Bool → Request
  put_fallback : Body FallbackRequest → Request
  put_strategy : Body String → Request
  post_stats_reset : Request
  post_drain : String → Request
  post_undrain : String → Request

pub record FallbackStatus : Type 0 where
  pub enabled : Bool
  pub active : Bool
  pub servers : List String
  pub since : Option ℕ
  pub queries : ℕ
  pub outages : ℕ

pub record ControlStatus : Type 0 where
  pub enabled : Bool
  pub config_path : String
  pub reason : String

-- statusResponse.
pub record StatusResponse : Type 0 where
  pub version : String
  pub uptime : ℕ
  pub strategy : String
  pub healthy : ℕ
  pub total : ℕ
  pub fallback : FallbackStatus
  pub upstreams : List UpstreamStatus

-- overviewResponse, which has the fields of statusResponse and two more.
pub record OverviewResponse : Type 0 where
  pub version : String
  pub uptime : ℕ
  pub strategy : String
  pub strategies : List String
  pub healthy : ℕ
  pub total : ℕ
  pub fallback : FallbackStatus
  pub upstreams : List UpstreamStatus
  pub control : ControlStatus

-- The value of a gauge: a flag, or a latency in nanoseconds.
pub data Reading : Type 0 where
  flag : Bool → Reading
  latency : ℕ → Reading

pub record Gauge : Type 0 where
  pub name : String
  pub help : String
  pub labels : List Label
  pub value : Reading

pub data Content : Type 0 where
  line : String → Content
  unknown_upstream : String → Content
  invalid_body : String → Content
  refused : Refusal → Content
  fields : List (String × String) → Content
  drain_state : String → Bool → Content
  shown_fallback : FallbackStatus → Content
  shown_status : StatusResponse → Content
  shown_overview : OverviewResponse → Content
  shown_stats : Snapshot → Content
  shown_config : Settings → Content
  shown_metrics : Metrics → List Gauge → Content

pub record Response : Type 0 where
  pub code : ℕ
  pub content : Content

-- The status code of fail.
unfoldable pub fail_code : Refusal → ℕ
fail_code read_only = 403
fail_code (pool_error (not_found name)) = 404
fail_code (pool_error (duplicate_name name)) = 409
fail_code (pool_error last_upstream) = 409
fail_code (pool_error (address_used addr name)) = 400
fail_code (pool_error (unknown_strategy name)) = 400
fail_code (invalid_upstream p) = 400
fail_code (invalid_resolver server) = 400
fail_code (listed_twice addr) = 400
fail_code no_resolver = 400
fail_code not_saved = 400

abbrev pub respond : ℕ → Content → Response
respond code content = record { code = code; content = content }

-- fail.
abbrev pub fail : Refusal → Response
fail e = respond (fail_code e) (refused e)

-- The response of decode.
abbrev pub bad_request : String → Response
bad_request e = respond 400 (invalid_body e)
