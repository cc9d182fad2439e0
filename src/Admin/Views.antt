-- ===== src/Admin/Views.antt =====
-- internal/admin/admin.go and internal/admin/api.go: what the server shows of its state.
-- A handler reads one state: the source reads it in several calls, each under its own lock.
use hole_balancer.Base.{
  ℕ, ◌-◌, String, true, false, not, ◌&&◌, none, some, ◌==◌, str_eq, if◌then◌else◌, length, ltb,
}
use Prim.Native.String.{◌++◌ as append}
use hole_balancer.Config.Types.{valid_strategies}
use hole_balancer.Pool.Members.{healthy_upstreams}
use hole_balancer.Pool.Status.{status}
use hole_balancer.Fallback.Tracker.{snapshot_locked}
use hole_balancer.Stats.Snapshot.{snapshot}
use hole_balancer.Control.{Manager}
use hole_balancer.Admin.Types.{
  Server, Call, FallbackStatus, ControlStatus, OverviewResponse, Response, respond, line,
  shown_status, shown_overview, shown_stats, shown_config,
}

-- Manager.ConfigPath, for the path that the manager was made with.
abbrev pub config_path : String → Manager → String
config_path path m = if not m.persist then "" else path

unfoldable pub control_status : Server → ControlStatus
control_status s =
    if not s.control.allow_write
    then record {
      enabled = false;
      config_path = "";
      reason = "Set admin.allow_control: true in the configuration to make changes here.";
    }
    else record {
      enabled = true;
      config_path = config_path s.path s.control;
      reason =
          if str_eq (config_path s.path s.control) ""
          then "Changes apply immediately but are not saved: no configuration file to write to."
          else "";
    }

unfoldable pub fallback_status : ℕ → Server → FallbackStatus
fallback_status now s =
    let servers = s.control.fallback.servers in
    let enabled = ltb 0 (length servers) in
    let active = enabled && (healthy_upstreams s.control.pool == 0) in
    elim (s.tracker) [
      | none ↦ record {
        enabled = enabled;
        active = active;
        servers = servers;
        since = none;
        queries = 0;
        outages = 0;
      }
      | some t ↦
          let snap = snapshot_locked now t in
          record {
            enabled = enabled;
            active = active;
            servers = servers;
            since = some snap.start;
            queries = snap.queries;
            outages = snap.episodes;
          }
    ]

-- handleHealthz.
unfoldable pub handle_healthz : Call → Server → Response
handle_healthz c s =
    let healthy = healthy_upstreams s.control.pool in
    if healthy == 0
    then respond 503 (line "unhealthy: no upstream Pi-hole is answering\n")
    else respond 200 (
        line (
          append "ok: " (
            append (c.text.show healthy) (
              append "/"
                (append (c.text.show (length s.control.pool.upstreams)) " upstreams healthy\n")))))

-- handleStatus.
unfoldable pub handle_status : Call → Server → Response
handle_status c s = respond 200 (
    shown_status (record {
      version = s.version;
      uptime = c.now - s.started;
      strategy = s.control.pool.strategy;
      healthy = healthy_upstreams s.control.pool;
      total = length s.control.pool.upstreams;
      fallback = fallback_status c.now s;
      upstreams = status s.control.pool;
    }))

abbrev pub overview_of : Call → Server → OverviewResponse
overview_of c s = record {
  version = s.version;
  uptime = c.now - s.started;
  strategy = s.control.pool.strategy;
  strategies = valid_strategies;
  healthy = healthy_upstreams s.control.pool;
  total = length s.control.pool.upstreams;
  fallback = fallback_status c.now s;
  upstreams = status s.control.pool;
  control = control_status s;
}

-- handleOverview.
unfoldable pub handle_overview : Call → Server → Response
handle_overview c s = respond 200 (shown_overview (overview_of c s))

-- handleStats.
abbrev pub handle_stats : Call → Server → Response
handle_stats c s = respond 200 (shown_stats (snapshot c.zone c.now s.control.stats))

-- handleConfig.
abbrev pub handle_config : Server → Response
handle_config s = respond 200 (shown_config s.control.cfg)
