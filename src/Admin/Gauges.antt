-- ===== src/Admin/Gauges.antt =====
-- internal/admin/admin.go: gauges and handleMetrics.
use hole_balancer.Base.{String, List, [], ◌∷◌, ◌++◌, flat_map}
use hole_balancer.Pool.Status.{EndpointStatus, UpstreamStatus, status}
use hole_balancer.Metrics.{Label}
use hole_balancer.System.{label}
use hole_balancer.Admin.Types.{
  Server, Call, Gauge, Reading, flag, latency, Response, respond, shown_metrics,
}
use hole_balancer.Admin.Views.{fallback_status}
use hole_balancer.Base.{true}

abbrev gauge : String → String → List Label → Reading → Gauge
gauge name help labels value = record { name = name; help = help; labels = labels; value = value }

-- The body of the first loop.
abbrev pub upstream_gauges : UpstreamStatus → List Gauge
upstream_gauges u =
    gauge "holebalancer_upstream_up" "1 if at least one path to this Pi-hole is answering."
      (label "upstream" u.name ∷ []) (flag u.healthy)
    ∷ gauge "holebalancer_upstream_drained" "1 if this Pi-hole has been drained for maintenance."
        (label "upstream" u.name ∷ []) (flag u.drained)
    ∷ []

-- The body of the second loop.
abbrev pub endpoint_gauges : UpstreamStatus → EndpointStatus → List Gauge
endpoint_gauges u e =
    let labels : List Label =
      label "upstream" u.name ∷ label "endpoint" e.name ∷ label "addr" e.addr ∷ [] in
    gauge "holebalancer_endpoint_up" "1 if this network path to a Pi-hole is answering." labels
      (flag e.healthy)
    ∷ gauge "holebalancer_endpoint_latency_seconds"
        "Exponentially weighted mean round-trip time for this path." labels (latency e.latency)
    ∷ []

unfoldable pub gauges : Call → Server → List Gauge
gauges c s =
    let ups = status s.control.pool in
    (gauge "holebalancer_build_info" "Build information; always 1." (label "version" s.version ∷ [])
        (flag true)
      ∷ gauge "holebalancer_fallback_active"
          "1 while queries are being answered by public DNS because no Pi-hole is up." []
          (flag (fallback_status c.now s).active)
      ∷ [])
    ++ flat_map upstream_gauges ups
    ++ flat_map (λ (u : UpstreamStatus). flat_map (endpoint_gauges u) u.endpoints) ups

-- handleMetrics.
abbrev pub handle_metrics : Call → Server → Response
handle_metrics c s = respond 200 (shown_metrics s.metrics (gauges c s))
