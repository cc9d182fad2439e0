-- ===== src/Admin/Routes.antt =====
-- internal/admin: Handler and apiRoutes. The pages of the interface and the text summary are left
-- out, as is what net/http itself answers to a route that is not registered, but for its code.

pub mod Locked
pub mod Agreement
use hole_balancer.Base.{Bool, true, false, List, [], ◌∷◌, if◌then◌else◌, String}
use hole_balancer.Admin.Types.{
  Server, Call, Request, get_healthz, get_status, get_metrics, get_overview, get_stats, get_config,
  post_upstreams, delete_upstream, post_upstream_drain, put_fallback, put_strategy,
  post_stats_reset, post_drain, post_undrain, Response, respond, line,
}
use hole_balancer.Admin.Views.{
  handle_healthz, handle_status, handle_overview, handle_stats, handle_config,
}
use hole_balancer.Admin.Gauges.{handle_metrics}
use hole_balancer.Admin.Changes.{
  handle_add_upstream, handle_remove_upstream, handle_set_drain, handle_set_fallback,
  handle_set_strategy, handle_reset_stats, handle_drain,
}

-- The answer of the router to an unknown route.
abbrev pub unknown_route : Response
unknown_route = respond 404 (line "404 page not found\n")

-- One request: the server after it, and the response. The two last routes are registered only where
-- the configuration allows control.
unfoldable pub handle : Call → Request → Server → Server × Response
handle c get_healthz s = (s, handle_healthz c s)
handle c get_status s = (s, handle_status c s)
handle c get_metrics s = (s, handle_metrics c s)
handle c get_overview s = (s, handle_overview c s)
handle c get_stats s = (s, handle_stats c s)
handle c get_config s = (s, handle_config s)
handle c (post_upstreams body) s = handle_add_upstream c body s
handle c (delete_upstream name) s = handle_remove_upstream c name s
handle c (post_upstream_drain name body) s = handle_set_drain name body s
handle c (put_fallback body) s = handle_set_fallback c body s
handle c (put_strategy body) s = handle_set_strategy c body s
handle c post_stats_reset s = handle_reset_stats c s
handle c (post_drain name) s =
    if s.allow_control then handle_drain true name s else (s, unknown_route)
handle c (post_undrain name) s =
    if s.allow_control then handle_drain false name s else (s, unknown_route)

-- Several requests, one after the other.
unfoldable pub handle_all : List (Call × Request) → Server → Server
handle_all [] s = s
handle_all ((c, r) ∷ requests) s = handle_all requests (handle c r s).0
