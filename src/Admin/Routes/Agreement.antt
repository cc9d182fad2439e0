-- ===== src/Admin/Routes/Agreement.antt =====
-- What every request keeps.
use hole_balancer.Base.{
  ℕ, String, Bool, true, false, not, List, [], ◌∷◌, Option, none, some, if_split, str_eq,
}
use hole_balancer.Pool.Types.{set_drained}
use hole_balancer.Pool.Members.{lookup}
use hole_balancer.Control.{Manager, Refusal}
use hole_balancer.Control.Agreement.{Agrees, Fine, change_strategy-Agrees, change_fallback-Agrees}
use hole_balancer.Control.Kept.{change_add-Agrees, change_remove-Agrees, change_drained-Agrees}
use hole_balancer.Admin.Types.{
  Server, Call, decoded, undecoded, Request, get_healthz, get_status, get_metrics, get_overview,
  get_stats, get_config, post_upstreams, delete_upstream, post_upstream_drain, put_fallback,
  put_strategy, post_stats_reset, post_drain, post_undrain, Response, fields, drain_state,
}
use hole_balancer.Admin.Changes.{
  settle, settle_added, answers, answers_fallback, drain_found, requested, normalised, not_blank,
  handle_add_upstream, handle_remove_upstream, handle_set_drain, handle_set_fallback,
  handle_set_strategy, handle_reset_stats, handle_drain,
}
use hole_balancer.Admin.Routes.{handle, handle_all}

abbrev Good : Server × Response → Type 0
Good (s, response) = Agrees s.control

settle-Good :
    (s : Server) (done : Server → Response) (r : Manager × Option Refusal)
    → Fine r
    → Good (settle s done r)
settle-Good s done (m, some e) h = h
settle-Good s done (m, none) h = h

settle_added-Good :
    (s : Server) (name : String) (r : Manager × Option Refusal)
    → Fine r
    → Good (settle_added s name r)
settle_added-Good s name (m, some e) h = h
settle_added-Good s name (m, none) h =
    if_split (λ (t : Server). Agrees t.control) s.has_probe _ _ (λ _. h) (λ _. h)

handle_drain-Good :
    (drain : Bool) (name : String) (s : Server)
    → Agrees s.control
    → Good (handle_drain drain name s)
unfolding handle_drain set_drained
handle_drain-Good drain name s h =
    if_split Good (str_eq name "") _ _ (λ _. h) (λ _. go (lookup s.control.pool name))
  where
    go : (o : Option ℕ) → Good (drain_found drain name s o)
    go none = h
    go (some u) = record { strategy = h.strategy; valid = h.valid; servers = h.servers }

handle-Good : (c : Call) (r : Request) (s : Server) → Agrees s.control → Good (handle c r s)
unfolding handle handle_add_upstream handle_remove_upstream handle_set_drain handle_set_fallback
    handle_set_strategy handle_reset_stats
handle-Good c get_healthz s h = h
handle-Good c get_status s h = h
handle-Good c get_metrics s h = h
handle-Good c get_overview s h = h
handle-Good c get_stats s h = h
handle-Good c get_config s h = h
handle-Good c (post_upstreams (undecoded e)) s h = h
handle-Good c (post_upstreams (decoded body)) s h =
    settle_added-Good s body.name _
      (change_add-Agrees c.written c.text (requested c.text body) s.control h)
handle-Good c (delete_upstream name) s h =
    settle-Good s (answers (fields (("status", "removed") ∷ ("upstream", name) ∷ []))) _
      (change_remove-Agrees c.written name s.control h)
handle-Good c (post_upstream_drain name (undecoded e)) s h = h
handle-Good c (post_upstream_drain name (decoded drained)) s h =
    settle-Good s (answers (drain_state name drained)) _
      (change_drained-Agrees name drained s.control h)
handle-Good c (put_fallback (undecoded e)) s h = h
handle-Good c (put_fallback (decoded body)) s h = settle-Good s (answers_fallback c.now) _ (
    change_fallback-Agrees c.written (normalised c.text) body.enabled
      (not_blank c.text body.servers) s.control h)
handle-Good c (put_strategy (undecoded e)) s h = h
handle-Good c (put_strategy (decoded name)) s h =
    settle-Good s (answers (fields (("strategy", name) ∷ []))) _
      (change_strategy-Agrees c.written name s.control h)
handle-Good c post_stats_reset s h =
    if_split Good (not s.control.allow_write) _ _ (λ _. h)
      (λ _. record { strategy = h.strategy; valid = h.valid; servers = h.servers })
handle-Good c (post_drain name) s h =
    if_split Good s.allow_control _ _ (λ _. handle_drain-Good true name s h) (λ _. h)
handle-Good c (post_undrain name) s h =
    if_split Good s.allow_control _ _ (λ _. handle_drain-Good false name s h) (λ _. h)

-- Through any sequence of requests, refused, saved or rolled back, the running server and the
-- configuration stay in agreement: the pool runs the configured strategy, which is a valid one, and
-- the resolver has the configured servers exactly where fallback is enabled.
pub handle_all-Agrees :
    (requests : List (Call × Request)) (s : Server)
    → Agrees s.control
    → Agrees (handle_all requests s).control
unfolding handle_all
handle_all-Agrees [] s h = h
handle_all-Agrees ((c, r) ∷ requests) s h =
    handle_all-Agrees requests (handle c r s).0 (handle-Good c r s h)
