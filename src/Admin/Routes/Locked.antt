-- ===== src/Admin/Routes/Locked.antt =====
-- The server while control is not allowed.
use hole_balancer.Base.{ℕ, false, List, [], ◌∷◌, ◌≡◌, refl, ◌∙◌, ap, All}
use hole_balancer.Control.ReadOnly.{
  change_add-read_only, change_remove-read_only, change_strategy-read_only,
  change_fallback-read_only, change_drained-read_only,
}
use hole_balancer.Admin.Types.{
  Server, Call, decoded, undecoded, Request, get_healthz, get_status, get_metrics, get_overview,
  get_stats, get_config, post_upstreams, delete_upstream, post_upstream_drain, put_fallback,
  put_strategy, post_stats_reset, post_drain, post_undrain, Response, fail_code,
}
use hole_balancer.Admin.Changes.{
  requested, normalised, not_blank, handle_add_upstream, handle_remove_upstream, handle_set_drain,
  handle_set_fallback, handle_set_strategy, handle_reset_stats,
}
use hole_balancer.Admin.Routes.{handle, handle_all}

-- The code of a request that asks for a change: a body that cannot be decoded comes first, and the
-- two plain drain routes are not there. A request that only reads may have any code.
abbrev pub HasRefusalCode : Request → ℕ → Type 0
HasRefusalCode get_healthz code = Unit
HasRefusalCode get_status code = Unit
HasRefusalCode get_metrics code = Unit
HasRefusalCode get_overview code = Unit
HasRefusalCode get_stats code = Unit
HasRefusalCode get_config code = Unit
HasRefusalCode (post_upstreams (undecoded e)) code = code ≡ 400
HasRefusalCode (post_upstreams (decoded body)) code = code ≡ 403
HasRefusalCode (delete_upstream name) code = code ≡ 403
HasRefusalCode (post_upstream_drain name (undecoded e)) code = code ≡ 400
HasRefusalCode (post_upstream_drain name (decoded body)) code = code ≡ 403
HasRefusalCode (put_fallback (undecoded e)) code = code ≡ 400
HasRefusalCode (put_fallback (decoded body)) code = code ≡ 403
HasRefusalCode (put_strategy (undecoded e)) code = code ≡ 400
HasRefusalCode (put_strategy (decoded body)) code = code ≡ 403
HasRefusalCode post_stats_reset code = code ≡ 403
HasRefusalCode (post_drain name) code = code ≡ 404
HasRefusalCode (post_undrain name) code = code ≡ 404

-- The server is as it was, and the code is the refusal's.
abbrev Refuses : Request → Server → Server × Response → Type 0
Refuses r s (t, response) = (t ≡ s) × HasRefusalCode r response.code

module _ (c : Call) (s : Server) (off : s.allow_control ≡ false)
    (closed : s.control.allow_write ≡ false) where
  handle-Refuses : (r : Request) → Refuses r s (handle c r s)
  unfolding handle handle_add_upstream handle_remove_upstream handle_set_drain handle_set_fallback
      handle_set_strategy handle_reset_stats fail_code
  handle-Refuses get_healthz = (refl, tt)
  handle-Refuses get_status = (refl, tt)
  handle-Refuses get_metrics = (refl, tt)
  handle-Refuses get_overview = (refl, tt)
  handle-Refuses get_stats = (refl, tt)
  handle-Refuses get_config = (refl, tt)
  handle-Refuses (post_upstreams (undecoded e)) = (refl, refl)
  handle-Refuses (post_upstreams (decoded body)) =
      rw (change_add-read_only c.written s.control closed c.text (requested c.text body))
        (refl, refl)
  handle-Refuses (delete_upstream name) =
      rw (change_remove-read_only c.written s.control closed name) (refl, refl)
  handle-Refuses (post_upstream_drain name (undecoded e)) = (refl, refl)
  handle-Refuses (post_upstream_drain name (decoded drained)) =
      rw (change_drained-read_only c.written s.control closed name drained) (refl, refl)
  handle-Refuses (put_fallback (undecoded e)) = (refl, refl)
  handle-Refuses (put_fallback (decoded body)) =
      rw
        (change_fallback-read_only c.written s.control closed (normalised c.text) body.enabled
          (not_blank c.text body.servers))
        (refl, refl)
  handle-Refuses (put_strategy (undecoded e)) = (refl, refl)
  handle-Refuses (put_strategy (decoded name)) =
      rw (change_strategy-read_only c.written s.control closed name) (refl, refl)
  handle-Refuses post_stats_reset = rw closed (refl, refl)
  handle-Refuses (post_drain name) = rw off (refl, refl)
  handle-Refuses (post_undrain name) = rw off (refl, refl)

-- While control is not allowed, no sequence of requests changes the server; each request for a
-- change is refused: with 400 where its body cannot be decoded, and else with 403, or with 404 for
-- the two drain routes, which are not registered.
pub handle_all-Refuses :
    (s : Server) (requests : List (Call × Request))
    → s.allow_control ≡ false
    → s.control.allow_write ≡ false
    → (handle_all requests s ≡ s) × All (λ x. HasRefusalCode x.1 (handle x.0 x.1 s).1.code) requests
unfolding handle_all
handle_all-Refuses s [] off closed = (refl, tt)
handle_all-Refuses s ((c, r) ∷ requests) off closed =
    let first = handle-Refuses c s off closed r in
    let later = handle_all-Refuses s requests off closed in
    (ap (handle_all requests) first.0 ∙ later.0, (first.1, later.1))
