-- ===== src/Admin/Changes.antt =====
-- internal/admin/api.go and admin.go: the handlers that change the running process.
use hole_balancer.Base.{
  ℕ, ◌+◌, String, Bool, not, List, [], ◌∷◌, map, keep, Option, none, some, str_eq, if◌then◌else◌,
}
use Prim.Native.String.{◌++◌ as append}
use hole_balancer.Config.Types.{Upstream}
use hole_balancer.Config.Checked.{valid, invalid}
use hole_balancer.Config.Validate.{Text, normalise_addr}
use hole_balancer.Pool.Types.{set_drained}
use hole_balancer.Pool.Members.{lookup}
use hole_balancer.Stats.{reset}
use hole_balancer.Control.{
  Manager, Refusal, read_only, change_add, change_remove, change_drained, change_strategy,
  change_fallback,
}
use hole_balancer.Admin.Types.{
  Server, Call, Body, decoded, undecoded, UpstreamRequest, FallbackRequest, Content, Response,
  respond, fail, bad_request, line, unknown_upstream, fields, drain_state, shown_fallback,
}
use hole_balancer.Admin.Views.{fallback_status}

-- The entries that are not blank.
abbrev pub not_blank : Text → List String → List String
not_blank text = keep (λ s. not (str_eq (text.trim_space s) ""))

-- The upstream that handleAddUpstream makes of a request.
abbrev pub requested : Text → UpstreamRequest → Upstream
requested text req = record {
  name = req.name;
  weight = req.weight;
  endpoints = map (λ addr. record { name = ""; addr = addr }) (not_blank text req.endpoints);
}

-- config.NormaliseAddr.
abbrev pub normalised : Text → String → Option String
normalised text addr = elim (normalise_addr text addr) [ valid a ↦ some a | invalid p ↦ none ]

-- What a handler answers after a call of the control manager: the response of fail, or its own.
abbrev pub settle : Server → (Server → Response) → Manager × Option Refusal → Server × Response
settle s done (m, some e) = (record s { control = m }, fail e)
settle s done (m, none) = let t = record s { control = m } in (t, done t)

abbrev pub answers : Content → Server → Response
answers content t = respond 200 content

abbrev pub answers_fallback : ℕ → Server → Response
answers_fallback now t = respond 200 (shown_fallback (fallback_status now t))

-- probeNow.
abbrev pub probe_now : Server → Server
probe_now s = if s.has_probe then record s { sweeps = s.sweeps + 1 } else s

-- The end of handleAddUpstream.
abbrev pub settle_added : Server → String → Manager × Option Refusal → Server × Response
settle_added s name (m, some e) = (record s { control = m }, fail e)
settle_added s name (m, none) = (
  probe_now (record s { control = m }),
  respond 201 (fields (("status", "added") ∷ ("upstream", name) ∷ [])),
)

unfoldable pub handle_add_upstream : Call → Body UpstreamRequest → Server → Server × Response
handle_add_upstream c (undecoded e) s = (s, bad_request e)
handle_add_upstream c (decoded req) s =
    settle_added s req.name (change_add c.written c.text (requested c.text req) s.control)

unfoldable pub handle_remove_upstream : Call → String → Server → Server × Response
handle_remove_upstream c name s =
    settle s (answers (fields (("status", "removed") ∷ ("upstream", name) ∷ [])))
      (change_remove c.written name s.control)

unfoldable pub handle_set_drain : String → Body Bool → Server → Server × Response
handle_set_drain name (undecoded e) s = (s, bad_request e)
handle_set_drain name (decoded drained) s =
    settle s (answers (drain_state name drained)) (change_drained name drained s.control)

unfoldable pub handle_set_fallback : Call → Body FallbackRequest → Server → Server × Response
handle_set_fallback c (undecoded e) s = (s, bad_request e)
handle_set_fallback c (decoded req) s = settle s (answers_fallback c.now) (
    change_fallback c.written (normalised c.text) req.enabled (not_blank c.text req.servers)
      s.control)

unfoldable pub handle_set_strategy : Call → Body String → Server → Server × Response
handle_set_strategy c (undecoded e) s = (s, bad_request e)
handle_set_strategy c (decoded name) s =
    settle s (answers (fields (("strategy", name) ∷ []))) (change_strategy c.written name s.control)

unfoldable pub handle_reset_stats : Call → Server → Server × Response
handle_reset_stats c s =
    let m = s.control in
    if not m.allow_write then (s, fail read_only) else (
      record s { control = record m { stats = reset c.now m.stats } },
      respond 200 (fields (("status", "reset") ∷ [])),
    )

-- handleDrain once the name was looked up.
abbrev pub drain_found : Bool → String → Server → Option ℕ → Server × Response
drain_found drain name s none = (s, respond 404 (unknown_upstream name))
drain_found drain name s (some u) =
    let m = s.control in
    (
      record s { control = record m { pool = set_drained m.pool u drain } },
      respond 200 (
          line
            (append name (append " " (if drain then "drained\n" else "returned to rotation\n")))),
    )

-- handleDrain: it works on the pool itself.
unfoldable pub handle_drain : Bool → String → Server → Server × Response
handle_drain drain name s =
    if str_eq name ""
    then (s, respond 400 (line "missing required query parameter: upstream\n"))
    else drain_found drain name s (lookup s.control.pool name)
