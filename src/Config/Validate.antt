-- ===== src/Config/Validate.antt =====
-- internal/config/config.go: normaliseAddr, PrepareUpstream and Validate. The functions of Go's
-- strings, net, strconv and fmt that they call are the argument `Text`. Validate writes its
-- results into the document as it goes; here they are in the document that it returns, and after an
-- error, when Parse drops the document, there is none.
pub mod Usable
pub mod Starts
pub mod Demo
mod Examples
use Prim.Native.String.{◌++◌ as append}
use hole_balancer.Base.{
  ℕ, zero, suc, ◌+◌, String, Bool, true, false, not, ◌&&◌, ◌||◌, List, [], ◌∷◌, Option, none, some,
  ltb, ◌==◌, str_eq, if◌then◌else◌, length,
}
use hole_balancer.Base.Int.{ℤ, pos, negsuc, ltb_ℤ}
use hole_balancer.Base.Tables.{find, put}
use hole_balancer.Dnsmsg.Codes.{parse_rcode, parse_type}
use hole_balancer.Config.Types.{Endpoint, Upstream, contains, valid_strategy}
use hole_balancer.Config.Document.{Config, Query, Health, Probe, Fallback}
use hole_balancer.Config.Checked.{
  Problem, no_listener, bad_strategy, not_positive, below_one, bad_code, bad_type, no_probe_name,
  no_resolver, duplicate_resolver, bad_level, no_upstream, no_name, bad_name, duplicate_name,
  negative_weight, no_endpoint, listed_twice, address_in_use, no_address, bare_ipv6, no_host,
  bad_port, Checked, valid, invalid, ◌>>=◌, ◌>>◌, require,
}

-- `fold` is strings.ToUpper after strings.TrimSpace; `is_port` says whether ParseUint reads 16 bits.
pub record Text : Type 0 where
  pub trim_space : String → String
  pub fold : String → String
  pub contains_any : String → String → Bool
  pub has_suffix : String → String → Bool
  pub split_host_port : String → Option (String × String)
  pub join_host_port : String → String → String
  pub is_ip : String → Bool
  pub is_port : String → Bool
  pub show : ℕ → String

abbrev pub default_dns_port : String
default_dns_port = "53"

module _ (text : Text) where
  with_port : String → Checked String
  with_port addr =
      if text.is_ip addr
      then valid (text.join_host_port addr default_dns_port)
      else if text.contains_any addr ":"
      then invalid (bare_ipv6 addr)
      else valid (text.join_host_port addr default_dns_port)

  pub normalise_addr : String → Checked String
  unfolding with_port
  normalise_addr raw =
      let addr = text.trim_space raw in
      if str_eq addr "" then invalid no_address else elim (text.split_host_port addr) [
        | none ↦ with_port addr
        | some (host, port) ↦ do
          require (not (str_eq host "")) (no_host addr)
          require (text.is_port port) (bad_port addr)
          valid (text.join_host_port host port)
      ]

  abbrev or_default : String → String → String
  or_default name value = if str_eq name "" then value else name

  -- A weight of 0 is 1.
  pub checked_weight : String → ℤ → Checked ℤ
  checked_weight name (pos zero) = valid (pos 1)
  checked_weight name (pos (suc n)) = valid (pos (suc n))
  checked_weight name (negsuc n) = invalid (negative_weight name)

  -- The loop of PrepareUpstream over the endpoints.
  pub prepare_paths : List String → List Endpoint → Checked (List Endpoint)
  prepare_paths seen [] = valid []
  prepare_paths seen (ep ∷ eps) = do
    addr ← normalise_addr ep.addr
    require (not (contains seen addr)) (listed_twice addr)
    cleaned ← prepare_paths (addr ∷ seen) eps
    valid (record { name = or_default ep.name addr; addr = addr } ∷ cleaned)

  pub prepare_upstream : Upstream → Checked Upstream
  prepare_upstream u = do
    let name = text.trim_space u.name
    require (not (str_eq name "")) no_name
    require (not (text.contains_any name "/?#\\")) bad_name
    weight ← checked_weight name u.weight
    require (not (length u.endpoints == 0)) (no_endpoint name)
    cleaned ← prepare_paths [] u.endpoints
    valid (record { name = name; weight = weight; endpoints = cleaned })

  -- The map of Validate from retry codes; its keys.
  pub resolve_codes : List String → Checked (List ℕ)
  resolve_codes [] = valid []
  resolve_codes (name ∷ names) = elim (parse_rcode text.fold name) [
    | none ↦ invalid (bad_code name)
    | some code ↦ do codes ← resolve_codes names; valid (code ∷ codes)
  ]

  pub check_query : Query → Checked Query
  check_query q = do
    require (ltb_ℤ (pos 0) q.timeout) (not_positive "query.timeout")
    require (not (ltb_ℤ q.max_attempts (pos 1))) (below_one "query.max_attempts")
    require (not (ltb_ℤ q.max_concurrent (pos 1))) (below_one "query.max_concurrent")
    codes ← resolve_codes q.retry_rcodes
    valid (record q { retry_codes = some codes })

  pub resolve_type : String → Checked ℕ
  resolve_type name = elim (parse_type text.fold name) [
    | none ↦ invalid (bad_type name)
    | some qtype ↦ valid qtype
  ]

  pub check_health : Health → Checked Health
  check_health h = do
    require (ltb_ℤ (pos 0) h.interval) (not_positive "health.interval")
    require (ltb_ℤ (pos 0) h.timeout) (not_positive "health.timeout")
    require (not (ltb_ℤ h.rise (pos 1))) (below_one "health.rise")
    require (not (ltb_ℤ h.fall (pos 1))) (below_one "health.fall")
    qtype ← resolve_type h.probe.type_name
    require (not (str_eq h.probe.name "")) no_probe_name
    let name = h.probe.name
    let full = if text.has_suffix name "." then name else append name "."
    let p = h.probe
    valid (record h { probe = record p { qtype = qtype; name = full } })

  -- The loop of Validate over the public resolvers.
  pub resolver_addrs : List String → List String → Checked (List String)
  resolver_addrs seen [] = valid []
  resolver_addrs seen (raw ∷ rest) = do
    addr ← normalise_addr raw
    require (not (contains seen addr)) (duplicate_resolver addr)
    later ← resolver_addrs (addr ∷ seen) rest
    valid (addr ∷ later)

  pub check_fallback : Fallback → Checked Fallback
  check_fallback f = if not f.enabled then valid f else do
    require (not (length f.servers == 0)) no_resolver
    require (ltb_ℤ (pos 0) f.timeout) (not_positive "fallback.timeout")
    require (ltb_ℤ (pos 0) f.summary_interval) (not_positive "fallback.summary_interval")
    servers ← resolver_addrs [] f.servers
    valid (record f { servers = servers })

  -- The inner loop of Validate, over the endpoints of one upstream. `seen` maps an address to the name
  -- of its upstream.
  pub prepare_endpoints :
      String
      → List (String × String)
      → List Endpoint
      → Checked (List Endpoint × List (String × String))
  prepare_endpoints owner seen [] = valid ([], seen)
  prepare_endpoints owner seen (ep ∷ eps) = do
    addr ← normalise_addr ep.addr
    elim (find addr seen) [
      | some other ↦ invalid (address_in_use owner addr other)
      | none ↦ do
        r ← prepare_endpoints owner (put addr owner seen) eps
        valid (record { name = or_default ep.name addr; addr = addr } ∷ r.0, r.1)
    ]

  -- The loop of Validate over the upstreams, from index `i`.
  pub prepare_upstreams :
      ℕ → List String → List (String × String) → List Upstream → Checked (List Upstream)
  prepare_upstreams i names seen [] = valid []
  prepare_upstreams i names seen (u ∷ us) = do
    let name = or_default u.name (append "upstream-" (text.show (i + 1)))
    require (not (contains names name)) (duplicate_name name)
    weight ← checked_weight name u.weight
    require (not (length u.endpoints == 0)) (no_endpoint name)
    r ← prepare_endpoints name seen u.endpoints
    later ← prepare_upstreams (i + 1) (name ∷ names) r.1 us
    valid (record { name = name; weight = weight; endpoints = r.0 } ∷ later)

  pub validate : Config → Checked Config
  validate c = do
    require (not (str_eq c.listen.udp "" && str_eq c.listen.tcp "")) no_listener
    require (valid_strategy c.strategy) (bad_strategy c.strategy)
    query ← check_query c.query
    health ← check_health c.health
    fallback ← check_fallback c.fallback
    require (contains ("debug" ∷ "info" ∷ "warn" ∷ "error" ∷ []) c.log.level)
        (bad_level c.log.level)
    require (not (length c.upstreams == 0)) no_upstream
    upstreams ← prepare_upstreams 0 [] [] c.upstreams
    valid (record c { query = query; health = health; fallback = fallback; upstreams = upstreams })
