-- ===== src/Proxy/Attempts.antt =====
-- internal/proxy/proxy.go: the loop of forward over the planned endpoints.
pub mod Race
pub mod Limits
pub mod Keep
use Prim.Native.String.{◌++◌ as append}
use hole_balancer.Base.{
  ℕ, zero, suc, ◌+◌, String, Bool, true, false, not, ◌&&◌, List, [], ◌∷◌, Option, none, some, ltb,
  ◌==◌, if◌then◌else◌, length, take,
}
use hole_balancer.Dnsmsg.Codes.{rcode_string}
use hole_balancer.Pool.Types.{Pool}
use hole_balancer.Fallback.Resolver.{enabled, rcode_of}
use hole_balancer.Metrics.{Label, inc}
use hole_balancer.System.{System, label, owner_name, all_down, query_reported}
use hole_balancer.Dnsclient.{Sent, received, lost}
use hole_balancer.Proxy.Types.{World, Query, Attempt, outage_probe_attempts}

-- How many endpoints are tried: all of the budget, or one while every Pi-hole is down and public DNS
-- is there.
pub attempts_for : Query → System → ℕ → ℕ
attempts_for cfg s planned =
    let attempts = if ltb planned cfg.max_attempts then planned else cfg.max_attempts in
    if enabled s.resolver && (all_down s.pool && ltb outage_probe_attempts attempts)
    then outage_probe_attempts
    else attempts

-- The labels of an endpoint, and one more.
endpoint_labels : Pool → ℕ → String → String → List Label
endpoint_labels p e name value =
    label "upstream" (owner_name p e) ∷ label "endpoint" (p.endpoint e).name ∷ label name value ∷ []

-- The start of round `i`: the attempt is counted, and a retry by the reason for it.
pub begin_attempt : ℕ → Attempt → Attempt
begin_attempt i st =
    let m = st.system.metrics in
    let counted = record (st.rec) { attempts = i + 1 } in
    if ltb 0 i
    then record st {
      rec = counted;
      system = record (st.system) {
        metrics = record m { retries = inc (label "reason" st.last_reason ∷ []) m.retries };
      };
    }
    else record st { rec = counted }

-- A round that failed: ReportQuery, and the failure counted by its reason.
pub failed_attempt : World → ℕ → ℕ → ℕ → String → String → Attempt → Attempt
unfolding endpoint_labels
failed_attempt w i e rtt reason text st =
    let s = query_reported w.mix (w.clock i) e false rtt (some text) st.system in
    let m = s.metrics in
    record st {
      system = record s {
        metrics = record m { failures = inc (endpoint_labels s.pool e "reason" reason) m.failures };
      };
      last_reason = reason;
    }

-- A round that was answered.
pub won_attempt : World → ℕ → ℕ → ℕ → List ℕ → Attempt → Attempt
unfolding endpoint_labels
won_attempt w i e rtt resp st =
    let s = query_reported w.mix (w.clock i) e true rtt none st.system in
    let m = s.metrics in
    let code = rcode_string w.show_code (rcode_of resp) in
    record st {
      system = record s {
        metrics = record m { responses = inc (endpoint_labels s.pool e "rcode" code) m.responses };
      };
      rec = record (st.rec) {
        upstream = owner_name s.pool e;
        endpoint = (s.pool.endpoint e).name;
        rcode = code;
      };
    }

abbrev pub code_reason : World → List ℕ → String
code_reason w resp = append "rcode_" (rcode_string w.show_code (rcode_of resp))

-- The text of the error that a retried code is reported with.
abbrev pub upstream_returned : World → List ℕ → String
upstream_returned w resp = append "upstream returned " (rcode_string w.show_code (rcode_of resp))

-- The loop of forward from round `i`, over the endpoints that are left of the budget. The message is
-- the one returned, if any.
pub try_attempts : World → Query → ℕ → List ℕ → Attempt → Attempt × Option (List ℕ)
try_attempts w cfg i [] st = (st, none)
try_attempts w cfg i (e ∷ es) st =
    if w.cancelled i
    then (record st { last_reason = "canceled" }, none)
    else let begun = begin_attempt i st in
      let sent = w.exchange i (begun.system.pool.endpoint e).addr in
      elim (sent.1) [
        | lost reason text ↦
            try_attempts w cfg (i + 1) es (failed_attempt w i e sent.0 reason text begun)
        | received resp ↦ elim (cfg.should_retry (rcode_of resp)) [
          | true ↦
              try_attempts w cfg (i + 1) es
                (record (failed_attempt w i e sent.0 (code_reason w resp) (upstream_returned w resp)
                  begun) { last_resp = some resp })
          | false ↦ (won_attempt w i e sent.0 resp begun, some resp)
        ]
      ]
