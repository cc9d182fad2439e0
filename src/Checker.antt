-- ===== src/Checker.antt =====
-- internal/health/health.go: the probe and its judgement, Bootstrap and Sweep. What a sweep meets
-- outside the process is the argument `Probing`: the transaction identifiers, the clock, what each
-- exchange gives, and the order in which the goroutines of the endpoints report: each probe and its
-- report, the callback included, is taken whole, one after another. Run, a ticker loop over Sweep,
-- and log lines are left out. Durations that are not positive are 0.
pub mod Sweeps
mod Examples
use Prim.Native.String.{◌++◌ as append}
use hole_balancer.Base.{
  ℕ, String, Bool, true, false, ◌&&◌, ◌||◌, List, [], ◌∷◌, Option, none, some, ◌==◌, if◌then◌else◌,
}
use hole_balancer.Dnsmsg.Header.{Error, Header, Parsed, ok, err, parse_header}
use hole_balancer.Dnsmsg.Codes.{rcode_string}
use hole_balancer.Dnsmsg.Message.{build_query}
use hole_balancer.Dnsclient.{Sent, received, lost}
use hole_balancer.Metrics.{inc}
use hole_balancer.System.{System, label, owner_name, sweep_done, probe_reported, initial_reported}

pub record Probing : Type 0 where
  pub name : List ℕ
  pub qtype : ℕ
  pub require_answer : Bool
  pub startup_timeout : ℕ
  pub id : ℕ → ℕ
  pub exchange : String → List ℕ → ℕ × Sent
  pub show_code : ℕ → String
  pub describe : Error → String
  pub mix : ℕ → ℕ → ℕ
  pub clock : ℕ → ℕ
  pub order : List ℕ → List ℕ
  pub finished : ℕ

-- The codes of a server that cannot answer: SERVFAIL, REFUSED and NOTIMP.
abbrev pub is_broken : ℕ → Bool
is_broken code = code == 2 || (code == 5 || code == 4)

-- What the header of a probe's response says: an error, or nothing.
pub judge_header : Probing → Header → Option String
judge_header c hdr =
    let code = rcode_string c.show_code hdr.rcode in
    if is_broken hdr.rcode
    then some (append "probe returned " code)
    else if c.require_answer && hdr.an_count == 0
    then some (append "probe returned " (append code " with no answer records"))
    else none

pub judge_response : Probing → List ℕ → Option String
judge_response c resp = elim (parse_header resp) [
  | err e ↦ some (append "probe response: " (c.describe e))
  | ok hdr ↦ judge_header c hdr
]

-- probe: the latency, and an error or nothing.
pub probe : Probing → ℕ → String → ℕ × Option String
probe c e addr = elim (build_query (c.id e) c.name c.qtype) [
  | err x ↦ (0, some (append "building probe query: " (c.describe x)))
  | ok query ↦
      let sent = c.exchange addr query in
      elim (sent.1) [
        | lost reason text ↦ (sent.0, some text)
        | received resp ↦ (sent.0, judge_response c resp)
      ]
]

abbrev pub is_ok : Option String → Bool
is_ok none = true
is_ok (some text) = false

pub count_check : ℕ → Option String → System → System
count_check e error s =
    let m = s.metrics in
    record s {
      metrics = record m {
        health_checks =
            inc
              (label "upstream" (owner_name s.pool e)
                ∷ label "endpoint" (s.pool.endpoint e).name
                ∷ label "result" (if is_ok error then "success" else "failure")
                ∷ [])
              m.health_checks;
      };
    }

-- The body of the loop of Sweep.
pub check_endpoint : Probing → ℕ → System → System
check_endpoint c e s =
    let r = probe c e (s.pool.endpoint e).addr in
    probe_reported c.mix (c.clock e) e (is_ok r.1) r.0 r.1 (count_check e r.1 s)

-- The body of the loop of Bootstrap.
pub check_initially : Probing → ℕ → System → System
check_initially c e s =
    let r = probe c e (s.pool.endpoint e).addr in
    initial_reported c.mix (c.clock e) e (is_ok r.1) r.0 r.1 (count_check e r.1 s)

-- forEachEndpoint, the calls in the order in which they report.
abbrev pub for_each_endpoint : (ℕ → System → System) → List ℕ → System → System
for_each_endpoint visit [] s = s
for_each_endpoint visit (e ∷ es) s = for_each_endpoint visit es (visit e s)

pub sweep : Probing → System → System
sweep c s =
    sweep_done c.finished (for_each_endpoint (check_endpoint c) (c.order s.pool.endpoints) s)

pub bootstrap : Probing → System → System
bootstrap c s =
    if c.startup_timeout == 0
    then s
    else sweep_done c.finished (for_each_endpoint (check_initially c) (c.order s.pool.endpoints) s)
