-- ===== src/Proxy/Forward.antt =====
-- internal/proxy/proxy.go: Resolve, forward around its loop, resolveViaFallback and overloaded.
pub mod Budget
pub mod Filed
pub mod Ends
pub mod Kept
pub mod Replies
use hole_balancer.Base.{
  ℕ, zero, suc, ◌+◌, String, Bool, true, false, not, ◌&&◌, List, [], ◌∷◌, Option, none, some, ltb,
  ◌==◌, if◌then◌else◌, length, take,
}
use hole_balancer.Dnsmsg.Header.{Parsed, ok, err, parse_header}
use hole_balancer.Dnsmsg.Codes.{rcode_string, type_string}
use hole_balancer.Dnsmsg.Message.{Question, parse_question, error_response}
use hole_balancer.Pool.Plan.{plan}
use hole_balancer.Fallback.Resolver.{
  Resolver, enabled, rcode_of, answer, refused, panics, resolve, record_notes, count_notes,
}
use hole_balancer.Stats.{Record, add_record}
use hole_balancer.Metrics.{inc, observe_seconds}
use hole_balancer.System.{System, label}
use hole_balancer.Proxy.Types.{World, Query, Attempt, new_record, serv_fail}
use hole_balancer.Proxy.Attempts.{attempts_for, try_attempts}

-- resolveViaFallback: the loop variables after it, and the message, if any; `none` is a panic.
pub resolve_via_fallback : World → Attempt → Option (Attempt × Option (List ℕ))
resolve_via_fallback w st =
    let s = st.system in
    let r = resolve s.resolver w.fallback_cancelled w.fallback_exchange in
    let asked = record s {
      resolver = r.2;
      tracker = record_notes r.1 s.tracker;
      metrics = count_notes w.show_code r.1 s.metrics;
    } in
    if not (enabled s.resolver) then some (st, none) else elim (r.0) [
      | panics ↦ none
      | refused e ↦ some (record st { system = asked }, none)
      | answer resp server ↦ some (
        record st {
          system = asked;
          rec = record (st.rec) {
            fallback = true;
            upstream = "";
            endpoint = server;
            rcode = rcode_string w.show_code (rcode_of resp);
          };
        },
        some resp,
      )
    ]

-- The deferred call of record; there is a collector.
pub file_record : World → Attempt → System
file_record w st =
    let s = st.system in
    record s {
      stats = add_record w.zone (w.clock 0) (record (st.rec) { latency = w.elapsed }) s.stats;
    }

-- The code of the record of a failed query: the last retryable response's, or SERVFAIL.
pub with_code : World → Option (List ℕ) → Record → Record
with_code w none r = record r { rcode = rcode_string w.show_code serv_fail }
with_code w (some resp) r = elim (parse_header resp) [
  | err e ↦ r
  | ok hdr ↦ record r { rcode = rcode_string w.show_code hdr.rcode }
]

-- What forward does once nothing has answered: the last retryable response, or a new SERVFAIL.
pub give_up : World → List ℕ → Attempt → System × Option (List ℕ)
give_up w req st =
    let s = st.system in
    let m = s.metrics in
    (
      file_record w (record st {
        system = record s { metrics = record m { servfails = inc [] m.servfails } };
        rec = with_code w st.last_resp (record (st.rec) { failed = true });
      }),
      elim (st.last_resp) [ none ↦ error_response req serv_fail | some resp ↦ some resp ],
    )

-- forward after its loop.
pub after_attempts : World → List ℕ → Attempt × Option (List ℕ) → Option (System × Option (List ℕ))
after_attempts w req (st, some resp) = some (file_record w st, some resp)
after_attempts w req (st, none) = elim (resolve_via_fallback w st) [
  | none ↦ none
  | some (st', some resp) ↦ some (file_record w st', some resp)
  | some (st', none) ↦ some (give_up w req st')
]

abbrev pub query_type : World → List ℕ → String
query_type w req = elim (parse_question req) [ err e ↦ "" | ok q ↦ type_string w.show_type q.qtype ]

abbrev pub start_attempt : World → List ℕ → String → System → Attempt
start_attempt w req proto s = record {
  system = s;
  rec = new_record proto (query_type w req);
  last_resp = none;
  last_reason = "no_attempt";
}

-- forward: the system after it and the reply, `none` for nil; a panic is `none` as a whole.
pub forward : World → Query → System → List ℕ → String → Option (System × Option (List ℕ))
forward w cfg s req proto = elim (plan s.pool w.draws) [
  | none ↦ none
  | some (es, q) ↦
      let planned = record s { pool = q } in
      after_attempts w req (
        try_attempts w cfg 0 (take (attempts_for cfg planned (length es)) es)
          (start_attempt w req proto planned))
]

-- Server.Resolve: a message that is too short, or a response, is dropped.
unfoldable pub resolve_query :
    World → Query → System → List ℕ → String → Option (System × Option (List ℕ))
resolve_query w cfg s req proto =
    let m = s.metrics in
    let counted = record s {
      metrics = record m { queries = inc (label "proto" proto ∷ []) m.queries };
    } in
    elim (parse_header req) [
      | err e ↦ some (counted, none)
      | ok hdr ↦ if hdr.qr then some (counted, none) else elim (forward w cfg counted req proto) [
        | none ↦ none
        | some (t, reply) ↦
            let n = t.metrics in
            some (
              record t {
                metrics = record n { duration = observe_seconds w.micro w.elapsed n.duration };
              },
              reply,
            )
      ]
    ]

-- overloaded: the reply at the concurrency limit.
pub overloaded : System → List ℕ → System × Option (List ℕ)
overloaded s req =
    let m = s.metrics in
    (
      record s {
        metrics = record m {
          failures =
              inc
                (label "upstream" "none"
                  ∷ label "endpoint" "none"
                  ∷ label "reason" "overloaded"
                  ∷ [])
                m.failures;
        };
      },
      error_response req serv_fail,
    )
