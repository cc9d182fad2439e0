-- ===== src/Proxy/Forward/Ends.antt =====
-- How forward ends after its loop: the reply, and the record that is filed.
use hole_balancer.Base.{
  ℕ, ◌^◌, ◌<◌, ◌≡◌, refl, ◌∙◌, String, true, false, not, ◌&&◌, List, Option, none, some, Bool-cases,
  inl, inr,
}
use hole_balancer.Dnsmsg.Codes.{rcode_string}
use hole_balancer.Fallback.Resolver.{
  Error, enabled, answer, refused, resolve, rcode_of, record_notes, count_notes,
}
use hole_balancer.Fallback.Resolver.Answers.{resolve-IsSafe}
use hole_balancer.System.{System}
use hole_balancer.Proxy.Types.{World, Attempt}
use hole_balancer.Proxy.Forward.{resolve_via_fallback, file_record, give_up, after_attempts}
use hole_balancer.Proxy.Forward.Filed.{
  by_fallback, reply_of, Filed, is_none, replied, give_up-reply, give_up-Filed, file_record-Filed,
}

-- How a query ends that the loop left with the given loop variables and message: the reply, and the
-- record of it.
pub record Ends (w : World) (req : List ℕ) (st : Attempt) (o : Option (List ℕ)) : Type 0 where
  pub system : System
  pub returns :
      after_attempts w req (st, o)
      ≡ some (system, reply_of w req st.system.resolver (o, st.last_resp))
  pub filed :
      let fell = by_fallback w st.system.resolver in
      Filed w st system (is_none o && is_none fell) (is_none o && not (is_none fell))

module _ (w : World) (req : List ℕ) (st : Attempt)
    (unmarked : (st.rec.failed ≡ false) × (st.rec.fallback ≡ false)) where
  won-Ends : (m : List ℕ) → Ends w req st (some m)
  unfolding after_attempts
  won-Ends m =
      let f = file_record-Filed w st in
      record {
        system = file_record w st;
        returns = refl;
        filed = record {
          rec = f.rec;
          stats = f.stats;
          proto = f.proto;
          is_failed = f.is_failed ∙ unmarked.0;
          is_fallback = f.is_fallback ∙ unmarked.1;
        };
      }

  resolve_via_fallback-off :
      enabled st.system.resolver ≡ false → resolve_via_fallback w st ≡ some (st, none)
  unfolding resolve_via_fallback
  resolve_via_fallback-off off = rw off refl

  -- The loop variables once public DNS was asked.
  abbrev asked : Attempt
  asked =
      let s = st.system in
      let r = resolve s.resolver w.fallback_cancelled w.fallback_exchange in
      record st {
        system = record s {
          resolver = r.2;
          tracker = record_notes r.1 s.tracker;
          metrics = count_notes w.show_code r.1 s.metrics;
        };
      }

  abbrev fallen : List ℕ → String → Attempt
  fallen resp server = record asked {
    rec = record (st.rec) {
      fallback = true;
      upstream = "";
      endpoint = server;
      rcode = rcode_string w.show_code (rcode_of resp);
    };
  }

  resolve_via_fallback-answered :
      (resp : List ℕ) (server : String)
      → enabled st.system.resolver ≡ true
      → (resolve st.system.resolver w.fallback_cancelled w.fallback_exchange).0 ≡ answer resp server
      → resolve_via_fallback w st ≡ some (fallen resp server, some resp)
  unfolding resolve_via_fallback
  resolve_via_fallback-answered resp server on e = rw on (rw (e, resolve_via_fallback) refl)

  resolve_via_fallback-refused :
      (error : Error)
      → enabled st.system.resolver ≡ true
      → (resolve st.system.resolver w.fallback_cancelled w.fallback_exchange).0 ≡ refused error
      → resolve_via_fallback w st ≡ some (asked, none)
  unfolding resolve_via_fallback
  resolve_via_fallback-refused error on e = rw on (rw (e, resolve_via_fallback) refl)

  off-Ends : enabled st.system.resolver ≡ false → Ends w req st none
  unfolding after_attempts
  off-Ends off =
      let g = give_up-Filed w req st in
      record {
        system = (give_up w req st).0;
        returns =
            rw (resolve_via_fallback-off off, after_attempts)
              (rw off (replied (give_up w req st).0 (give_up-reply w req st)));
        filed = rw off (record {
          rec = g.rec;
          stats = g.stats;
          proto = g.proto;
          is_failed = g.is_failed;
          is_fallback = g.is_fallback ∙ unmarked.1;
        });
      }

  answered-Ends :
      (resp : List ℕ) (server : String)
      → enabled st.system.resolver ≡ true
      → (resolve st.system.resolver w.fallback_cancelled w.fallback_exchange).0 ≡ answer resp server
      → Ends w req st none
  unfolding after_attempts
  answered-Ends resp server on e =
      let st' = fallen resp server in
      let f = file_record-Filed w st' in
      record {
        system = file_record w st';
        returns =
            rw (resolve_via_fallback-answered resp server on e, after_attempts) (rw (on, e) refl);
        filed =
            rw (on, e)
              (record {
                rec = f.rec;
                stats = f.stats;
                proto = f.proto;
                is_failed = f.is_failed ∙ unmarked.0;
                is_fallback = f.is_fallback;
              });
      }

  refused-Ends :
      (error : Error)
      → enabled st.system.resolver ≡ true
      → (resolve st.system.resolver w.fallback_cancelled w.fallback_exchange).0 ≡ refused error
      → Ends w req st none
  unfolding after_attempts
  refused-Ends error on e =
      let st' = asked in
      let f = give_up-Filed w req st' in
      record {
        system = (give_up w req st').0;
        returns =
            rw (resolve_via_fallback-refused error on e, after_attempts)
              (rw (on, e) (replied (give_up w req st').0 (give_up-reply w req st')));
        filed =
            rw (on, e)
              (record {
                rec = f.rec;
                stats = f.stats;
                proto = f.proto;
                is_failed = f.is_failed;
                is_fallback = f.is_fallback ∙ unmarked.1;
              });
      }

  -- After the loop, a query always ends.
  pub after_attempts-Ends : (o : Option (List ℕ)) → st.system.resolver.rr < 2 ^ 63 → Ends w req st o
  after_attempts-Ends (some m) l = won-Ends m
  after_attempts-Ends none l = elim (Bool-cases (enabled st.system.resolver)) [
    | inr off ↦ off-Ends off
    | inl on ↦
        elim (resolve-IsSafe st.system.resolver w.fallback_cancelled w.fallback_exchange on l) [
          | inl (resp, server, e) ↦ answered-Ends resp server on e
          | inr (error, e) ↦ refused-Ends error on e
        ]
  ]
