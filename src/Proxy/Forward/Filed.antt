-- ===== src/Proxy/Forward/Filed.antt =====
-- The reply and the record of a query at the ends of forward.
use hole_balancer.Base.{ℕ, ◌≡◌, refl, Bool, true, false, List, Option, none, some, if◌then◌else◌}
use hole_balancer.Dnsmsg.Header.{Header, Parsed, ok, err, parse_header}
use hole_balancer.Dnsmsg.Message.{error_response}
use hole_balancer.Fallback.Resolver.{Resolver, Outcome, enabled, answer, refused, panics, resolve}
use hole_balancer.Stats.{Record, add_record}
use hole_balancer.System.{System}
use hole_balancer.Proxy.Types.{World, Attempt, serv_fail}
use hole_balancer.Proxy.Forward.{file_record, give_up, with_code}

abbrev pub answer_of : Outcome → Option (List ℕ)
answer_of (answer resp server) = some resp
answer_of (refused e) = none
answer_of panics = none

-- What public DNS answers, where it is there.
abbrev pub by_fallback : World → Resolver → Option (List ℕ)
by_fallback w r =
    if enabled r then answer_of (resolve r w.fallback_cancelled w.fallback_exchange).0 else none

abbrev pub or_else : Option (List ℕ) → Option (List ℕ) → Option (List ℕ)
or_else (some m) o = some m
or_else none o = o

-- The reply, from how the race ended: its winner; or what public DNS answers; or the last response
-- whose code was to be retried; or a new SERVFAIL.
abbrev pub reply_of :
    World → List ℕ → Resolver → Option (List ℕ) × Option (List ℕ) → Option (List ℕ)
reply_of w req r (winner, last) =
    or_else winner (or_else (by_fallback w r) (or_else last (error_response req serv_fail)))

-- One record is filed, with the given flags.
pub record Filed (w : World) (a : Attempt) (t : System) (failed fell : Bool) : Type 0 where
  pub rec : Record
  pub stats : t.stats ≡ add_record w.zone (w.clock 0) rec a.system.stats
  pub proto : rec.proto ≡ a.rec.proto
  pub is_failed : rec.failed ≡ failed
  pub is_fallback : rec.fallback ≡ fell

abbrev pub is_none : Option (List ℕ) → Bool
is_none none = true
is_none (some m) = false

with_code-flags :
    (w : World) (o : Option (List ℕ)) (r : Record)
    → ((with_code w o r).proto ≡ r.proto)
      × ((with_code w o r).failed ≡ r.failed)
      × ((with_code w o r).fallback ≡ r.fallback)
unfolding with_code
with_code-flags w none r = (refl, refl, refl)
with_code-flags w (some resp) r = go (parse_header resp) refl
  where
    go :
        (x : Parsed Header)
        → parse_header resp ≡ x
        → ((with_code w (some resp) r).proto ≡ r.proto)
          × ((with_code w (some resp) r).failed ≡ r.failed)
          × ((with_code w (some resp) r).fallback ≡ r.fallback)
    go (err e) x = rw (x, with_code) (refl, refl, refl)
    go (ok hdr) x = rw (x, with_code) (refl, refl, refl)

abbrev pub ended : System → Option (List ℕ) → Option (System × Option (List ℕ))
ended t o = some (t, o)

pub replied : {o p : Option (List ℕ)} (t : System) → o ≡ p → ended t o ≡ ended t p
replied t e = rw e refl

pub give_up-reply :
    (w : World) (req : List ℕ) (st : Attempt)
    → (give_up w req st).1 ≡ or_else st.last_resp (error_response req serv_fail)
unfolding give_up
give_up-reply w req st = go st.last_resp refl
  where
    go :
        (o : Option (List ℕ))
        → st.last_resp ≡ o
        → (give_up w req st).1 ≡ or_else st.last_resp (error_response req serv_fail)
    go none e = rw (e, give_up) refl
    go (some m) e = rw (e, give_up) refl

pub give_up-Filed :
    (w : World) (req : List ℕ) (st : Attempt) → Filed w st (give_up w req st).0 true st.rec.fallback
unfolding give_up file_record
give_up-Filed w req st =
    let f = with_code-flags w st.last_resp (record (st.rec) { failed = true }) in
    record {
      rec = record (with_code w st.last_resp (record (st.rec) { failed = true })) {
        latency = w.elapsed;
      };
      stats = refl;
      proto = f.0;
      is_failed = f.1;
      is_fallback = f.2;
    }

pub file_record-Filed :
    (w : World) (st : Attempt) → Filed w st (file_record w st) st.rec.failed st.rec.fallback
unfolding file_record
file_record-Filed w st = record {
  rec = record (st.rec) { latency = w.elapsed };
  stats = refl;
  proto = refl;
  is_failed = refl;
  is_fallback = refl;
}
