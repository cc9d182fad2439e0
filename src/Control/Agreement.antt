-- ===== src/Control/Agreement.antt =====
-- internal/control/control.go, SetStrategy, SetFallback and their rollbacks: the strategy and the
-- public resolvers of the running server, beside those of its configuration.
use hole_balancer.Base.{
  String, Bool, true, not, ◌&&◌, List, [], Option, some, ◌==◌, if◌then◌else◌, length, ◌≡◌, refl,
  if_split,
}
use hole_balancer.Config.Types.{valid_strategy}
use hole_balancer.Pool.Types.{Pool}
use hole_balancer.Pool.Members.{Result, ok, err, set_strategy, set_strategy-valid, set_strategy-ok}
use hole_balancer.Fallback.Resolver.{set_servers}
use hole_balancer.Fallback.Resolver.Servers.{servers-set_servers}
use hole_balancer.Control.{
  Manager, Refusal, pool_error, no_resolver, Cleaned, clean, unclean, save_locked, or_same,
  change_strategy, change_fallback, clean_servers,
}

-- The pool runs the configured strategy, which is a valid one, and the resolver has the configured
-- servers exactly where fallback is enabled.
pub record Agrees (m : Manager) : Type 0 where
  pub strategy : m.pool.strategy ≡ m.cfg.strategy
  pub valid : valid_strategy m.cfg.strategy ≡ true
  pub servers : m.fallback.servers ≡ (if m.cfg.fallback_enabled then m.cfg.fallback_servers else [])

abbrev pub Fine : Manager × Option Refusal → Type 0
Fine result = Agrees result.0

pub save_locked-Agrees :
    (written : Bool) (changed rolled_back : Manager)
    → Agrees changed
    → Agrees rolled_back
    → Agrees (save_locked written changed rolled_back).0
unfolding save_locked
save_locked-Agrees written changed rolled_back c r =
    if_split Fine (not changed.persist) _ _ (λ _. c)
      (λ _. if_split Fine written _ _ (λ _. c) (λ _. r))

-- SetStrategy keeps the running server and the configuration in agreement, whether it is refused,
-- saved, or rolled back after a failed write.
pub change_strategy-Agrees :
    (written : Bool) (name : String) (m : Manager)
    → Agrees m
    → Agrees (change_strategy written name m).0
unfolding change_strategy or_same
change_strategy-Agrees written name m a =
    if_split Fine (not m.allow_write) _ _ (λ _. a) (λ _. go (set_strategy m.pool name) refl)
  where
    go :
        (r : Result Pool)
        → set_strategy m.pool name ≡ r
        → Fine (elim r [
          | err e ↦ (m, some (pool_error e))
          | ok q ↦
              save_locked written
                (record m { pool = q; cfg = record (m.cfg) { strategy = name } })
                (record m {
                  pool = or_same q m.cfg.strategy;
                  cfg = record (m.cfg) { strategy = m.cfg.strategy };
                })
        ])
    go (err e) h = a
    go (ok q) h =
        let taken = set_strategy-ok m.pool q name h in
        let back = set_strategy-valid q m.cfg.strategy a.valid in
        save_locked-Agrees written _ _
          (record { strategy = taken.0; valid = taken.1; servers = a.servers })
          (record { strategy = rw (back, or_same) refl; valid = a.valid; servers = a.servers })

-- SetFallback keeps the running server and the configuration in agreement, whether it is refused, saved, or rolled back.
pub change_fallback-Agrees :
    (written : Bool) (normalise : String → Option String) (on : Bool) (servers : List String)
    (m : Manager)
    → Agrees m
    → Agrees (change_fallback written normalise on servers m).0
unfolding change_fallback
change_fallback-Agrees written normalise on servers m a =
    if_split Fine (not m.allow_write) _ _ (λ _. a) (λ _. go (clean_servers normalise [] servers))
  where
    go :
        (r : Cleaned)
        → Fine (elim r [
          | unclean e ↦ (m, some e)
          | clean addrs ↦
              if on && (length addrs == 0)
              then (m, some no_resolver)
              else save_locked written
                  (record m {
                    fallback = set_servers on addrs m.fallback;
                    cfg = record (m.cfg) { fallback_enabled = on; fallback_servers = addrs };
                  })
                  (record m {
                    fallback =
                        set_servers m.cfg.fallback_enabled m.cfg.fallback_servers
                          (set_servers on addrs m.fallback);
                    cfg = record (m.cfg) {
                      fallback_enabled = m.cfg.fallback_enabled;
                      fallback_servers = m.cfg.fallback_servers;
                    };
                  })
        ])
    go (unclean e) = a
    go (clean addrs) =
        if_split Fine (on && (length addrs == 0)) _ _ (λ _. a)
          (λ _.
            save_locked-Agrees written _ _
              (record {
                strategy = a.strategy;
                valid = a.valid;
                servers = servers-set_servers on addrs m.fallback;
              })
              (record {
                strategy = a.strategy;
                valid = a.valid;
                servers =
                    servers-set_servers m.cfg.fallback_enabled m.cfg.fallback_servers
                      (set_servers on addrs m.fallback);
              }))
