-- ===== src/Control.antt =====
-- internal/control/control.go: the changes of the management interface, each with its save and its
-- rollback: AddUpstream, RemoveUpstream, SetStrategy, SetFallback and SetDrained. Whether the write of
-- the file succeeds, and what config.NormaliseAddr makes of an address, are arguments.
pub mod Atomic
pub mod Agreement
pub mod Kept
pub mod ReadOnly
mod Examples
use hole_balancer.Base.{
  ℕ, String, Bool, true, false, not, ◌&&◌, List, [], ◌∷◌, ◌++◌, Option, none, some, ◌==◌,
  if◌then◌else◌, length, ◌+◌, ◌-◌, take, drop, get_elem?, str_eq,
}
use hole_balancer.Config.Types.{Upstream, contains}
use hole_balancer.Config.Checked.{Problem, Checked, valid, invalid}
use hole_balancer.Config.Validate.{Text, prepare_upstream}
use hole_balancer.Stats.{Collector, forget_upstream}
use hole_balancer.Pool.Types.{Pool, set_drained}
use hole_balancer.Pool.Members.{Error, not_found, ok, err, set_strategy, lookup, add, remove}
use hole_balancer.Fallback.Resolver.{Resolver, set_servers}

-- The parts of the configuration that these changes read and write.
pub record Settings : Type 0 where
  pub strategy : String
  pub fallback_enabled : Bool
  pub fallback_servers : List String
  pub upstreams : List Upstream

pub record Manager : Type 0 where
  pub pool : Pool
  pub fallback : Resolver
  pub cfg : Settings
  pub stats : Collector
  pub allow_write : Bool
  pub persist : Bool

pub data Refusal : Type 0 where
  read_only : Refusal
  pool_error : Error → Refusal
  invalid_upstream : Problem → Refusal
  invalid_resolver : String → Refusal
  listed_twice : String → Refusal
  no_resolver : Refusal
  not_saved : Refusal

-- saveLocked: the state after it, from the changed one and the rolled back one, and the error.
pub save_locked : Bool → Manager → Manager → Manager × Option Refusal
save_locked written changed rolled_back =
    if not changed.persist
    then (changed, none)
    else if written
    then (changed, none)
    else (rolled_back, some not_saved)

-- What the pool is after `_ = pool.SetStrategy(name)`, whose error is dropped.
pub or_same : Pool → String → Pool
or_same p name = elim (set_strategy p name) [ err e ↦ p | ok q ↦ q ]

pub change_strategy : Bool → String → Manager → Manager × Option Refusal
change_strategy written name m =
    if not m.allow_write then (m, some read_only) else elim (set_strategy m.pool name) [
      | err e ↦ (m, some (pool_error e))
      | ok q ↦
          save_locked written (record m { pool = q; cfg = record (m.cfg) { strategy = name } })
            (record m {
              pool = or_same q m.cfg.strategy;
              cfg = record (m.cfg) { strategy = m.cfg.strategy };
            })
    ]

pub data Cleaned : Type 0 where
  clean : List String → Cleaned
  unclean : Refusal → Cleaned

-- The loop of SetFallback: the addresses so far, each of them seen.
pub clean_servers : (String → Option String) → List String → List String → Cleaned
clean_servers normalise done [] = clean done
clean_servers normalise done (raw ∷ servers) = elim (normalise raw) [
  | none ↦ unclean (invalid_resolver raw)
  | some addr ↦
      let later = clean_servers normalise (done ++ addr ∷ []) servers in
      if contains done addr then unclean (listed_twice addr) else later
]

pub change_fallback :
    Bool → (String → Option String) → Bool → List String → Manager → Manager × Option Refusal
change_fallback written normalise on servers m =
    if not m.allow_write then (m, some read_only) else elim (clean_servers normalise [] servers) [
      | unclean e ↦ (m, some e)
      | clean addrs ↦
          if on && (length addrs == 0)
          then (m, some no_resolver)
          else save_locked written
              (record m {
                fallback = set_servers on addrs m.fallback;
                cfg = record (m.cfg) { fallback_enabled = on; fallback_servers = addrs };
              })
              (record m {
                fallback =
                    set_servers m.cfg.fallback_enabled m.cfg.fallback_servers
                      (set_servers on addrs m.fallback);
                cfg = record (m.cfg) {
                  fallback_enabled = m.cfg.fallback_enabled;
                  fallback_servers = m.cfg.fallback_servers;
                };
              })
    ]

-- SetDrained, which is not saved.
pub change_drained : String → Bool → Manager → Manager × Option Refusal
change_drained name drained m =
    if not m.allow_write then (m, some read_only) else elim (lookup m.pool name) [
      | none ↦ (m, some (pool_error (not_found name)))
      | some u ↦ (record m { pool = set_drained m.pool u drained }, none)
    ]

-- What the pool is after `_ = pool.Remove(name)`, and after a pool.Add whose error is logged.
pub or_still : Pool → String → Pool
or_still p name = elim (remove p name) [ err e ↦ p | ok q ↦ q ]

pub or_without : Pool → Upstream → Pool
or_without p uc = elim (add p uc) [ err e ↦ p | ok (u, q) ↦ q ]

-- AddUpstream.
pub change_add : Bool → Text → Upstream → Manager → Manager × Option Refusal
change_add written text uc m =
    if not m.allow_write then (m, some read_only) else elim (prepare_upstream text uc) [
      | invalid p ↦ (m, some (invalid_upstream p))
      | valid prepared ↦ elim (add m.pool prepared) [
        | err e ↦ (m, some (pool_error e))
        | ok (u, q) ↦
            let ups = m.cfg.upstreams ++ prepared ∷ [] in
            save_locked written (record m { pool = q; cfg = record (m.cfg) { upstreams = ups } })
              (record m {
                pool = or_still q prepared.name;
                cfg = record (m.cfg) { upstreams = take (length ups - 1) ups };
              })
      ]
    ]

-- The loop of RemoveUpstream over the configuration.
pub config_index : String → List Upstream → Option ℕ
config_index name [] = none
config_index name (uc ∷ ucs) =
    let rest = config_index name ucs in
    if str_eq uc.name name then some 0 else elim rest [ none ↦ none | some i ↦ some (i + 1) ]

-- The end of RemoveUpstream: the statistics are dropped once the removal is saved.
pub forget_removed : String → Manager × Option Refusal → Manager × Option Refusal
forget_removed name (m, none) = (record m { stats = forget_upstream name m.stats }, none)
forget_removed name (m, some e) = (m, some e)

-- RemoveUpstream once the pool has removed the upstream; the index that was found is in range.
pub drop_entry : Bool → String → Manager → ℕ → Pool → Manager × Option Refusal
drop_entry written name m i q = elim (get_elem? m.cfg.upstreams i) [
  | none ↦ (m, some (pool_error (not_found name)))
  | some removed ↦
      let left = take i m.cfg.upstreams ++ drop (i + 1) m.cfg.upstreams in
      forget_removed name (
        save_locked written (record m { pool = q; cfg = record (m.cfg) { upstreams = left } })
          (record m {
            pool = or_without q removed;
            cfg = record (m.cfg) { upstreams = left ++ removed ∷ [] };
          }))
]

-- The call of pool.Remove in it.
pub drop_upstream : Bool → String → Manager → ℕ → Manager × Option Refusal
drop_upstream written name m i = elim (remove m.pool name) [
  | err e ↦ (m, some (pool_error e))
  | ok q ↦ drop_entry written name m i q
]

-- RemoveUpstream.
pub change_remove : Bool → String → Manager → Manager × Option Refusal
change_remove written name m =
    if not m.allow_write then (m, some read_only) else elim (config_index name m.cfg.upstreams) [
      | none ↦ (m, some (pool_error (not_found name)))
      | some i ↦ drop_upstream written name m i
    ]
