-- ===== src/Control/Kept.antt =====
-- The changes of membership and of the drain flag, and the agreement of the server with its
-- configuration.
use hole_balancer.Base.{
  ℕ, ◌+◌, ◌-◌, String, Bool, not, List, [], ◌∷◌, ◌++◌, Option, none, some, length, take, drop,
  get_elem?, ◌≡◌, refl, ◌∙◌, if_split,
}
use hole_balancer.Config.Types.{Upstream}
use hole_balancer.Config.Checked.{Checked, valid, invalid}
use hole_balancer.Config.Validate.{Text, prepare_upstream}
use hole_balancer.Pool.Types.{Pool, set_drained}
use hole_balancer.Pool.Members.{Result, ok, err, add, remove, lookup, not_found}
use hole_balancer.Pool.Members.Tuned.{add-strategy, remove-strategy}
use hole_balancer.Control.{
  Manager, Refusal, pool_error, invalid_upstream, save_locked, or_still, or_without, forget_removed,
  drop_entry, drop_upstream, change_add, change_remove, change_drained, config_index,
}
use hole_balancer.Control.Agreement.{Agrees, Fine, save_locked-Agrees}

-- A manager with another pool of the same strategy, other upstreams and other statistics.
moved-Agrees :
    (m : Manager) (q : Pool) (ups : List Upstream)
    → q.strategy ≡ m.pool.strategy
    → Agrees m
    → Agrees (record m { pool = q; cfg = record (m.cfg) { upstreams = ups } })
moved-Agrees m q ups e a = record {
  strategy = e ∙ a.strategy;
  valid = a.valid;
  servers = a.servers;
}

or_still-strategy : (p : Pool) (name : String) → (or_still p name).strategy ≡ p.strategy
unfolding or_still
or_still-strategy p name = go (remove p name) refl
  where
    go :
        (r : Result Pool)
        → remove p name ≡ r
        → (elim r as (λ x. Pool) [ err e ↦ p | ok q ↦ q ]).strategy ≡ p.strategy
    go (err e) h = refl
    go (ok q) h = remove-strategy p q name h

or_without-strategy : (p : Pool) (uc : Upstream) → (or_without p uc).strategy ≡ p.strategy
unfolding or_without
or_without-strategy p uc = go (add p uc) refl
  where
    go :
        (r : Result (ℕ × Pool))
        → add p uc ≡ r
        → (elim r as (λ x. Pool) [ err e ↦ p | ok (u, q) ↦ q ]).strategy ≡ p.strategy
    go (err e) h = refl
    go (ok (u, q)) h = add-strategy p q uc u h

pub change_drained-Agrees :
    (name : String) (drained : Bool) (m : Manager)
    → Agrees m
    → Agrees (change_drained name drained m).0
unfolding change_drained set_drained
change_drained-Agrees name drained m a =
    if_split Fine (not m.allow_write) _ _ (λ _. a) (λ _. go (lookup m.pool name))
  where
    go :
        (o : Option ℕ)
        → Fine (elim o [
          | none ↦ (m, some (pool_error (not_found name)))
          | some u ↦ (record m { pool = set_drained m.pool u drained }, none)
        ])
    go none = a
    go (some u) = record { strategy = a.strategy; valid = a.valid; servers = a.servers }

pub change_add-Agrees :
    (written : Bool) (text : Text) (uc : Upstream) (m : Manager)
    → Agrees m
    → Agrees (change_add written text uc m).0
unfolding change_add
change_add-Agrees written text uc m a =
    if_split Fine (not m.allow_write) _ _ (λ _. a) (λ _. go (prepare_upstream text uc))
  where
    joined :
        (v : Upstream) (r : Result (ℕ × Pool))
        → add m.pool v ≡ r
        → Fine (elim r [
          | err e ↦ (m, some (pool_error e))
          | ok (u, q) ↦
              let ups = m.cfg.upstreams ++ v ∷ [] in
              save_locked written
                (record m { pool = q; cfg = record (m.cfg) { upstreams = ups } })
                (record m {
                  pool = or_still q v.name;
                  cfg = record (m.cfg) { upstreams = take (length ups - 1) ups };
                })
        ])
    joined v (err e) h = a
    joined v (ok (u, q)) h =
        let kept = add-strategy m.pool q v u h in
        save_locked-Agrees written _ _ (moved-Agrees m q _ kept a)
          (moved-Agrees m (or_still q v.name) _ (or_still-strategy q v.name ∙ kept) a)

    go :
        (x : Checked Upstream)
        → Fine (elim x [
          | invalid p ↦ (m, some (invalid_upstream p))
          | valid v ↦ elim (add m.pool v) [
            | err e ↦ (m, some (pool_error e))
            | ok (u, q) ↦
                let ups = m.cfg.upstreams ++ v ∷ [] in
                save_locked written
                  (record m { pool = q; cfg = record (m.cfg) { upstreams = ups } })
                  (record m {
                    pool = or_still q v.name;
                    cfg = record (m.cfg) { upstreams = take (length ups - 1) ups };
                  })
          ]
        ])
    go (invalid p) = a
    go (valid v) = joined v (add m.pool v) refl

forget_removed-Agrees :
    (name : String) (r : Manager × Option Refusal) → Fine r → Fine (forget_removed name r)
unfolding forget_removed
forget_removed-Agrees name (m, none) a = record {
  strategy = a.strategy;
  valid = a.valid;
  servers = a.servers;
}
forget_removed-Agrees name (m, some e) a = a

drop_entry-Agrees :
    (written : Bool) (name : String) (m : Manager) (i : ℕ) (q : Pool)
    → q.strategy ≡ m.pool.strategy
    → Agrees m
    → Agrees (drop_entry written name m i q).0
unfolding drop_entry
drop_entry-Agrees written name m i q kept a = go (get_elem? m.cfg.upstreams i)
  where
    go :
        (o : Option Upstream)
        → Fine (elim o [
          | none ↦ (m, some (pool_error (not_found name)))
          | some removed ↦
              let left = take i m.cfg.upstreams ++ drop (i + 1) m.cfg.upstreams in
              forget_removed name (
                save_locked written
                  (record m { pool = q; cfg = record (m.cfg) { upstreams = left } })
                  (record m {
                    pool = or_without q removed;
                    cfg = record (m.cfg) { upstreams = left ++ removed ∷ [] };
                  }))
        ])
    go none = a
    go (some uc) = forget_removed-Agrees name _ (
        save_locked-Agrees written _ _ (moved-Agrees m q _ kept a)
          (moved-Agrees m (or_without q uc) _ (or_without-strategy q uc ∙ kept) a))

drop_upstream-Agrees :
    (written : Bool) (name : String) (m : Manager) (i : ℕ)
    → Agrees m
    → Agrees (drop_upstream written name m i).0
unfolding drop_upstream
drop_upstream-Agrees written name m i a = go (remove m.pool name) refl
  where
    go :
        (r : Result Pool)
        → remove m.pool name ≡ r
        → Fine (elim r [ err e ↦ (m, some (pool_error e)) | ok q ↦ drop_entry written name m i q ])
    go (err e) h = a
    go (ok q) h = drop_entry-Agrees written name m i q (remove-strategy m.pool q name h) a

pub change_remove-Agrees :
    (written : Bool) (name : String) (m : Manager)
    → Agrees m
    → Agrees (change_remove written name m).0
unfolding change_remove
change_remove-Agrees written name m a =
    if_split Fine (not m.allow_write) _ _ (λ _. a) (λ _. go (config_index name m.cfg.upstreams))
  where
    go :
        (o : Option ℕ)
        → Fine (elim o [
          | none ↦ (m, some (pool_error (not_found name)))
          | some i ↦ drop_upstream written name m i
        ])
    go none = a
    go (some i) = drop_upstream-Agrees written name m i a
