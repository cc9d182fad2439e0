-- ===== src/Control/Atomic.antt =====
-- internal/control/control.go, AddUpstream with its save and its rollback.
use hole_balancer.Base.{
  ℕ, ◌-◌, ◌<◌, ◌≡◌, ◌⊎◌, refl, sym, ap, subst, ◌∙◌, Bool, not, List, [], ◌∷◌, ◌++◌, Option, none,
  some, arith, All, length, length-append, take, inl, inr, if_split,
}
use hole_balancer.Config.Types.{Upstream}
use hole_balancer.Config.Checked.{Checked, valid, invalid}
use hole_balancer.Config.Validate.{Text, prepare_upstream}
use hole_balancer.Config.Validate.Usable.{prepare_upstream-weight}
use hole_balancer.Pool.Types.{Pool}
use hole_balancer.Pool.Members.{Result, ok, err, add}
use hole_balancer.Pool.Members.Sync.{IsSynced}
use hole_balancer.Pool.Members.Change.{add-IsSynced}
use hole_balancer.Pool.Members.Undo.{Restores, remove-add}
use hole_balancer.Control.{
  Manager, Refusal, read_only, not_saved, pool_error, invalid_upstream, save_locked, or_still,
  change_add,
}

take-snoc :
    (us : List Upstream) (u : Upstream) → take (length (us ++ u ∷ []) - 1) (us ++ u ∷ []) ≡ us
take-snoc us u =
    ap (λ k. take k (us ++ u ∷ [])) {y = length us} (omega (arith, length-append us (u ∷ [])))
    ∙ go us
  where
    go : (us : List Upstream) → take (length us) (us ++ u ∷ []) ≡ us
    go [] = refl
    go (x ∷ xs) = ap (λ l. x ∷ l) (go xs)

-- Nothing was changed that the program serves from or saves.
pub record Unchanged (m t : Manager) : Type 0 where
  pub pool : Restores m.pool t.pool
  pub cfg : t.cfg ≡ m.cfg
  pub fallback : t.fallback ≡ m.fallback

-- The upstream joined the pool and the configuration.
pub record Joined (text : Text) (uc : Upstream) (m t : Manager) : Type 0 where
  pub upstream : Upstream
  pub prepared : prepare_upstream text uc ≡ valid upstream
  pub synced : IsSynced t.pool
  pub listed : t.cfg ≡ record (m.cfg) { upstreams = m.cfg.upstreams ++ upstream ∷ [] }
  pub added : (u : ℕ) × (add m.pool upstream ≡ ok (u, t.pool))

-- What a result of AddUpstream is.
abbrev pub IsAtomic : Text → Upstream → Manager → Manager × Option Refusal → Type 0
IsAtomic text uc m (t, e) =
    ((e ≡ none) × Joined text uc m t) ⊎ ((r : Refusal) × (e ≡ some r) × Unchanged m t)

same-Unchanged : (m : Manager) → Unchanged m m
same-Unchanged m = record {
  pool = record { upstreams = refl; endpoints = refl; old = refls m.pool.upstreams };
  cfg = refl;
  fallback = refl;
}
  where
    refls : (us : List ℕ) → All (λ u. m.pool.upstream u ≡ m.pool.upstream u) us
    refls [] = tt
    refls (u ∷ us) = (refl, refls us)

module _ (written : Bool) (text : Text) (uc : Upstream) (m : Manager) where
  -- The two states that the save of AddUpstream chooses from.
  abbrev grown : Pool → Upstream → Manager
  grown q v = record m { pool = q; cfg = record (m.cfg) { upstreams = m.cfg.upstreams ++ v ∷ [] } }

  abbrev rolled_back : Pool → Upstream → Manager
  rolled_back q v =
      let ups = m.cfg.upstreams ++ v ∷ [] in
      record m {
        pool = or_still q v.name;
        cfg = record (m.cfg) { upstreams = take (length ups - 1) ups };
      }

  module _ (s : IsSynced m.pool) (some_upstream : 0 < length m.pool.upstreams) (q : Pool)
      (v : Upstream) (u : ℕ) (p : prepare_upstream text uc ≡ valid v)
      (a : add m.pool v ≡ ok (u, q)) where
    grown-Joined : Joined text uc m (grown q v)
    grown-Joined = record {
      upstream = v;
      prepared = p;
      synced = (add-IsSynced m.pool q v u s (prepare_upstream-weight text uc v p) a).0;
      listed = refl;
      added = (u, a);
    }

    rolled_back-Unchanged : Unchanged m (rolled_back q v)
    unfolding or_still
    rolled_back-Unchanged =
        let (r, e, b) =
          remove-add m.pool v s some_upstream (prepare_upstream-weight text uc v p) q u a in
        let same : or_still q v.name ≡ r = rw (e, or_still) refl in
        record {
          pool = subst (Restores m.pool) (sym same) b;
          cfg = ap (λ l. record (m.cfg) { upstreams = l }) (take-snoc m.cfg.upstreams v);
          fallback = refl;
        }

    save_locked-IsAtomic : IsAtomic text uc m (save_locked written (grown q v) (rolled_back q v))
    unfolding save_locked
    save_locked-IsAtomic =
        if_split (IsAtomic text uc m) (not m.persist) _ _ (λ _. inl (refl, grown-Joined))
          (λ _.
            if_split (IsAtomic text uc m) written _ _ (λ _. inl (refl, grown-Joined))
              (λ _. inr (not_saved, refl, rolled_back-Unchanged)))

  -- On a pool in step that has an upstream, AddUpstream either succeeds, and the cleaned upstream has
  -- joined the pool, which is in step, and stands last in the configuration; or it returns an error,
  -- and then the upstreams and endpoints of the pool, every old upstream, the configuration and the
  -- resolver are as they were, also after a failed save.
  pub change_add-IsAtomic :
      IsSynced m.pool
      → 0 < length m.pool.upstreams
      → IsAtomic text uc m (change_add written text uc m)
  unfolding change_add
  change_add-IsAtomic s l =
      if_split (IsAtomic text uc m) (not m.allow_write) _ _
        (λ _. inr (read_only, refl, same-Unchanged m))
        (λ _. prepared (prepare_upstream text uc) refl)
    where
      joined :
          (v : Upstream) (x : Result (ℕ × Pool))
          → prepare_upstream text uc ≡ valid v
          → add m.pool v ≡ x
          → IsAtomic text uc m (elim x [
            | err e ↦ (m, some (pool_error e))
            | ok (u, q) ↦ save_locked written (grown q v) (rolled_back q v)
          ])
      joined v (err e) p a = inr (pool_error e, refl, same-Unchanged m)
      joined v (ok (u, q)) p a = save_locked-IsAtomic s l q v u p a

      prepared :
          (x : Checked Upstream)
          → prepare_upstream text uc ≡ x
          → IsAtomic text uc m (elim x [
            | invalid p ↦ (m, some (invalid_upstream p))
            | valid v ↦ elim (add m.pool v) [
              | err e ↦ (m, some (pool_error e))
              | ok (u, q) ↦ save_locked written (grown q v) (rolled_back q v)
            ]
          ])
      prepared (invalid p) e = inr (invalid_upstream p, refl, same-Unchanged m)
      prepared (valid v) e = joined v (add m.pool v) e refl
