-- ===== src/Pool/Members/Undo.antt =====
-- internal/pool/pool.go, Add and then Remove of the same name.
use hole_balancer.Base.{
  ℕ, suc, ◌+◌, ◌<◌, ◌≡◌, ◌≢◌, refl, sym, subst, ap, ◌∙◌, String, List, [], ◌∷◌, ◌++◌, some, arith,
  All, All-mono, All-both, length-append, append-nil, flat_map, length, take, drop, get_elem?, inl,
  inr, Bool-cases, Option-cases, str_eq, eq_iff, ◌==◌, false,
}
use hole_balancer.Base.Int.{pos, pos_part}
use hole_balancer.Config.Types.{Upstream as UpstreamConfig}
use hole_balancer.Pool.Types.{Pool, Upstream, paths}
use hole_balancer.Pool.Members.{ok, append_upstream, conflict, add, index_of, remove_at, remove}
use hole_balancer.Pool.Members.Sync.{IsSynced, Clear}
use hole_balancer.Pool.Members.Append.{upstream_new, upstreams_grow, names_kept}
use hole_balancer.Pool.Members.Change.{add-IsSynced, remove-IsSynced}

index_of-last :
    (q : Pool) (name : String) (us : List ℕ) (n : ℕ)
    → All (λ u. (q.upstream u).name ≢ name) us
    → (q.upstream n).name ≡ name
    → index_of q name (us ++ n ∷ []) ≡ some (length us)
unfolding index_of
index_of-last q name [] n h e = ground (arith, (eq_iff (q.upstream n).name name).1 e)
index_of-last q name (u ∷ us) n h e =
    let ih = index_of-last q name us n h.1 e in
    elim (Bool-cases (str_eq (q.upstream u).name name)) [
      | inl hit ↦ absurd (h.0 ((eq_iff (q.upstream u).name name).0 hit))
      | inr miss ↦ rw (miss, ih) (ap (λ (k : ℕ). some k) (omega arith))
    ]

take-length : (us vs : List ℕ) → take (length us) (us ++ vs) ≡ us
take-length [] vs = refl
take-length (u ∷ us) vs = ap (λ l. u ∷ l) (take-length us vs)

drop-suc : (us : List ℕ) (n : ℕ) → drop (suc (length us)) (us ++ n ∷ []) ≡ []
drop-suc [] n = refl
drop-suc (u ∷ us) n = drop-suc us n

drop-length : (us : List ℕ) (n : ℕ) → drop (length us + 1) (us ++ n ∷ []) ≡ []
drop-length us n =
    ap (λ k. drop k (us ++ n ∷ [])) {y = suc (length us)} (omega arith) ∙ drop-suc us n

get_elem?-length : (us : List ℕ) (n : ℕ) → get_elem? (us ++ n ∷ []) (length us) ≡ some n
get_elem?-length [] n = refl
get_elem?-length (u ∷ us) n = get_elem?-length us n

-- The same paths for every upstream of a list make the same endpoints.
same_paths :
    (f g : ℕ → List ℕ) (us : List ℕ) → All (λ u. f u ≡ g u) us → flat_map f us ≡ flat_map g us
same_paths f g [] h = refl
same_paths f g (u ∷ us) h = rw (h.0, same_paths f g us h.1) refl

-- The lists and the old upstreams of a pool are those of another.
pub record Restores (p r : Pool) : Type 0 where
  pub upstreams : r.upstreams ≡ p.upstreams
  pub endpoints : r.endpoints ≡ p.endpoints
  pub old : All (λ u. r.upstream u ≡ p.upstream u) p.upstreams

module _ (p : Pool) (uc : UpstreamConfig) (s : IsSynced p) (some_upstream : 0 < length p.upstreams)
    (w : uc.weight ≡ pos (pos_part uc.weight)) where
  abbrev q : Pool
  q = append_upstream p uc

  abbrev n : ℕ
  n = p.next_upstream

  kept : All (λ u. q.upstream u ≡ p.upstream u) p.upstreams
  kept = All-mono _ _ p.upstreams (λ u h. names_kept p uc s u h) s.known

  named : (q.upstream n).name ≡ uc.name
  named = ap (λ (x : Upstream). x.name) (upstream_new p uc)

  -- Remove finds the upstream that was added.
  remove-append :
      All (Clear p uc) p.upstreams → remove q uc.name ≡ ok (remove_at q (length p.upstreams) n)
  unfolding remove
  remove-append c =
      let grown = upstreams_grow p uc in
      let others : All (λ u. (q.upstream u).name ≢ uc.name) p.upstreams =
        All-both _ _ _ p.upstreams
          (λ u (k : q.upstream u ≡ p.upstream u) c e.
            c.0 (sym (ap (λ (x : Upstream). x.name) k) ∙ e))
          kept c in
      let found : index_of q uc.name q.upstreams ≡ some (length p.upstreams) =
        ap (index_of q uc.name) grown ∙ index_of-last q uc.name p.upstreams n others named in
      let several : (length q.upstreams == 1) ≡ false =
        ground (arith, ap length grown, length-append p.upstreams (n ∷ [])) in
      let at : get_elem? q.upstreams (length p.upstreams) ≡ some n =
        ap (λ l. get_elem? l (length p.upstreams)) grown ∙ get_elem?-length p.upstreams n in
      rw (found, remove) (rw several (rw (at, remove) refl))

  -- What is left of the lists.
  remove_at-Restores :
      IsSynced (remove_at q (length p.upstreams) n)
      → Restores p (remove_at q (length p.upstreams) n)
  unfolding remove_at
  remove_at-Restores t =
      let r = remove_at q (length p.upstreams) n in
      let back : r.upstreams ≡ p.upstreams =
        ap (λ l. take (length p.upstreams) l ++ drop (length p.upstreams + 1) l)
          (upstreams_grow p uc)
        ∙ rw (take-length p.upstreams (n ∷ []), drop-length p.upstreams n)
            (append-nil p.upstreams) in
      record {
        upstreams = back;
        endpoints =
            t.flat
            ∙ ap (flat_map (paths r)) back
            ∙ same_paths (paths r) (paths p) p.upstreams (
                All-mono _ _ p.upstreams
                  (λ u (k : q.upstream u ≡ p.upstream u). ap (λ (x : Upstream). x.endpoints) k)
                  kept)
            ∙ sym s.flat;
        old = kept;
      }

  undone :
      All (Clear p uc) p.upstreams
      → IsSynced q
      → (r : Pool) × (remove q uc.name ≡ ok r) × Restores p r
  undone c t =
      let r = remove_at q (length p.upstreams) n in
      let e = remove-append c in (r, e, remove_at-Restores (remove-IsSynced q r uc.name t e).0)

  -- Where Add succeeds on a pool in step that has an upstream, with a weight that is not negative,
  -- Remove of the new name succeeds, and leaves the upstreams and the endpoints of before, in their
  -- order, and every old upstream as it was.
  pub remove-add :
      (q' : Pool) (u : ℕ)
      → add p uc ≡ ok (u, q')
      → (r : Pool) × (remove q' uc.name ≡ ok r) × Restores p r
  unfolding add
  remove-add q' u h =
      let (t, c, _) = add-IsSynced p q' uc u s w h in
      elim (Option-cases (conflict p p.upstreams uc)) [
        | inl clear ↦
            let same : append_upstream p uc ≡ q' = ground arith in
            subst (λ x. (r : Pool) × (remove x uc.name ≡ ok r) × Restores p r) same
              (undone c (subst IsSynced (sym same) t))
        | inr (e, clash) ↦ absurd (ground arith)
      ]
