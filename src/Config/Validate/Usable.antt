-- ===== src/Config/Validate/Usable.antt =====
-- What the pool may rely on in a document that Validate accepted.
use hole_balancer.Base.{
  ℕ, zero, suc, ◌+◌, ◌≡◌, ◌≢◌, refl, ◌∙◌, sym, subst, String, Bool, true, false, not, List, [], ◌∷◌,
  Pairwise, none, some, ◌==◌, str_eq, eq_iff, length, All, All-mono, All-both, Bool-cases,
  Option-cases, inl, inr, arith,
}
use hole_balancer.Base.Int.{ℤ, pos, negsuc, pos_part}
use hole_balancer.Base.Tables.{find, put, find-put, find-put_other}
use hole_balancer.Config.Types.{Endpoint, Upstream, contains}
use Prim.Native.String.{◌++◌ as append}
use hole_balancer.Pool.Members.Start.{IsUsable}
use hole_balancer.Config.Checked.{
  Problem, duplicate_name, no_endpoint, no_name, bad_name, valid, invalid, require, bind-valid,
  require-valid,
}
use hole_balancer.Config.Validate.{
  Text, prepare_upstream, prepare_paths, or_default, normalise_addr, checked_weight,
  prepare_endpoints, prepare_upstreams,
}

differ : (s t : String) → s ≡ t → str_eq s t ≡ false → ⊥
differ s t e miss = let clash : true ≡ false = sym ((eq_iff s t).1 e) ∙ miss in cc

pub not-true : (b : Bool) → not b ≡ true → b ≡ false
not-true true h = cc
not-true false h = refl

pub valid_inj : {A : Type 0} {a b : A} → valid a ≡ valid b → a ≡ b
valid_inj h = cc

All_nil : {A B : Type 0} (R : A → B → Type 0) (xs : List A) → All (λ (x : A). All (R x) []) xs
All_nil R [] = tt
All_nil R (x ∷ xs) = (tt, All_nil R xs)

All_swap :
    {A B : Type 0} (R : A → B → Type 0) (xs : List A) (ys : List B)
    → All (λ (y : B). All (λ (x : A). R x y) xs) ys
    → All (λ (x : A). All (R x) ys) xs
All_swap R xs [] h = All_nil R xs
All_swap R xs (y ∷ ys) h = All-both _ _ _ xs (λ x a b. (a, b)) h.0 (All_swap R xs ys h.1)

-- An address that is not in the map is not in it before an entry was made, and is not that entry.
put-none :
    (k a : String) (v : String) (seen : List (String × String))
    → find a (put k v seen) ≡ none
    → (find a seen ≡ none) × (k ≢ a)
put-none k a v seen h = elim (Bool-cases (str_eq k a)) [
  | inl hit ↦
      let same : k ≡ a = (eq_iff k a).0 hit in
      let found : find a (put k v seen) ≡ some v =
        subst (λ x. find x (put k v seen) ≡ some v) same (find-put k v seen) in
      let clash = sym found ∙ h in absurd (clash_some clash)
  | inr miss ↦ (sym (find-put_other k a v seen miss) ∙ h, λ e. differ k a e miss)
]
  where
    clash_some : {x : String} → ¬ (some x ≡ none)
    clash_some e = cc

abbrev pub OtherAddr : Endpoint → Endpoint → Type 0
OtherAddr e f = e.addr ≢ f.addr

module _ (text : Text) where
  -- What the inner loop of Validate leaves: endpoints with new addresses, all of them seen afterwards.
  record Fresh (seen : List (String × String)) (r : List Endpoint × List (String × String))
      : Type 0 where
    new : All (λ (ep : Endpoint). find ep.addr seen ≡ none) r.0
    kept : (a : String) → find a r.1 ≡ none → find a seen ≡ none
    marked : (a : String) → find a r.1 ≡ none → All (λ (ep : Endpoint). ep.addr ≢ a) r.0
    own : Pairwise OtherAddr r.0

  prepare_endpoints-Fresh :
      (owner : String) (seen : List (String × String)) (eps : List Endpoint)
      {r : List Endpoint × List (String × String)}
      → prepare_endpoints text owner seen eps ≡ valid r
      → Fresh seen r
  unfolding prepare_endpoints
  prepare_endpoints-Fresh owner seen [] {r} h =
      let same : Path (List Endpoint × List (String × String)) ([], seen) r = cc in
      subst (Fresh seen) same (record { new = tt; kept = λ a e. e; marked = λ a e. tt; own = tt })
  prepare_endpoints-Fresh owner seen (ep ∷ eps) {r} h =
      let (addr, _, h1) = bind-valid (normalise_addr text ep.addr) _ h in
      elim (Option-cases (find addr seen)) [
        | inl o ↦
            let (done, e, h2) =
              bind-valid (prepare_endpoints text owner (put addr owner seen) eps) _ (rw o at h1) in
            let f = prepare_endpoints-Fresh owner (put addr owner seen) eps e in
            let ep' : Endpoint = record { name = or_default text ep.name addr; addr = addr } in
            let same : Path (List Endpoint × List (String × String)) (ep' ∷ done.0, done.1) r =
              cc in
            subst (Fresh seen) same (record {
              new = (
                o,
                All-mono _ _ done.0 (λ (x : Endpoint) k. (put-none addr x.addr owner seen k).0)
                    f.new,
              );
              kept = λ a k. (put-none addr a owner seen (f.kept a k)).0;
              marked = λ a k. ((put-none addr a owner seen (f.kept a k)).1, f.marked a k);
              own = (
                All-mono _ _ done.0 (λ (x : Endpoint) k. (put-none addr x.addr owner seen k).1)
                    f.new,
                f.own,
              );
            })
        | inr (x, o) ↦ absurd (in_use (rw o at h1))
      ]
    where
      in_use : {A : Type 0} {p : Problem} {a : A} → ¬ (invalid p ≡ valid a)
      in_use e = cc

  -- What the loop of Validate leaves: names and addresses that were not seen before, and weights that
  -- are not negative.
  pub record Usable (names : List String) (seen : List (String × String)) (us : List Upstream)
      : Type 0 where
    pub names_new : All (λ (u : Upstream). contains names u.name ≡ false) us
    pub addrs_new :
        All (λ (u : Upstream). All (λ (ep : Endpoint). find ep.addr seen ≡ none) u.endpoints) us
    pub usable : IsUsable us
    pub own_addrs : All (λ (u : Upstream). Pairwise OtherAddr u.endpoints) us

  checked_weight-pos :
      (name : String) (w : ℤ) {v : ℤ} → checked_weight text name w ≡ valid v → v ≡ pos (pos_part v)
  unfolding checked_weight
  checked_weight-pos name (pos zero) {v} h =
      let same : pos 1 ≡ v = cc in subst (λ w. w ≡ pos (pos_part w)) same refl
  checked_weight-pos name (pos (suc n)) {v} h =
      let same : pos (suc n) ≡ v = cc in subst (λ w. w ≡ pos (pos_part w)) same refl
  checked_weight-pos name (negsuc n) h = cc

  -- One more upstream in front.
  cons-Usable :
      (names : List String) (seen : List (String × String)) (name : String) (weight : ℤ)
      (r : List Endpoint × List (String × String)) (later : List Upstream)
      → contains names name ≡ false
      → weight ≡ pos (pos_part weight)
      → Fresh seen r
      → Usable (name ∷ names) r.1 later
      → let u : Upstream = record { name = name; weight = weight; endpoints = r.0 } in
        Usable names seen (u ∷ later)
  cons-Usable names seen name weight r later n w f rest = record {
    names_new = (n, All-mono _ _ later (λ (x : Upstream) k. ground (arith, k)) rest.names_new);
    addrs_new = (
      f.new,
      All-mono _ _ later
          (λ (x : Upstream). All-mono _ _ x.endpoints (λ (ep : Endpoint). f.kept ep.addr))
          rest.addrs_new,
    );
    usable = record {
      weights = (w, rest.usable.weights);
      apart = (
        All-both _ _ _ later
            (λ (x : Upstream) k a. (
              λ e. differ name x.name e (ground (arith, k)),
              All_swap (λ (b c : Endpoint). b.addr ≢ c.addr) r.0 x.endpoints
                  (All-mono _ _ x.endpoints (λ (ep : Endpoint). f.marked ep.addr) a),
            ))
            rest.names_new rest.addrs_new,
        rest.usable.apart,
      );
    };
    own_addrs = (f.own, rest.own_addrs);
  }

  pub prepare_upstreams-Usable :
      (i : ℕ) (names : List String) (seen : List (String × String)) (us : List Upstream)
      {vs : List Upstream}
      → prepare_upstreams text i names seen us ≡ valid vs
      → Usable names seen vs
  unfolding prepare_upstreams
  prepare_upstreams-Usable i names seen [] {vs} h =
      let same : Path (List Upstream) [] vs = cc in
      subst (Usable names seen) same (record {
        names_new = tt;
        addrs_new = tt;
        usable = record { weights = tt; apart = tt };
        own_addrs = tt;
      })
  prepare_upstreams-Usable i names seen (u ∷ us) {vs} h =
      let name = or_default text u.name (append "upstream-" (text.show (i + 1))) in
      let (_, n, h1) = bind-valid (require (not (contains names name)) (duplicate_name name)) _ h in
      let (weight, w, h2) = bind-valid (checked_weight text name u.weight) _ h1 in
      let (_, _, h3) =
        bind-valid (require (not (length u.endpoints == 0)) (no_endpoint name)) _ h2 in
      let (r, e, h4) = bind-valid (prepare_endpoints text name seen u.endpoints) _ h3 in
      let (later, l, h5) = bind-valid (prepare_upstreams text (i + 1) (name ∷ names) r.1 us) _ h4 in
      subst (Usable names seen) (valid_inj h5) (
        cons-Usable names seen name weight r later (not-true _ (require-valid _ _ n))
          (checked_weight-pos name u.weight w) (prepare_endpoints-Fresh name seen u.endpoints e)
          (prepare_upstreams-Usable (i + 1) (name ∷ names) r.1 us l))

  -- An upstream that PrepareUpstream cleaned has a weight that is not negative.
  pub prepare_upstream-weight :
      (u v : Upstream) → prepare_upstream text u ≡ valid v → v.weight ≡ pos (pos_part v.weight)
  unfolding prepare_upstream
  prepare_upstream-weight u v h =
      let name = text.trim_space u.name in
      let (_, _, h1) = bind-valid (require (not (str_eq name "")) no_name) _ h in
      let (_, _, h2) = bind-valid (require (not (text.contains_any name "/?#\\")) bad_name) _ h1 in
      let (weight, w, h3) = bind-valid (checked_weight text name u.weight) _ h2 in
      let (_, _, h4) =
        bind-valid (require (not (length u.endpoints == 0)) (no_endpoint name)) _ h3 in
      let (_, _, h5) = bind-valid (prepare_paths text [] u.endpoints) _ h4 in
      subst (λ (x : Upstream). x.weight ≡ pos (pos_part x.weight)) (valid_inj h5)
        (checked_weight-pos name u.weight w)
