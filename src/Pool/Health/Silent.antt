-- ===== src/Pool/Health/Silent.antt =====
-- What a report writes, and what one without a callback leaves.
use hole_balancer.Base.{
  ℕ, String, Bool, true, false, Option, none, some, ◌≡◌, refl, ◌∙◌, sym, ap, arith, Bool-cases, inl,
  inr, ◌==◌, ==_iff,
}
use hole_balancer.Pool.Types.{Pool, Endpoint, update}
use hole_balancer.Pool.Health.{
  record_outcome, report_query, report_probe, sample, tally, flip, apply, judge, count_query,
}
use hole_balancer.Pool.Health.Frame.{record_outcome-change}

-- The endpoints are all that differs, and each keeps its name, its address and its owner.
pub record Rewrites (p q : Pool) : Type 0 where
  pub same : q ≡ record p { endpoint = q.endpoint }
  pub addr : (j : ℕ) → (q.endpoint j).addr ≡ (p.endpoint j).addr
  pub name : (j : ℕ) → (q.endpoint j).name ≡ (p.endpoint j).name
  pub owner : (j : ℕ) → (q.endpoint j).upstream ≡ (p.endpoint j).upstream

-- Every verdict is as it was.
abbrev pub SameVerdicts : Pool → Pool → Type 0
SameVerdicts p q = (j : ℕ) → (q.endpoint j).up ≡ (p.endpoint j).up

-- Same name, address and owner.
abbrev Keeps : Endpoint → Endpoint → Type 0
Keeps x y = (x.addr ≡ y.addr) × (x.name ≡ y.name) × (x.upstream ≡ y.upstream)

update-Rewrites :
    (p : Pool) (e : ℕ) (x : Endpoint)
    → Keeps x (p.endpoint e)
    → Rewrites p (record p { endpoint = update p.endpoint e x })
update-Rewrites p e x k = record {
  same = refl;
  addr = λ j. pick (λ y. y.addr) k.0 j;
  name = λ j. pick (λ y. y.name) k.1 j;
  owner = λ j. pick (λ y. y.upstream) k.2 j;
}
  where
    pick :
        {A : Type 0} (f : Endpoint → A)
        → f x ≡ f (p.endpoint e)
        → (j : ℕ) → f (update p.endpoint e x j) ≡ f (p.endpoint j)
    pick f h j = elim (Bool-cases (j == e)) [
      | inl hit ↦ rw hit (h ∙ ap (λ i. f (p.endpoint i)) (sym ((==_iff j e).0 hit)))
      | inr miss ↦ rw miss refl
    ]

Rewrites-trans : (p q r : Pool) → Rewrites p q → Rewrites q r → Rewrites p r
Rewrites-trans p q r h k = record {
  same = k.same ∙ ap (λ (s : Pool). record s { endpoint = r.endpoint }) h.same;
  addr = λ j. k.addr j ∙ h.addr j;
  name = λ j. k.name j ∙ h.name j;
  owner = λ j. k.owner j ∙ h.owner j;
}

sample-Keeps :
    (mix : ℕ → ℕ → ℕ) (ok : Bool) (latency : ℕ) (e : Endpoint) → Keeps (sample mix ok latency e) e
unfolding sample
sample-Keeps mix ok latency e = ground arith

judge-Keeps :
    (rise fall : ℕ) (ok : Bool) (error : Option String) (now : ℕ) (e : Endpoint)
    → Keeps (judge rise fall ok error now e).0 e
unfolding judge tally flip apply
judge-Keeps rise fall true error now e = ground arith
judge-Keeps rise fall false none now e = ground arith
judge-Keeps rise fall false (some text) now e = ground arith

sample-up :
    (mix : ℕ → ℕ → ℕ) (ok : Bool) (latency : ℕ) (e : Endpoint) → (sample mix ok latency e).up ≡ e.up
unfolding sample
sample-up mix ok latency e = ground arith

module _ (mix : ℕ → ℕ → ℕ) (p : Pool) (e : ℕ) (ok : Bool) (latency now : ℕ)
    (error : Option String) where
  record_outcome-Rewrites :
      (affects : Bool) → Rewrites p (record_outcome mix p e ok latency error affects now).0
  unfolding record_outcome
  record_outcome-Rewrites true =
      let s = sample-Keeps mix ok latency (p.endpoint e) in
      let j = judge-Keeps p.rise p.fall ok error now (sample mix ok latency (p.endpoint e)) in
      update-Rewrites p e _ (j.0 ∙ s.0, j.1 ∙ s.1, j.2 ∙ s.2)
  record_outcome-Rewrites false = update-Rewrites p e _ (sample-Keeps mix ok latency (p.endpoint e))

  elsewhere :
      (affects : Bool) (j : ℕ)
      → (j == e) ≡ false
      → ((record_outcome mix p e ok latency error affects now).0.endpoint j).up ≡ (p.endpoint j).up
  unfolding record_outcome
  elsewhere true j miss = rw miss refl
  elsewhere false j miss = rw miss refl

  record_outcome-silent :
      (affects : Bool)
      → let r = record_outcome mix p e ok latency error affects now in
        r.1 ≡ none → SameVerdicts p r.0
  record_outcome-silent affects h j = elim (Bool-cases (j == e)) [
    | inl hit ↦
        let r = record_outcome mix p e ok latency error affects now in
        let c = record_outcome-change mix p e ok latency now error affects in
        let at = (==_iff j e).0 hit in
        ap (λ i. (r.0.endpoint i).up) at
        ∙ ground (arith, h, c)
        ∙ ap (λ i. (p.endpoint i).up) (sym at)
    | inr miss ↦ elsewhere affects j miss
  ]

counted-Rewrites :
    (p : Pool) (e : ℕ) (ok : Bool)
    → Rewrites p (record p { endpoint = update p.endpoint e (count_query ok (p.endpoint e)) })
unfolding count_query
counted-Rewrites p e ok = update-Rewrites p e _ (refl, refl, refl)

counted-up :
    (p : Pool) (e : ℕ) (ok : Bool)
    → SameVerdicts p (record p { endpoint = update p.endpoint e (count_query ok (p.endpoint e)) })
unfolding count_query
counted-up p e ok j = elim (Bool-cases (j == e)) [
  | inl hit ↦ rw hit (ap (λ i. (p.endpoint i).up) (sym ((==_iff j e).0 hit)))
  | inr miss ↦ rw miss refl
]

module _ (mix : ℕ → ℕ → ℕ) (p : Pool) (e : ℕ) (ok : Bool) (latency now : ℕ)
    (error : Option String) where
  pub report_query-Rewrites : Rewrites p (report_query mix p e ok latency error now).0
  unfolding report_query
  report_query-Rewrites =
      Rewrites-trans p _ _ (counted-Rewrites p e ok)
        (record_outcome-Rewrites mix _ e ok latency now error p.passive)

  pub report_query-silent :
      let r = report_query mix p e ok latency error now in r.1 ≡ none → SameVerdicts p r.0
  unfolding report_query
  report_query-silent h j =
      record_outcome-silent mix _ e ok latency now error p.passive h j ∙ counted-up p e ok j

  pub report_probe-Rewrites : Rewrites p (report_probe mix p e ok latency error now).0
  unfolding report_probe
  report_probe-Rewrites = record_outcome-Rewrites mix p e ok latency now error true

  pub report_probe-silent :
      let r = report_probe mix p e ok latency error now in r.1 ≡ none → SameVerdicts p r.0
  unfolding report_probe
  report_probe-silent h j = record_outcome-silent mix p e ok latency now error true h j
