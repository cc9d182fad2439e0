-- ===== src/Pool/Status/Shown.antt =====
-- What Status shows of the health of an upstream.
use hole_balancer.Base.{
  ℕ, suc, ◌≡◌, refl, sym, ap, ◌∙◌, Bool, true, false, not, ◌&&◌, List, [], ◌∷◌, map, Option, none,
  some, ◌==◌, if◌then◌else◌, length, All, keep, arith, Bool-cases, Option-cases, inl, inr, ==_iff,
  subst,
}
use hole_balancer.Base.Counting.{count, Distinct}
use hole_balancer.Pool.Types.{Pool, paths, is_up, any_up, first_up, healthy, active, drained}
use hole_balancer.Pool.Members.{healthy_upstreams}
use hole_balancer.Pool.Status.{
  EndpointStatus, UpstreamStatus, is_active, endpoint_status, upstream_status, status,
}

-- The paths that the view marks as preferred.
abbrev pub preferred : List EndpointStatus → List EndpointStatus
preferred es = keep (λ (e : EndpointStatus). e.is_preferred) es

-- An upstream that the view shows as healthy and not drained.
abbrev pub serving : UpstreamStatus → Bool
serving u = u.healthy && not u.drained

-- What the view of an upstream shows: it is healthy exactly when some path is up, and then exactly
-- one path is preferred, which is up; otherwise none is.
pub record IsShown (u : UpstreamStatus) : Type 0 where
  pub one : length (preferred u.endpoints) ≡ (if u.healthy then 1 else 0)
  pub up : All (λ (e : EndpointStatus). e.healthy ≡ true) (preferred u.endpoints)

abbrev is_some : Option ℕ → Bool
is_some none = false
is_some (some a) = true

first_up-any_up : (p : Pool) (es : List ℕ) → any_up p es ≡ is_some (first_up p es)
first_up-any_up p [] = refl
first_up-any_up p (e ∷ es) = elim (Bool-cases (is_up p e)) [
  | inl b ↦ rw b refl
  | inr b ↦ rw b (first_up-any_up p es)
]

first_up-count :
    (p : Pool) (es : List ℕ) (a : ℕ)
    → Distinct es
    → first_up p es ≡ some a
    → (is_up p a ≡ true) × (count a es ≡ 1)
first_up-count p [] a d h = cc
first_up-count p (e ∷ es) a d h = elim (Bool-cases (is_up p e)) [
  | inl b ↦
      let f = rw b at h in
      let same : e ≡ a = cc in
      (
        subst (λ x. is_up p x ≡ true) same b,
        subst (λ x. count x (e ∷ es) ≡ 1) same (ground (arith, d.0)),
      )
  | inr b ↦
      let f = rw b at h in
      let later = first_up-count p es a d.1 f in
      elim (Bool-cases (e == a)) [
        | inl q ↦
            let none_left = subst (λ x. count x es ≡ 0) ((==_iff e a).0 q) d.0 in
            absurd (omega (arith, none_left, later.1))
        | inr q ↦ (later.0, ground (arith, q, later.1))
      ]
]

module _ (p : Pool) (u : ℕ) where
  abbrev viewed : List ℕ → List EndpointStatus
  viewed es = preferred (map (endpoint_status p u) es)

  viewed-none : active p u ≡ none → (es : List ℕ) → viewed es ≡ []
  viewed-none e [] = refl
  viewed-none e (x ∷ es) = rw e (viewed-none e es)

  viewed-length : (a : ℕ) → active p u ≡ some a → (es : List ℕ) → length (viewed es) ≡ count a es
  viewed-length a e [] = refl
  viewed-length a e (x ∷ es) =
      let later = viewed-length a e es in
      let test = ap (λ o. is_active o x) e in
      elim (Bool-cases (x == a)) [
        | inl q ↦ let t = test ∙ q in rw (t, q) (omega (arith, later))
        | inr q ↦ let t = test ∙ q in rw (t, q) later
      ]

  viewed-up :
      (a : ℕ)
      → active p u ≡ some a
      → is_up p a ≡ true
      → (es : List ℕ) → All (λ (e : EndpointStatus). e.healthy ≡ true) (viewed es)
  viewed-up a e h [] = tt
  viewed-up a e h (x ∷ es) =
      let later = viewed-up a e h es in
      let test = ap (λ o. is_active o x) e in
      elim (Bool-cases (x == a)) [
        | inl q ↦
            let t = test ∙ q in
            let same = (==_iff x a).0 q in rw t (subst (λ y. is_up p y ≡ true) (sym same) h, later)
        | inr q ↦ let t = test ∙ q in rw t later
      ]

upstream_status-IsShown : (p : Pool) (u : ℕ) → Distinct (paths p u) → IsShown (upstream_status p u)
unfolding active healthy
upstream_status-IsShown p u d = elim (Option-cases (active p u)) [
  | inl e ↦
      let down : healthy p u ≡ false = first_up-any_up p (paths p u) ∙ ap is_some e in
      let none_shown = viewed-none p u e (paths p u) in
      record {
        one = ap (length {A = EndpointStatus}) none_shown ∙ sym (ap (λ b. if b then 1 else 0) down);
        up = subst (All (λ (x : EndpointStatus). x.healthy ≡ true)) (sym none_shown) tt;
      }
  | inr (a, e) ↦
      let up : healthy p u ≡ true = first_up-any_up p (paths p u) ∙ ap is_some e in
      let found = first_up-count p (paths p u) a d e in
      record {
        one = viewed-length p u a e (paths p u) ∙ found.1 ∙ sym (ap (λ b. if b then 1 else 0) up);
        up = viewed-up p u a e found.0 (paths p u);
      }
]

upstreams-IsShown :
    (p : Pool) (us : List ℕ)
    → ((u : ℕ) → Distinct (paths p u))
    → All IsShown (map (upstream_status p) us)
upstreams-IsShown p [] d = tt
upstreams-IsShown p (u ∷ us) d = (upstream_status-IsShown p u (d u), upstreams-IsShown p us d)

-- For one state of a pool in which no upstream lists a path twice: Status shows an upstream as healthy exactly
-- when it marks a path of it as preferred, and then it marks one, which is up; and the upstreams
-- that it shows as healthy and not drained are as many as HealthyUpstreams counts.
pub status-IsShown :
    (p : Pool)
    → ((u : ℕ) → Distinct (paths p u))
    → All IsShown (status p) × (length (keep serving (status p)) ≡ healthy_upstreams p)
unfolding status healthy_upstreams
status-IsShown p d = (upstreams-IsShown p p.upstreams d, go p.upstreams)
  where
    go :
        (us : List ℕ)
        → length (keep serving (map (upstream_status p) us))
          ≡ length (keep (λ u. healthy p u && not (drained p u)) us)
    go [] = refl
    go (u ∷ us) = elim (Bool-cases (healthy p u && not (drained p u))) [
      | inl b ↦ rw b (ap suc (go us))
      | inr b ↦ rw b (go us)
    ]
