-- ===== src/Stats/Snapshot/Ordered.antt =====
-- The order of the lists of a snapshot.
use hole_balancer.Base.{
  ℕ, ◌<◌, ◌≤◌, ◌≡◌, ◌⊎◌, refl, sym, inl, inr, String, true, false, List, [], ◌∷◌, map, All,
  All-mono, Pairwise, arith, ltb, ◌==◌, str_eq, Bool-cases, ==_iff, subst, ltb→lt, ◌∙◌,
}
use mathlib.Core.List.{Perm}
use hole_balancer.Base.Texts.{IsBelow, IsBelow-trans, str_less-IsBelow, str_less-above}
use hole_balancer.Base.Sorting.{sort_slice-Perm, sort_slice-Pairwise}
use hole_balancer.Stats.{NodeStat}
use hole_balancer.Stats.Snapshot.{
  Count, NodeView, comes_first, count_first, node_first, count_of, counts, node_of, sorted_nodes,
  top_of,
}

-- Larger numbers first, and equal ones by name.
abbrev pub Before : ℕ → String → ℕ → String → Type 0
Before n s m t = (m < n) ⊎ ((n ≡ m) × IsBelow s t)

Before-trans : (a b c : ℕ) (s t u : String) → Before a s b t → Before b t c u → Before a s c u
Before-trans a b c s t u (inl h) (inl k) = inl (omega arith)
Before-trans a b c s t u (inl h) (inr k) = inl (omega (arith, k.0))
Before-trans a b c s t u (inr h) (inl k) = inl (omega (arith, h.0))
Before-trans a b c s t u (inr h) (inr k) = inr (h.0 ∙ k.0, IsBelow-trans s t u h.1 k.1)

comes_first-Before : (a b : ℕ) (s t : String) → comes_first a s b t ≡ true → Before a s b t
comes_first-Before a b s t h = elim (Bool-cases (a == b)) [
  | inl e ↦ let f = rw e at h in inr ((==_iff a b).0 e, str_less-IsBelow s t f)
  | inr e ↦ let f = rw e at h in inl (ltb→lt b a f)
]

comes_first-above :
    (a b : ℕ) (s t : String) → str_eq s t ≡ false → comes_first a s b t ≡ false → Before b t a s
comes_first-above a b s t d h = elim (Bool-cases (a == b)) [
  | inl e ↦ let f = rw e at h in inr (sym ((==_iff a b).0 e), str_less-above s t d f)
  | inr e ↦ let f = rw e at h in inl (ground (arith, e, f))
]

-- A Go map: no key stands twice.
abbrev pub HasKeys {ℓ} : {A : Type ℓ} → List (String × A) → Type 0
HasKeys m = Pairwise (λ a b. str_eq a.0 b.0 ≡ false) m

-- The view of each key once, in order.
module _ {ℓ} {A : Type ℓ} (total : ℕ) (m : List (String × A)) (keys : HasKeys m) where
  Pairwise-map :
      {B : Type 0} (f : String × A → B) (name : B → String)
      → ((x : String × A) → name (f x) ≡ x.0)
      → Pairwise (λ a b. str_eq (name a) (name b) ≡ false) (map f m)
  Pairwise-map f name same = go m keys
    where
      apart :
          (x : String × A) (xs : List (String × A))
          → All (λ y. str_eq x.0 y.0 ≡ false) xs
          → All (λ b. str_eq (name (f x)) (name b) ≡ false) (map f xs)
      apart x [] h = tt
      apart x (y ∷ ys) h = (rw (same x, same y) h.0, apart x ys h.1)

      go :
          (xs : List (String × A))
          → HasKeys xs
          → Pairwise (λ a b. str_eq (name a) (name b) ≡ false) (map f xs)
      go [] h = tt
      go (x ∷ xs) h = (apart x xs h.0, go xs h.1)

-- A list of counts in order, with every entry of the map.
pub record AreCounts (total : ℕ) (m : List (String × ℕ)) (out : List Count) : Type 0 where
  pub entries : Perm out (map (count_of total) m)
  pub order : Pairwise (λ (a b : Count). Before a.count a.name b.count b.name) out

pub counts-AreCounts :
    (m : List (String × ℕ)) (total : ℕ) → HasKeys m → AreCounts total m (counts m total)
unfolding counts
counts-AreCounts m total keys = record {
  entries = sort_slice-Perm count_first (map (count_of total) m);
  order =
      sort_slice-Pairwise (λ (a b : Count). Before a.count a.name b.count b.name)
        (λ (a b : Count). str_eq a.name b.name ≡ false) count_first
        (λ a b. comes_first-Before a.count b.count a.name b.name)
        (λ a b. comes_first-above a.count b.count a.name b.name)
        (λ a b c. Before-trans a.count b.count c.count a.name b.name c.name)
        (map (count_of total) m)
        (Pairwise-map total m keys (count_of total) (λ (a : Count). a.name) (λ x. refl));
}

pub record AreNodes (total : ℕ) (m : List (String × NodeStat)) (out : List NodeView) : Type 0 where
  pub entries : Perm out (map (node_of total) m)
  pub order : Pairwise (λ (a b : NodeView). Before a.queries a.name b.queries b.name) out
  pub top : All (λ (n : NodeView). n.queries ≤ (top_of out).1) out

Before-le : (a b : ℕ) (s t : String) → Before a s b t → b ≤ a
Before-le a b s t (inl h) = omega arith
Before-le a b s t (inr h) = omega (arith, h.0)

top_of-count : (x : NodeView) (xs : List NodeView) → (top_of (x ∷ xs)).1 ≡ x.queries
top_of-count x xs = elim (Bool-cases (ltb 0 x.queries)) [
  | inl b ↦ rw b refl
  | inr b ↦ rw b (ground (arith, b))
]

sorted-top :
    (out : List NodeView)
    → Pairwise (λ (a b : NodeView). Before a.queries a.name b.queries b.name) out
    → All (λ (n : NodeView). n.queries ≤ (top_of out).1) out
sorted-top [] h = tt
sorted-top (x ∷ xs) h =
    let first = top_of-count x xs in
    (
      omega (arith, first),
      All-mono (λ (n : NodeView). Before x.queries x.name n.queries n.name)
          (λ (n : NodeView). n.queries ≤ (top_of (x ∷ xs)).1) xs
          (λ n b.
            subst (λ k. n.queries ≤ k) (sym first) (Before-le x.queries n.queries x.name n.name b))
          h.0,
    )

pub sorted_nodes-AreNodes :
    (m : List (String × NodeStat)) (total : ℕ) → HasKeys m → AreNodes total m (sorted_nodes m total)
unfolding sorted_nodes
sorted_nodes-AreNodes m total keys =
    let order =
      sort_slice-Pairwise (λ (a b : NodeView). Before a.queries a.name b.queries b.name)
        (λ (a b : NodeView). str_eq a.name b.name ≡ false) node_first
        (λ a b. comes_first-Before a.queries b.queries a.name b.name)
        (λ a b. comes_first-above a.queries b.queries a.name b.name)
        (λ a b c. Before-trans a.queries b.queries c.queries a.name b.name c.name)
        (map (node_of total) m)
        (Pairwise-map total m keys (node_of total) (λ (a : NodeView). a.name) (λ x. refl)) in
    record {
      entries = sort_slice-Perm node_first (map (node_of total) m);
      order = order;
      top = sorted-top _ order;
    }
