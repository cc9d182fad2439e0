-- ===== src/Pool/Plan.antt =====
-- internal/pool/pool.go: Plan, the selection strategies, and the weighted draw. What math/rand
-- draws during one call of Plan is the argument `Draws`, one function for each call site.
-- One state is read by a call of Plan: the source holds the pool's lock for reading, which does not
-- keep an endpoint from going up or down between its reads of `up`.
pub mod Order
pub mod Choice
pub mod Tiers
pub mod Total
pub mod Counter
pub mod Weights
pub mod Sort
pub mod Coverage
mod Examples
use hole_balancer.Base.{
  ℕ, zero, suc, ◌+◌, ◌-◌, ◌%◌, ◌^◌, String, Bool, true, false, not, ◌&&◌, List, [], ◌∷◌, ◌++◌,
  Option, none, some, ltb, leb, ◌==◌, str_eq, if◌then◌else◌, length, get_elem?, set, keep, flat_map,
}
use hole_balancer.Base.Int.{ℤ, pos, pos_part, ◌+ℤ◌, ◌-ℤ◌, ltb_ℤ}
use hole_balancer.Config.Types.{strategy_failover, strategy_round_robin, strategy_least_latency}
use hole_balancer.Pool.Types.{Pool, paths, is_up, healthy, active, drained}

pub record Draws : Type 0 where
  pub shuffle_upstreams : List ℕ → List ℕ
  pub shuffle_secondary : List ℕ → List ℕ
  pub shuffle_last_resort : List ℕ → List ℕ
  pub shuffle_drained : List ℕ → List ℕ
  pub int_n : ℕ → ℕ

-- The three slices that the first loop of Plan fills.
pub record Split : Type 0 where
  pub up : List ℕ
  pub down : List ℕ
  pub out : List ℕ

pub split : Pool → List ℕ → Split
split p [] = record { up = []; down = []; out = [] }
split p (u ∷ us) =
    let s = split p us in
    if drained p u
    then record s { out = u ∷ s.out }
    else if healthy p u
    then record s { up = u ∷ s.up }
    else record s { down = u ∷ s.down }

abbrev pub hour : ℕ
hour = 3600000000000

pub effective_latency : Pool → ℕ → ℕ
effective_latency p u = elim (active p u) [
  | none ↦ hour
  | some e ↦ let l = (p.endpoint e).latency_ewma in if ltb 0 l then l else hour
]

-- sort.SliceStable by a key: an element goes before the first one with a larger key.
pub insert_by : (ℕ → ℕ) → ℕ → List ℕ → List ℕ
insert_by key x [] = x ∷ []
insert_by key x (y ∷ ys) =
    let rest = insert_by key x ys in if leb (key x) (key y) then x ∷ y ∷ ys else y ∷ rest

pub slice_stable : (ℕ → ℕ) → List ℕ → List ℕ
slice_stable key [] = []
slice_stable key (x ∷ xs) = insert_by key x (slice_stable key xs)

-- `int(rr.Add(1)-1) % n` as an index: a counter past the largest int is a negative number, and
-- an index below 0 panics.
pub rotation_start : ℕ → ℕ → Option ℕ
rotation_start rr n =
    if ltb rr (2 ^ 63) then some (rr % n) else if (2 ^ 64 - rr) % n == 0 then some 0 else none

pub next_rr : ℕ → ℕ
next_rr rr = (rr + 1) % 2 ^ 64

-- The loop of the round-robin case, `k` rounds from `i`; an index out of range panics.
pub rotate_from {ℓ} : {A : Type ℓ} → List A → ℕ → ℕ → ℕ → Option (List A)
rotate_from out start i zero = some []
rotate_from out start i (suc k) =
    let rest = rotate_from out start (i + 1) k in
    elim (get_elem? out ((start + i) % length out)) [
      | none ↦ none
      | some x ↦ elim rest [ none ↦ none | some xs ↦ some (x ∷ xs) ]
    ]

pub total_weight : Pool → List ℕ → ℤ
total_weight p [] = pos 0
total_weight p (u ∷ us) = (p.upstream u).weight +ℤ total_weight p us

-- The loop of weightedPick from index `i`, with what is left of the draw.
pub pick_from : Pool → ℤ → ℕ → ℕ → List ℕ → ℕ
pick_from p n i last [] = last
pick_from p n i last (u ∷ us) =
    let left = n -ℤ (p.upstream u).weight in
    let rest = pick_from p left (i + 1) last us in if ltb_ℤ left (pos 0) then i else rest

pub weighted_pick : Pool → (ℕ → ℕ) → List ℕ → ℕ
weighted_pick p int_n ups =
    let total = total_weight p ups in
    if ltb_ℤ (pos 0) total
    then pick_from p (pos (int_n (pos_part total))) 0 (length ups - 1) ups
    else int_n (length ups)

-- `out[0], out[i] = out[i], out[0]`, where an index out of range panics.
pub swap_first {ℓ} : {A : Type ℓ} → ℕ → List A → Option (List A)
swap_first zero xs = some xs
swap_first (suc i) [] = none
swap_first (suc i) (x ∷ xs) = elim (get_elem? xs i) [ none ↦ none | some y ↦ some (y ∷ set xs i x) ]

-- orderLocked: the order and the round-robin counter; `none` is a panic.
pub order_locked : Pool → Draws → List ℕ → Option (List ℕ × ℕ)
order_locked p d ups =
    if ltb (length ups) 2
    then some (ups, p.rr)
    else if str_eq p.strategy strategy_failover
    then some (ups, p.rr)
    else if str_eq p.strategy strategy_round_robin
    then elim (rotation_start p.rr (length ups)) [
      | none ↦ none
      | some start ↦ elim (rotate_from ups start 0 (length ups)) [
        | none ↦ none
        | some rotated ↦ some (rotated, next_rr p.rr)
      ]
    ]
    else if str_eq p.strategy strategy_least_latency
    then some (slice_stable (effective_latency p) ups, p.rr)
    else elim (swap_first (weighted_pick p d.int_n (d.shuffle_upstreams ups))
        (d.shuffle_upstreams ups)) [ none ↦ none | some out ↦ some (out, p.rr) ]

-- Tier one: the preferred path of one upstream, where it has one.
pub first_path : Pool → ℕ → List ℕ
first_path p u = elim (active p u) [ none ↦ [] | some e ↦ e ∷ [] ]

abbrev pub same_path : ℕ → Option ℕ → Bool
same_path e none = false
same_path e (some a) = e == a

-- Tier two: the other healthy paths of one upstream.
pub other_paths : Pool → ℕ → List ℕ
other_paths p u = keep (λ e. not (same_path e (active p u)) && is_up p e) (paths p u)

-- Tier three: the paths of a healthy upstream that are down.
pub down_paths : Pool → ℕ → List ℕ
down_paths p u = keep (λ e. not (is_up p e)) (paths p u)

-- The three tiers over an order, before the drained upstreams are considered.
pub tiers : Pool → Draws → List ℕ → List ℕ → List ℕ
tiers p d ordered down =
    flat_map (first_path p) ordered
    ++ (d.shuffle_secondary (flat_map (other_paths p) ordered)
        ++ d.shuffle_last_resort (flat_map (down_paths p) ordered ++ flat_map (paths p) down))

pub or_drained : Pool → Draws → List ℕ → List ℕ → List ℕ
or_drained p d out [] = d.shuffle_drained (flat_map (paths p) out)
or_drained p d out (e ∷ es) = e ∷ es

-- The plan of a query: the endpoints to try, best first, and the pool with its counter moved.
pub plan : Pool → Draws → Option (List ℕ × Pool)
plan p d =
    let s = split p p.upstreams in
    elim (order_locked p d s.up) [
      | none ↦ none
      | some (ordered, rr) ↦
          some (or_drained p d s.out (tiers p d ordered s.down), record p { rr = rr })
    ]
