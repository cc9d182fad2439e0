-- ===== src/Stats/Snapshot/History.antt =====
-- The snapshot after a history of records.
use hole_balancer.Base.{
  ℕ, ◌≡◌, refl, String, false, List, [], ◌∷◌, All, str_eq, Bool-cases, Option-cases, inl, inr,
  if_split,
}
use hole_balancer.Base.Tables.{find, put}
use hole_balancer.Stats.{
  Record, NodeStat, Collector, new_collector, add_record, bump_if, count_upstream,
}
use hole_balancer.Stats.Ring.{run}
use hole_balancer.Stats.Snapshot.{Snapshot, snapshot, top_of}
use hole_balancer.Stats.Snapshot.Ordered.{
  HasKeys, AreCounts, AreNodes, counts-AreCounts, sorted_nodes-AreNodes,
}

module _ {ℓ} {A : Type ℓ} (k : String) (a : A) where
  apart-put :
      (j : String) (m : List (String × A))
      → str_eq j k ≡ false
      → All (λ e. str_eq j e.0 ≡ false) m
      → All (λ e. str_eq j e.0 ≡ false) (put k a m)
  apart-put j [] n h = (n, tt)
  apart-put j ((l, b) ∷ rest) n h = elim (Bool-cases (str_eq l k)) [
    | inl e ↦ rw e h
    | inr e ↦ rw e (h.0, apart-put j rest n h.1)
  ]

  put-HasKeys : (m : List (String × A)) → HasKeys m → HasKeys (put k a m)
  put-HasKeys [] h = (tt, tt)
  put-HasKeys ((l, b) ∷ rest) h = elim (Bool-cases (str_eq l k)) [
    | inl e ↦ rw e h
    | inr e ↦ rw e (apart-put l rest e h.0, put-HasKeys rest h.1)
  ]

-- The maps of a collector are maps.
record AreMaps (c : Collector) : Type 0 where
  protos : HasKeys c.by_proto
  rcodes : HasKeys c.by_rcode
  qtypes : HasKeys c.by_qtype
  nodes : HasKeys c.by_upstream

bump_if-HasKeys : (key : String) (m : List (String × ℕ)) → HasKeys m → HasKeys (bump_if key m)
bump_if-HasKeys key m h =
    if_split (HasKeys {A = ℕ}) (str_eq key "") _ _ (λ _. h) (λ _. put-HasKeys key _ m h)

count_upstream-HasKeys :
    (now : ℕ) (r : Record) (m : List (String × NodeStat))
    → HasKeys m
    → HasKeys (count_upstream now r m)
unfolding count_upstream
count_upstream-HasKeys now r m h =
    if_split (HasKeys {A = NodeStat}) (str_eq r.upstream "") _ _ (λ _. h)
      (λ _. elim (Option-cases (find r.upstream m)) [
        | inl e ↦ rw (e, count_upstream) (put-HasKeys r.upstream _ m h)
        | inr (n, e) ↦ rw (e, count_upstream) (put-HasKeys r.upstream _ m h)
      ])

add_record-AreMaps :
    (zone now : ℕ) (r : Record) (c : Collector) → AreMaps c → AreMaps (add_record zone now r c)
unfolding add_record
add_record-AreMaps zone now r c h = record {
  protos = bump_if-HasKeys r.proto c.by_proto h.protos;
  rcodes = bump_if-HasKeys r.rcode c.by_rcode h.rcodes;
  qtypes = bump_if-HasKeys r.qtype c.by_qtype h.qtypes;
  nodes = count_upstream-HasKeys now r c.by_upstream h.nodes;
}

run-AreMaps :
    (zone : ℕ) (recs : List (ℕ × Record)) (c : Collector) → AreMaps c → AreMaps (run zone recs c)
run-AreMaps zone [] c h = h
run-AreMaps zone ((now, r) ∷ rest) c h =
    run-AreMaps zone rest (add_record zone now r c) (add_record-AreMaps zone now r c h)

-- What a snapshot lists of a collector.
pub record Lists (c : Collector) (s : Snapshot) : Type 0 where
  pub protos : AreCounts c.total c.by_proto s.protos
  pub rcodes : AreCounts c.total c.by_rcode s.rcodes
  pub qtypes : AreCounts c.total c.by_qtype s.qtypes
  pub nodes : AreNodes c.total c.by_upstream s.nodes
  pub top : s.top_node_count ≡ (top_of s.nodes).1

-- After any history of records, the four lists of a snapshot hold every entry of their maps, once,
-- the larger counts first and equal ones in the order of their names, which leaves no choice; and
-- no node has more queries than the top node's count.
pub snapshot-Lists :
    (zone start now : ℕ) (recs : List (ℕ × Record))
    → let c = run zone recs (new_collector start) in Lists c (snapshot zone now c)
unfolding snapshot new_collector
snapshot-Lists zone start now recs =
    let c = run zone recs (new_collector start) in
    let maps =
      run-AreMaps zone recs (new_collector start)
        (record { protos = tt; rcodes = tt; qtypes = tt; nodes = tt }) in
    record {
      protos = counts-AreCounts c.by_proto c.total maps.protos;
      rcodes = counts-AreCounts c.by_rcode c.total maps.rcodes;
      qtypes = counts-AreCounts c.by_qtype c.total maps.qtypes;
      nodes = sorted_nodes-AreNodes c.by_upstream c.total maps.nodes;
      top = refl;
    }
