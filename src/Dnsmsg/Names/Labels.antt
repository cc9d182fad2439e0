-- ===== src/Dnsmsg/Names/Labels.antt =====
-- The rounds of parseName over labels that packName wrote.
use hole_balancer.Base.{
  ℕ, zero, suc, ◌+◌, ◌≤◌, ◌<◌, ◌≡◌, refl, List, [], ◌∷◌, ◌++◌, ◌==◌, length, take, drop, flat_map,
  arith, leb, ltb, append_assoc, append-nil, length-append, ap, sym, ◌∙◌, if_false,
}
use hole_balancer.Dnsmsg.Header.{Parsed, ok, err, byte_at}
use hole_balancer.Base.Slices.{take-append}
use hole_balancer.Dnsmsg.Bytes.{byte_at-append, drop-append_suc}
use hole_balancer.Dnsmsg.Names.{parse_labels, pack_labels, write_escaped, dot}

-- A label as parseName prints it.
abbrev pub present : List ℕ → List ℕ
present label = write_escaped label ++ dot ∷ []

-- One round where the byte at the offset and the label after it are known.
parse_labels-step :
    (fuel : ℕ) (msg : List ℕ) (off total : ℕ) (sb label : List ℕ) (l : ℕ)
    → byte_at msg off ≡ l
    → take l (drop (off + 1) msg) ≡ label
    → 0 < l
    → l ≤ 63
    → off + 1 + l ≤ length msg
    → total + (l + 1) ≤ 255
    → parse_labels (suc fuel) msg off total sb
      ≡ parse_labels fuel msg (off + 1 + l) (total + (l + 1)) (sb ++ present label)
unfolding parse_labels
parse_labels-step fuel msg off total sb label l e d low high inside fits =
    rw (e, d)
      (if_false (leb (length msg) off) _ _ (ground arith)
        ∙ if_false (l == 0) _ _ (ground arith)
        ∙ if_false (leb 64 l) _ _ (ground arith)
        ∙ if_false (ltb (length msg) (off + 1 + l)) _ _ (ground arith)
        ∙ if_false (ltb 255 (total + (l + 1))) _ _ (ground arith))

parse_labels-end :
    (fuel : ℕ) (msg : List ℕ) (off total : ℕ) (sb : List ℕ)
    → byte_at msg off ≡ 0
    → off < length msg
    → 0 < length sb
    → parse_labels (suc fuel) msg off total sb ≡ ok (sb, off + 1)
unfolding parse_labels
parse_labels-end fuel msg off total sb e inside some_label = rw e (ground arith)

abbrev pub presented : List (List ℕ) → List ℕ
presented = flat_map present

-- What pack_labels writes for a label and the ones after it.
record Packs (label : List ℕ) (labels : List (List ℕ)) (out : List ℕ) : Type 0 where
  low : 0 < length label
  high : length label ≤ 63
  tail : List ℕ
  packs : pack_labels labels ≡ ok tail
  out_eq : out ≡ length label ∷ label ++ tail

pack_labels-Packs :
    (label : List ℕ) (labels : List (List ℕ)) (out : List ℕ)
    → pack_labels (label ∷ labels) ≡ ok out
    → Packs label labels out
unfolding pack_labels
pack_labels-Packs label labels out h = go (pack_labels labels) refl
  where
    go : (r : Parsed (List ℕ)) → pack_labels labels ≡ r → Packs label labels out
    go (err e) p = absurd (ground (arith, h, p))
    go (ok tail) p = record {
      low = ground (arith, h, p);
      high = ground (arith, h, p);
      tail = tail;
      packs = p;
      out_eq = ground (arith, h, p);
    }

pack_labels-last :
    (labels : List (List ℕ)) (out : List ℕ) → pack_labels labels ≡ ok out → 0 < length out
unfolding pack_labels
pack_labels-last [] out p = let e : out ≡ 0 ∷ [] = cc in ground (arith, ap length e)
pack_labels-last (label ∷ labels) out p =
    let q = pack_labels-Packs label labels out p in ground (arith, ap length q.out_eq)

-- One round on a message that has a label at the offset.
parse_labels-label :
    (fuel : ℕ) (pre label rest : List ℕ) (total : ℕ) (sb : List ℕ)
    → 0 < length label
    → length label ≤ 63
    → total + (length label + 1) ≤ 255
    → parse_labels (suc fuel) (pre ++ (length label ∷ (label ++ rest))) (length pre) total sb
      ≡ parse_labels fuel
          ((pre ++ (length label ∷ label)) ++ rest)
          (length (pre ++ (length label ∷ label)))
          (total + (length label + 1))
          (sb ++ present label)
parse_labels-label fuel pre label rest total sb low high fits =
    let l = length label in
    let msg = pre ++ (l ∷ (label ++ rest)) in
    let size : length msg ≡ length pre + suc (l + length rest) =
      omega (arith, length-append pre (l ∷ (label ++ rest)), length-append label rest) in
    let later : length pre + 1 + l ≡ length (pre ++ (l ∷ label)) =
      omega (arith, length-append pre (l ∷ label)) in
    parse_labels-step fuel msg (length pre) total sb label l (byte_at-append pre l (label ++ rest))
      (ap (take l) (drop-append_suc pre l (label ++ rest)) ∙ take-append label rest) low high
      (omega arith) fits
    ∙ ap (λ n. parse_labels fuel msg n (total + (l + 1)) (sb ++ present label)) later
    ∙ ap
        (λ m.
          parse_labels fuel m (length (pre ++ (l ∷ label))) (total + (l + 1)) (sb ++ present label))
        (sym (append_assoc pre (l ∷ label) rest))

parse_labels-stop :
    (fuel : ℕ) (pre post : List ℕ) (total : ℕ) (sb : List ℕ)
    → 0 < fuel
    → 0 < length sb
    → parse_labels fuel (pre ++ (0 ∷ post)) (length pre) total sb ≡ ok (sb, length pre + 1)
parse_labels-stop zero pre post total sb f h = absurd (omega arith)
parse_labels-stop (suc fuel) pre post total sb f h =
    parse_labels-end fuel (pre ++ (0 ∷ post)) (length pre) total sb (byte_at-append pre 0 post)
      (omega (arith, length-append pre (0 ∷ post))) h

pub ap2_ok :
    {a b : List ℕ} {m n : ℕ} → a ≡ b → m ≡ n → Path (Parsed (List ℕ × ℕ)) (ok (a, m)) (ok (b, n))
ap2_ok {a} {b} {m} {n} e f = rw (e, f)

-- From an offset at which packed labels stand, parseName reads them all.
pub parse_labels-pack :
    (labels : List (List ℕ)) (fuel : ℕ) (pre out post : List ℕ) (total : ℕ) (sb : List ℕ)
    → pack_labels labels ≡ ok out
    → length out ≤ fuel
    → total + length out ≤ 256
    → 0 < length (sb ++ presented labels)
    → parse_labels fuel (pre ++ (out ++ post)) (length pre) total sb
      ≡ ok (sb ++ presented labels, length pre + length out)
unfolding pack_labels
parse_labels-pack [] fuel pre out post total sb p enough fits some_label =
    let e : out ≡ 0 ∷ [] = cc in
    rw (append-nil sb, e)
      (parse_labels-stop fuel pre post total sb (ground (arith, ap length e))
        (ground (arith, ap length (append-nil sb))))
parse_labels-pack (label ∷ labels) zero pre out post total sb p enough fits some_label =
    let q = pack_labels-Packs label labels out p in absurd (ground (arith, ap length q.out_eq))
parse_labels-pack (label ∷ labels) (suc fuel) pre out post total sb p enough fits some_label =
    let q = pack_labels-Packs label labels out p in
    let l = length label in
    let size : length out ≡ suc (l + length q.tail) =
      omega (arith, ap length q.out_eq, length-append label q.tail) in
    let joined : (sb ++ present label) ++ presented labels
        ≡ sb ++ (present label ++ presented labels) =
      append_assoc sb (present label) (presented labels) in
    ap (λ o. parse_labels (suc fuel) (pre ++ (o ++ post)) (length pre) total sb) q.out_eq
    ∙ ap (λ o. parse_labels (suc fuel) (pre ++ (l ∷ o)) (length pre) total sb)
        (append_assoc label q.tail post)
    ∙ parse_labels-label fuel pre label (q.tail ++ post) total sb q.low q.high
        (omega (arith, pack_labels-last labels q.tail q.packs))
    ∙ parse_labels-pack labels fuel (pre ++ (l ∷ label)) q.tail post (total + (l + 1))
        (sb ++ present label) q.packs (omega arith) (omega arith) (omega (arith, ap length joined))
    ∙ ap2_ok joined (omega (arith, length-append pre (l ∷ label)))
