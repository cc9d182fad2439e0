-- ===== src/Dnsclient/Framing/Frames.antt =====
-- What ReadMessage takes from a stream.
use hole_balancer.Base.{
  ℕ, zero, suc, ◌+◌, ◌*◌, ◌/◌, ◌%◌, ◌≤◌, ◌<◌, ◌≡◌, ◌⊎◌, inl, inr, refl, sym, ap, List, [], ◌∷◌,
  ◌++◌, Option, none, ltb, leb, ◌==◌, length, take, drop, All, flat_map, arith, false, if_true,
  if_false, Bool-cases, subst, append_assoc, leb→le, ◌∙◌, length-append,
}
use hole_balancer.Base.Slices.{drop-append, take-append, append-take-drop, length-take}
use hole_balancer.Dnsmsg.Header.{uint16}
use hole_balancer.Dnsmsg.Message.{uint16_bytes}
use hole_balancer.Dnsclient.{Failure}
use hole_balancer.Dnsclient.Framing.{
  write_message, Reader, ReadResult, got, not_read, read_message, read_full, framed, short_read,
  max_message_size, after_length, in_body, read_sized,
}

-- A message that a frame can hold.
abbrev pub IsFrame : List ℕ → Type 0
IsFrame msg = (1 ≤ length msg) × (length msg ≤ max_message_size)

abbrev pub AreBytes : List ℕ → Type 0
AreBytes = All (λ b. b < 256)

abbrev pub reader : List ℕ → Option Failure → Reader
reader bytes fault = record { bytes = bytes; fault = fault }

read_full-append :
    (pre post : List ℕ) (fault : Option Failure)
    → read_full (length pre) (reader (pre ++ post) fault) ≡ got pre (reader post fault)
read_full-append pre post fault =
    if_true (leb (length pre) (length (pre ++ post))) _ _ (ground (arith, length-append pre post))
    ∙ ap (λ xs. got xs (reader (drop (length pre) (pre ++ post)) fault)) (take-append pre post)
    ∙ ap (λ xs. got pre (reader xs fault)) (drop-append pre post)

-- ReadMessage of a stream that starts with a frame.
pub read_message-framed :
    (msg rest : List ℕ) (fault : Option Failure)
    → IsFrame msg
    → read_message (reader (framed msg ++ rest) fault) ≡ got msg (reader rest fault)
unfolding read_message
read_message-framed msg rest fault h =
    let n = length msg in
    let size : uint16 (uint16_bytes n) 0 ≡ n = omega arith in
    let full : (n == 0) ≡ false = ground arith in
    ap after_length (read_full-append (uint16_bytes n) (msg ++ rest) fault)
    ∙ ap (λ k. read_sized k (reader (msg ++ rest) fault)) size
    ∙ if_false (n == 0) _ _ full
    ∙ ap in_body (read_full-append msg rest fault)

read_full-got :
    (n : ℕ) (r : Reader) (xs : List ℕ) (left : Reader)
    → read_full n r ≡ got xs left
    → (n ≤ length r.bytes) × (xs ≡ take n r.bytes) × (left ≡ reader (drop n r.bytes) r.fault)
read_full-got n r xs left e = elim (Bool-cases (leb n (length r.bytes))) [
  | inl b ↦ let f = rw b at e in (leb→le _ _ b, (cc), (cc))
  | inr b ↦ let f = rw b at e in cc
]

-- The two bytes of a length.
uint16_bytes-uint16 :
    (a b : ℕ) → a < 256 → b < 256 → uint16_bytes (uint16 (a ∷ b ∷ []) 0) ≡ a ∷ b ∷ []
uint16_bytes-uint16 a b h k =
    let hi : (((a * 256 + b) / 256) % 256) ≡ a = omega arith in
    let lo : (a * 256 + b) % 256 ≡ b = omega arith in rw (hi, lo) refl

read_sized-got :
    (n : ℕ) (r : Reader) (msg : List ℕ) (left : Reader)
    → read_sized n r ≡ got msg left
    → (r.bytes ≡ msg ++ left.bytes) × (left.fault ≡ r.fault) × (length msg ≡ n) × (1 ≤ n)
read_sized-got n r msg left e = elim (Bool-cases (n == 0)) [
  | inl z ↦ let f = rw z at e in cc
  | inr z ↦ elim (Bool-cases (leb n (length r.bytes))) [
    | inr b ↦ let f = rw (z, b) at e in cc
    | inl b ↦
        let f = rw (z, b) at e in
        let m : take n r.bytes ≡ msg = cc in
        let l : reader (drop n r.bytes) r.fault ≡ left = cc in
        let whole = append-take-drop n r.bytes in
        let size = length-take n r.bytes (leb→le _ _ b) in
        (
          subst (λ xs. r.bytes ≡ xs ++ left.bytes) m
              (subst (λ (x : Reader). r.bytes ≡ take n r.bytes ++ x.bytes) l (sym whole)),
          ap (λ (x : Reader). x.fault) (sym l),
          subst (λ xs. length xs ≡ n) m size,
          ground arith,
        )
  ]
]

-- What ReadMessage takes is one frame, off the front.
pub read_message-got :
    (bytes : List ℕ) (fault : Option Failure) (msg : List ℕ) (left : Reader)
    → AreBytes bytes
    → read_message (reader bytes fault) ≡ got msg left
    → (bytes ≡ framed msg ++ left.bytes) × (left.fault ≡ fault) × IsFrame msg
unfolding read_message
read_message-got [] fault msg left h e = cc
read_message-got (a ∷ []) fault msg left h e = cc
read_message-got (a ∷ b ∷ rest) fault msg left h e =
    let cut = ap after_length (read_full-append (a ∷ b ∷ []) rest fault) in
    let taken = read_sized-got (uint16 (a ∷ b ∷ []) 0) (reader rest fault) msg left (sym cut ∙ e) in
    let head = uint16_bytes-uint16 a b h.0 h.1.0 in
    let size = taken.2 in
    (
      ap (λ xs. a ∷ b ∷ xs) taken.0
          ∙ ap (λ xs. xs ++ (msg ++ left.bytes)) (sym head ∙ ap uint16_bytes (sym size)),
      taken.1,
      (omega (arith, size, taken.3), omega (arith, size, h.0, h.1.0)),
    )

pub ReadResult-cases :
    (x : ReadResult)
    → ((e : Failure) × (x ≡ not_read e))
      ⊎ ((msg : List ℕ) × (rest : List ℕ) × (fault : Option Failure) × (x
            ≡ got msg (reader rest fault)))
ReadResult-cases (not_read e) = inl (e, refl)
ReadResult-cases (got msg left) = inr (msg, left.bytes, left.fault, refl)

-- A stream as the messages that it carries, and what no message can be read from.
pub record Split (bytes : List ℕ) (fault : Option Failure) : Type 0 where
  pub messages : List (List ℕ)
  pub tail : List ℕ
  pub failure : Failure
  pub whole : bytes ≡ flat_map framed messages ++ tail
  pub frames : All IsFrame messages
  pub ends : read_message (reader tail fault) ≡ not_read failure

read_message-empty :
    (fault : Option Failure)
    → read_message (reader [] fault) ≡ not_read (short_read (reader [] fault))
unfolding read_message
read_message-empty fault = refl

All-suffix : (xs ys : List ℕ) → AreBytes (xs ++ ys) → AreBytes ys
All-suffix [] ys h = h
All-suffix (x ∷ xs) ys h = All-suffix xs ys h.1

Split-after :
    (bytes : List ℕ) (fault : Option Failure) (msg rest : List ℕ)
    → bytes ≡ framed msg ++ rest
    → IsFrame msg
    → Split rest fault
    → Split bytes fault
Split-after bytes fault msg rest e h s = record {
  messages = msg ∷ s.messages;
  tail = s.tail;
  failure = s.failure;
  whole =
      e
      ∙ ap (λ xs. framed msg ++ xs) s.whole
      ∙ sym (append_assoc (framed msg) (flat_map framed s.messages) s.tail);
  frames = (h, s.frames);
  ends = s.ends;
}

split_within :
    (n : ℕ) (bytes : List ℕ) (fault : Option Failure)
    → length bytes ≤ n
    → AreBytes bytes
    → Split bytes fault
split_within zero (x ∷ xs) fault h k = absurd (omega arith)
split_within n [] fault h k = record {
  messages = [];
  tail = [];
  failure = short_read (reader [] fault);
  whole = refl;
  frames = tt;
  ends = read_message-empty fault;
}
split_within (suc n) (x ∷ xs) fault h k =
    let bytes = x ∷ xs in
    elim (ReadResult-cases (read_message (reader bytes fault))) [
      | inl (e, r) ↦ record {
        messages = [];
        tail = bytes;
        failure = e;
        whole = refl;
        frames = tt;
        ends = r;
      }
      | inr (msg, rest, left, r) ↦
          let taken = read_message-got bytes fault msg (reader rest left) k r in
          let size = ap (length {A = ℕ}) taken.0 in
          let shorter : length rest ≤ n =
            omega (arith, h, size, length-append (framed msg) rest, length-append msg rest) in
          let later =
            split_within n rest fault shorter
              (All-suffix (framed msg) rest (subst AreBytes taken.0 k)) in
          Split-after bytes fault msg rest taken.0 taken.2 later
    ]

-- Every stream carries messages, and then bytes that no message can be read from.
pub split : (bytes : List ℕ) (fault : Option Failure) → AreBytes bytes → Split bytes fault
split bytes fault h = split_within (length bytes) bytes fault (omega arith) h

-- A message that WriteMessage wrote.
pub write_message-none :
    (wrote : Option Failure) (msg bytes : List ℕ)
    → write_message wrote msg ≡ (bytes, none)
    → bytes ≡ framed msg
unfolding write_message
write_message-none wrote msg bytes h = elim (Bool-cases (ltb max_message_size (length msg))) [
  | inl long ↦ let f = rw long at h in cc
  | inr fits ↦ let f = rw fits at h in cc
]
