-- ===== src/Proxy/Listen/Datagrams/Accounts.antt =====
-- internal/proxy/listen.go, serveUDP: the slots and the datagrams in flight and handled in a run.
use hole_balancer.Base.{
  ℕ, zero, suc, ◌+◌, ◌≤◌, ◌≡◌, refl, ◌∙◌, ap, subst, Bool, true, false, List, [], ◌∷◌, ◌++◌, map,
  Option, none, some, arith, length, length-append, if◌then◌else◌, Option-cases, inl, inr,
  append-nil,
}
use mathlib.Core.List.{Perm, perm_middle}
use mathlib.Core.List.Perm
use hole_balancer.System.{System}
use hole_balancer.Proxy.Types.{Query}
use hole_balancer.Proxy.Slots.{
  Slots, acquire, acquire-used, acquire-limit, release-used, release-limit, new_slots,
}
use hole_balancer.Proxy.Forward.{resolve_query}
use hole_balancer.Proxy.Listen.Datagrams.{
  Datagram, Udp, Event, arrives, read_fails, ends, pick, read_datagram, finished, listen_step,
  listen_run, arrived,
}

-- Every slot in use is a query in flight, within the limit; and the datagrams that were read are, in
-- some order, those handled and those in flight.
pub record Accounts (limit : ℕ) (reads : List Datagram) (u : Udp) : Type 0 where
  pub limit_kept : u.server.slots.limit ≡ limit
  pub slots_used : u.server.slots.used ≡ length u.in_flight
  pub bounded : length u.in_flight ≤ limit
  pub once : Perm (map (λ x. x.0) u.handled ++ u.in_flight) reads

some-inj {ℓ} : {A : Type ℓ} {x y : A} → some x ≡ some y → x ≡ y
some-inj e = cc

pick-Perm :
    (i : ℕ) (xs : List Datagram) (y : Datagram) (ys : List Datagram)
    → pick i xs ≡ some (y, ys)
    → (length xs ≡ length ys + 1) × Perm xs (y ∷ ys)
pick-Perm i [] y ys h = cc
pick-Perm zero (x ∷ xs) y ys h =
    let l : xs ≡ ys = cc in
    let same : x ≡ y = cc in
    (
      omega (arith, ap (length {A = Datagram}) l),
      subst (λ z. Perm (x ∷ xs) (z ∷ ys)) same
          (subst (λ zs. Perm (x ∷ xs) (x ∷ zs)) l (Perm.refl (x ∷ xs))),
    )
pick-Perm (suc i) (x ∷ xs) y ys h = elim (Option-cases (pick i xs)) [
  | inl e ↦ let f = rw e at h in cc
  | inr ((z, zs), e) ↦
      let f = rw e at h in
      let same : z ≡ y = cc in
      let l : x ∷ zs ≡ ys = cc in
      let later = pick-Perm i xs z zs e in
      (
        omega (arith, later.0, ap (length {A = Datagram}) l),
        subst (λ a. Perm (x ∷ xs) (a ∷ ys)) same
            (subst (λ rest. Perm (x ∷ xs) (z ∷ rest)) l
              (Perm.trans (Perm.cons x later.1) (Perm.swap z x zs))),
      )
]

read_datagram-Accounts :
    (limit : ℕ) (reads : List Datagram) (u : Udp) (d : Datagram)
    → Accounts limit reads u
    → Accounts limit (d ∷ reads) (read_datagram u d (acquire u.server.slots))
read_datagram-Accounts limit reads u d h =
    let slots = u.server.slots in
    go (acquire slots) (acquire-used slots) ((acquire-limit slots).0 ∙ h.limit_kept) (
      omega (
        arith,
        (acquire-limit slots).1 (omega (arith, h.slots_used, h.limit_kept, h.bounded)),
        h.limit_kept,
      ))
  where
    done : List Datagram
    done = map (λ x. x.0) u.handled

    go :
        (slot : Slots × Bool)
        → slot.0.used ≡ u.server.slots.used + (if slot.1 then 1 else 0)
        → slot.0.limit ≡ limit
        → slot.0.used ≤ limit
        → Accounts limit (d ∷ reads) (read_datagram u d slot)
    go (held, false) e l b = record {
      limit_kept = l;
      slots_used = omega (arith, e, h.slots_used);
      bounded = h.bounded;
      once = Perm.cons d h.once;
    }
    go (held, true) e l b =
        let size = length-append u.in_flight (d ∷ []) in
        record {
          limit_kept = l;
          slots_used = omega (arith, e, h.slots_used, size);
          bounded = omega (arith, e, h.slots_used, size, b);
          once =
              Perm.trans
                (Perm.append_left done (
                  subst (λ xs. Perm (u.in_flight ++ d ∷ []) (d ∷ xs)) (append-nil u.in_flight)
                    (perm_middle u.in_flight [])))
                (Perm.trans (perm_middle done u.in_flight) (Perm.cons d h.once));
        }

finished-Accounts :
    (limit : ℕ) (reads : List Datagram) (u v : Udp) (d : Datagram) (others : List Datagram)
    (x : Option (System × Option (List ℕ)))
    → (length u.in_flight ≡ length others + 1) × Perm u.in_flight (d ∷ others)
    → Accounts limit reads u
    → finished u d others x ≡ some v
    → Accounts limit reads v
finished-Accounts limit reads u v d others none p h e = cc
finished-Accounts limit reads u v d others (some (t, reply)) p h e =
    subst (Accounts limit reads) (some-inj e) (record {
      limit_kept = release-limit u.server.slots ∙ h.limit_kept;
      slots_used = release-used u.server.slots (length others) (omega (arith, h.slots_used, p.0));
      bounded = omega (arith, h.bounded, p.0);
      once =
          Perm.trans (Perm.symm (perm_middle (map (λ x. x.0) u.handled) others))
            (Perm.trans (Perm.append_left (map (λ x. x.0) u.handled) (Perm.symm p.1)) h.once);
    })

Accounts-Perm :
    (limit : ℕ) {reads more : List Datagram} (u : Udp)
    → Perm reads more
    → Accounts limit reads u
    → Accounts limit more u
Accounts-Perm limit u p h = record {
  limit_kept = h.limit_kept;
  slots_used = h.slots_used;
  bounded = h.bounded;
  once = Perm.trans h.once p;
}

listen_run-kept :
    (limit : ℕ) (cfg : Query) (es : List Event) (reads : List Datagram) (u v : Udp)
    → Accounts limit reads u
    → listen_run cfg es u ≡ some v
    → Accounts limit (arrived es ++ reads) v
unfolding listen_run listen_step
listen_run-kept limit cfg [] reads u v h e = subst (Accounts limit reads) (some-inj e) h
listen_run-kept limit cfg (read_fails ∷ es) reads u v h e =
    listen_run-kept limit cfg es reads u v h e
listen_run-kept limit cfg (arrives d ∷ es) reads u v h e =
    Accounts-Perm limit v (perm_middle (arrived es) reads)
      (listen_run-kept limit cfg es (d ∷ reads) _ v (read_datagram-Accounts limit reads u d h) e)
listen_run-kept limit cfg (ends i w ∷ es) reads u v h e = elim (Option-cases (pick i u.in_flight)) [
  | inl p ↦ let f = rw (p, listen_run, listen_step) at e in cc
  | inr ((d, others), p) ↦
      let f = rw (p, listen_run, listen_step) at e in
      let resolved = resolve_query w cfg u.server.system d.payload "udp" in
      elim (Option-cases (finished u d others resolved)) [
        | inl x ↦ let g = rw (x, listen_run) at f in cc
        | inr (next, x) ↦
            let g = rw (x, listen_run) at f in
            listen_run-kept limit cfg es reads next v
              (finished-Accounts limit reads u next d others resolved
                (pick-Perm i u.in_flight d others p) h x)
              g
      ]
]

-- A server that has read nothing.
abbrev pub idle : ℕ → System → Udp
idle limit s = record {
  server = record { system = s; slots = new_slots limit };
  in_flight = [];
  handled = [];
}

-- In every run of serveUDP, whatever the order in which datagrams arrive and goroutines end: the
-- slots in use are the queries in flight, never more of them than the limit, and each datagram that
-- was read is either in flight or has been handled, once.
pub listen_run-Accounts :
    (limit : ℕ) (cfg : Query) (s : System) (es : List Event) (v : Udp)
    → listen_run cfg es (idle limit s) ≡ some v
    → Accounts limit (arrived es) v
unfolding new_slots
listen_run-Accounts limit cfg s es v e =
    subst (λ reads. Accounts limit reads v) (append-nil (arrived es))
      (listen_run-kept limit cfg es [] (idle limit s) v
        (record { limit_kept = refl; slots_used = refl; bounded = omega arith; once = Perm.nil }) e)
