-- ===== src/Proxy/Listen/Datagrams.antt =====
-- internal/proxy/listen.go: serveUDP. Each datagram is answered in its own goroutine, so a run is a
-- sequence of events in any order: a read, or the end of a goroutine in flight. The loop ends when
-- the socket is closed, and a failed read does nothing.
pub mod Accounts
use hole_balancer.Base.{
  ℕ, zero, suc, String, Bool, true, false, List, [], ◌∷◌, ◌++◌, Option, none, some,
}
use hole_balancer.System.{System}
use hole_balancer.Proxy.Types.{World, Query}
use hole_balancer.Proxy.Slots.{Slots, acquire, release}
use hole_balancer.Proxy.Forward.{resolve_query, overloaded}
use hole_balancer.Proxy.Listen.{Server}

pub record Datagram : Type 0 where
  pub payload : List ℕ
  pub client : String

-- The queries in flight, and the handled ones, each with the reply that is written to its client.
pub record Udp : Type 0 where
  pub server : Server
  pub in_flight : List Datagram
  pub handled : List (Datagram × Option (List ℕ))

pub data Event : Type 0 where
  arrives : Datagram → Event
  read_fails : Event
  ends : ℕ → World → Event

-- Entry `i` of a list, and the others.
abbrev pub pick {ℓ} : {A : Type ℓ} → ℕ → List A → Option (A × List A)
pick i [] = none
pick zero (x ∷ xs) = some (x, xs)
pick (suc i) (x ∷ xs) = elim (pick i xs) [ none ↦ none | some (y, ys) ↦ some (y, x ∷ ys) ]

abbrev pub read_datagram : Udp → Datagram → Slots × Bool → Udp
read_datagram u d (held, false) =
    let shed = overloaded u.server.system d.payload in
    record u {
      server = record { system = shed.0; slots = held };
      handled = (d, shed.1) ∷ u.handled;
    }
read_datagram u d (held, true) = record u {
  server = record (u.server) { slots = held };
  in_flight = u.in_flight ++ d ∷ [];
}

-- What a goroutine does once Resolve returned, without its query in flight; `none` is a panic.
abbrev pub finished :
    Udp → Datagram → List Datagram → Option (System × Option (List ℕ)) → Option Udp
finished u d others none = none
finished u d others (some (t, reply)) = some (record {
  server = record { system = t; slots = release u.server.slots };
  in_flight = others;
  handled = (d, reply) ∷ u.handled;
})

-- One event. `none` is a panic, or the end of a goroutine that is not there.
unfoldable pub listen_step : Query → Event → Udp → Option Udp
listen_step cfg read_fails u = some u
listen_step cfg (arrives d) u = some (read_datagram u d (acquire u.server.slots))
listen_step cfg (ends i w) u = elim (pick i u.in_flight) [
  | none ↦ none
  | some (d, others) ↦ finished u d others (resolve_query w cfg u.server.system d.payload "udp")
]

unfoldable pub listen_run : Query → List Event → Udp → Option Udp
listen_run cfg [] u = some u
listen_run cfg (e ∷ es) u = elim (listen_step cfg e u) [
  | none ↦ none
  | some v ↦ listen_run cfg es v
]

abbrev pub arrived : List Event → List Datagram
arrived [] = []
arrived (arrives d ∷ es) = d ∷ arrived es
arrived (read_fails ∷ es) = arrived es
arrived (ends i w ∷ es) = arrived es
