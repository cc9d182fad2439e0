-- ===== src/Proxy/Listen.antt =====
-- internal/proxy/listen.go: serveTCPConn, which answers the queries of one connection one after the
-- other. The accept loop, the binding of sockets and the closing at shutdown are left out.
pub mod Conversation
pub mod Datagrams
pub mod Balance
mod Examples
use hole_balancer.Base.{
  ℕ, suc, zero, ◌+◌, String, Bool, true, false, not, List, [], ◌++◌, Option, none, some,
  if◌then◌else◌, length,
}
use hole_balancer.System.{System}
use hole_balancer.Dnsclient.{Failure}
use hole_balancer.Dnsclient.Framing.{Reader, got, not_read, read_message, write_message}
use hole_balancer.Proxy.Types.{World, Query}
use hole_balancer.Proxy.Slots.{Slots, acquire, release}
use hole_balancer.Proxy.Forward.{resolve_query, overloaded}

-- What the goroutines of the server share.
pub record Server : Type 0 where
  pub system : System
  pub slots : Slots

-- What one round of a connection meets: whether SetReadDeadline and SetWriteDeadline succeed, what
-- the write returns, the world of the query, and what the other goroutines do to the server before
-- the slot is asked for and while it is held.
pub record Round : Type 0 where
  pub read_deadline : Bool
  pub write_deadline : Bool
  pub wrote : Option Failure
  pub world : World
  pub before : Server → Server
  pub during : Server → Server

-- How a round ends: with the reply and its bytes on the connection, with the connection closed, or in
-- a panic.
pub data Turn : Type 0 where
  goes_on : Server → List ℕ → List ℕ → Turn
  closes : Server → Turn
  dies : Turn

-- The call of WriteMessage. A write that fails may leave a part of the frame on a closed connection.
abbrev pub written : Server → List ℕ → List ℕ × Option Failure → Turn
written srv resp (bytes, none) = goes_on srv resp bytes
written srv resp (bytes, some e) = closes srv

-- A query at the limit; the error of SetWriteDeadline is dropped here.
abbrev pub shed : Round → Slots → System × Option (List ℕ) → Turn
shed e held (t, none) = closes (record { system = t; slots = held })
shed e held (t, some resp) =
    written (record { system = t; slots = held }) resp (write_message e.wrote resp)

abbrev pub freed : Round → System → Slots → Server
freed e t held =
    let srv = e.during (record { system = t; slots = held }) in
    record srv { slots = release srv.slots }

-- A query that was taken on, after Resolve.
abbrev pub resolved : Round → Slots → Option (System × Option (List ℕ)) → Turn
resolved e held none = dies
resolved e held (some (t, none)) = closes (freed e t held)
resolved e held (some (t, some resp)) =
    if not e.write_deadline
    then closes (freed e t held)
    else written (freed e t held) resp (write_message e.wrote resp)

abbrev pub taken : Query → Round → System → List ℕ → Slots × Bool → Turn
taken cfg e s req (held, false) = shed e held (overloaded s req)
taken cfg e s req (held, true) = resolved e held (resolve_query e.world cfg s req "tcp")

-- One round of serveTCPConn, from the message on.
unfoldable pub answer_one : Query → Round → Server → List ℕ → Turn
answer_one cfg e srv req = let now = e.before srv in taken cfg e now.system req (acquire now.slots)

-- How serveTCPConn ends, and the bytes it wrote; `out_of_fuel` is no end of the source.
pub data ConnEnd : Type 0 where
  closed : Server → List ℕ → ConnEnd
  panics : ConnEnd
  out_of_fuel : ConnEnd

abbrev pub after_bytes : List ℕ → ConnEnd → ConnEnd
after_bytes bytes (closed srv later) = closed srv (bytes ++ later)
after_bytes bytes panics = panics
after_bytes bytes out_of_fuel = out_of_fuel

-- The loop of serveTCPConn from round `i`.
unfoldable pub serve_conn : Query → (ℕ → Round) → ℕ → ℕ → Reader → Server → ConnEnd
serve_conn cfg env zero i r srv = out_of_fuel
serve_conn cfg env (suc fuel) i r srv = elim ((env i).read_deadline) [
  | false ↦ closed srv []
  | true ↦ elim (read_message r) [
    | not_read e ↦ closed srv []
    | got req left ↦ elim (answer_one cfg (env i) srv req) [
      | dies ↦ panics
      | closes after ↦ closed after []
      | goes_on after resp bytes ↦ after_bytes bytes (serve_conn cfg env fuel (i + 1) left after)
    ]
  ]
]

-- serveTCPConn; every round but the last takes bytes off the stream.
unfoldable pub serve_tcp_conn : Query → (ℕ → Round) → Reader → Server → ConnEnd
serve_tcp_conn cfg env r srv = serve_conn cfg env (length r.bytes + 1) 0 r srv
