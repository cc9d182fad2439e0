-- ===== src/Proxy/Listen/Examples.antt =====
-- Tests of the listeners: a query that is answered, and a frame that is cut off.
use hole_balancer.Base.{ℕ, ◌≡◌, refl, true, none, some, List, [], ◌∷◌, ◌++◌, arith}
use hole_balancer.Dnsmsg.Demo.{query}
use hole_balancer.Dnsclient.Framing.{framed}
use hole_balancer.Dnsclient.Framing.Frames.{AreBytes, Split, reader}
use hole_balancer.Pool.Members.Fresh.{fresh}
use hole_balancer.System.Demo.{around}
use hole_balancer.Proxy.Demo.{world, config}
use hole_balancer.Proxy.Slots.{acquire}
use hole_balancer.Proxy.Listen.{Server, Round, serve_tcp_conn}
use hole_balancer.Proxy.Listen.Conversation.{answer_all, bytes_of, serve_tcp_conn-answers}
use hole_balancer.Proxy.Listen.Balance.{EndLeaves, serve_tcp_conn-EndLeaves}
use hole_balancer.Proxy.Listen.Datagrams.{
  Datagram, Udp, Event, arrives, read_fails, read_datagram, listen_step, listen_run, arrived,
}
use hole_balancer.Proxy.Listen.Datagrams.Accounts.{Accounts, idle, listen_run-Accounts}

abbrev calm : Round
calm = record {
  read_deadline = true;
  write_deadline = true;
  wrote = none;
  world = world;
  before = λ srv. srv;
  during = λ srv. srv;
}

abbrev sent : List ℕ
sent = framed query ++ (0 ∷ 9 ∷ 1 ∷ [])

sent-AreBytes : AreBytes sent
sent-AreBytes = ground arith

abbrev server : Server
server = record { system = around fresh; slots = record { limit = 2; used = 1 } }

serve_tcp_conn-answers_example :
    (s : Split sent none) × (serve_tcp_conn config (λ i. calm) (reader sent none) server
      ≡ bytes_of (answer_all config (λ i. calm) 0 s.messages server))
serve_tcp_conn-answers_example =
    serve_tcp_conn-answers config (λ i. calm) sent none server sent-AreBytes

serve_tcp_conn-EndLeaves_example :
    EndLeaves 1 (serve_tcp_conn config (λ i. calm) (reader sent none) server)
serve_tcp_conn-EndLeaves_example =
    serve_tcp_conn-EndLeaves config (λ i. calm) sent none server sent-AreBytes
      (λ i. (λ srv. refl, λ srv. refl))

abbrev asked : Datagram
asked = record { payload = query; client = "10.1.0.7:5353" }

abbrev busy : List Event
busy = arrives asked ∷ read_fails ∷ arrives asked ∷ []

abbrev one_taken : Udp
one_taken = let u = idle 1 (around fresh) in read_datagram u asked (acquire u.server.slots)

-- One slot: the second datagram is shed.
abbrev one_shed : Udp
one_shed = read_datagram one_taken asked (acquire one_taken.server.slots)

busy-run : listen_run config busy (idle 1 (around fresh)) ≡ some one_shed
unfolding listen_run listen_step
busy-run = refl

listen_run-Accounts_example : Accounts 1 (arrived busy) one_shed
listen_run-Accounts_example = listen_run-Accounts 1 config (around fresh) busy one_shed busy-run
