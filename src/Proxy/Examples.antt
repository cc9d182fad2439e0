-- ===== src/Proxy/Examples.antt =====
-- Tests of the forwarder: the first endpoint times out, the second answers.
use hole_balancer.Base.{
  ℕ, Option, ◌≡◌, refl, ap, ◌==◌, String, List, [], ◌∷◌, some, if◌then◌else◌, arith,
}
use hole_balancer.Dnsmsg.Demo.{no_error, query}
use hole_balancer.Pool.Types.{Pool}
use hole_balancer.Pool.Demo.{steady}
use hole_balancer.Pool.Plan.{plan}
use hole_balancer.Pool.Members.Fresh.{
  fresh, fresh-IsSynced, fresh-IsHealthy, fresh-rr, fresh-counter, fresh-down,
}
use hole_balancer.Fallback.Resolver.{enabled}
use hole_balancer.System.{System}
use hole_balancer.System.Demo.{around}
use hole_balancer.Proxy.Attempts.Limits.{answering}
use hole_balancer.Proxy.Forward.Budget.{forward-answering}
use hole_balancer.Proxy.Forward.{forward, resolve_query}
use hole_balancer.Proxy.Forward.Replies.{Served, forward-Serves}
use hole_balancer.Dnsclient.{Sent, lost}
use hole_balancer.Dnsclient.Demo.{wire}
use hole_balancer.Proxy.Client.{AreGenuine, networked, resolve_query-AreGenuine}
use hole_balancer.Proxy.Service.{Asked, AreServed, IsFit, serve_all, serve_all-AreServed}
use hole_balancer.Proxy.Demo.{world, config, steady-IsRandom}

forward-Serves_example :
    (es : List ℕ) × (q : Pool) × (plan fresh steady ≡ some (es, q))
    × Served world config (around fresh) query "udp" es q
forward-Serves_example =
    forward-Serves world config (around fresh) query "udp" fresh-IsSynced steady-IsRandom fresh-rr
      (omega arith)

-- The servers of the world in the first round, and silence after it.
abbrev silent_later : ℕ → String → ℕ × Sent
silent_later j = if j == 0 then world.exchange j else λ addr. (9, lost "timeout" "i/o timeout")

-- Every upstream is down, and public DNS is there.
forward-answering_example :
    forward (answering world silent_later) config (around fresh) query "udp"
    ≡ forward world config (around fresh) query "udp"
unfolding enabled
forward-answering_example =
    forward-answering world silent_later config (around fresh) query "udp"
      (λ j b. let first : j ≡ 0 = b.1 refl (ap (λ n. n == 0) fresh-down) in rw first refl)

resolve_query-AreGenuine_example :
    let met = networked (λ n. "") (λ i addr. wire) (λ i server. wire) "tcp" query world in
    (t : System) × (o : Option (List ℕ)) × (resolve_query met config (around fresh) query "tcp"
      ≡ some (t, o))
    × AreGenuine query o
resolve_query-AreGenuine_example =
    resolve_query-AreGenuine (λ n. "") (λ i addr. wire) (λ i server. wire) world config
      (around fresh) query "tcp" fresh-IsSynced steady-IsRandom fresh-rr (omega arith)

-- The query over UDP, and its own response over TCP.
abbrev queries : List Asked
queries =
    record {
      show = λ n. "";
      wires = λ i addr. wire;
      public_wires = λ i server. wire;
      world = world;
      proto = "udp";
      req = query;
    }
    ∷ record {
      show = λ n. "";
      wires = λ i addr. wire;
      public_wires = λ i server. wire;
      world = world;
      proto = "tcp";
      req = no_error;
    }
    ∷ []

fresh-IsFit : IsFit 2 (around fresh)
fresh-IsFit = ((fresh-IsSynced, fresh-IsHealthy), omega (arith, fresh-counter), omega arith)

serve_all-AreServed_example :
    (u : System) × (replies : List (Option (List ℕ))) × (serve_all config queries (around fresh)
      ≡ some (u, replies))
    × AreServed queries replies
serve_all-AreServed_example =
    serve_all-AreServed config queries (around fresh) fresh-IsFit
      (steady-IsRandom, (steady-IsRandom, tt))
