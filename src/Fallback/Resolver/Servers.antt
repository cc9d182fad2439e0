-- ===== src/Fallback/Resolver/Servers.antt =====
-- What SetServers leaves.
use hole_balancer.Base.{Bool, true, false, String, List, [], ◌≡◌, refl, if◌then◌else◌}
use hole_balancer.Fallback.Resolver.{Resolver, set_servers}

pub servers-set_servers :
    (on : Bool) (servers : List String) (r : Resolver)
    → (set_servers on servers r).servers ≡ (if on then servers else [])
unfolding set_servers
servers-set_servers true servers r = refl
servers-set_servers false servers r = refl
