-- ===== src/Pool/Members/Examples.antt =====
-- Tests of the changes of membership.
use hole_balancer.Base.{ℕ, ◌≡◌, ◌<◌, refl, true, [], ◌∷◌, arith, All, length, keep, none}
use hole_balancer.Pool.Types.{Pool}
use hole_balancer.Pool.Demo.{east_config, west_config, steady}
use hole_balancer.Pool.Plan.Total.{IsRandom}
use hole_balancer.Pool.Plan.Coverage.{Covers}
use hole_balancer.Pool.Health.Keep.{IsHealthy}
use hole_balancer.Pool.Members.{
  ok, err, last_upstream, new, empty, append_upstreams, append_upstream, build_upstream,
  alloc_endpoints, alloc_endpoint, new_endpoint, add, remove, conflict, conflict_with, used_addr,
  has_addr, index_of, remove_at,
}
use hole_balancer.Pool.Members.Sync.{IsSynced, Clear}
use hole_balancer.Pool.Members.Start.{IsUsable, new-keeps}
use hole_balancer.Pool.Members.Append.{Adds}
use hole_balancer.Pool.Members.Change.{add-IsSynced, remove-IsSynced, Removes}
use hole_balancer.Pool.Members.Undo.{Restores, remove-add}
use hole_balancer.Pool.History.{here, next, adds, Reach-Covers}
use hole_balancer.Pool.Status.{status}
use hole_balancer.Pool.Status.Shown.{IsShown, serving, status-IsShown}
use hole_balancer.Pool.Members.{healthy_upstreams}
use hole_balancer.Pool.Health.{set_initial}
use hole_balancer.Pool.Health.Keep.{set_initial-keeps}
use mathlib.Core.List.Perm

start : Pool
start = new "random" 2 2 true (east_config ∷ [])

start-IsUsable : IsUsable (east_config ∷ [])
start-IsUsable = record { weights = (refl, tt); apart = (tt, tt) }

start-IsSynced : IsSynced start
unfolding start
start-IsSynced =
    (new-keeps "random" 2 2 true (east_config ∷ []) (omega arith) (omega arith) start-IsUsable).0

-- The pool after the first probe of an endpoint was answered.
lit : Pool
unfolding start
lit = (set_initial start 0 true 5 none 9).0

lit-IsSynced : IsSynced lit
unfolding lit start
lit-IsSynced =
    let k =
      new-keeps "random" 2 2 true (east_config ∷ []) (omega arith) (omega arith) start-IsUsable in
    (set_initial-keeps start 0 true 5 9 none k.0 k.1).0

status-IsShown_example :
    All IsShown (status lit) × (length (keep serving (status lit)) ≡ healthy_upstreams lit)
status-IsShown_example = status-IsShown lit lit-IsSynced.distinct_paths

-- The pool after west is added.
grown : Pool
grown = append_upstream start west_config

grown_ok : add start west_config ≡ ok (1, grown)
unfolding grown start new empty append_upstreams append_upstream build_upstream alloc_endpoints
    alloc_endpoint new_endpoint add conflict conflict_with used_addr has_addr
grown_ok = refl

add-IsSynced_example :
    IsSynced grown × All (Clear start west_config) start.upstreams × Adds start west_config 1 grown
add-IsSynced_example = add-IsSynced start grown west_config 1 start-IsSynced refl grown_ok

grown-IsSynced : IsSynced grown
grown-IsSynced = (add-IsSynced start grown west_config 1 start-IsSynced refl grown_ok).0

shrunk : Pool
shrunk = remove_at grown 0 0

shrunk_ok : remove grown "east" ≡ ok shrunk
unfolding shrunk grown start new empty append_upstreams append_upstream build_upstream
    alloc_endpoints alloc_endpoint new_endpoint remove index_of
shrunk_ok = refl

remove-IsSynced_example : IsSynced shrunk × Removes grown "east" shrunk
remove-IsSynced_example = remove-IsSynced grown shrunk "east" grown-IsSynced shrunk_ok

start-some : 0 < length start.upstreams
unfolding start new empty append_upstreams append_upstream build_upstream alloc_endpoints
    alloc_endpoint new_endpoint
start-some = omega arith

remove-add_example : (r : Pool) × (remove grown "west" ≡ ok r) × Restores start r
remove-add_example = remove-add start west_config start-IsSynced start-some refl grown 1 grown_ok

-- The only upstream is not removed.
last_stays : remove start "east" ≡ err last_upstream
unfolding start new empty append_upstreams append_upstream build_upstream alloc_endpoints
    alloc_endpoint new_endpoint remove index_of
last_stays = refl

steady-IsRandom : IsRandom steady
steady-IsRandom = record {
  upstreams = λ xs. Perm.refl xs;
  secondary = λ xs. Perm.refl xs;
  last_resort = λ xs. Perm.refl xs;
  drained = λ xs. Perm.refl xs;
  bounded = λ n h. omega arith;
}

abbrev keep_old : ℕ → ℕ → ℕ
keep_old old new = old

-- After west was added to the pool.
Reach-Covers_example : IsSynced grown × IsHealthy grown × Covers grown steady
unfolding grown start new empty append_upstreams append_upstream build_upstream alloc_endpoints
    alloc_endpoint new_endpoint
Reach-Covers_example =
    Reach-Covers keep_old "random" 2 2 true (east_config ∷ []) grown steady (omega arith)
      (omega arith) start-IsUsable (next here (adds west_config 1 refl grown_ok)) steady-IsRandom
      (omega arith)
