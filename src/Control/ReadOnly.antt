-- ===== src/Control/ReadOnly.antt =====
-- The changes while the management interface is read-only.
use hole_balancer.Base.{String, Bool, false, List, Option, some, ◌≡◌, refl}
use hole_balancer.Config.Types.{Upstream}
use hole_balancer.Config.Validate.{Text}
use hole_balancer.Control.{
  Manager, Refusal, read_only, change_add, change_remove, change_strategy, change_fallback,
  change_drained,
}

-- The state as it was, and the error.
abbrev pub denied : Manager → Manager × Option Refusal
denied m = (m, some read_only)

module _ (written : Bool) (m : Manager) (closed : m.allow_write ≡ false) where
  pub change_add-read_only : (text : Text) (uc : Upstream) → change_add written text uc m ≡ denied m
  unfolding change_add
  change_add-read_only text uc = rw closed refl

  pub change_remove-read_only : (name : String) → change_remove written name m ≡ denied m
  unfolding change_remove
  change_remove-read_only name = rw closed refl

  pub change_strategy-read_only : (name : String) → change_strategy written name m ≡ denied m
  unfolding change_strategy
  change_strategy-read_only name = rw closed refl

  pub change_fallback-read_only :
      (normalise : String → Option String) (on : Bool) (servers : List String)
      → change_fallback written normalise on servers m ≡ denied m
  unfolding change_fallback
  change_fallback-read_only normalise on servers = rw closed refl

  pub change_drained-read_only :
      (name : String) (drained : Bool) → change_drained name drained m ≡ denied m
  unfolding change_drained
  change_drained-read_only name drained = rw closed refl
