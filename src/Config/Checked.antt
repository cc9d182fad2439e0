-- ===== src/Config/Checked.antt =====
-- internal/config/config.go: what a check of the configuration returns, an error or a value.
use hole_balancer.Base.{String, Bool, true, false, ◌≡◌, refl}

pub data Problem : Type 0 where
  no_listener : Problem
  bad_strategy : String → Problem
  not_positive : String → Problem
  below_one : String → Problem
  bad_code : String → Problem
  bad_type : String → Problem
  no_probe_name : Problem
  no_resolver : Problem
  duplicate_resolver : String → Problem
  bad_level : String → Problem
  no_upstream : Problem
  no_name : Problem
  bad_name : Problem
  duplicate_name : String → Problem
  negative_weight : String → Problem
  no_endpoint : String → Problem
  listed_twice : String → Problem
  address_in_use : String → String → String → Problem
  no_address : Problem
  bare_ipv6 : String → Problem
  no_host : String → Problem
  bad_port : String → Problem

pub data Checked (A : Type 0) : Type 0 where
  valid : A → Checked A
  invalid : Problem → Checked A

infixl 5 ◌>>=◌ ◌>>◌
abbrev pub ◌>>=◌ : {A B : Type 0} → Checked A → (A → Checked B) → Checked B
(valid a) >>= f = f a
(invalid p) >>= f = invalid p

abbrev pub ◌>>◌ : {A B : Type 0} → Checked A → Checked B → Checked B
m >> k = m >>= λ _. k

-- A check that has no value.
abbrev pub require : Bool → Problem → Checked Bool
require true p = valid true
require false p = invalid p

pub bind-valid :
    {A B : Type 0} (x : Checked A) (f : A → Checked B) {b : B}
    → (x >>= f) ≡ valid b
    → (a : A) × (x ≡ valid a) × (f a ≡ valid b)
bind-valid (valid a) f h = (a, refl, h)
bind-valid (invalid p) f h = cc

pub require-valid : (c : Bool) (p : Problem) {b : Bool} → require c p ≡ valid b → c ≡ true
require-valid true p h = refl
require-valid false p h = cc
