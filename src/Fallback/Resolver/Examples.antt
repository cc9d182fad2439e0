-- ===== src/Fallback/Resolver/Examples.antt =====
-- Tests of the fallback resolver: three servers, of which the last answers.
use hole_balancer.Base.{
  ℕ, ◌%◌, ◌≡◌, refl, String, Bool, false, List, [], ◌∷◌, ◌++◌, map, some, take, drop, arith, ◌==◌,
  str_eq, if◌then◌else◌,
}
use hole_balancer.Dnsmsg.Header.{parse_header}
use hole_balancer.Pool.Plan.{next_rr}
use hole_balancer.Fallback.Resolver.{Resolver, Exchanged, reply, failed, resolve, rcode_of}
use hole_balancer.Fallback.Resolver.Rounds.{IsGood, IsGiven}
use hole_balancer.Fallback.Resolver.Answers.{resolve-IsGiven, resolve-rotation}

abbrev three : Resolver
three = record {
  servers = "1.1.1.1" ∷ "8.8.8.8" ∷ "9.9.9.9" ∷ [];
  retry = some (λ code. code == 2);
  rr = 7;
}

abbrev no_error : List ℕ
no_error = 1 ∷ 2 ∷ 129 ∷ 128 ∷ 0 ∷ 0 ∷ 0 ∷ 0 ∷ 0 ∷ 0 ∷ 0 ∷ 0 ∷ []

abbrev only_quad9 : ℕ → String → Exchanged
only_quad9 i server =
    if str_eq server "9.9.9.9" then reply no_error else failed "timeout" "i/o timeout"

abbrev never : ℕ → Bool
never i = false

quad9-IsGood : IsGood three.retry never only_quad9 "9.9.9.9"
unfolding rcode_of parse_header
quad9-IsGood i = (no_error, refl, refl)

resolve-IsGiven_example : IsGiven three.retry never only_quad9 (resolve three never only_quad9).0
resolve-IsGiven_example =
    resolve-IsGiven three never only_quad9 "9.9.9.9" (omega arith) (λ i. refl) refl quad9-IsGood

resolve-rotation_example :
    ((resolve three never only_quad9).2 ≡ record three { rr = next_rr 7 })
    × ((untried : List String) × (drop (7 % 3) three.servers ++ take (7 % 3) three.servers
          ≡ map (λ n. n.server) (resolve three never only_quad9).1 ++ untried))
resolve-rotation_example = resolve-rotation three never only_quad9 (omega arith) (omega arith)
