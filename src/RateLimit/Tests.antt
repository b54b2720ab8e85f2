-- ===== src/RateLimit/Tests.antt =====
-- A limit of 2 requests in 10 units.
use general_agent_platform.Base.{ℕ, ◌≤◌, ◌≡◌, refl, String, List, [], ◌∷◌, arith}
use general_agent_platform.RateLimit.{check, check_local, drop_old}
use general_agent_platform.RateLimit.Window.{recent}
use general_agent_platform.RateLimit.Serving.{serve, serve_bound}

abbrev requests : List (String × ℕ)
requests = ("a", 1) ∷ ("a", 2) ∷ ("b", 2) ∷ ("a", 3) ∷ ("a", 11) ∷ ("a", 11) ∷ ("a", 12) ∷ []

admitted : serve 10 2 "a" (λ k. []) requests [] ≡ 1 ∷ 2 ∷ 11 ∷ 12 ∷ []
unfolding serve check check_local drop_old
admitted = refl

serve_bound_example : recent 10 12 (serve 10 2 "a" (λ k. []) requests []) ≤ 2
serve_bound_example = serve_bound 10 2 "a" 0 12 requests (omega arith) (
  omega arith,
  (omega arith, (omega arith, (omega arith, (omega arith, (omega arith, (omega arith, refl)))))),
)
