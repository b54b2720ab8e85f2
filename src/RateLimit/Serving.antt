-- ===== src/RateLimit/Serving.antt =====
-- The bound of the limiter over the requests of all tenants.
use general_agent_platform.Base.{
  ℕ, ◌≤◌, ◌≡◌, refl, sym, subst, String, true, false, ◌&&◌, none, List, [], ◌∷◌, ◌++◌, arith,
  if◌then◌else◌, str_eq, str_eq_refl, eq_iff, Bool-cases, inl, inr,
}
use general_agent_platform.RateLimit.{Events, put, check_local, check}
use general_agent_platform.RateLimit.Window.{
  recent, IsLimited, limited_bound, check_local-IsLimited, later-IsLimited,
}

-- A request: its key and the clock.
abbrev Requests : Type 0
Requests = List (String × ℕ)

str_eq-swap : (k key : String) → str_eq k key ≡ false → str_eq key k ≡ false
str_eq-swap k key h = elim (Bool-cases (str_eq key k)) [
  | inl same ↦ ground (arith, h, str_eq_refl k, (eq_iff key k).0 same)
  | inr other ↦ other
]

module _ (window limit : ℕ) (key : String) where
  -- The requests of the key that `check` admits, one call after the other, each added to `log`.
  unfoldable pub serve : Events → Requests → List ℕ → List ℕ
  unfolding check
  serve events [] log = log
  serve events ((k, t) ∷ rest) log =
      let (v, events') = check window limit events k t 0 none true none in
      serve events' rest (if str_eq k key && v.allowed then log ++ t ∷ [] else log)

  -- The clock does not go back, and ends at `last`.
  abbrev pub IsForward : ℕ → Requests → ℕ → Type 0
  IsForward now [] last = now ≡ last
  IsForward now ((k, t) ∷ rest) last = (now ≤ t) × IsForward t rest last

  check-eq :
      (events : Events) (k : String) (t : ℕ)
      → 1 ≤ limit
      → let (v, times) = check_local window t limit true (events k) in
        check window limit events k t 0 none true none ≡ (v, put k times events)
  unfolding check
  check-eq events k t h = ground (arith, h)

  -- What a request leaves of the key's deque and log.
  abbrev pub AfterStep : ℕ → Events → List ℕ → String → Type 0
  AfterStep t events log k =
      let (v, times) = check_local window t limit true (events k) in
      IsLimited window limit key t (put k times events key)
        (if str_eq k key && v.allowed then log ++ t ∷ [] else log)

  own_step :
      (now t : ℕ) (events : Events) (log : List ℕ)
      → now ≤ t
      → IsLimited window limit key now (events key) log
      → AfterStep t events log key
  own_step now t events log le limited =
      rw (str_eq_refl key)
        (check_local-IsLimited window limit key now t (events key) log le limited)

  foreign_step :
      (now t : ℕ) (events : Events) (k : String) (log : List ℕ)
      → str_eq k key ≡ false
      → str_eq key k ≡ false
      → now ≤ t
      → IsLimited window limit key now (events key) log
      → AfterStep t events log k
  foreign_step now t events k log foreign swapped le limited =
      rw (foreign, swapped) (later-IsLimited window limit key now t (events key) log le limited)

  step-IsLimited :
      (now t : ℕ) (events : Events) (k : String) (log : List ℕ)
      → now ≤ t
      → IsLimited window limit key now (events key) log
      → AfterStep t events log k
  step-IsLimited now t events k log le limited = elim (Bool-cases (str_eq k key)) [
    | inl own ↦
        subst (AfterStep t events log) (sym ((eq_iff k key).0 own))
          (own_step now t events log le limited)
    | inr foreign ↦ foreign_step now t events k log foreign (str_eq-swap k key foreign) le limited
  ]

  serve_limited :
      (now last : ℕ) (events : Events) (requests : Requests) (log : List ℕ)
      → 1 ≤ limit
      → IsForward now requests last
      → IsLimited window limit key now (events key) log
      → recent window last (serve events requests log) ≤ limit
  unfolding serve
  serve_limited now last events [] log some_limit forward limited =
      ground (arith, limited_bound window limit key now (events key) log limited, forward)
  serve_limited now last events ((k, t) ∷ rest) log some_limit (le, forward) limited =
      let (v, times) = check_local window t limit true (events k) in
      rw (check-eq events k t some_limit) (
        serve_limited t last (put k times events) rest
          (if str_eq k key && v.allowed then log ++ t ∷ [] else log) some_limit forward
          (step-IsLimited now t events k log le limited))

-- Whatever requests of whatever keys come in, as long as the clock does not go back and Redis does
-- not take part: of the requests of a key, no more than the limit are admitted within one window
-- before the last request, if the limit is positive. As the requests are arbitrary, this holds of
-- every window that ends with a request.
pub serve_bound :
    (window limit : ℕ) (key : String) (start last : ℕ) (requests : Requests)
    → 1 ≤ limit
    → IsForward window limit key start requests last
    → recent window last (serve window limit key (λ k. []) requests []) ≤ limit
serve_bound window limit key start last requests some_limit forward =
    serve_limited window limit key start last (λ k. []) requests [] some_limit forward
      (tt, refl, omega arith, λ later h. refl)
