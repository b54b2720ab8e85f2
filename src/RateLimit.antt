-- ===== src/RateLimit.antt =====
-- The sliding-window limiter (app/middleware/rate_limit.py). The clock counts whole units, where
-- the code has floats. A limit below 0 acts as the limit 0. What Redis answers is a parameter:
-- the count of the bucket, or none where there is no Redis or it fails.
pub mod Window
pub mod Serving
mod Tests
use general_agent_platform.Base.{
  ℕ, ◌+◌, ◌-◌, ◌%◌, String, Bool, true, false, ◌&&◌, Option, none, some, List, [], ◌∷◌, ◌++◌, ltb,
  leb, ◌==◌, if◌then◌else◌, length, str_eq,
}

-- `_events`, a `defaultdict(deque)`
abbrev pub Events : Type 0
Events = String → List ℕ

abbrev pub put : String → List ℕ → Events → Events
put key times events k = if str_eq k key then times else events k

-- Whether a request is allowed, the requests that are left, and the seconds until the reset.
pub record Verdict : Type 0 where
  pub allowed : Bool
  pub remaining : ℕ
  pub reset : ℕ

-- `while events and events[0] <= cutoff: events.popleft()`
unfoldable pub drop_old : ℕ → ℕ → List ℕ → List ℕ
drop_old window current [] = []
drop_old window current (e ∷ rest) =
    let kept = drop_old window current rest in if leb (e + window) current then kept else e ∷ rest

-- `_check_redis` with the count that Redis gives; `time` is the wall clock
unfoldable pub check_redis : ℕ → ℕ → ℕ → ℕ → Verdict
check_redis window time limit count = record {
  allowed = leb count limit;
  remaining = limit - count;
  reset = window - time % window;
}

-- The part of `check` under the lock, on the deque of the key.
unfoldable pub check_local : ℕ → ℕ → ℕ → Bool → List ℕ → Verdict × List ℕ
unfolding drop_old
check_local window current limit consume times =
    let kept = drop_old window current times in
    let allowed = ltb (length kept) limit in
    let after = if allowed && consume then kept ++ current ∷ [] else kept in
    (record { allowed = allowed; remaining = limit - length after; reset = window }, after)

-- `default` is the limiter's own limit, and `time` the wall clock. `redis` is none where the caller
-- gives `now`.
unfoldable pub check :
    (window default : ℕ)
    → Events
    → String
    → (current time : ℕ) → Option ℕ
    → Bool
    → (redis : Option ℕ) → Verdict × Events
unfolding check_redis check_local
check window default events key current time limit consume redis =
    let effective : ℕ = elim limit [ none ↦ default | some l ↦ l ] in
    if effective == 0
    then (record { allowed = true; remaining = 0; reset = window }, events)
    else elim redis [
      | some count ↦ (check_redis window time effective count, events)
      | none ↦
          let (verdict, times) = check_local window current effective consume (events key) in
          (verdict, put key times events)
    ]
