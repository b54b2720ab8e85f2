-- ===== src/Tools/Retry.antt =====
-- The retry loop of a tool call, and what `execute_tool_call` (app/runtime.py) returns.
use general_agent_platform.Base.{
  ℕ, zero, suc, ◌+◌, ◌-◌, ◌≤◌, ◌<◌, ◌≡◌, refl, subst, String, Bool, true, false, not, ◌||◌, some,
  List, arith, if◌then◌else◌, Result, ok, err, Bool-cases, Result-cases, inl, inr, Gives, is_none,
  ◌==◌,
}
use general_agent_platform.Db.{Db, ToolDefinition, ToolCall, executing}
use general_agent_platform.Tools.{
  Environment, Outcome, timeout, failure, output, is_terminal, max_attempts_of, retryable_of,
  retries_of, take_outcome, attempt_once, attempt_call, attempts, finish_call, run_call, obey,
  settle_call, execute_tool_call, is_permitted, policies_of, run_of, store,
}

module _ (env : Environment) (d : ToolDefinition) where
  -- The attempt of a call is not beyond the maximum, if there is one.
  abbrev pub IsWithin : ToolCall → Type 0
  IsWithin call = (max : ℕ) → max_attempts_of env d ≡ ok max → call.attempt ≤ max

module _ (env : Environment) (d : ToolDefinition) (codes : List String) (max : ℕ) where
  -- The call ended, in an attempt of the range that begins with `n`.
  abbrev pub IsOver : ℕ → ToolCall → Type 0
  IsOver n done = (is_terminal done.status ≡ true) × (n ≤ done.attempt) × (done.attempt ≤ max)

  step-IsOver :
      (n : ℕ) (o : Outcome) (call rest : ToolCall)
      → n ≤ max
      → (n < max → IsOver (suc n) rest)
      → let (goes_on, call') = take_outcome env codes max n call o in
        IsOver n (if goes_on then rest else call')
  unfolding take_outcome is_terminal
  step-IsOver n timeout call rest bound later = ground arith
  step-IsOver n (failure e) call rest bound later = ground arith
  step-IsOver n (output out) call rest bound later = ground arith

  -- A loop that runs at least once ends the call.
  pub attempts_end :
      (left n : ℕ) (call : ToolCall)
      → left + n ≡ max + 1
      → 1 ≤ left
      → IsOver n (attempts env d codes max left n call)
  unfolding attempts attempt_call
  attempts_end zero n call sum some_left = ground arith
  attempts_end (suc left) n call sum some_left =
      let o = attempt_once env d call.input_json n in
      let call' = (take_outcome env codes max n call o).1 in
      step-IsOver n o call (attempts env d codes max left (suc n) call') (omega arith)
        (λ below. attempts_end left (suc n) call' (omega arith) (omega arith))

  finish_call_ends :
      (now : ℕ) (call : ToolCall)
      → call.attempt ≤ max
      → IsOver call.attempt (finish_call env d codes max now call)
  unfolding finish_call
  finish_call_ends now call h =
      ground (arith, attempts_end (max + 1 - call.attempt) call.attempt call)

module _ (env : Environment) (d : ToolDefinition) (call : ToolCall) (db : Db) where
  retries_of-max :
      (max : ℕ) (codes : List String)
      → retries_of env d ≡ ok (max, codes)
      → (max_attempts_of env d ≡ ok max) × (retryable_of d ≡ ok codes)
  unfolding retries_of
  retries_of-max max codes h = elim (Result-cases (max_attempts_of env d)) [
    | inl (e, raised) ↦ ground (arith, h, raised)
    | inr (m, known) ↦ elim (Result-cases (retryable_of d)) [
      | inl (e, raised) ↦ ground (arith, h, known, raised)
      | inr (cs, given) ↦ ground (arith, h, known, given)
    ]
  ]

  -- The guards that end a call before its policies are read.
  abbrev is_foreign : Bool
  is_foreign = is_none (run_of call db) || not (d.tenant_id == call.tenant_id) || not d.is_active

  abbrev started_call : ToolCall
  started_call = record call { status = executing; started_at = some db.now }

  run_call_ends :
      (max : ℕ) (codes : List String)
      → retries_of env d ≡ ok (max, codes)
      → call.attempt ≤ max
      → let done = finish_call env d codes max db.now started_call in
        (run_call env d call db ≡ (ok done, store env done db))
        × IsOver env d codes max call.attempt done
  unfolding run_call
  run_call_ends max codes known within =
      (rw (known, run_call) refl, finish_call_ends env d codes max db.now started_call within)

  -- What a call is after it has been executed, if that returns.
  settled_call_ends :
      IsWithin env d call
      → (answer : Result Bool)
      → Gives (λ (done : ToolCall). is_terminal done.status ≡ true) (obey env d call db answer).0
  unfolding obey run_call is_terminal
  settled_call_ends within (err e) = tt
  settled_call_ends within (ok false) = refl
  settled_call_ends within (ok true) = elim (Result-cases (retries_of env d)) [
    | inl (e, raised) ↦ rw (raised, obey, run_call) tt
    | inr ((max, codes), known) ↦
        let (ran, over) =
          run_call_ends max codes known (within max (retries_of-max max codes known).0) in
        rw (obey, ran) over.0
  ]

  execute_ends :
      IsWithin env d call
      → Gives
          (λ (done : ToolCall). is_terminal done.status ≡ true)
          (execute_tool_call env d call db).0
  unfolding execute_tool_call settle_call is_terminal
  execute_ends within = elim (Bool-cases (is_terminal call.status)) [
    | inl over ↦ rw (over, execute_tool_call) over
    | inr live ↦ elim (Bool-cases is_foreign) [
      | inl foreign ↦ rw (live, foreign, execute_tool_call, settle_call) refl
      | inr own ↦
          rw (live, own, execute_tool_call, settle_call)
            (settled_call_ends within (is_permitted d (policies_of call db)))
    ]
  ]

-- Executing a call again is the same as executing it once: if it returned, then the second time
-- neither the call nor the database changes. The attempt of the call is not already beyond the
-- maximum, if the manifest gives one.
pub execute_tool_call_twice :
    (env : Environment) (d : ToolDefinition) (call done : ToolCall) (db db' : Db)
    → IsWithin env d call
    → execute_tool_call env d call db ≡ (ok done, db')
    → execute_tool_call env d done db' ≡ (ok done, db')
unfolding execute_tool_call
execute_tool_call_twice env d call done db db' within returned =
    let ended : is_terminal done.status ≡ true =
      subst (λ r. Gives (λ (c : ToolCall). is_terminal c.status ≡ true) r.0) returned
        (execute_ends env d call db within) in
    rw (ended, execute_tool_call) refl
