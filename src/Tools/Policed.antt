-- ===== src/Tools/Policed.antt =====
-- What a tool call needs in order to succeed.
use general_agent_platform.Base.{
  ℕ, zero, suc, ◌+◌, ◌-◌, ◌≡◌, refl, ap, sym, subst, ◌∙◌, Bool, ◌≢◌, true, false, ◌&&◌, none, some,
  arith, ltb, if◌then◌else◌, mem, String, List, not, ◌||◌, is_none, Result-cases, Bool-cases, inl,
  inr, ◌==◌, Result, ok, err, invalid_tool_input, invalid_tool_output,
}
use general_agent_platform.Json.{Value, object, Fields}
use general_agent_platform.Json.Redact.{redact_json}
use general_agent_platform.Db.{
  Db, ToolDefinition, ToolCall, executing, call_succeeded, retry_scheduled, permanently_failed,
}
use general_agent_platform.Tools.{
  Environment, Outcome, timeout, failure, output, is_terminal, take_outcome, retries_of, obey,
  finish_call, attempt_once, attempt_call, attempts, run_call, settle_call, execute_tool_call,
  is_permitted, run_of, policies_of, validate_json_schema, execute_builtin, raised, checked,
}

module _ (env : Environment) (d : ToolDefinition) where
  raised-output :
      (r : Result (Unit {0})) (next : Outcome) (out : Value)
      → raised env r next ≡ output out
      → (r ≡ ok tt) × (next ≡ output out)
  raised-output (ok tt) next out h = (refl, h)
  raised-output (err e) next out h = cc

  checked-output :
      (r : Result Value) (out : Value)
      → checked env d r ≡ output out
      → (r ≡ ok out) × (validate_json_schema env out d.output_schema invalid_tool_output ≡ ok tt)
  checked-output (ok v) out h =
      let (valid, same) =
        raised-output (validate_json_schema env v d.output_schema invalid_tool_output) (output v)
          out h in
      ground (arith, valid, same)
  checked-output (err e) out h = cc

  -- The stored output is the redaction of what the executor returns for the input, in an attempt
  -- that it does not overrun; and the schemas of the tool accept the input and what it returns.
  abbrev pub IsHonest : Fields → ToolCall → Type 0
  IsHonest input done =
      (n : ℕ) × (out : Value) × (env.is_slow n ≡ false)
      × (validate_json_schema env (object input) d.input_schema invalid_tool_input ≡ ok tt)
      × (execute_builtin d.executor input ≡ ok out)
      × (validate_json_schema env out d.output_schema invalid_tool_output ≡ ok tt)
      × (done.output_json ≡ some (redact_json env.sub out))

  attempt_once-output :
      (input : Fields) (n : ℕ) (out : Value)
      → attempt_once env d input n ≡ output out
      → (env.is_slow n ≡ false)
        × (validate_json_schema env (object input) d.input_schema invalid_tool_input ≡ ok tt)
        × (execute_builtin d.executor input ≡ ok out)
        × (validate_json_schema env out d.output_schema invalid_tool_output ≡ ok tt)
  unfolding attempt_once
  attempt_once-output input n out h =
      let (valid, ran) =
        raised-output (validate_json_schema env (object input) d.input_schema invalid_tool_input)
          (if env.is_slow n then timeout else checked env d (execute_builtin d.executor input)) out
          h in
      let kept = checked-output (execute_builtin d.executor input) out in
      elim (Bool-cases (env.is_slow n)) [
        | inl slow ↦ ground (arith, ran, slow)
        | inr quick ↦ (
          quick,
          valid,
          (kept (ground (arith, ran, quick))).0,
          (kept (ground (arith, ran, quick))).1,
        )
      ]

  module _ (codes : List String) (max : ℕ) (input : Fields) where
    split_pass :
        (b : Bool) (again stop rest : ToolCall)
        → (b ≡ true → rest.status ≡ call_succeeded → IsHonest input rest)
        → (stop.status ≡ call_succeeded → IsHonest input stop)
        → let (goes_on, call') : Bool × ToolCall = if b then (true, again) else (false, stop) in
          (if goes_on then rest else call').status ≡ call_succeeded
          → IsHonest input (if goes_on then rest else call')
    split_pass true again stop rest later now = later refl
    split_pass false again stop rest later now = now

    -- One pass, given the outcome of its attempt.
    pass-IsHonest :
        (n : ℕ) (o : Outcome) (call rest : ToolCall)
        → call.input_json ≡ input
        → attempt_once env d input n ≡ o
        → ((take_outcome env codes max n call o).0 ≡ true
            → rest.status ≡ call_succeeded
            → IsHonest input rest)
        → let (goes_on, call') = take_outcome env codes max n call o in
          (if goes_on then rest else call').status ≡ call_succeeded
          → IsHonest input (if goes_on then rest else call')
    unfolding take_outcome
    pass-IsHonest n timeout call rest same h later s = ground (arith, s)
    pass-IsHonest n (failure e) call rest same h later s =
        split_pass (mem (env.code_text e) codes && ltb n max)
          (record call { attempt = n; status = retry_scheduled; error_code = some e })
          (record call { attempt = n; status = permanently_failed; error_code = some e }) rest
          (λ b. later (ground (arith, b))) (λ t. ground (arith, t)) s
    pass-IsHonest n (output out) call rest same h later s =
        let (quick, valid, ran, kept) = attempt_once-output input n out h in
        (n, out, quick, valid, ran, kept, refl)

    take_outcome-input :
        (n : ℕ) (o : Outcome) (call : ToolCall)
        → (take_outcome env codes max n call o).1.input_json ≡ call.input_json
    unfolding take_outcome
    take_outcome-input n timeout call = refl
    take_outcome-input n (failure e) call = ground arith
    take_outcome-input n (output out) call = refl

    take_outcome-retry :
        (n : ℕ) (o : Outcome) (call : ToolCall)
        → let (goes_on, call') = take_outcome env codes max n call o in
          goes_on ≡ true → call'.status ≢ call_succeeded
    unfolding take_outcome
    take_outcome-retry n timeout call g s = cc
    take_outcome-retry n (failure e) call g s = ground (arith, g, s)
    take_outcome-retry n (output out) call g s = cc

    attempts-IsHonest :
        (left n : ℕ) (call : ToolCall)
        → call.input_json ≡ input
        → call.status ≢ call_succeeded
        → let done = attempts env d codes max left n call in
          done.status ≡ call_succeeded → IsHonest input done
    unfolding attempts attempt_call
    attempts-IsHonest zero n call same fresh s = absurd (fresh s)
    attempts-IsHonest (suc left) n call same fresh s =
        let o = attempt_once env d call.input_json n in
        let call' = (take_outcome env codes max n call o).1 in
        pass-IsHonest n o call (attempts env d codes max left (suc n) call') same
          (ap (λ i. attempt_once env d i n) (sym same))
          (λ g.
            attempts-IsHonest left (suc n) call' (take_outcome-input n o call ∙ same)
              (take_outcome-retry n o call g))
          s

finish_call-IsHonest :
    (env : Environment) (d : ToolDefinition) (codes : List String) (max now : ℕ) (call : ToolCall)
    → call.status ≢ call_succeeded
    → let done = finish_call env d codes max now call in
      done.status ≡ call_succeeded → IsHonest env d call.input_json done
unfolding finish_call
finish_call-IsHonest env d codes max now call fresh s =
    attempts-IsHonest env d codes max call.input_json (max + 1 - call.attempt) call.attempt call
      refl fresh s

module _ (env : Environment) (d : ToolDefinition) (call : ToolCall) (db : Db) where
  -- What is returned succeeded only if it is honest.
  abbrev IsHonestReply : Result ToolCall → Type 0
  IsHonestReply (err e) = Unit
  IsHonestReply (ok done) = done.status ≡ call_succeeded → IsHonest env d call.input_json done

  run_call-IsHonest : IsHonestReply (run_call env d call db).0
  unfolding run_call
  run_call-IsHonest = elim (Result-cases (retries_of env d)) [
    | inl (e, raised) ↦ rw (raised, run_call) tt
    | inr ((max, codes), known) ↦
        rw (known, run_call)
          (finish_call-IsHonest env d codes max db.now
            (record call { status = executing; started_at = some db.now }) (λ e. cc))
  ]

  -- What is returned succeeded only if every guard let it pass.
  abbrev IsGuarded : Result ToolCall → Type 0
  IsGuarded (err e) = Unit
  IsGuarded (ok done) =
      done.status ≡ call_succeeded
      → (run_of call db ≢ none)
        × (d.is_active ≡ true)
        × ((d.tenant_id == call.tenant_id) ≡ true)
        × (is_permitted d (policies_of call db) ≡ ok true)
        × IsHonest env d call.input_json done

  guarded :
      (reply : Result ToolCall)
      → IsHonestReply reply
      → (run_of call db ≢ none)
      → (d.is_active ≡ true)
      → ((d.tenant_id == call.tenant_id) ≡ true)
      → (is_permitted d (policies_of call db) ≡ ok true)
      → IsGuarded reply
  guarded (err e) h there active own permitted = tt
  guarded (ok done) h there active own permitted = λ s. (there, active, own, permitted, h s)

  obey-IsGuarded :
      (answer : Result Bool)
      → (run_of call db ≢ none)
      → (d.is_active ≡ true)
      → ((d.tenant_id == call.tenant_id) ≡ true)
      → is_permitted d (policies_of call db) ≡ answer
      → IsGuarded (obey env d call db answer).0
  unfolding obey
  obey-IsGuarded (err e) there active own answered = tt
  obey-IsGuarded (ok false) there active own answered = λ s. cc
  obey-IsGuarded (ok true) there active own answered =
      guarded (run_call env d call db).0 run_call-IsHonest there active own answered

  settle_call-IsGuarded : IsGuarded (settle_call env d call db).0
  unfolding settle_call
  settle_call-IsGuarded =
      elim (Bool-cases
        (is_none (run_of call db) || not (d.tenant_id == call.tenant_id) || not d.is_active)) [
          | inl foreign ↦ rw (foreign, settle_call) (λ s. cc)
          | inr own ↦
              rw (own, settle_call)
                (obey-IsGuarded (is_permitted d (policies_of call db))
                  (λ absent. ground (arith, absent, own)) (ground (arith, own))
                  (ground (arith, own)) refl)
        ]

-- A call that was not over and succeeds in `execute_tool_call` has a run of its own tenant, an
-- active definition of that tenant, and policies that permit the tool. The executor gave an output
-- for the input of the call without overrunning its timeout, both accepted by the schemas of the
-- tool, and what is stored is the redaction of that output.
pub execute_tool_call_succeeded :
    (env : Environment) (d : ToolDefinition) (call done : ToolCall) (db db' : Db)
    → is_terminal call.status ≡ false
    → execute_tool_call env d call db ≡ (ok done, db')
    → done.status ≡ call_succeeded
    → (run_of call db ≢ none)
      × (d.is_active ≡ true)
      × ((d.tenant_id == call.tenant_id) ≡ true)
      × (is_permitted d (policies_of call db) ≡ ok true)
      × IsHonest env d call.input_json done
unfolding execute_tool_call
execute_tool_call_succeeded env d call done db db' alive returned =
    let settled : settle_call env d call db ≡ (ok done, db') = ground (arith, alive, returned) in
    subst (λ r. IsGuarded env d call db r.0) settled (settle_call-IsGuarded env d call db)
