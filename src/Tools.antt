-- ===== src/Tools.antt =====
-- Tool calls (app/runtime.py): the builtin executors, the policies of the run's snapshot and
-- `execute_tool_call`. The validator of the jsonschema package is a parameter, and so are Python's
-- `int` and whether the executor overruns its timeout in an attempt. A tool call with its database
-- gives what the function returns or raises, and the database after. The metric of a failed call is
-- left out.
pub mod Permitted
pub mod Retry
pub mod Policed
pub mod Readable
mod Tests
use Prim.Native.String.{String}
use general_agent_platform.Base.{
  ℕ, zero, suc, ◌+◌, ◌-◌, Bool, true, false, not, ◌&&◌, ◌||◌, Option, none, some, List, [], ◌∷◌,
  ◌==◌, ltb, leb, if◌then◌else◌, find, all, mem, is_none, str_eq, Result, ok, err, Code, ◌>>=◌,
  ◌>>◌, raise_if, invalid_tool_input, invalid_tool_output, invalid_tool_schema,
  tool_executor_not_allowed, tool_not_allowed, tool_policy_denied, sandbox_timeout, type_error,
  attribute_error,
}
use general_agent_platform.Base.Int.{ℤ, pos, negsuc, ◌+ℤ◌}
use general_agent_platform.Json.{
  Value, boolean, number, text, array, object, Items, nil, cons, Fields, end, field, get_or_null,
  as_number, value_eq, value_in, is_container,
}
use general_agent_platform.Json.Dict.{is_truthy, get_or}
use general_agent_platform.Json.Redact.{redact_json}
use general_agent_platform.Db.{
  Db, Run, Snapshot, Risk, low, medium, high, critical, ToolDefinition, ToolCall, ToolCallStatus,
  created, pending_approval, validating, executing, retry_scheduled, call_succeeded, call_rejected,
  call_expired, permanently_failed, call_timed_out, write_call,
}

-- The sum of two numbers, unless one of them is none.
abbrev add_numbers : Option ℤ → Option ℤ → Result Value
add_numbers (some l) (some r) = ok (object (field "sum" (number (l +ℤ r)) end))
add_numbers _ _ = err invalid_tool_input

unfoldable pub execute_builtin : String → Fields → Result Value
execute_builtin executor payload =
    if str_eq executor "builtin.echo"
    then ok (object (field "value" (get_or_null "value" payload) end))
    else if str_eq executor "builtin.add"
    then add_numbers (as_number (get_or_null "left" payload))
        (as_number (get_or_null "right" payload))
    else err tool_executor_not_allowed

-- TOOL_TERMINAL
unfoldable pub is_terminal : ToolCallStatus → Bool
is_terminal call_succeeded = true
is_terminal call_rejected = true
is_terminal call_expired = true
is_terminal permanently_failed = true
is_terminal call_timed_out = true
is_terminal _ = false

-- `max(1, min(5, n))`
abbrev pub clamp_attempts : ℤ → ℕ
clamp_attempts (pos n) = if leb 5 n then 5 else if leb n 1 then 1 else n
clamp_attempts (negsuc n) = 1

-- the texts of one letter, over which Python iterates
abbrev letters : String → List String
letters String.[] = []
letters (String.◌∷◌ c s) = String.◌∷◌ c String.[] ∷ letters s

abbrev keys : Fields → List String
keys end = []
keys (field k v fs) = k ∷ keys fs

-- a list and a dict have no hash
abbrev pub is_hashable : Value → Bool
is_hashable (array vs) = false
is_hashable (object fs) = false
is_hashable _ = true

abbrev add_text : Value → List String → List String
add_text (text t) texts = t ∷ texts
add_text _ texts = texts

-- the texts in `set(list)`
abbrev pub item_texts : Items → Result (List String)
item_texts nil = ok []
item_texts (cons v vs) =
    if is_hashable v then (item_texts vs >>= λ texts. ok (add_text v texts)) else err type_error

-- the texts in `set(value)`
unfoldable pub texts_of : Value → Result (List String)
texts_of (array vs) = item_texts vs
texts_of (text t) = ok (letters t)
texts_of (object fs) = ok (keys fs)
texts_of _ = err type_error

-- The texts of `retryableErrors` in the manifest.
unfoldable pub retryable_of : ToolDefinition → Result (List String)
unfolding texts_of
retryable_of d =
    texts_of (
      get_or "retryableErrors" d.manifest_json (array (cons (text "TOOL_EXECUTION_TRANSIENT") nil)))

abbrev pub risk_text : Risk → String
risk_text low = "low"
risk_text medium = "medium"
risk_text high = "high"
risk_text critical = "critical"

-- `tool in {definition.name, "*"}`
unfoldable pub is_meant : ToolDefinition → Value → Result Bool
is_meant d (text t) = ok (str_eq t d.name || str_eq t "*")
is_meant d (array vs) = err type_error
is_meant d (object fs) = err type_error
is_meant d _ = ok false

-- The last policy that applies, after one more.
unfoldable pub applies : ToolDefinition → Value → Option Fields → Result (Option Fields)
unfolding is_meant
applies d (object policy) last =
    is_meant d (get_or_null "tool" policy) >>= λ b. ok (if b then some policy else last)
applies d _ last = err attribute_error

-- `matching[-1]`: the last of the policies that applies, if one does
unfoldable pub last_matching : ToolDefinition → Items → Option Fields → Result (Option Fields)
unfolding applies
last_matching d nil last = ok last
last_matching d (cons policy rest) last =
    applies d policy last >>= λ last'. last_matching d rest last'

abbrev pub allowed_risks : Fields → Value
allowed_risks policy = get_or "allowedRisks" policy (array (cons (text "low") nil))

-- `x not in y`
abbrev not_in : Option Bool → Result Bool
not_in none = err type_error
not_in (some b) = ok (not b)

unfoldable pub is_denied : ToolDefinition → Fields → Result Bool
is_denied d policy =
    if not (value_eq (get_or "effect" policy (text "allow")) (text "allow"))
      || d.side_effects && not (is_truthy (get_or "allowSideEffects" policy (boolean false)))
    then ok true
    else not_in (value_in (text (risk_text d.risk_level)) (allowed_risks policy))

-- The policy that counts, if there is one, where there may be no policy at all.
unfoldable pub is_allowed : ToolDefinition → Bool → Option Fields → Result Bool
unfolding is_denied
is_allowed d no_policies none = ok no_policies
is_allowed d no_policies (some policy) = is_denied d policy >>= λ b. ok (not b)

abbrev pub is_nil : Items → Bool
is_nil nil = true
is_nil (cons v vs) = false

-- The policies let the tool run: there are none, or the last that applies does not deny it. An entry
-- that is no dict has no `get`, and a column that is no list is iterated as Python does.
unfoldable pub is_permitted : ToolDefinition → Value → Result Bool
unfolding last_matching is_allowed
is_permitted d (array vs) = last_matching d vs none >>= λ last. is_allowed d (is_nil vs) last
is_permitted d (text t) = if str_eq t "" then ok true else err attribute_error
is_permitted d (object end) = ok true
is_permitted d (object (field k v fs)) = err attribute_error
is_permitted d _ = err type_error

-- The policies are dicts, whose `tool` has a hash and whose `allowedRisks` may contain something.
abbrev pub is_policy : Value → Bool
is_policy (object policy) =
    is_hashable (get_or_null "tool" policy) && is_container (allowed_risks policy)
is_policy _ = false

abbrev pub all_policies : Items → Bool
all_policies nil = true
all_policies (cons v vs) = is_policy v && all_policies vs

abbrev pub are_policies : Value → Bool
are_policies (array vs) = all_policies vs
are_policies (text t) = str_eq t ""
are_policies (object end) = true
are_policies _ = false

abbrev pub run_of : ToolCall → Db → Option Run
run_of call db = find (λ (r : Run). r.id == call.run_id && r.tenant_id == call.tenant_id) db.runs

abbrev pub policies_of : ToolCall → Db → Value
policies_of call db =
    elim (find (λ (s : Snapshot). s.run_id == call.run_id && s.tenant_id == call.tenant_id)
      db.snapshots) [ none ↦ array nil | some s ↦ s.tool_policies ]

-- What an attempt comes to: `FutureTimeoutError`, `ValueError`, or an output.
pub data Outcome : Type 0 where
  timeout : Outcome
  failure : Code → Outcome
  output : Value → Outcome

pub record Environment : Type 0 where
  -- `Draft202012Validator(schema)` does not raise a `SchemaError`
  pub is_schema : Fields → Bool
  -- `iter_errors(value)` of the schema finds nothing
  pub accepts : Fields → Value → Bool
  -- the executor overruns `timeout_ms` in this attempt
  pub is_slow : ℕ → Bool
  -- Python's `int`, which may raise
  pub int_of : Value → Result ℤ
  -- `str(exc)` of an error code
  pub code_text : Code → String
  -- `_SECRET_VALUE.sub`
  pub sub : (String → String) → String → String

abbrev pub is_ok {ℓ} : {A : Type ℓ} → Result A → Bool
is_ok (ok a) = true
is_ok (err e) = false

module _ (env : Environment) where
  unfoldable pub validate_json_schema : Value → Fields → Code → Result (Unit {0})
  validate_json_schema value end error_code = ok tt
  validate_json_schema value schema error_code =
      raise_if (not (env.is_schema schema)) invalid_tool_schema
      >> raise_if (not (env.accepts schema value)) error_code

  abbrev pub raised : Result (Unit {0}) → Outcome → Outcome
  raised (ok _) next = next
  raised (err e) next = failure e

  abbrev pub checked : ToolDefinition → Result Value → Outcome
  checked d (err e) = failure e
  checked d (ok out) =
      raised (validate_json_schema out d.output_schema invalid_tool_output) (output out)

  -- The body of the `try`.
  unfoldable pub attempt_once : ToolDefinition → Fields → ℕ → Outcome
  unfolding validate_json_schema execute_builtin
  attempt_once d input n =
      raised (validate_json_schema (object input) d.input_schema invalid_tool_input)
        (if env.is_slow n then timeout else checked d (execute_builtin d.executor input))

  -- `(definition.manifest_json or {}).get("maxAttempts", 1)`
  abbrev pub max_value : ToolDefinition → Value
  max_value d = get_or "maxAttempts" d.manifest_json (number (pos 1))

  -- `maxAttempts` of the manifest, between 1 and 5
  unfoldable pub max_attempts_of : ToolDefinition → Result ℕ
  max_attempts_of d = env.int_of (max_value d) >>= λ n. ok (clamp_attempts n)

  -- What the manifest says of the attempts.
  unfoldable pub retries_of : ToolDefinition → Result (ℕ × List String)
  unfolding max_attempts_of retryable_of
  retries_of d = max_attempts_of d >>= λ max. retryable_of d >>= λ codes. ok (max, codes)

  -- One pass of the loop, by the outcome of its attempt: whether the loop goes on, and the call.
  unfoldable pub take_outcome : List String → ℕ → ℕ → ToolCall → Outcome → Bool × ToolCall
  unfolding redact_json
  take_outcome codes max n call timeout = (
    false,
    record call {
      attempt = n;
      status = call_timed_out;
      error_code = some sandbox_timeout;
      output_json = none;
    },
  )
  take_outcome codes max n call (failure e) =
      if mem (env.code_text e) codes && ltb n max
      then (true, record call { attempt = n; status = retry_scheduled; error_code = some e })
      else (false, record call { attempt = n; status = permanently_failed; error_code = some e })
  take_outcome codes max n call (output out) = (
    false,
    record call {
      attempt = n;
      output_json = some (redact_json env.sub out);
      status = call_succeeded;
      error_code = none;
    },
  )

  unfoldable pub attempt_call : ToolDefinition → List String → ℕ → ℕ → ToolCall → Bool × ToolCall
  unfolding attempt_once take_outcome
  attempt_call d codes max n call = take_outcome codes max n call (attempt_once d call.input_json n)

  -- `for attempt in range(n, max + 1)`; the number before `n` is the length of the range
  unfoldable pub attempts : ToolDefinition → List String → ℕ → ℕ → ℕ → ToolCall → ToolCall
  unfolding attempt_call
  attempts d codes max zero n call = call
  attempts d codes max (suc left) n call =
      let (goes_on, call') = attempt_call d codes max n call in
      let rest = attempts d codes max left (suc n) call' in if goes_on then rest else call'

  -- The loop, and the time of its end.
  unfoldable pub finish_call : ToolDefinition → List String → ℕ → ℕ → ToolCall → ToolCall
  unfolding attempts
  finish_call d codes max now call =
      let done = attempts d codes max (max + 1 - call.attempt) call.attempt call in
      record done { finished_at = some now }

  abbrev pub store : ToolCall → Db → Db
  store call db = write_call call.id (λ (c : ToolCall). call) db

  -- The call that the run, the tool's tenant or its status do not allow, and the one that the
  -- policies deny.
  abbrev pub disallowed : ToolCall → ToolCall
  disallowed call = record call { status = permanently_failed; error_code = some tool_not_allowed }

  abbrev pub denied : ToolCall → ℕ → ToolCall
  denied call now = record call {
    status = call_rejected;
    error_code = some tool_policy_denied;
    finished_at = some now;
  }

  -- The call after the guards have passed. The manifest is read outside the `try`: a raise leaves
  -- the call in status `executing`.
  unfoldable pub run_call : ToolDefinition → ToolCall → Db → Result ToolCall × Db
  unfolding finish_call retries_of
  run_call d call db =
      let started = record call { status = executing; started_at = some db.now } in
      elim (retries_of d) [
        | err e ↦ (err e, store started db)
        | ok (max, codes) ↦
            let done = finish_call d codes max db.now started in (ok done, store done db)
      ]

  -- What the answer of the policies means for the call.
  unfoldable pub obey : ToolDefinition → ToolCall → Db → Result Bool → Result ToolCall × Db
  unfolding run_call
  obey d call db (err e) = (err e, db)
  obey d call db (ok true) = run_call d call db
  obey d call db (ok false) = (ok (denied call db.now), store (denied call db.now) db)

  -- What `execute_tool_call` makes of a call that is not over.
  unfoldable pub settle_call : ToolDefinition → ToolCall → Db → Result ToolCall × Db
  unfolding is_permitted obey
  settle_call d call db =
      if is_none (run_of call db) || not (d.tenant_id == call.tenant_id) || not d.is_active
      then (ok (disallowed call), store (disallowed call) db)
      else obey d call db (is_permitted d (policies_of call db))

  unfoldable pub execute_tool_call : ToolDefinition → ToolCall → Db → Result ToolCall × Db
  unfolding is_terminal settle_call
  execute_tool_call d call db =
      if is_terminal call.status then (ok call, db) else settle_call d call db

  -- The manifests of the tools and the policies of the snapshots can be read.
  abbrev pub is_readable_tools : Db → Bool
  is_readable_tools db =
      all (λ (d : ToolDefinition). is_ok (retries_of d)) db.definitions
      && all (λ (s : Snapshot). are_policies s.tool_policies) db.snapshots
