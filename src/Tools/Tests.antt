-- ===== src/Tools/Tests.antt =====
-- The theorems about tool calls, at the sample database.
use general_agent_platform.Base.{
  ◌≡◌, ◌≢◌, refl, true, false, none, some, arith, ◌==◌, ok, err, type_error,
}
use general_agent_platform.Base.Int.{pos, ◌+ℤ◌}
use general_agent_platform.Json.{number, text, object, end, field, value_in, value_eq}
use general_agent_platform.Json.Redact.{redact_json}
use general_agent_platform.Db.{Db, ToolDefinition, ToolCall, executing, call_succeeded}
use general_agent_platform.Tools.{
  execute_builtin, is_terminal, max_attempts_of, retryable_of, texts_of, retries_of, is_permitted,
  last_matching, applies, is_meant, is_allowed, is_denied, policies_of, run_of, store,
  execute_tool_call, settle_call, obey, run_call, finish_call, attempts, attempt_call, attempt_once,
  take_outcome, validate_json_schema,
}
use general_agent_platform.Tools.Retry.{IsWithin, execute_tool_call_twice}
use general_agent_platform.Tools.Policed.{IsHonest, execute_tool_call_succeeded}
use general_agent_platform.Samples.{lenient, adder, sum_call, sum_input, sample_db}

-- 2 + 3
sum_runs : execute_builtin "builtin.add" sum_input ≡ ok (object (field "sum" (number (pos 5)) end))
unfolding execute_builtin ◌+ℤ◌
sum_runs = refl

sum_call-IsWithin : IsWithin lenient adder sum_call
unfolding max_attempts_of
sum_call-IsWithin max h = ground (arith, h)

abbrev sum_done : ToolCall
sum_done = record sum_call {
  status = call_succeeded;
  attempt = 1;
  output_json = some (object (field "sum" (number (pos 5)) end));
  started_at = some 500;
  finished_at = some 500;
}

abbrev done_db : Db
done_db = store lenient sum_done sample_db

sum_succeeds : execute_tool_call lenient adder sum_call sample_db ≡ (ok sum_done, done_db)
unfolding execute_tool_call settle_call obey run_call finish_call attempts attempt_call attempt_once
    execute_builtin take_outcome validate_json_schema is_terminal is_permitted last_matching applies
    is_meant is_allowed is_denied retries_of max_attempts_of retryable_of texts_of redact_json
    value_in value_eq ◌+ℤ◌
sum_succeeds = refl

-- A maximum that is no number raises, and leaves the call in status `executing`.
abbrev broken : ToolDefinition
broken = record adder { manifest_json = field "maxAttempts" (text "three") end }

raises : execute_tool_call lenient broken sum_call sample_db ≡ (
  err type_error,
  store lenient (record sum_call { status = executing; started_at = some 500 }) sample_db,
)
unfolding execute_tool_call settle_call obey run_call is_terminal is_permitted last_matching applies
    is_meant is_allowed is_denied retries_of max_attempts_of retryable_of texts_of value_in value_eq
raises = refl

execute_tool_call_twice_example :
    execute_tool_call lenient adder sum_done done_db ≡ (ok sum_done, done_db)
execute_tool_call_twice_example =
    execute_tool_call_twice lenient adder sum_call sum_done sample_db done_db sum_call-IsWithin
      sum_succeeds

not_over : is_terminal sum_call.status ≡ false
unfolding is_terminal
not_over = refl

execute_tool_call_succeeded_example :
    (run_of sum_call sample_db ≢ none)
    × (adder.is_active ≡ true)
    × ((adder.tenant_id == sum_call.tenant_id) ≡ true)
    × (is_permitted adder (policies_of sum_call sample_db) ≡ ok true)
    × IsHonest lenient adder sum_input sum_done
execute_tool_call_succeeded_example =
    execute_tool_call_succeeded lenient adder sum_call sum_done sample_db done_db not_over
      sum_succeeds refl
