-- ===== src/Worker/Calls.antt =====
-- The tool nodes in the loop of `execute_workflow` (app/worker.py), and their calls. A tool's input
-- that is not an object is outside the model, and raises.
use general_agent_platform.Base.{
  suc, ◌+◌, String, Bool, true, false, not, ◌&&◌, Option, none, some, [], ◌∷◌, ◌++◌, ◌==◌, ltb,
  if◌then◌else◌, select, find, str_eq, Code, tool_not_found, tool_execution_failed, type_error,
  attribute_error, overflow_error, integrity_error, Result, ok, err,
}
use general_agent_platform.Json.{Value, null, text, object, Fields, end, get_or_null}
use general_agent_platform.Json.Redact.{redact_fields}
use general_agent_platform.Db.{
  Db, Run, node_waiting_approval, ToolDefinition, ToolCall, ToolCallStatus, created,
  pending_approval, call_succeeded, Approval, pending, approval_required, is_pending_call,
}
use general_agent_platform.Runs.{record_runtime_event}
use general_agent_platform.Tools.{execute_tool_call}
use general_agent_platform.Approvals.Creation.{needs_approval, newest, approval_lifetime}
use general_agent_platform.Workflow.{Node}
use general_agent_platform.Worker.Steps.{
  Host, Exec, awaiting, tool_limit, Next, halt, raise, crash, persist, persist_workflow_node,
  succeed, max_tool_calls,
}
use general_agent_platform.Json.Dict.{is_truthy, ◌or◌, get_or}

abbrev pub config_of : Node → Fields
config_of n = elim (get_or_null "config" n.rest) [ object fs ↦ fs | _ ↦ end ]

abbrev tool_id_of : Node → Value
tool_id_of n = get_or_null "tool_id" n.rest or get_or_null "tool_id" (config_of n)

abbrev tool_name_of : Node → Value
tool_name_of n =
    get_or_null "tool_name" n.rest
    or get_or_null "tool" n.rest
    or get_or_null "tool_name" (config_of n)
    or get_or_null "tool" (config_of n)

abbrev is_named : Value → ToolDefinition → Bool
is_named (text name) d = str_eq d.name name
is_named _ d = false

abbrev pub tool_of : Host → Node → Exec → Option ToolDefinition
tool_of host n e =
    let id = tool_id_of n in
    newest (
      select
        (λ (d : ToolDefinition).
          d.tenant_id == e.run.tenant_id
          && d.is_active
          && (if is_truthy id then d.id == host.id_of id else is_named (tool_name_of n) d))
        e.db.definitions)

-- `node.get("input", node_config.get("input", context))`
abbrev pub input_of : Node → Exec → Value
input_of n e = get_or "input" n.rest (get_or "input" (config_of n) (object e.context))

abbrev pub call_of_run : Run → String → Db → Option ToolCall
call_of_run run key db =
    find (λ (c : ToolCall). c.tenant_id == run.tenant_id && str_eq c.idempotency_key key) db.calls

abbrev pub workflow_call : Host → Run → ToolDefinition → String → Fields → Db → ToolCall
workflow_call host run d key input db = record {
  id = db.next_id;
  tenant_id = run.tenant_id;
  run_id = run.id;
  tool_definition_id = d.id;
  idempotency_key = key;
  status = if needs_approval d.risk_level then pending_approval else created;
  input_json = redact_fields host.tools.sub input;
  output_json = none;
  error_code = none;
  attempt = 1;
  started_at = none;
  finished_at = none;
}

abbrev pub workflow_approval : Host → Run → ToolCall → Db → Approval
workflow_approval host run call db = record {
  id = db.next_id;
  tenant_id = run.tenant_id;
  run_id = run.id;
  tool_call_id = call.id;
  status = pending;
  decision_reason = none;
  decided_by = none;
  token_hash = some (host.sha256 (host.token db.next_id));
  snapshot_id = run.snapshot_id;
  used_at = none;
  expires_at = db.now + approval_lifetime;
  created_at = db.now;
}

-- The new call's row, and its approval with the event that asks for it.
unfoldable pub add_workflow_call : Host → ToolDefinition → ToolCall → Exec → Exec
unfolding record_runtime_event
add_workflow_call host d call e =
    let db1 = record e.db { calls = e.db.calls ++ call ∷ []; next_id = suc e.db.next_id } in
    if needs_approval d.risk_level
    then (let db2 = record db1 {
      approvals = db1.approvals ++ workflow_approval host e.run call db1 ∷ [];
      next_id = suc db1.next_id;
    } in
        let (run', db3) = record_runtime_event e.run approval_required db2 in
        record e { run = run'; db = db3 })
    else record e { db = db1 }

abbrev or_code : Option Code → Code
or_code none = tool_execution_failed
or_code (some c) = c

abbrev or_nothing : Option Value → Value
or_nothing none = null
or_nothing (some v) = v

abbrev is_succeeded : ToolCallStatus → Bool
is_succeeded call_succeeded = true
is_succeeded _ = false

-- The exceptions that are no `ValueError` and no `TypeError`.
abbrev pub is_uncaught : Code → Bool
is_uncaught attribute_error = true
is_uncaught overflow_error = true
is_uncaught integrity_error = true
is_uncaught _ = false

-- What `execute_tool_call` returned or raised.
unfoldable pub used_call : Node → Exec → Result ToolCall → Next
unfolding persist_workflow_node
used_call n e (err code) = if is_uncaught code then crash code e else raise code e
used_call n e (ok done) =
    if not (is_succeeded done.status)
    then raise (or_code done.error_code) e
    else succeed n (or_nothing done.output_json) e

-- The call, once it has a row.
unfoldable pub use_call : Host → Node → ToolDefinition → ToolCall → Exec → Next
unfolding persist_workflow_node execute_tool_call used_call
use_call host n d call e =
    if is_pending_call call.status
    then halt awaiting (persist n node_waiting_approval null e)
    else (let (reply, db') = execute_tool_call host.tools d call e.db in
        used_call n (record e { db = db' }) reply)

unfoldable pub find_or_add_call : Host → Node → ToolDefinition → Value → Exec → Next
unfolding use_call add_workflow_call
find_or_add_call host n d input e =
    let key = host.call_key d.id input e.run.id in
    elim (call_of_run e.run key e.db) [
      | some call ↦ use_call host n d call e
      | none ↦ elim input [
        | object fs ↦
            let call = workflow_call host e.run d key fs e.db in
            use_call host n d call (add_workflow_call host d call e)
        | _ ↦ raise type_error e
      ]
    ]

unfoldable pub run_tool : Host → Node → Exec → Next
unfolding find_or_add_call
run_tool host n e =
    let e' = record e { tool_calls = suc e.tool_calls } in
    if ltb max_tool_calls e'.tool_calls then halt tool_limit e' else elim (tool_of host n e') [
      | none ↦ raise tool_not_found e'
      | some d ↦ find_or_add_call host n d (input_of n e') e'
    ]
