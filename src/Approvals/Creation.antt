-- ===== src/Approvals/Creation.antt =====
-- `create_tool_call` (app/main.py): one call for each idempotency key, and an approval for the
-- tools of high risk. A name of several active versions means the newest.
use general_agent_platform.Base.{
  ℕ, suc, ◌+◌, String, Bool, true, false, not, ◌&&◌, Option, none, some, List, [], ◌∷◌, ◌++◌, ◌==◌,
  ltb, if◌then◌else◌, select, find, str_eq, Result, ok, err, not_found, conflict,
  invalid_tool_input,
}
use general_agent_platform.Json.{object, Fields}
use general_agent_platform.Json.Redact.{redact_fields}
use general_agent_platform.Principal.{Principal}
use general_agent_platform.Db.{
  Db, Run, ToolDefinition, ToolCall, created, pending_approval, Approval, pending, Risk, high,
  critical, record_audit,
}
use general_agent_platform.Runs.Endpoints.{Reply}
use general_agent_platform.Tools.{Environment, validate_json_schema}

pub record CallRequest : Type 0 where
  pub tool_name : String
  pub input : Fields
  pub idempotency_key : String

-- `.order_by(version.desc()).first()`
abbrev pub newest : List ToolDefinition → Option ToolDefinition
newest [] = none
newest (d ∷ rest) = elim (newest rest) [
  | none ↦ some d
  | some e ↦ if ltb d.version e.version then some e else some d
]

abbrev pub active_tool : Principal → String → Db → Option ToolDefinition
active_tool p name db = newest (
    select (λ (d : ToolDefinition). d.tenant_id == p.tenant_id && str_eq d.name name && d.is_active)
      db.definitions)

abbrev pub call_of_key : Principal → String → Db → Option ToolCall
call_of_key p key db =
    find (λ (c : ToolCall). c.tenant_id == p.tenant_id && str_eq c.idempotency_key key) db.calls

-- `tool.risk_level in {"high", "critical"}`
abbrev pub needs_approval : Risk → Bool
needs_approval high = true
needs_approval critical = true
needs_approval _ = false

-- 15 minutes, where the clock counts seconds
abbrev pub approval_lifetime : ℕ
approval_lifetime = 900

module _ (env : Environment) (sha256 : String → String) (token : String) where
  -- The new row, with the column defaults.
  abbrev pub new_call : Principal → ℕ → CallRequest → ToolDefinition → Db → ToolCall
  new_call p run_id request tool db = record {
    id = db.next_id;
    tenant_id = p.tenant_id;
    run_id = run_id;
    tool_definition_id = tool.id;
    idempotency_key = request.idempotency_key;
    status = if needs_approval tool.risk_level then pending_approval else created;
    input_json = redact_fields env.sub request.input;
    output_json = none;
    error_code = none;
    attempt = 1;
    started_at = none;
    finished_at = none;
  }

  abbrev pub new_approval : Principal → Run → ToolCall → Db → Approval
  new_approval p run call db = record {
    id = db.next_id;
    tenant_id = p.tenant_id;
    run_id = call.run_id;
    tool_call_id = call.id;
    status = pending;
    decision_reason = none;
    decided_by = none;
    token_hash = some (sha256 token);
    snapshot_id = run.snapshot_id;
    used_at = none;
    expires_at = db.now + approval_lifetime;
    created_at = db.now;
  }

  -- The row of the call, and that of its approval if it needs one.
  unfoldable pub add_call : Principal → Run → ToolDefinition → ToolCall → Db → Db
  add_call p run tool call db =
      let db1 = record db { calls = db.calls ++ call ∷ []; next_id = suc db.next_id } in
      if needs_approval tool.risk_level
      then record db1 {
        approvals = db1.approvals ++ new_approval p run call db1 ∷ [];
        next_id = suc db1.next_id;
      }
      else db1

  unfoldable pub store_call :
      Principal → ℕ → Run → ToolDefinition → CallRequest → Result (Unit {0}) → Db → Reply ToolCall
  unfolding add_call
  store_call p run_id run tool request (err e) db = (err e, db)
  store_call p run_id run tool request (ok _) db =
      let call = new_call p run_id request tool db in
      (
        ok call,
        record_audit p.tenant_id (some p.user_id) "tool_call.created" call.id "success"
            (add_call p run tool call db),
      )

  unfoldable pub create_tool_call : Principal → ℕ → CallRequest → Db → Reply ToolCall
  unfolding store_call validate_json_schema
  create_tool_call p run_id request db =
      elim (find (λ (r : Run). r.id == run_id && r.tenant_id == p.tenant_id) db.runs) [
        | none ↦ (err not_found, db)
        | some run ↦ elim (call_of_key p request.idempotency_key db) [
          | some existing ↦
              if not (existing.run_id == run_id) then (err conflict, db) else (ok existing, db)
          | none ↦ elim (active_tool p request.tool_name db) [
            | none ↦ (err not_found, db)
            | some tool ↦
                store_call p run_id run tool request
                  (validate_json_schema env (object request.input) tool.input_schema
                    invalid_tool_input)
                  db
          ]
        ]
      ]
