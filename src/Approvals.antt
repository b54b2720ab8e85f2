-- ===== src/Approvals.antt =====
-- Approvals of tool calls: asking for one (`create_tool_call`, app/main.py), deciding it
-- (`decide_approval`, app/main.py) and letting it expire (`expire_pending_approvals`,
-- app/runtime.py). The digest, the token and the schema validator are parameters. `meanwhile` is
-- what other sessions commit between the reads of a decision and its compare-and-set update.
pub mod Once
pub mod Guards
pub mod Sweep
pub mod Creation
pub mod Idempotent
mod Tests
use general_agent_platform.Base.{
  ℕ, suc, ◌+◌, String, Bool, true, false, not, ◌&&◌, ◌||◌, Option, none, some, List, [], ◌∷◌, ◌++◌,
  ◌==◌, ltb, leb, if◌then◌else◌, find, select, length, update_where, str_eq, is_none, same_option,
  Result, ok, err, Code, ◌>>=◌, approval_already_handled, approval_expired, version_conflict,
  not_found, forbidden, conflict, invalid_tool_input,
}
use general_agent_platform.Json.{Value, object, Fields}
use general_agent_platform.Json.Redact.{redact_fields}
use general_agent_platform.Principal.{Principal, is_admin}
use general_agent_platform.Db.{
  Db, Run, waiting_approval, running, failed, ToolDefinition, ToolCall, ToolCallStatus, created,
  pending_approval, call_rejected, call_expired, Approval, ApprovalStatus, pending, approved,
  rejected, expired, Risk, high, critical, WorkflowInstance, is_pending, is_pending_call, status_eq,
  get_run, get_call, get_definition, write_run, write_call, write_approval, record_audit,
}
use general_agent_platform.Runs.{transition_run}
use general_agent_platform.Runs.Endpoints.{Reply, finish}
use general_agent_platform.Tools.{Environment, validate_json_schema}

pub record Decision : Type 0 where
  pub approves : Bool
  pub reason : Option String
  pub token : String

-- What the guards of a decision have read.
pub record Examined : Type 0 where
  pub approval : Approval
  pub run : Run
  pub call : ToolCall

abbrev pub is_unused : Approval → Bool
is_unused a = is_pending a.status && is_none a.used_at

module _ (sha256 : String → String) where
  abbrev pub is_token : String → Option String → Bool
  is_token token none = true
  is_token token (some digest) = str_eq digest (sha256 token)

  -- The guards from the token on, for an approval that is pending, unused and not past its time.
  unfoldable pub examine_token : Principal → Decision → Approval → Db → Result Examined
  examine_token p decision a db =
      if not (is_token decision.token a.token_hash)
      then err approval_already_handled
      else elim (get_run a.run_id db) [
        | none ↦ err version_conflict
        | some run ↦
            if not (same_option run.snapshot_id a.snapshot_id)
            then err version_conflict
            else elim (get_call a.tool_call_id db) [
              | none ↦ err not_found
              | some call ↦ elim (get_definition call.tool_definition_id db) [
                | none ↦ err forbidden
                | some d ↦
                    if not d.is_active || not (d.tenant_id == p.tenant_id)
                    then err forbidden
                    else ok (record { approval = a; run = run; call = call })
              ]
            ]
      ]

  abbrev pub expire_late : Approval → Db → Db
  expire_late a db =
      write_approval a.id (λ (b : Approval). record b { status = expired; used_at = some db.now })
        db

  unfoldable pub examine : Principal → ℕ → Decision → Db → Reply Examined
  unfolding examine_token
  examine p k decision db =
      if not (is_admin p.role)
      then (
        err forbidden,
        record_audit p.tenant_id (some p.user_id) "permission.denied" k "denied" db,
      )
      else elim (find (λ (a : Approval). a.id == k && a.tenant_id == p.tenant_id) db.approvals) [
        | none ↦ (err not_found, db)
        | some a ↦
            if not (is_unused a)
            then (err approval_already_handled, db)
            else if leb a.expires_at db.now
            then (err approval_already_handled, expire_late a db)
            else (examine_token p decision a db, db)
      ]

-- The `where` of the update that consumes an approval.
abbrev pub consumable : Principal → ℕ → ℕ → Approval → Bool
consumable p k now a =
    a.id == k && a.tenant_id == p.tenant_id && is_unused a && ltb now a.expires_at

abbrev pub verdict : Decision → ApprovalStatus
verdict decision = if decision.approves then approved else rejected

-- The values of that update.
abbrev pub consume : Principal → Decision → ℕ → Approval → Approval
consume p decision now a = record a {
  status = verdict decision;
  decision_reason = decision.reason;
  decided_by = some p.user_id;
  used_at = some now;
}

-- The call and the run of an approval that was granted.
unfoldable pub grant : Run → ToolCall → Db → Result Db
grant run call db =
    let db1 = write_call call.id (λ (c : ToolCall). record c { status = created }) db in
    if status_eq run.status waiting_approval
    then (transition_run run running none db1 >>= λ (b, run', db2). ok db2)
    else ok db1

-- The end of a run that waited for an approval, and of its workflow instances.
abbrev pub fail_instances : Principal → Run → Db → Db
fail_instances p run db = record db {
  instances =
      update_where (λ (i : WorkflowInstance). i.run_id == run.id && i.tenant_id == p.tenant_id)
        (λ (i : WorkflowInstance). record i { status = failed; output_json = run.output_json })
        db.instances;
}

-- The call and the run of an approval that was refused.
unfoldable pub refuse : Principal → Run → ToolCall → Db → Result Db
refuse p run call db =
    let db1 = write_call call.id (λ (c : ToolCall). record c { status = call_rejected }) db in
    if status_eq run.status waiting_approval
    then (transition_run run failed none db1 >>= λ (b, run', db2).
        let (ended, db3) = finish run' db2 in
        ok (
          record_audit p.tenant_id (some p.user_id) "run.failed" run.id "success"
            (fail_instances p ended db3)))
    else ok db1

-- `f"approval.{approval.status}"`
abbrev approval_action : Bool → String
approval_action true = "approval.approved"
approval_action false = "approval.rejected"

unfoldable pub finish_decision : Principal → Decision → Approval → Db → Result Db → Reply Approval
finish_decision p decision a old (ok db) = (
  ok a,
  record_audit p.tenant_id (some p.user_id) (approval_action decision.approves) a.id "success" db,
)
finish_decision p decision a old (err e) = (err e, old)

-- From the compare-and-set update on. The database is the one that it meets.
unfoldable pub decide_examined : Principal → ℕ → Decision → Examined → Db → Reply Approval
unfolding grant refuse finish_decision
decide_examined p k decision e db =
    if not (length (select (consumable p k db.now) db.approvals) == 1)
    then (err approval_already_handled, db)
    else (let db1 = record db {
      approvals = update_where (consumable p k db.now) (consume p decision db.now) db.approvals;
    } in
        finish_decision p decision (consume p decision db.now e.approval) db
          (if decision.approves then grant e.run e.call db1 else refuse p e.run e.call db1))

unfoldable pub decide_reply : Principal → ℕ → Decision → (Db → Db) → Reply Examined → Reply Approval
unfolding decide_examined
decide_reply p k decision meanwhile (ok e, db) = decide_examined p k decision e (meanwhile db)
decide_reply p k decision meanwhile (err e, db) = (err e, db)

unfoldable pub decide_approval :
    (sha256 : String → String) → Principal → ℕ → Decision → (Db → Db) → Db → Reply Approval
unfolding examine decide_reply
decide_approval sha256 p k decision meanwhile db =
    decide_reply p k decision meanwhile (examine sha256 p k decision db)

abbrev in_scope : Option ℕ → ℕ → Bool
in_scope none tenant = true
in_scope (some t) tenant = tenant == t

-- The filter of the sweep.
abbrev pub is_due : Option ℕ → ℕ → Approval → Bool
is_due tenant now a = is_unused a && leb a.expires_at now && in_scope tenant a.tenant_id

abbrev pub expire : ℕ → Approval → Approval
expire now a = record a {
  status = expired;
  used_at = some now;
  decision_reason = some "APPROVAL_EXPIRED";
}

-- The call of an approval that expires, if it still waits.
unfoldable pub expire_call : Approval → Db → Db
expire_call a db = elim (get_call a.tool_call_id db) [
  | none ↦ db
  | some call ↦
      if is_pending_call call.status
      then write_call call.id
          (λ (c : ToolCall). record c {
            status = call_expired;
            error_code = some approval_expired;
            finished_at = some db.now;
          })
          db
      else db
]

-- The run of an approval that expires, if it still waits.
unfoldable pub expire_run : Approval → Db → Result Db
expire_run a db = elim (get_run a.run_id db) [
  | none ↦ ok db
  | some run ↦
      if status_eq run.status waiting_approval
      then (transition_run run failed none db >>= λ (b, run', db'). ok (finish run' db').1)
      else ok db
]

-- The body of the loop of the sweep.
unfoldable pub expire_one : Approval → Db → Result Db
unfolding expire_call expire_run
expire_one a db = expire_run a (expire_call a (write_approval a.id (expire db.now) db))

unfoldable pub expire_all : List Approval → Db → Result Db
unfolding expire_one
expire_all [] db = ok db
expire_all (a ∷ rest) db = expire_one a db >>= λ db'. expire_all rest db'

unfoldable pub expire_pending_approvals : Option ℕ → Db → Result (ℕ × Db)
unfolding expire_all
expire_pending_approvals tenant db =
    let due = select (is_due tenant db.now) db.approvals in
    expire_all due db >>= λ db'. ok (length due, db')
