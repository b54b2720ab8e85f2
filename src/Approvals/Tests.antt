-- ===== src/Approvals/Tests.antt =====
-- The theorems about approvals, at the sample database.
use general_agent_platform.Base.{
  ℕ, ◌≡◌, refl, true, false, ◌&&◌, Option, none, [], any, ◌==◌, select, ok, err,
  approval_already_handled,
}
use general_agent_platform.Principal.{is_admin}
use general_agent_platform.Db.{Db, ToolCall, Approval}
use general_agent_platform.Runs.{transition_run, move_run, record_runtime_event, transitions}
use general_agent_platform.Tools.{validate_json_schema}
use general_agent_platform.Approvals.{
  examine, examine_token, decide_examined, decide_reply, decide_approval, grant, finish_decision,
  is_due, expire_pending_approvals,
}
use general_agent_platform.Approvals.Once.{is_ok, is_open, decide_approval_once}
use general_agent_platform.Approvals.Guards.{
  IsDecidable, decide_approval_guarded, late_decision_strands,
}
use general_agent_platform.Approvals.Sweep.{expire_pending_approvals_lem}
use general_agent_platform.Approvals.Creation.{
  CallRequest, create_tool_call, store_call, add_call, new_call,
}
use general_agent_platform.Approvals.Idempotent.{create_tool_call_idempotent}
use general_agent_platform.Samples.{
  operator, sample_db, late_db, approval, approve, same_text, nothing, lenient, sum_input, adder,
}

is_granted : is_ok (decide_approval same_text operator 70 approve nothing sample_db).0 ≡ true
unfolding decide_approval examine examine_token decide_reply decide_examined grant finish_decision
    transition_run transitions move_run record_runtime_event
is_granted = refl

decide_approval_once_example :
    let (reply2, db2) =
      decide_approval same_text operator 70 approve nothing
        (decide_approval same_text operator 70 approve nothing sample_db).1 in
    (is_ok reply2 ≡ false)
    × (db2.approvals
        ≡ (decide_approval same_text operator 70 approve nothing sample_db).1.approvals)
decide_approval_once_example =
    decide_approval_once same_text operator 70 approve nothing sample_db (refl, tt) is_granted
      operator approve nothing

decide_approval_guarded_example :
    (is_admin operator.role ≡ true)
    × IsDecidable same_text operator 70 approve sample_db
    × (is_open 70 sample_db.approvals ≡ true)
decide_approval_guarded_example =
    decide_approval_guarded same_text operator 70 approve nothing sample_db is_granted

late_decision_strands_example :
    let (reply, db') = decide_approval same_text operator 70 approve nothing late_db in
    (reply ≡ err approval_already_handled)
    × (db'.runs ≡ late_db.runs)
    × (db'.calls ≡ late_db.calls)
    × ((tenant : Option ℕ) (now : ℕ)
        → any (λ (b : Approval). b.id == 70 && is_due tenant now b) db'.approvals ≡ false)
late_decision_strands_example =
    late_decision_strands same_text operator 70 approve nothing late_db approval refl refl refl refl

expire_pending_approvals_lem_example :
    (db' : Db) × (expire_pending_approvals none late_db ≡ ok (1, db'))
    × (select (is_due none 1000) db'.approvals ≡ [])
expire_pending_approvals_lem_example =
    expire_pending_approvals_lem none late_db (refl, (refl, (refl, (refl, tt))))

abbrev request : CallRequest
request = record { tool_name = "add"; input = sum_input; idempotency_key = "third-key-000000" }

abbrev again : CallRequest
again = record { tool_name = "other"; input = sum_input; idempotency_key = "third-key-000000" }

abbrev stored : ToolCall
stored = new_call lenient same_text "token" operator 10 request adder sample_db

is_stored : (create_tool_call lenient same_text "token" operator 10 request sample_db).0 ≡ ok stored
unfolding create_tool_call store_call add_call validate_json_schema
is_stored = refl

create_tool_call_idempotent_example :
    let db' = (create_tool_call lenient same_text "token" operator 10 request sample_db).1 in
    create_tool_call lenient same_text "fresh" operator 10 again db' ≡ (ok stored, db')
create_tool_call_idempotent_example =
    create_tool_call_idempotent lenient same_text "token" "fresh" operator 10 request again stored
      sample_db refl is_stored
