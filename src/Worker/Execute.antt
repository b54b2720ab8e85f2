-- ===== src/Worker/Execute.antt =====
-- `execute_workflow` (app/worker.py). Of what a checkpoint holds only its version is kept, and of
-- the output of a workflow that ends well only its context. A definition whose workflow is outside
-- the model fails with a `TypeError`.
use general_agent_platform.Base.{
  ℕ, Bool, true, false, suc, ◌-◌, String, not, ◌&&◌, none, some, List, [], ◌∷◌, ◌++◌, ◌==◌, ltb,
  if◌then◌else◌, length, any, find, is_empty, Result, ok, err, Code, type_error,
}
use general_agent_platform.Base.Int.{pos}
use general_agent_platform.Json.{number, text, object, Fields, end, field}
use general_agent_platform.Db.{Db, Run, stopping, Snapshot, status_eq, write_run}
use general_agent_platform.Workflow.{Node, is_condition, order_workflow}
use general_agent_platform.Worker.Provider.{Completion}
use general_agent_platform.Worker.Steps.{
  Host, Exec, Halt, step_limit, stop_requested, soft_limit, token_budget, cost_budget, tool_limit,
  awaiting, Next, go, halt, raise, crash, max_workflow_nodes,
}
use general_agent_platform.Worker.Nodes.{run_nodes}
use general_agent_platform.Worker.Parallel.{prepare_parallel_results}
use general_agent_platform.Worker.Definition.{workflow_of, fallback, instructions_of}

-- What `execute_workflow` returns, or the exception that leaves it.
pub data Outcome : Type 0 where
  succeeded waiting failed stopped over_budget : Outcome
  escaped : Code → Outcome

abbrev pub is_escaped : Outcome → Bool
is_escaped (escaped e) = true
is_escaped _ = false

abbrev pub outcome_of : Halt → Outcome
outcome_of step_limit = failed
outcome_of stop_requested = stopped
outcome_of soft_limit = over_budget
outcome_of token_budget = over_budget
outcome_of cost_budget = over_budget
outcome_of tool_limit = over_budget
outcome_of awaiting = waiting

abbrev pub error_output : String → Fields
error_output e = field "error" (text e) end

-- The output that a `return` leaves, without the numbers of a budget.
abbrev pub halt_output : Halt → Exec → Fields
halt_output step_limit e =
    field "error" (text "WORKFLOW_STEP_LIMIT_EXCEEDED") (field "max_steps" (number (pos 1000)) end)
halt_output stop_requested e =
    field "error" (text "STOP_REQUESTED") (field "completed_steps" (number (pos (e.steps - 1))) end)
halt_output soft_limit e = error_output "QUOTA_SOFT_LIMIT"
halt_output token_budget e = error_output "BUDGET_EXCEEDED"
halt_output cost_budget e = error_output "BUDGET_EXCEEDED"
halt_output tool_limit e =
    field "error" (text "TOOL_CALL_LIMIT_EXCEEDED") (field "max_tool_calls" (number (pos 50)) end)
halt_output awaiting e = e.run.output_json

-- The columns of the object that are written to its row.
abbrev pub save_run : Run → Db → Db
save_run run db =
    write_run run.id
      (λ (r : Run). record r {
        checkpoint_version = run.checkpoint_version;
        output_json = run.output_json;
        usage = run.usage;
        cost = run.cost;
        finished_at = run.finished_at;
      })
      db

-- The result, the object, the database and the failures of the model.
pub record Executed : Type 0 where
  pub outcome : Outcome
  pub run : Run
  pub db : Db
  pub failures : ℕ

abbrev pub leave : Outcome → Fields → Exec → Executed
leave outcome output e =
    let run' = record e.run { output_json = output } in
    record { outcome = outcome; run = run'; db = save_run run' e.db; failures = e.failures }

-- The checkpoint after the last node, and in the handler of errors.
abbrev pub checkpoint : Outcome → Fields → Exec → Executed
checkpoint outcome output e =
    let version = suc e.run.checkpoint_version in
    let run' = record e.run { checkpoint_version = version; output_json = output } in
    let db' = record e.db {
      checkpoints =
          e.db.checkpoints
          ++ record { run_id = run'.id; tenant_id = run'.tenant_id; version = version } ∷ [];
    } in
    record { outcome = outcome; run = run'; db = save_run run' db'; failures = e.failures }

-- `str(exc)` of a code
abbrev pub on_error : (Code → String) → Code → Exec → Executed
on_error code_text code e = checkpoint failed (error_output (code_text code)) e

unfoldable pub finish_loop : (Code → String) → Next → Executed
finish_loop code_text (go e) = checkpoint succeeded (field "context" (object e.context) end) e
finish_loop code_text (halt awaiting e) = leave waiting e.run.output_json e
finish_loop code_text (halt h e) = leave (outcome_of h) (halt_output h e) e
finish_loop code_text (raise code e) = on_error code_text code e
finish_loop code_text (crash code e) = record {
  outcome = escaped code;
  run = e.run;
  db = e.db;
  failures = e.failures;
}

abbrev pub start_loop : Run → Db → ℕ → Exec
start_loop run db failures = record {
  run = run;
  db = db;
  context = run.input_json;
  selected = [];
  excluded = [];
  steps = 0;
  tool_calls = 0;
  failures = failures;
  ahead = [];
}

-- The loop, after the results that were computed ahead.
unfoldable pub run_ahead : Host → List Node → ℕ × Result (List (String × Completion)) → Exec → Next
unfolding run_nodes
run_ahead host ordered (failures, err code) e = raise code (record e { failures = failures })
run_ahead host ordered (failures, ok ahead) e =
    run_nodes host ordered ordered (record e { failures = failures; ahead = ahead })

-- The body of the `try`, from the ordered nodes on.
unfoldable pub run_ordered : (Code → String) → Host → List Node → Exec → Executed
unfolding run_ahead finish_loop run_nodes prepare_parallel_results
run_ordered code_text host ordered e =
    if ltb max_workflow_nodes (length ordered)
    then leave failed
        (field "error" (text "WORKFLOW_NODE_LIMIT_EXCEEDED")
          (field "max_nodes" (number (pos 100)) end))
        e
    else finish_loop code_text (
        if not (status_eq e.run.status stopping) && not (any is_condition ordered)
        then run_ahead host ordered (prepare_parallel_results host ordered e.context e.failures) e
        else run_nodes host ordered ordered e)

unfoldable pub run_workflow : (Code → String) → Host → Result (List Node) → Exec → Executed
unfolding run_ordered
run_workflow code_text host (err code) e = on_error code_text code e
run_workflow code_text host (ok ordered) e = run_ordered code_text host ordered e

-- The definition of the snapshot, or else the agent's.
abbrev pub definition_of : Fields → Run → Db → Fields
definition_of agent_definition run db =
    elim (find (λ (s : Snapshot). s.run_id == run.id && s.tenant_id == run.tenant_id)
      db.snapshots) [ none ↦ agent_definition | some s ↦ s.definition_json ]

-- `join` makes the prompt of the fallback.
unfoldable pub execute_workflow :
    (Code → String) → (join : String → String) → Host → Fields → Run → Db → ℕ → Executed
unfolding run_workflow order_workflow workflow_of fallback
execute_workflow code_text join host agent_definition run db failures =
    let definition = definition_of agent_definition run db in
    let e = start_loop run db failures in
    elim (workflow_of host.str definition) [
      | none ↦ on_error code_text type_error e
      | some nodes ↦
          let workflow =
            if is_empty nodes
            then fallback host.str join (instructions_of host.str definition)
            else nodes in
          if is_empty workflow
          then record { outcome = succeeded; run = run; db = db; failures = failures }
          else run_workflow code_text host (order_workflow workflow) e
    ]
