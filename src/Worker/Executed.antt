-- ===== src/Worker/Executed.antt =====
-- What `execute_workflow` (app/worker.py) leaves, on each of its ways out.
use general_agent_platform.Base.{
  ℕ, suc, ◌+◌, ◌≤◌, ◌≡◌, refl, String, false, Option, none, some, List, arith, length, if_holds,
  not, ◌&&◌, any, Result, ok, err, Code, ltb, is_empty, if◌then◌else◌, type_error,
}
use general_agent_platform.Json.{Value, Fields, field, end, text, number, object}
use general_agent_platform.Base.Int.{pos}
use general_agent_platform.Db.{Db, Run, stopping, status_eq}
use general_agent_platform.Workflow.{Node, order_workflow, is_condition}
use general_agent_platform.Tools.{is_readable_tools}
use general_agent_platform.Worker.Provider.{Completion}
use general_agent_platform.Worker.Parallel.{prepare_parallel_results}
use general_agent_platform.Worker.Definition.{workflow_of, fallback, instructions_of}
use general_agent_platform.Worker.Steps.{
  Host, Exec, step_limit, stop_requested, soft_limit, token_budget, cost_budget, tool_limit,
  awaiting, Next, go, halt, raise, crash,
}
use general_agent_platform.Worker.Nodes.{run_nodes}
use general_agent_platform.Worker.Execute.{
  Outcome, succeeded, waiting, failed, is_escaped, outcome_of, halt_output, error_output, on_error,
  Executed, leave, checkpoint, finish_loop, start_loop, run_ahead, run_ordered, run_workflow,
  execute_workflow, definition_of,
}
use general_agent_platform.Worker.Kept.{IsKept, KeptNext, SameTools, run_nodes-KeptNext}
use general_agent_platform.Worker.Current.{IsCurrent, save_run-IsCurrent, same_rows-IsCurrent}

module _ (host : Host) (run : Run) (db : Db) where
  -- The object is current and has its status, and at most fifty calls are new.
  abbrev pub IsLeft : Executed → Type 0
  IsLeft x =
      IsCurrent x.run x.db
      × (x.run.id ≡ run.id)
      × (x.run.status ≡ run.status)
      × (length x.db.calls ≤ length db.calls + 50)
      × SameTools db x.db
      × ((is_escaped x.outcome && is_readable_tools host.tools db) ≡ false)

  module _ (current : IsCurrent run db) where
    leave-IsLeft :
        (outcome : Outcome) (output : Fields) (e : Exec)
        → IsKept host run db e
        → is_escaped outcome ≡ false
        → IsLeft (leave outcome output e)
    leave-IsLeft outcome output e (rows, row, few, most, tools) calm = (
      save_run-IsCurrent e.run (record e.run { output_json = output }) e.db
          (same_rows-IsCurrent run e.run db e.db current rows row) (refl, refl, refl),
      row.0,
      row.1,
      most,
      tools,
      ground (arith, calm),
    )

    checkpoint-IsLeft :
        (outcome : Outcome) (output : Fields) (e : Exec)
        → IsKept host run db e
        → is_escaped outcome ≡ false
        → IsLeft (checkpoint outcome output e)
    checkpoint-IsLeft outcome output e (rows, row, few, most, tools) calm =
        let version = suc e.run.checkpoint_version in
        let run' = record e.run { checkpoint_version = version; output_json = output } in
        let added = (checkpoint outcome output e).db.checkpoints in
        (
          save_run-IsCurrent e.run run' (record e.db { checkpoints = added })
              (same_rows-IsCurrent run e.run db e.db current rows row) (refl, refl, refl),
          row.0,
          row.1,
          most,
          tools,
          ground (arith, calm),
        )

    on_error-IsLeft :
        (code_text : Code → String) (code : Code) (e : Exec)
        → IsKept host run db e
        → IsLeft (on_error code_text code e)
    on_error-IsLeft code_text code e h =
        checkpoint-IsLeft failed (error_output (code_text code)) e h refl

    finish_loop-IsLeft :
        (code_text : Code → String) (r : Next)
        → KeptNext host run db r
        → IsLeft (finish_loop code_text r)
    unfolding finish_loop
    finish_loop-IsLeft code_text (go e) h =
        checkpoint-IsLeft succeeded (field "context" (object e.context) end) e h refl
    finish_loop-IsLeft code_text (crash code e) ((rows, row, few, most, tools), unreadable) = (
      same_rows-IsCurrent run e.run db e.db current rows row,
      row.0,
      row.1,
      most,
      tools,
      unreadable,
    )
    finish_loop-IsLeft code_text (raise code e) h = on_error-IsLeft code_text code e h
    finish_loop-IsLeft code_text (halt step_limit e) h =
        leave-IsLeft (outcome_of step_limit) (halt_output step_limit e) e h refl
    finish_loop-IsLeft code_text (halt stop_requested e) h =
        leave-IsLeft (outcome_of stop_requested) (halt_output stop_requested e) e h refl
    finish_loop-IsLeft code_text (halt soft_limit e) h =
        leave-IsLeft (outcome_of soft_limit) (halt_output soft_limit e) e h refl
    finish_loop-IsLeft code_text (halt token_budget e) h =
        leave-IsLeft (outcome_of token_budget) (halt_output token_budget e) e h refl
    finish_loop-IsLeft code_text (halt cost_budget e) h =
        leave-IsLeft (outcome_of cost_budget) (halt_output cost_budget e) e h refl
    finish_loop-IsLeft code_text (halt tool_limit e) h =
        leave-IsLeft (outcome_of tool_limit) (halt_output tool_limit e) e h refl
    finish_loop-IsLeft code_text (halt awaiting e) h =
        leave-IsLeft waiting e.run.output_json e h refl

    run_ahead-KeptNext :
        (ordered : List Node) (r : ℕ × Result (List (String × Completion))) (e : Exec)
        → IsKept host run db e
        → KeptNext host run db (run_ahead host ordered r e)
    unfolding run_ahead
    run_ahead-KeptNext ordered (failures, err code) e h = h
    run_ahead-KeptNext ordered (failures, ok ahead) e h =
        run_nodes-KeptNext host run db ordered ordered
          (record e { failures = failures; ahead = ahead }) h

    run_ordered-IsLeft :
        (code_text : Code → String) (ordered : List Node) (e : Exec)
        → IsKept host run db e
        → IsLeft (run_ordered code_text host ordered e)
    unfolding run_ordered
    run_ordered-IsLeft code_text ordered e h =
        let ahead = prepare_parallel_results host ordered e.context e.failures in
        let parallel = run_ahead host ordered ahead e in
        let sequential = run_nodes host ordered ordered e in
        let is_free = not (status_eq e.run.status stopping) && not (any is_condition ordered) in
        let full =
          field "error" (text "WORKFLOW_NODE_LIMIT_EXCEEDED")
            (field "max_nodes" (number (pos 100)) end) in
        if_holds (λ x. IsLeft x) (ltb 100 (length ordered)) (leave failed full e)
          (finish_loop code_text (if is_free then parallel else sequential))
          (leave-IsLeft failed full e h refl)
          (finish_loop-IsLeft code_text (if is_free then parallel else sequential) (
            if_holds (λ r. KeptNext host run db r) is_free parallel sequential
              (run_ahead-KeptNext ordered ahead e h)
              (run_nodes-KeptNext host run db ordered ordered e h)))

    run_workflow-IsLeft :
        (code_text : Code → String) (r : Result (List Node)) (e : Exec)
        → IsKept host run db e
        → IsLeft (run_workflow code_text host r e)
    unfolding run_workflow
    run_workflow-IsLeft code_text (err code) e h = on_error-IsLeft code_text code e h
    run_workflow-IsLeft code_text (ok ordered) e h = run_ordered-IsLeft code_text ordered e h

    pub start_loop-IsKept : (failures : ℕ) → IsKept host run db (start_loop run db failures)
    start_loop-IsKept failures =
        (refl, (refl, refl, refl, refl), omega arith, omega arith, (refl, refl))

    untouched-IsLeft :
        (outcome : Outcome) (failures : ℕ)
        → is_escaped outcome ≡ false
        → IsLeft (record { outcome = outcome; run = run; db = db; failures = failures })
    untouched-IsLeft outcome failures calm =
        (current, refl, refl, omega arith, (refl, refl), ground (arith, calm))

    chosen_workflow-IsLeft :
        (code_text : Code → String) (join : String → String) (failures : ℕ) (instructions : Value)
        (o : Option (List Node))
        → IsLeft (elim o [
          | none ↦ on_error code_text type_error (start_loop run db failures)
          | some nodes ↦
              let workflow =
                if is_empty nodes then fallback host.str join instructions else nodes in
              if is_empty workflow
              then record { outcome = succeeded; run = run; db = db; failures = failures }
              else run_workflow code_text host
                  (order_workflow workflow)
                  (start_loop run db failures)
        ])
    chosen_workflow-IsLeft code_text join failures instructions none =
        on_error-IsLeft code_text type_error (start_loop run db failures)
          (start_loop-IsKept failures)
    chosen_workflow-IsLeft code_text join failures instructions (some nodes) =
        let workflow = if is_empty nodes then fallback host.str join instructions else nodes in
        if_holds (λ x. IsLeft x) (is_empty workflow)
          (record { outcome = succeeded; run = run; db = db; failures = failures })
          (run_workflow code_text host (order_workflow workflow) (start_loop run db failures))
          (untouched-IsLeft succeeded failures refl)
          (run_workflow-IsLeft code_text (order_workflow workflow) (start_loop run db failures)
            (start_loop-IsKept failures))

    pub execution-IsLeft :
        (code_text : Code → String) (join : String → String) (definition : Fields) (failures : ℕ)
        → IsLeft (execute_workflow code_text join host definition run db failures)
    unfolding execute_workflow
    execution-IsLeft code_text join definition failures =
        chosen_workflow-IsLeft code_text join failures
          (instructions_of host.str (definition_of definition run db))
          (workflow_of host.str (definition_of definition run db))
