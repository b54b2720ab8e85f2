-- ===== src/Worker/Claim.antt =====
-- A claimed run (`_process_claimed_run`) and the choice of it (`process_once`), app/worker.py. The
-- metrics are left out, and so is the loop over the tenants of a PostgreSQL database. A raise leaves
-- the database of the last commit.
use general_agent_platform.Base.{
  ℕ, String, Bool, true, false, not, ◌&&◌, ◌||◌, Option, none, some, List, [], ◌∷◌, ◌==◌, ltb,
  if◌then◌else◌, select, find, is_none, Result, ok, err, Code, ◌>>=◌, tool_not_found,
}
use general_agent_platform.Base.Int.{pos}
use general_agent_platform.Json.{number, text, end, field}
use general_agent_platform.Db.{
  Db, Run, RunStatus, accepted, preparing, running, stopping, waiting_approval, completed, failed,
  cancelled, budget_exceeded, Checkpoint, ToolCall, ToolCallStatus, created, permanently_failed,
  call_succeeded, is_pending_call, status_eq, status_in, write_run, write_call, get_definition,
  record_audit,
}
use general_agent_platform.Agents.{Agent}
use general_agent_platform.Runs.{transition_run}
use general_agent_platform.Runs.Endpoints.{Reply}
use general_agent_platform.Tools.{execute_tool_call}
use general_agent_platform.Approvals.{expire_pending_approvals}
use general_agent_platform.Worker.Recovery.{
  recover_stuck_runs, recover_approval_waiting, sync_workflow_instance,
}
use general_agent_platform.Worker.Steps.{Host}
use general_agent_platform.Worker.Execute.{
  Outcome, succeeded, waiting, stopped, escaped, over_budget, save_run, Executed, execute_workflow,
}
use general_agent_platform.Worker.Execute

-- `transition_run`, which is never asked for a status that is expected here
abbrev pub move : RunStatus → Run × Db → Result (Run × Db)
move next (run, db) = transition_run run next none db >>= λ (b, run', db'). ok (run', db')

-- The end of a run: its time, its instances and the audit trail.
abbrev pub close : Option String → Run × Db → Run × Db
close action (run, db) =
    let run' = record run { finished_at = some db.now } in
    let db' = sync_workflow_instance run' (save_run run' db) in
    (
      run',
      elim action [
        | none ↦ db'
        | some a ↦ record_audit run.tenant_id (some run.created_by) a run.id "success" db'
      ],
    )

-- `order_by(Checkpoint.version.desc()).first()`
abbrev pub newest_checkpoint : List Checkpoint → Option Checkpoint
newest_checkpoint [] = none
newest_checkpoint (c ∷ rest) = elim (newest_checkpoint rest) [
  | none ↦ some c
  | some d ↦ if ltb c.version d.version then some d else some c
]

abbrev pub recovered : Option Checkpoint → Run → Run
recovered none run = run
recovered (some c) run = record run {
  checkpoint_version = c.version;
  output_json = field "recovered_from" (number (pos c.version)) end;
}

-- A run that a worker left in the middle starts again, from its newest checkpoint.
unfoldable pub rewind : Run → Db → Run × Db
rewind run db =
    if status_in run.status (preparing ∷ running ∷ [])
    then (let checkpoint = newest_checkpoint (
          select (λ (c : Checkpoint). c.run_id == run.id && c.tenant_id == run.tenant_id)
            db.checkpoints) in
        let run' = record (recovered checkpoint run) { status = accepted } in
        (
          run',
          write_run run.id
              (λ (r : Run). record r {
                status = accepted;
                checkpoint_version = run'.checkpoint_version;
                output_json = run'.output_json;
              })
              db,
        ))
    else (run, db)

abbrev pub is_succeeded : ToolCallStatus → Bool
is_succeeded call_succeeded = true
is_succeeded _ = false

abbrev pub is_created : ToolCallStatus → Bool
is_created created = true
is_created _ = false

-- `for call in calls: ... else: ...`
unfoldable pub settle_calls : Host → List ToolCall → Run × Db → Result (Run × Db)
unfolding execute_tool_call
settle_calls host [] state = move completed state
settle_calls host (call ∷ rest) (run, db) = elim (get_definition call.tool_definition_id db) [
  | none ↦ move failed (
    run,
    write_call call.id
        (λ (c : ToolCall). record c {
          status = permanently_failed;
          error_code = some tool_not_found;
        })
        db,
  )
  | some d ↦
      let (reply, db') = execute_tool_call host.tools d call db in
      let later = settle_calls host rest (run, db') in
      reply >>= λ done. if is_succeeded done.status then later else move failed (run, db')
]

abbrev pub waits_for_call : Run → Db → Bool
waits_for_call run db =
    not (is_none (find (λ (c : ToolCall). c.run_id == run.id && is_pending_call c.status) db.calls))

abbrev pub created_calls : Run → Db → List ToolCall
created_calls run db = select (λ (c : ToolCall). c.run_id == run.id && is_created c.status) db.calls

abbrev pub status_action : RunStatus → String
status_action completed = "run.completed"
status_action _ = "run.failed"

-- A wait: the instances take the status, and the run goes on later.
abbrev pub pause : Run × Db → Run × Db
pause (run, db) = (run, sync_workflow_instance run db)

abbrev pub end_calls : Run × Db → Run × Db
end_calls (run, db) = close (some (status_action run.status)) (run, db)

-- What follows on the outcome of the workflow.
unfoldable pub conclude : Host → Outcome → Run × Db → Result (Run × Db)
unfolding settle_calls
conclude host waiting state = move waiting_approval state >>= λ s. ok (pause s)
conclude host Execute.failed state = move failed state >>= λ s. ok (close (some "run.failed") s)
conclude host (escaped e) state = err e
conclude host stopped state = move cancelled state >>= λ s. ok (close (some "run.stopped") s)
conclude host over_budget state =
    move budget_exceeded state >>= λ s. ok (close (some "run.budget_exceeded") s)
conclude host succeeded (run, db) =
    if waits_for_call run db
    then (move waiting_approval (run, db) >>= λ s. ok (pause s))
    else settle_calls host (created_calls run db) (run, db) >>= λ s. ok (end_calls s)

-- `"failed" if agent is None else execute_workflow(...)`
unfoldable pub run_agent : (Code → String) → (String → String) → Host → ℕ → Run × Db → Executed
unfolding execute_workflow
run_agent code_text join host failures (run, db) =
    elim (find (λ (a : Agent). a.id == run.agent_id) db.registry.agents) [
      | none ↦ record { outcome = Execute.failed; run = run; db = db; failures = failures }
      | some a ↦ execute_workflow code_text join host a.definition run db failures
    ]

-- A run that was asked to stop while no worker had it.
abbrev pub stop_claimed : Run × Db → Run × Db
stop_claimed (run, db) = close none (
  record run {
    output_json =
        field "error" (text "STOP_REQUESTED") (field "completed_steps" (number (pos 0)) end);
  },
  db,
)

unfoldable pub process_claimed_run :
    (Code → String) → (String → String) → Host → ℕ → Run → Db → Result (Run × Db)
unfolding rewind run_agent conclude
process_claimed_run code_text join host failures run db =
    if status_eq run.status stopping
    then (move cancelled (run, db) >>= λ s. ok (stop_claimed s))
    else move preparing (rewind run db) >>= λ s. move running s >>= λ s'.
        let e = run_agent code_text join host failures s' in conclude host e.outcome (e.run, e.db)

abbrev pub claimable : List RunStatus
claimable = accepted ∷ preparing ∷ running ∷ stopping ∷ []

-- A run that is running goes first, and an older one before a newer one.
abbrev pub goes_first : Run → Run → Bool
goes_first r s =
    if status_eq r.status running
    then not (status_eq s.status running) || ltb r.created_at s.created_at
    else not (status_eq s.status running) && ltb r.created_at s.created_at

abbrev pub first_of : List Run → Option Run
first_of [] = none
first_of (r ∷ rest) = elim (first_of rest) [
  | none ↦ some r
  | some s ↦ if goes_first s r then some s else some r
]

abbrev pub is_claimable : Option ℕ → Run → Bool
is_claimable wanted r =
    status_in r.status claimable && elim wanted [ none ↦ true | some k ↦ r.id == k ]

-- The commit, or the database of the last one.
unfoldable pub settle_claim : Result (Run × Db) → Db → Reply ℕ
settle_claim (ok (run, db')) db = (ok 1, db')
settle_claim (err e) db = (err e, db)

unfoldable pub claim :
    (Code → String)
    → (String → String)
    → Host
    → (is_locked : ℕ → Bool) → ℕ
    → Option ℕ
    → Db
    → Reply ℕ
unfolding process_claimed_run settle_claim
claim code_text join host is_locked failures wanted db =
    elim (first_of (select (is_claimable wanted) db.runs)) [
      | none ↦ (ok 0, db)
      | some run ↦
          if is_locked run.id
          then (ok 0, db)
          else settle_claim (process_claimed_run code_text join host failures run db) db
    ]

-- `process_once`: the number of runs that it processed, and the database it leaves.
unfoldable pub process_once :
    (Code → String)
    → (String → String)
    → Host
    → (is_locked : ℕ → Bool) → ℕ
    → Option ℕ
    → Db
    → Reply ℕ
unfolding recover_stuck_runs recover_approval_waiting claim expire_pending_approvals
process_once code_text join host is_locked failures wanted db =
    let (_, db1) = recover_stuck_runs is_locked 600 db in
    let (_, db2) = recover_approval_waiting db1 in
    elim (expire_pending_approvals none db2) [
      | err e ↦ (err e, db2)
      | ok (_, db3) ↦ claim code_text join host is_locked failures wanted db3
    ]
