-- ===== src/Worker/Ends.antt =====
-- The last move of a claimed run: what follows the outcome of its workflow in
-- `_process_claimed_run` (app/worker.py).
use general_agent_platform.Base.{
  ℕ, ◌≡◌, refl, ap, ◌∙◌, String, ◌==◌, arith, true, false, none, some, List, [], ◌∷◌, Result, ok,
  ◌>>=◌, Option-cases, inl, inr, Option, if_holds, tool_not_found,
}
use general_agent_platform.Db.{
  Db, Run, RunStatus, running, stopping, waiting_approval, completed, failed, cancelled,
  budget_exceeded, ToolCall, permanently_failed, ToolDefinition, get_definition, write_call,
  status_eq, status_in,
}
use general_agent_platform.Runs.{terminal, transitions}
use general_agent_platform.Tools.{retries_of, is_ok, is_readable_tools, execute_tool_call}
use general_agent_platform.Tools.Readable.{find-all, execute-returns, policies_of-readable}
use general_agent_platform.Worker.Recovery.{sync_workflow_instance}
use general_agent_platform.Worker.Steps.{Host}
use general_agent_platform.Worker.Execute.{
  Outcome, succeeded, waiting, stopped, escaped, is_escaped, over_budget, save_run, Executed,
  execute_workflow,
}
use general_agent_platform.Worker.Execute
use general_agent_platform.Worker.Claim.{
  move, close, settle_calls, conclude, pause, waits_for_call, created_calls, end_calls,
  status_action, is_succeeded,
}
use general_agent_platform.Worker.Kept.{execute_tool_call-keeps, readable_kept}
use general_agent_platform.Worker.Current.{
  IsCurrent, move-IsCurrent, save_run-IsCurrent, same_rows-IsCurrent,
}

-- The statuses in which the worker lets go of a run.
abbrev pub settled : List RunStatus
settled = waiting_approval ∷ terminal

-- The result is the run with this key, settled, and its row agrees with it.
abbrev pub EndsSettled : ℕ → Result (Run × Db) → Type 0
EndsSettled k result =
    (run : Run) × (db : Db) × (result ≡ ok (run, db))
    × IsCurrent run db
    × (run.id ≡ k)
    × (status_in run.status settled ≡ true)

-- A running run goes to each settled status that the table has.
settle_move :
    (next : RunStatus) (run : Run) (db : Db)
    → IsCurrent run db
    → run.status ≡ running
    → status_in next (transitions running) ≡ true
    → status_in next settled ≡ true
    → status_eq running next ≡ false
    → EndsSettled run.id (move next (run, db))
settle_move next run db current status allowed is_settled moves =
    let ((run', db'), done, current', status', same, tools) =
      move-IsCurrent run next db current (ap (λ t. status_in next (transitions t)) status ∙ allowed)
        (ap (λ t. status_eq t next) status ∙ moves) in
    (run', db', done, current', same, ap (λ t. status_in t settled) status' ∙ is_settled)

pub stopping_move :
    (run : Run) (db : Db)
    → IsCurrent run db
    → run.status ≡ stopping
    → EndsSettled run.id (move cancelled (run, db))
unfolding transitions
stopping_move run db current status =
    let ((run', db'), done, current', status', same, tools) =
      move-IsCurrent run cancelled db current (ap (λ t. status_in cancelled (transitions t)) status)
        (ap (λ t. status_eq t cancelled) status) in
    (run', db', done, current', same, ap (λ t. status_in t settled) status')

-- What follows the move, and keeps the identity, the status and the agreement with the row.
abbrev pub Follows : (Run × Db → Run × Db) → Type 0
Follows after =
    (run : Run) (db : Db)
    → IsCurrent run db
    → IsCurrent (after (run, db)).0 (after (run, db)).1
      × ((after (run, db)).0.id ≡ run.id)
      × ((after (run, db)).0.status ≡ run.status)

pub EndsSettled-bind :
    (k : ℕ) (result : Result (Run × Db)) (after : Run × Db → Run × Db)
    → EndsSettled k result
    → Follows after
    → EndsSettled k (result >>= λ s. ok (after s))
EndsSettled-bind k result after (run, db, done, current, same, is_settled) follows =
    let (current', id, status) = follows run db current in
    (
      (after (run, db)).0,
      (after (run, db)).1,
      ap (λ m. m >>= λ s. ok (after s)) done,
      current',
      id ∙ same,
      ap (λ t. status_in t settled) status ∙ is_settled,
    )

pause-Follows : Follows pause
unfolding sync_workflow_instance
pause-Follows run db current = (current, refl, refl)

pub close-Follows : (action : Option String) → Follows (close action)
unfolding sync_workflow_instance
close-Follows none run db current = (
  save_run-IsCurrent run (record run { finished_at = some db.now }) db current (refl, refl, refl),
  refl,
  refl,
)
close-Follows (some a) run db current = (
  save_run-IsCurrent run (record run { finished_at = some db.now }) db current (refl, refl, refl),
  refl,
  refl,
)

end_calls-Follows : Follows end_calls
unfolding sync_workflow_instance
end_calls-Follows run db current = close-Follows (some (status_action run.status)) run db current

-- The calls that the workflow left come to an end, and so does the run.
settle_calls-EndsSettled :
    (host : Host) (calls : List ToolCall) (run : Run) (db : Db)
    → IsCurrent run db
    → run.status ≡ running
    → is_readable_tools host.tools db ≡ true
    → EndsSettled run.id (settle_calls host calls (run, db))
unfolding settle_calls transitions
settle_calls-EndsSettled host [] run db current status readable =
    settle_move completed run db current status refl refl refl
settle_calls-EndsSettled host (call ∷ rest) run db current status readable =
    elim (Option-cases (get_definition call.tool_definition_id db)) [
      | inl absent ↦
          rw (absent, settle_calls)
            (settle_move failed run
              (write_call call.id
                (λ (c : ToolCall). record c {
                  status = permanently_failed;
                  error_code = some tool_not_found;
                })
                db)
              current status refl refl refl)
      | inr (d, found) ↦
          let db' = (execute_tool_call host.tools d call db).1 in
          let (rows, few, defs, snaps) = execute_tool_call-keeps host.tools d call db in
          let current' = same_rows-IsCurrent run run db db' current rows (refl, refl, refl, refl) in
          let known =
            find-all (λ (c : ToolDefinition). is_ok (retries_of host.tools c))
              (λ (c : ToolDefinition). c.id == call.tool_definition_id) db.definitions d
              (ground (arith, readable)) found in
          let (done, returned) =
            execute-returns host.tools d call db known
              (policies_of-readable host.tools call db readable) in
          let readable' = readable_kept host.tools db db' (defs, snaps) ∙ readable in
          rw (found, returned, settle_calls)
            (if_holds (λ m. EndsSettled run.id m) (is_succeeded done.status)
              (settle_calls host rest (run, db')) (move failed (run, db'))
              (settle_calls-EndsSettled host rest run db' current' status readable')
              (settle_move failed run db' current' status refl refl refl))
    ]

pub conclude-EndsSettled :
    (host : Host) (outcome : Outcome) (run : Run) (db : Db)
    → IsCurrent run db
    → run.status ≡ running
    → is_readable_tools host.tools db ≡ true
    → is_escaped outcome ≡ false
    → EndsSettled run.id (conclude host outcome (run, db))
unfolding conclude transitions
conclude-EndsSettled host waiting run db current status readable calm =
    EndsSettled-bind run.id (move waiting_approval (run, db)) pause
      (settle_move waiting_approval run db current status refl refl refl) pause-Follows
conclude-EndsSettled host Execute.failed run db current status readable calm =
    EndsSettled-bind run.id (move failed (run, db)) (close (some "run.failed"))
      (settle_move failed run db current status refl refl refl) (close-Follows (some "run.failed"))
conclude-EndsSettled host stopped run db current status readable calm =
    EndsSettled-bind run.id (move cancelled (run, db)) (close (some "run.stopped"))
      (settle_move cancelled run db current status refl refl refl)
      (close-Follows (some "run.stopped"))
conclude-EndsSettled host over_budget run db current status readable calm =
    EndsSettled-bind run.id (move budget_exceeded (run, db)) (close (some "run.budget_exceeded"))
      (settle_move budget_exceeded run db current status refl refl refl)
      (close-Follows (some "run.budget_exceeded"))
conclude-EndsSettled host succeeded run db current status readable calm =
    let calls = settle_calls host (created_calls run db) (run, db) in
    if_holds (λ m. EndsSettled run.id m) (waits_for_call run db)
      (move waiting_approval (run, db) >>= λ s. ok (pause s)) (calls >>= λ s. ok (end_calls s))
      (EndsSettled-bind run.id (move waiting_approval (run, db)) pause
        (settle_move waiting_approval run db current status refl refl refl) pause-Follows)
      (EndsSettled-bind run.id calls end_calls
        (settle_calls-EndsSettled host (created_calls run db) run db current status readable)
        end_calls-Follows)
conclude-EndsSettled host (escaped e) run db current status readable calm = ground arith
