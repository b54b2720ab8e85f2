-- ===== src/Runs/Instances.antt =====
-- Reading and cancelling a workflow instance (`get_workflow_instance` and
-- `cancel_workflow_instance`, app/main.py). The row of an instance is written by its key.
use general_agent_platform.Base.{
  ℕ, ◌≡◌, refl, ap, ◌∙◌, true, false, ◌&&◌, Option, none, some, [], ◌∷◌, arith, ◌==◌, if◌then◌else◌,
  find, update_where, find_holds, Bool-cases, inl, inr, Result, ok, err, not_found,
  invalid_state_transition,
}
use general_agent_platform.Principal.{Principal}
use general_agent_platform.Db.{
  Db, Run, cancelled, completed, failed, WorkflowInstance, status_eq, status_in, get_run,
  record_audit,
}
use general_agent_platform.Db.Rows.{UniqueKeys, find_of_find-and}
use general_agent_platform.Runs.{terminal, transition_run, move_run}
use general_agent_platform.Runs.Endpoints.{Reply, finish}
use general_agent_platform.Runs.Lifecycle.{
  run_key, cancel-allowed, get_run-finish, transition_run_moves, move_run_row,
}

abbrev pub instance_of : Principal → ℕ → Db → Option WorkflowInstance
instance_of p k db =
    find (λ (i : WorkflowInstance). i.id == k && i.tenant_id == p.tenant_id) db.instances

abbrev pub run_of_instance : Principal → WorkflowInstance → Db → Option Run
run_of_instance p item db =
    find (λ (r : Run). r.id == item.run_id && r.tenant_id == p.tenant_id) db.runs

abbrev pub write_instance : ℕ → (WorkflowInstance → WorkflowInstance) → Db → Db
write_instance k f db = record db {
  instances = update_where (λ (i : WorkflowInstance). i.id == k) f db.instances;
}

-- The instance takes the status and the output of its run, if its status is another one.
unfoldable pub get_workflow_instance : Principal → ℕ → Db → Reply WorkflowInstance
get_workflow_instance p k db = elim (instance_of p k db) [
  | none ↦ (err not_found, db)
  | some item ↦ elim (run_of_instance p item db) [
    | none ↦ (ok item, db)
    | some run ↦ if status_eq item.status run.status then (ok item, db) else (
      ok (record item { status = run.status; output_json = run.output_json }),
      write_instance item.id
          (λ (i : WorkflowInstance). record i {
            status = run.status;
            output_json = run.output_json;
          })
          db,
    )
  ]
]

-- A run that is not over is cancelled first.
unfoldable pub cancel_instance_run : Principal → Option Run → Db → Result Db
unfolding transition_run
cancel_instance_run p none db = ok db
cancel_instance_run p (some run) db =
    if status_in run.status terminal then ok db else elim (transition_run run cancelled none db) [
      | err e ↦ err e
      | ok (moved, run', db') ↦ ok (
          record_audit p.tenant_id (some p.user_id) "run.cancelled" run.id "success"
            (finish run' db').1)
    ]

unfoldable pub cancelled_instance :
    Principal → WorkflowInstance → Result Db → Db → Reply WorkflowInstance
cancelled_instance p item (err e) db = (err e, db)
cancelled_instance p item (ok db') db = (
  ok (record item { status = cancelled }),
  record_audit p.tenant_id (some p.user_id) "workflow_instance.cancelled" item.id "success"
      (write_instance item.id (λ (i : WorkflowInstance). record i { status = cancelled }) db'),
)

unfoldable pub cancel_workflow_instance : Principal → ℕ → Db → Reply WorkflowInstance
unfolding cancel_instance_run cancelled_instance
cancel_workflow_instance p k db = elim (instance_of p k db) [
  | none ↦ (err not_found, db)
  | some item ↦
      if status_in item.status (completed ∷ failed ∷ cancelled ∷ [])
      then (err invalid_state_transition, db)
      else cancelled_instance p item (cancel_instance_run p (run_of_instance p item db) db) db
]

-- The run of an instance is over after it is cancelled.
cancel_instance_run_ends :
    (p : Principal) (run : Run) (db : Db)
    → UniqueKeys run_key db.runs
    → get_run run.id db ≡ some run
    → (db' : Db) × (cancel_instance_run p (some run) db ≡ ok db')
      × ((row : Run) × (get_run run.id db' ≡ some row) × (status_in row.status terminal ≡ true))
unfolding cancel_instance_run move_run
cancel_instance_run_ends p run db u found = elim (Bool-cases (status_in run.status terminal)) [
  | inl over ↦ (db, rw (over, cancel_instance_run) refl, (run, found, over))
  | inr live ↦
      let (allowed, moves) = cancel-allowed run.status live in
      let (run', moved) = move_run run cancelled db in
      let done = transition_run_moves run cancelled db allowed moves u found in
      let row = record run { status = cancelled; updated_at = db.now } in
      (
        record_audit p.tenant_id (some p.user_id) "run.cancelled" run.id "success"
            (finish run' moved).1,
        rw (live, done, cancel_instance_run) refl,
        (
          record row { finished_at = some db.now; updated_at = db.now },
          get_run-finish run' row moved (move_run_row run cancelled db found),
          refl,
        ),
      )
]

-- Cancelling a workflow instance that is not over succeeds, if no two runs have the same key and the
-- tenant has the run of the instance: the response is the instance, cancelled, and the row of its
-- run is then in a terminal status.
pub cancel_workflow_instance_lem :
    (p : Principal) (item : WorkflowInstance) (run : Run) (db : Db)
    → UniqueKeys run_key db.runs
    → instance_of p item.id db ≡ some item
    → status_in item.status (completed ∷ failed ∷ cancelled ∷ []) ≡ false
    → run_of_instance p item db ≡ some run
    → let (reply, db') = cancel_workflow_instance p item.id db in
      (reply ≡ ok (record item { status = cancelled }))
      × ((row : Run) × (get_run run.id db' ≡ some row) × (status_in row.status terminal ≡ true))
unfolding cancel_workflow_instance cancelled_instance
cancel_workflow_instance_lem p item run db u found live owned =
    let own = λ (r : Run). r.tenant_id == p.tenant_id in
    let by_key = find_of_find-and run_key item.run_id own db.runs run u owned in
    let here : run.id ≡ item.run_id =
      ground (arith, find_holds (λ (r : Run). r.id == item.run_id) db.runs run by_key) in
    let found_run : get_run run.id db ≡ some run = ap (λ k. get_run k db) here ∙ by_key in
    let (db', done, ended) = cancel_instance_run_ends p run db u found_run in
    rw (found, live, owned, done, cancel_workflow_instance) (refl, ended)
