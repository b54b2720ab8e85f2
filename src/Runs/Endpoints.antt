-- ===== src/Runs/Endpoints.antt =====
-- The endpoints of app/main.py that move a run: cancel, stop, replay and restore.
-- An endpoint maps the committed database to its response, or to the code
-- of its error, and to the database committed: an exception before the commit leaves the old one.
-- The Redis notice that `replay_run` sends after its commit is left out.
use general_agent_platform.Base.{
  ℕ, Bool, true, not, ◌&&◌, none, some, List, [], ◌∷◌, ◌==◌, if◌then◌else◌, find, Result, ok, err,
  not_found, run_not_stoppable, run_not_replayable, run_not_restorable,
}
use general_agent_platform.Base.Int.{pos}
use general_agent_platform.Json.{Fields, field, end, number}
use general_agent_platform.Principal.{Principal}
use general_agent_platform.Db.{
  Db, Run, RunStatus, stopping, waiting_approval, failed, cancelled, timed_out, budget_exceeded,
  run_replayed, run_restored, Checkpoint, status_eq, status_in, get_run, write_run, record_audit,
}
use general_agent_platform.Runs.{terminal, transition_run, begin_new_attempt}

abbrev pub Reply : Type 0 → Type 0
Reply A = Result A × Db

-- `_get_tenant_run_or_404`: a refused access is audited, and the audit is committed.
unfoldable pub get_tenant_run_or_404 : Principal → ℕ → Db → Reply Run
get_tenant_run_or_404 p run_id db = elim (get_run run_id db) [
  | none ↦ (
    err not_found,
    record_audit p.tenant_id (some p.user_id) "permission.denied" run_id "denied" db,
  )
  | some run ↦
      if not (run.tenant_id == p.tenant_id)
      then (
        err not_found,
        record_audit p.tenant_id (some p.user_id) "permission.denied" run_id "denied" db,
      )
      else (ok run, db)
]

-- the object and its row, finished
abbrev pub finish : Run → Db → Run × Db
finish run db = (
  record run { finished_at = some db.now; updated_at = db.now },
  write_run run.id (λ (r : Run). record r { finished_at = some db.now }) db,
)

abbrev pub audit_run : Principal → ℕ → Run × Db → Reply Run
audit_run p run_id (run, db) =
    (ok run, record_audit p.tenant_id (some p.user_id) "run.cancelled" run_id "success" db)

unfoldable pub cancelled_run : Principal → ℕ → Result (Bool × Run × Db) → Db → Reply Run
cancelled_run p run_id (ok (_, run, db')) db = audit_run p run_id (finish run db')
cancelled_run p run_id (err e) db = (err e, db)

unfoldable pub cancel_run : Principal → ℕ → Db → Reply Run
unfolding cancelled_run get_tenant_run_or_404
cancel_run p run_id db =
    elim (find (λ (r : Run). r.id == run_id && r.tenant_id == p.tenant_id) db.runs) [
      | none ↦ (err not_found, (get_tenant_run_or_404 p run_id db).1)
      | some run ↦
          if status_in run.status terminal
          then (ok run, db)
          else cancelled_run p run_id (transition_run run cancelled none db) db
    ]

unfoldable pub stopped_run : Principal → Result (Bool × Run × Db) → Db → Reply Run
stopped_run p (ok (_, run, db')) db =
    (ok run, record_audit p.tenant_id (some p.user_id) "run.stop_requested" run.id "success" db')
stopped_run p (err e) db = (err e, db)

unfoldable pub stop_loaded : Principal → Reply Run → Reply Run
unfolding stopped_run
stop_loaded p (err e, db) = (err e, db)
stop_loaded p (ok run, db) =
    if status_in run.status terminal
    then (err run_not_stoppable, db)
    else if status_eq run.status stopping
    then stopped_run p (ok (true, run, db)) db
    else stopped_run p (transition_run run stopping none db) db

unfoldable pub stop_run : Principal → ℕ → Db → Reply Run
unfolding stop_loaded
stop_run p run_id db = stop_loaded p (get_tenant_run_or_404 p run_id db)

unfoldable pub replayed_run : Principal → Result (Run × Db) → Db → Reply Run
replayed_run p (ok (run, db')) db =
    (ok run, record_audit p.tenant_id (some p.user_id) "run.replayed" run.id "success" db')
replayed_run p (err e) db = (err e, db)

-- The statuses that `replay_run` takes.
abbrev pub replayable : List RunStatus
replayable = failed ∷ cancelled ∷ timed_out ∷ budget_exceeded ∷ []

unfoldable pub replay_loaded : Principal → Reply Run → Reply Run
unfolding replayed_run
replay_loaded p (err e, db) = (err e, db)
replay_loaded p (ok run, db) =
    if not (status_in run.status replayable)
    then (err run_not_replayable, db)
    else replayed_run p (begin_new_attempt run none run_replayed db) db

unfoldable pub replay_run : Principal → ℕ → Db → Reply Run
unfolding replay_loaded
replay_run p run_id db = replay_loaded p (get_tenant_run_or_404 p run_id db)

-- the new output of the run
abbrev pub restored_from : ℕ → Fields
restored_from version = field "restored_from" (number (pos version)) end

unfoldable pub restored_run : Principal → ℕ → Result (Run × Db) → Db → Reply Run
restored_run p version (ok (run, db')) db =
    let output = restored_from version in
    (
      ok (record run { output_json = output; updated_at = db'.now }),
      record_audit p.tenant_id (some p.user_id) "run.restored" run.id "success"
          (write_run run.id (λ (r : Run). record r { output_json = output }) db'),
    )
restored_run p version (err e) db = (err e, db)

abbrev pub restorable : List RunStatus
restorable = failed ∷ cancelled ∷ waiting_approval ∷ []

unfoldable pub restore_loaded : Principal → ℕ → ℕ → Reply Run → Reply Run
unfolding restored_run
restore_loaded p run_id version (err e, db) = (err e, db)
restore_loaded p run_id version (ok run, db) =
    elim (find
      (λ (c : Checkpoint). c.run_id == run_id && c.tenant_id == p.tenant_id && c.version == version)
      db.checkpoints) [
        | none ↦ (err not_found, db)
        | some checkpoint ↦
            if not (status_in run.status restorable)
            then (err run_not_restorable, db)
            else restored_run p checkpoint.version
                (begin_new_attempt run (some checkpoint.version) run_restored db) db
      ]

unfoldable pub restore_run : Principal → ℕ → ℕ → Db → Reply Run
unfolding restore_loaded
restore_run p run_id version db =
    restore_loaded p run_id version (get_tenant_run_or_404 p run_id db)
