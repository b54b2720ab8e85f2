-- ===== src/Worker/Recovery.antt =====
-- What the worker recovers before it claims a run (app/worker.py): runs whose worker is gone, and
-- runs that wait for an approval that was decided. `is_locked` is whether Redis has the task lock of
-- a run; where there is no Redis, or it fails, no run is locked.
use general_agent_platform.Base.{
  ℕ, ◌+◌, Bool, true, false, not, ◌&&◌, Option, none, some, List, [], ◌∷◌, ◌==◌, ltb, if◌then◌else◌,
  select, length, update_where,
}
use general_agent_platform.Db.{
  Db, Run, accepted, running, waiting_approval, cancelled, Approval, ApprovalStatus, pending,
  approved, rejected, expired, WorkflowInstance, status_eq,
}

-- `Run.status == "running", Run.updated_at < cutoff`, less the locked runs
abbrev pub is_stuck : (ℕ → Bool) → ℕ → ℕ → Run → Bool
is_stuck is_locked stale_seconds now run =
    status_eq run.status running
    && ltb (run.updated_at + stale_seconds) now
    && not (is_locked run.id)

-- The write sets `updated_at` too (`onupdate`).
abbrev pub requeue : ℕ → Run → Run
requeue now run = record run { status = accepted; updated_at = now }

unfoldable pub recover_stuck_runs : (ℕ → Bool) → (stale_seconds : ℕ) → Db → ℕ × Db
recover_stuck_runs is_locked stale_seconds db =
    let stuck = is_stuck is_locked stale_seconds db.now in
    (
      length (select stuck db.runs),
      record db { runs = update_where stuck (requeue db.now) db.runs },
    )

-- `order_by(Approval.created_at.desc()).first()`, for the approvals of a run
abbrev pub latest : List Approval → Option Approval
latest [] = none
latest (a ∷ rest) = elim (latest rest) [
  | none ↦ some a
  | some b ↦ if ltb a.created_at b.created_at then some b else some a
]

abbrev pub latest_approval : Db → Run → Option Approval
latest_approval db run = latest (select (λ (a : Approval). a.run_id == run.id) db.approvals)

-- What is decided for a run, by its latest approval.
pub data Verdict : Type 0 where
  resume cancel wait : Verdict

abbrev pub verdict_of : ApprovalStatus → Verdict
verdict_of approved = resume
verdict_of rejected = cancel
verdict_of expired = cancel
verdict_of pending = wait

abbrev pub decided : Option Approval → Verdict
decided none = wait
decided (some a) = verdict_of a.status

abbrev pub apply_verdict : ℕ → Verdict → Run → Run
apply_verdict now resume run = record run { status = accepted; updated_at = now }
apply_verdict now cancel run = record run {
  status = cancelled;
  finished_at = some now;
  updated_at = now;
}
apply_verdict now wait run = run

abbrev pub is_wait : Verdict → Bool
is_wait wait = true
is_wait _ = false

-- `Run.status == "waiting_approval"`, with a verdict
abbrev pub is_decided : Db → Run → Bool
is_decided db run =
    status_eq run.status waiting_approval && not (is_wait (decided (latest_approval db run)))

unfoldable pub recover_approval_waiting : Db → ℕ × Db
recover_approval_waiting db = (
  length (select (is_decided db) db.runs),
  record db {
    runs =
        update_where (is_decided db)
          (λ (r : Run). apply_verdict db.now (decided (latest_approval db r)) r) db.runs;
  },
)

-- `sync_workflow_instance`: the instances take the status and the output of the run
unfoldable pub sync_workflow_instance : Run → Db → Db
sync_workflow_instance run db = record db {
  instances =
      update_where (λ (i : WorkflowInstance). i.run_id == run.id && i.tenant_id == run.tenant_id)
        (λ (i : WorkflowInstance). record i { status = run.status; output_json = run.output_json })
        db.instances;
}
