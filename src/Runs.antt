-- ===== src/Runs.antt =====
-- The life of a run (app/runtime.py, app/events.py): the transition table, `transition_run` and
-- `begin_new_attempt`. `run` is the object in memory; its row may have been changed since by
-- another session, which the compare-and-set update is there to notice. A raise leaves the
-- database as it was, so an error carries none.
pub mod Endpoints
pub mod Transitions
pub mod Sequence
pub mod Lifecycle
pub mod Tenancy
pub mod Isolation
pub mod Instances
mod Tests
use general_agent_platform.Base.{
  ℕ, suc, ◌+◌, Bool, true, false, not, ◌&&◌, ◌||◌, Option, none, some, List, [], ◌∷◌, ◌++◌, ◌==◌,
  ltb, if◌then◌else◌, select, length, update_where, Result, ok, err, invalid_state_transition,
  version_conflict, run_not_replayable,
}
use general_agent_platform.Db.{
  Db, Run, RunStatus, accepted, preparing, running, stopping, waiting_approval, completed, failed,
  cancelled, timed_out, budget_exceeded, RuntimeEvent, EventType, run_is, status_eq, status_in,
  write_run,
}

-- RUN_TERMINAL
abbrev pub terminal : List RunStatus
terminal = completed ∷ failed ∷ cancelled ∷ timed_out ∷ budget_exceeded ∷ []

-- `RUN_TRANSITIONS.get(status, set())`
unfoldable pub transitions : RunStatus → List RunStatus
transitions accepted = preparing ∷ cancelled ∷ stopping ∷ []
transitions preparing = running ∷ failed ∷ cancelled ∷ stopping ∷ []
transitions running =
    waiting_approval ∷ completed ∷ failed ∷ cancelled ∷ stopping ∷ timed_out ∷ budget_exceeded ∷ []
transitions stopping = cancelled ∷ []
transitions waiting_approval = running ∷ failed ∷ cancelled ∷ stopping ∷ timed_out ∷ []
transitions _ = []

-- `func.max(RuntimeEvent.sequence)` over the events of an attempt, with 0 where there is none
unfoldable pub last_sequence : ℕ → ℕ → List RuntimeEvent → ℕ
last_sequence run_id attempt [] = 0
last_sequence run_id attempt (e ∷ rest) =
    let later = last_sequence run_id attempt rest in
    if e.run_id == run_id && e.attempt_id == attempt && ltb later e.sequence
    then e.sequence
    else later

-- `int(current or 0) + 1`
unfoldable pub next_sequence : Run → Db → ℕ
next_sequence run db = elim run.event_sequence [
  | none ↦ last_sequence run.id run.attempt_id db.events + 1
  | some n ↦ n + 1
]

unfoldable pub record_runtime_event : Run → EventType → Db → Run × Db
record_runtime_event run event_type db =
    let n = next_sequence run db in
    (
      record run { event_sequence = some n },
      record db {
        events =
            db.events
            ++ record {
              run_id = run.id;
              attempt_id = run.attempt_id;
              sequence = n;
              event_type = event_type;
            }
              ∷ [];
      },
    )

-- The `where` of the compare-and-set updates.
abbrev pub matches : Run → Run → Bool
matches run row =
    row.id == run.id
    && status_eq row.status run.status
    && row.attempt_id == run.attempt_id
    && row.checkpoint_version == run.checkpoint_version

-- `result.rowcount`
abbrev pub rowcount : Run → Db → ℕ
rowcount run db = length (select (matches run) db.runs)

abbrev pub is_expected : Option RunStatus → RunStatus → Bool
is_expected none current = true
is_expected (some s) current = status_eq current s

-- The update and the event of a transition that goes through.
unfoldable pub move_run : Run → RunStatus → Db → Run × Db
unfolding record_runtime_event
move_run run next db =
    record_runtime_event (record run { status = next }) (run_is next)
      (record db {
        runs =
            update_where (matches run)
              (λ (r : Run). record r { status = next; updated_at = db.now }) db.runs;
      })

-- The result is `False`, or `True` with the object and the database after.
unfoldable pub transition_run : Run → RunStatus → Option RunStatus → Db → Result (Bool × Run × Db)
unfolding move_run
transition_run run next expected db =
    if not (is_expected expected run.status)
    then ok (false, run, db)
    else if status_eq run.status next
    then ok (true, run, db)
    else if not (status_in next (transitions run.status))
    then err invalid_state_transition
    else if not (rowcount run db == 1)
    then err version_conflict
    else let (run', db') = move_run run next db in ok (true, run', db')

-- Reopens a run under a fresh attempt. `version` is the checkpoint to go back to.
unfoldable pub begin_new_attempt : Run → Option ℕ → EventType → Db → Result (Run × Db)
begin_new_attempt run version event_type db =
    if not (status_in run.status terminal || status_eq run.status waiting_approval)
    then err run_not_replayable
    else if not (rowcount run db == 1)
    then err version_conflict
    else (let target : ℕ = elim version [ none ↦ run.checkpoint_version | some v ↦ v ] in
        let reopen = λ (r : Run). record r {
          status = accepted;
          attempt_id = db.next_id;
          checkpoint_version = target;
          finished_at = none;
          updated_at = db.now;
        } in
        let written = record db {
          runs = update_where (matches run) reopen db.runs;
          next_id = suc db.next_id;
        } in
        ok (record_runtime_event (reopen run) event_type written))
