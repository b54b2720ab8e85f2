-- ===== src/Runs/Transitions.antt =====
-- What `transition_run` does, on its own and against another session.
use general_agent_platform.Base.{
  ℕ, ◌≡◌, refl, true, false, none, List, [], ◌∷◌, arith, select, length, update_where, ok, err,
  invalid_state_transition, version_conflict,
}
use general_agent_platform.Db.{Db, Run, RunStatus, accepted, status_eq, status_in}
use general_agent_platform.Runs.{
  terminal, transitions, matches, transition_run, record_runtime_event,
}

pub status_eq_refl : (s : RunStatus) → status_eq s s ≡ true
status_eq_refl accepted = refl
status_eq_refl _ = refl

pub eq_of_status_eq : (s t : RunStatus) → status_eq s t ≡ true → s ≡ t
eq_of_status_eq accepted t h = ground arith
eq_of_status_eq _ t h = ground arith

-- A run in a terminal status stays in it: every transition to another status is refused by the
-- error INVALID_STATE_TRANSITION, where the caller names no status that it expects.
pub terminal-transition_run :
    (run : Run) (next : RunStatus) (db : Db)
    → status_in run.status terminal ≡ true
    → status_eq run.status next ≡ false
    → transition_run run next none db ≡ err invalid_state_transition
unfolding transition_run transitions
terminal-transition_run run next db t d = ground arith

-- No row is left that the object of another session would still match.
rowcount_after :
    (run : Run) (next : RunStatus) (now : ℕ) (rows : List Run)
    → status_eq next run.status ≡ false
    → length (
        select (matches run) (
          update_where
            (matches run)
            (λ (r : Run). record r { status = next; updated_at = now })
            rows))
      ≡ 0
rowcount_after run next now [] d = refl
rowcount_after run next now (row ∷ rows) d = ground (arith, rowcount_after run next now rows d)

-- Two sessions hold the same run. Once one of them has moved it to another status, a transition of
-- the other raises VERSION_CONFLICT, whatever status it asks for that the table allows.
pub transition_run_lost_race :
    (run mine : Run) (a b : RunStatus) (db db' : Db)
    → transition_run run a none db ≡ ok (true, mine, db')
    → status_eq a run.status ≡ false
    → status_in b (transitions run.status) ≡ true
    → status_eq run.status b ≡ false
    → transition_run run b none db' ≡ err version_conflict
unfolding transition_run record_runtime_event
transition_run_lost_race run mine a b db db' won moved allowed other =
    ground (arith, rowcount_after run a db.now db.runs)
