-- ===== src/Runs/Tests.antt =====
-- The theorems about runs, at the sample database.
use general_agent_platform.Base.{
  ◌≡◌, refl, true, none, some, ok, err, invalid_state_transition, version_conflict,
}
use general_agent_platform.Db.{
  Db, Run, WorkflowInstance, waiting_approval, running, completed, failed, cancelled, run_is,
  get_run, status_in,
}
use general_agent_platform.Json.{end}
use general_agent_platform.Db.Rows.{UniqueKeys}
use general_agent_platform.Runs.{
  terminal, transition_run, move_run, record_runtime_event, transitions,
}
use general_agent_platform.Runs.Endpoints.{cancel_run, stop_run, replay_run, restore_run}
use general_agent_platform.Runs.Transitions.{terminal-transition_run, transition_run_lost_race}
use general_agent_platform.Runs.Sequence.{
  IsCurrent, UniqueSequences, record_runtime_event-UniqueSequences,
}
use general_agent_platform.Runs.Lifecycle.{
  run_key, cancelled_row, cancel_run_lem, cancel_run_twice, transition_run_moves,
}
use general_agent_platform.Runs.Tenancy.{foreign}
use general_agent_platform.Runs.Isolation.{endpoints_isolated}
use general_agent_platform.Runs.Instances.{cancel_workflow_instance, cancel_workflow_instance_lem}
use general_agent_platform.Samples.{operator, waiting_run, running_run, ended_run, sample_db}

unique_runs : UniqueKeys run_key sample_db.runs
unique_runs = (refl, (refl, (refl, (refl, tt))))

terminal-transition_run_example :
    transition_run ended_run running none sample_db ≡ err invalid_state_transition
terminal-transition_run_example = terminal-transition_run ended_run running sample_db refl refl

abbrev moved : Run × Db
moved = move_run running_run completed sample_db

completes : transition_run running_run completed none sample_db ≡ ok (true, moved.0, moved.1)
unfolding transitions
completes = transition_run_moves running_run completed sample_db refl refl unique_runs refl

fails_is_allowed : status_in failed (transitions running) ≡ true
unfolding transitions
fails_is_allowed = refl

transition_run_lost_race_example :
    transition_run running_run failed none moved.1 ≡ err version_conflict
transition_run_lost_race_example =
    transition_run_lost_race running_run moved.0 completed failed sample_db moved.1 completes refl
      fails_is_allowed refl

record_runtime_event-UniqueSequences_example :
    let (run', db') = record_runtime_event running_run (run_is running) sample_db in
    UniqueSequences db'.events × IsCurrent run' db'
record_runtime_event-UniqueSequences_example =
    record_runtime_event-UniqueSequences running_run (run_is running) sample_db tt tt

cancel_run_lem_example :
    let (reply, db') = cancel_run operator 10 sample_db in
    ((final : Run) × (reply ≡ ok final) × (final.status ≡ cancelled))
    × (get_run 10 db' ≡ some (cancelled_row running_run sample_db))
cancel_run_lem_example = cancel_run_lem operator running_run sample_db unique_runs refl refl refl

cancel_run_twice_example :
    let db' = (cancel_run operator 10 sample_db).1 in (cancel_run operator 10 db').1 ≡ db'
cancel_run_twice_example = cancel_run_twice operator running_run sample_db unique_runs refl refl

endpoints_isolated_example :
    (foreign 1 (cancel_run operator 10 sample_db).1 ≡ foreign 1 sample_db)
    × (foreign 1 (stop_run operator 10 sample_db).1 ≡ foreign 1 sample_db)
    × (foreign 1 (replay_run operator 10 sample_db).1 ≡ foreign 1 sample_db)
    × (foreign 1 (restore_run operator 10 2 sample_db).1 ≡ foreign 1 sample_db)
endpoints_isolated_example = endpoints_isolated operator 10 2 sample_db unique_runs

abbrev waiting_instance : WorkflowInstance
waiting_instance = record {
  id = 80;
  run_id = 11;
  tenant_id = 1;
  status = waiting_approval;
  output_json = end;
}

cancel_workflow_instance_lem_example :
    let (reply, db') = cancel_workflow_instance operator 80 sample_db in
    (reply ≡ ok (record waiting_instance { status = cancelled }))
    × ((row : Run) × (get_run 11 db' ≡ some row) × (status_in row.status terminal ≡ true))
cancel_workflow_instance_lem_example =
    cancel_workflow_instance_lem operator waiting_instance waiting_run sample_db unique_runs refl
      refl refl
