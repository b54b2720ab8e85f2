-- ===== src/Worker/Settled.antt =====
-- The end of a claimed run: `_process_claimed_run` (app/worker.py) always comes to one.
use general_agent_platform.Base.{
  ℕ, ◌≡◌, refl, sym, ap, ◌∙◌, subst, String, Bool, true, none, some, [], ◌∷◌, arith, ◌==◌, ==-refl,
  ◌&&◌, all, find, Result, ok, Code, ◌>>=◌, Bool-cases, inl, inr, select, Option,
}
use general_agent_platform.Worker.Definition.{is_readable}
use general_agent_platform.Worker.Ends.{
  EndsSettled, stopping_move, Follows, EndsSettled-bind, close-Follows, conclude-EndsSettled,
}
use general_agent_platform.Db.{
  Db, Run, accepted, preparing, running, stopping, cancelled, Checkpoint, Snapshot, status_eq,
  status_in, get_run, write_run,
}
use general_agent_platform.Db.Rows.{UniqueKeys, UniqueKeys-update, find-update}
use general_agent_platform.Runs.{transitions}
use general_agent_platform.Runs.Lifecycle.{run_key, matches_self}
use general_agent_platform.Runs.Transitions.{eq_of_status_eq}
use general_agent_platform.Agents.{Agent}
use general_agent_platform.Worker.Recovery.{sync_workflow_instance}
use general_agent_platform.Worker.Steps.{Host}
use general_agent_platform.Worker.Execute.{
  Outcome, succeeded, waiting, stopped, over_budget, save_run, Executed, execute_workflow,
}
use general_agent_platform.Worker.Execute
use general_agent_platform.Worker.Claim.{
  recovered, newest_checkpoint, move, rewind, conclude, run_agent, process_claimed_run,
  stop_claimed, claimable,
}
use general_agent_platform.Tools.{is_readable_tools}
use general_agent_platform.Worker.Kept.{SameTools, readable_kept}
use general_agent_platform.Worker.Current.{IsCurrent, move-IsCurrent}
use general_agent_platform.Worker.Executed.{execution-IsLeft}

run_agent-EndsSettled :
    (code_text : Code → String) (join : String → String) (host : Host) (failures : ℕ) (run : Run)
    (db : Db) (agent : Option Agent)
    → IsCurrent run db
    → run.status ≡ running
    → is_readable_tools host.tools db ≡ true
    → let e : Executed = elim agent [
      | none ↦ record { outcome = Execute.failed; run = run; db = db; failures = failures }
      | some a ↦ execute_workflow code_text join host a.definition run db failures
    ] in
      EndsSettled run.id (conclude host e.outcome (e.run, e.db))
run_agent-EndsSettled code_text join host failures run db none current status readable =
    conclude-EndsSettled host Execute.failed run db current status readable refl
run_agent-EndsSettled code_text join host failures run db (some a) current status readable =
    let e = execute_workflow code_text join host a.definition run db failures in
    let (current', id, status', few, tools, calm) =
      execution-IsLeft host run db current code_text join a.definition failures in
    subst (λ k. EndsSettled k (conclude host e.outcome (e.run, e.db))) id
      (conclude-EndsSettled host e.outcome e.run e.db current' (status' ∙ status)
        (readable_kept host.tools db e.db tools ∙ readable) (ground (arith, calm, readable)))

-- The write of `rewind` reaches the row that the object was read from.
rewound-IsCurrent :
    (run run' : Run) (db : Db)
    → UniqueKeys run_key db.runs
    → get_run run.id db ≡ some run
    → (run'.id ≡ run.id) × (run'.attempt_id ≡ run.attempt_id) × (run'.status ≡ accepted)
    → IsCurrent run' (
        write_run run.id
          (λ (r : Run). record r {
            status = accepted;
            checkpoint_version = run'.checkpoint_version;
            output_json = run'.output_json;
          })
          db)
rewound-IsCurrent run run' db u found (i, a, s) =
    let write = λ (r : Run). record r {
      status = accepted;
      checkpoint_version = run'.checkpoint_version;
      output_json = run'.output_json;
      updated_at = db.now;
    } in
    (
      UniqueKeys-update run_key (λ (r : Run). r.id == run.id) write db.runs (λ r. refl) u,
      (
        write run,
        ground (
          arith,
          i,
          find-update run_key write (λ r. refl) run.id (λ (r : Run). r.id == run.id) db.runs,
          found,
          ==-refl run.id,
        ),
        ground (
          arith,
          i,
          a,
          s,
          ==-refl run.id,
          ==-refl run.attempt_id,
          ==-refl run'.checkpoint_version,
        ),
      ),
    )

recovered_same :
    (o : Option Checkpoint) (run : Run)
    → let run' = record (recovered o run) { status = accepted } in
      (run'.id ≡ run.id) × (run'.attempt_id ≡ run.attempt_id) × (run'.status ≡ accepted)
recovered_same none run = (refl, refl, refl)
recovered_same (some c) run = (refl, refl, refl)

-- A run that the worker may go on with is `accepted` after the recovery of its checkpoint.
rewind-IsCurrent :
    (run : Run) (db : Db)
    → UniqueKeys run_key db.runs
    → get_run run.id db ≡ some run
    → status_in run.status (accepted ∷ preparing ∷ running ∷ []) ≡ true
    → let (run', db') = rewind run db in
      IsCurrent run' db' × (run'.id ≡ run.id) × (run'.status ≡ accepted)
unfolding rewind
rewind-IsCurrent run db u found claimed =
    let checkpoint = newest_checkpoint (
      select (λ (c : Checkpoint). c.run_id == run.id && c.tenant_id == run.tenant_id)
        db.checkpoints) in
    let run' = record (recovered checkpoint run) { status = accepted } in
    let same = recovered_same checkpoint run in
    elim (Bool-cases (status_in run.status (preparing ∷ running ∷ []))) [
      | inl left ↦ rw (left, rewind) (rewound-IsCurrent run run' db u found same, same.0, refl)
      | inr fresh ↦
          rw (fresh, rewind)
            (
              (u, (run, found, matches_self run)),
              refl,
              eq_of_status_eq run.status accepted (ground arith),
            )
    ]

rewind-tools : (run : Run) (db : Db) → SameTools db (rewind run db).1
unfolding rewind
rewind-tools run db = elim (Bool-cases (status_in run.status (preparing ∷ running ∷ []))) [
  | inl left ↦ rw (left, rewind) (refl, refl)
  | inr fresh ↦ rw (fresh, rewind) (refl, refl)
]

stop_claimed-Follows : Follows stop_claimed
unfolding sync_workflow_instance
stop_claimed-Follows run db current =
    close-Follows none (record run { output_json = (stop_claimed (run, db)).0.output_json }) db
      current

after_move :
    (k : ℕ) (result : Result (Run × Db)) (s : Run × Db) (next : Run × Db → Result (Run × Db))
    → result ≡ ok s
    → EndsSettled k (next s)
    → EndsSettled k (result >>= next)
after_move k result s next done h = subst (λ m. EndsSettled k (m >>= next)) (sym done) h

ends_for :
    (j k : ℕ) (result : Result (Run × Db)) → j ≡ k → EndsSettled j result → EndsSettled k result
ends_for j k result same h = subst (λ i. EndsSettled i result) same h

abbrev run_and_conclude :
    (Code → String) → (String → String) → Host → ℕ → Run × Db → Result (Run × Db)
run_and_conclude code_text join host failures s =
    let e = run_agent code_text join host failures s in conclude host e.outcome (e.run, e.db)

-- The two moves before the workflow, and the workflow.
rewound-EndsSettled :
    (code_text : Code → String) (join : String → String) (host : Host) (failures : ℕ) (run : Run)
    (db : Db)
    → IsCurrent run db
    → run.status ≡ accepted
    → is_readable_tools host.tools db ≡ true
    → EndsSettled run.id (
        move preparing (run, db) >>= λ s.
        move running s >>= λ s'. run_and_conclude code_text join host failures s')
unfolding transitions run_agent
rewound-EndsSettled code_text join host failures run db current status readable =
    let ((run1, db1), done1, current1, status1, id1, tools1) =
      move-IsCurrent run preparing db current (ap (λ t. status_in preparing (transitions t)) status)
        (ap (λ t. status_eq t preparing) status) in
    let ((run2, db2), done2, current2, status2, id2, tools2) =
      move-IsCurrent run1 running db1 current1 (ap (λ t. status_in running (transitions t)) status1)
        (ap (λ t. status_eq t running) status1) in
    let agent = find (λ (a : Agent). a.id == run2.agent_id) db2.registry.agents in
    after_move run.id (move preparing (run, db)) (run1, db1)
      (λ s. move running s >>= λ s'. run_and_conclude code_text join host failures s') done1
      (after_move run.id (move running (run1, db1)) (run2, db2)
        (run_and_conclude code_text join host failures) done2
        (ends_for run2.id run.id (run_and_conclude code_text join host failures (run2, db2))
          (id2 ∙ id1)
          (run_agent-EndsSettled code_text join host failures run2 db2 agent current2 status2 (
            readable_kept host.tools db1 db2 tools2
            ∙ readable_kept host.tools db db1 tools1
            ∙ readable))))

-- What the worker reads of the agents, of the snapshots and of the tools.
abbrev pub is_readable_db : Host → Db → Bool
is_readable_db host db =
    all (λ (a : Agent). is_readable host.str a.definition) db.registry.agents
    && all (λ (s : Snapshot). is_readable host.str s.definition_json) db.snapshots
    && is_readable_tools host.tools db

-- A run that the worker claims always comes to an end: if no two runs have the same key, the object
-- agrees with its row, the workflows of the agents and of the snapshots can be read (lists of nodes
-- whose fields have their types, with objects as inputs of the tools), and so can the manifests of
-- the tools (Python's `int` takes `maxAttempts`, and `retryableErrors` is iterable, of values that
-- have a hash) and the policies of the snapshots (dicts, whose `tool` has a hash and whose
-- `allowedRisks` is a container), then whatever the tools, the model provider and the regular
-- expression engine answer, the processing raises nothing, and the run and its row are in the same
-- status afterwards, which is terminal or `waiting_approval`.
pub process_claimed_run_settles :
    (code_text : Code → String) (join : String → String) (host : Host) (failures : ℕ) (run : Run)
    (db : Db)
    → UniqueKeys run_key db.runs
    → get_run run.id db ≡ some run
    → status_in run.status claimable ≡ true
    → is_readable_db host db ≡ true
    → EndsSettled run.id (process_claimed_run code_text join host failures run db)
unfolding process_claimed_run
process_claimed_run_settles code_text join host failures run db u found claimed readable =
    elim (Bool-cases (status_eq run.status stopping)) [
      | inl stops ↦
          let status = eq_of_status_eq run.status stopping stops in
          rw (stops, process_claimed_run)
            (EndsSettled-bind run.id (move cancelled (run, db)) stop_claimed
              (stopping_move run db (u, (run, found, matches_self run)) status)
              stop_claimed-Follows)
      | inr goes_on ↦
          let claimed' : status_in run.status (accepted ∷ preparing ∷ running ∷ []) ≡ true =
            ground arith in
          let (current, id, status) = rewind-IsCurrent run db u found claimed' in
          let (run', db') = rewind run db in
          rw (goes_on, process_claimed_run)
            (ends_for run'.id run.id
              (move preparing (run', db') >>= λ s.
                move running s >>= λ s'. run_and_conclude code_text join host failures s')
              id
              (rewound-EndsSettled code_text join host failures run' db' current status
                (readable_kept host.tools db db' (rewind-tools run db) ∙ ground (arith, readable))))
    ]
