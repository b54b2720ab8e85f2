-- ===== src/Worker/Current.antt =====
-- An object whose row is as it was read: what the transitions and the writes of a worker
-- (app/worker.py, app/runtime.py) make of it.
use general_agent_platform.Base.{
  ℕ, ◌≡◌, refl, sym, subst, true, false, some, arith, ◌==◌, ==-refl, ok, find_holds,
}
use general_agent_platform.Db.{Db, Run, RunStatus, status_eq, status_in, get_run}
use general_agent_platform.Db.Rows.{UniqueKeys, UniqueKeys-update, select_unique, find-update}
use general_agent_platform.Runs.{
  matches, rowcount, transitions, transition_run, move_run, record_runtime_event,
}
use general_agent_platform.Runs.Lifecycle.{run_key, matches-key}
use general_agent_platform.Runs.Transitions.{status_eq_refl}
use general_agent_platform.Worker.Kept.{SameRow, SameTools}
use general_agent_platform.Worker.Execute.{save_run}
use general_agent_platform.Worker.Claim.{move}

-- No two runs have the same key, and the object's row has its status, attempt and checkpoint.
abbrev pub IsCurrent : Run → Db → Type 0
IsCurrent run db =
    UniqueKeys run_key db.runs
    × ((row : Run) × (get_run run.id db ≡ some row) × (matches run row ≡ true))

matches_moved :
    (run row : Run) (next : RunStatus) (now : ℕ)
    → matches run row ≡ true
    → matches (record run { status = next }) (record row { status = next; updated_at = now }) ≡ true
matches_moved run row next now h = ground (arith, status_eq_refl next)

-- A transition that the table has goes through.
pub move-IsCurrent :
    (run : Run) (next : RunStatus) (db : Db)
    → IsCurrent run db
    → status_in next (transitions run.status) ≡ true
    → status_eq run.status next ≡ false
    → (s : Run × Db) × (move next (run, db) ≡ ok s)
      × IsCurrent s.0 s.1
      × (s.0.status ≡ next)
      × (s.0.id ≡ run.id)
      × SameTools db s.1
unfolding transition_run move_run record_runtime_event
move-IsCurrent run next db (u, (row, found, same)) allowed moves =
    let write = λ (r : Run). record r { status = next; updated_at = db.now } in
    let one : rowcount run db ≡ 1 =
      rw (select_unique run_key run.id (matches run) db.runs row (matches-key run) u found same) in
    (
      move_run run next db,
      ground (arith, one),
      (
        UniqueKeys-update run_key (matches run) write db.runs (λ r. refl) u,
        (
          record row { status = next; updated_at = db.now },
          ground (
            arith,
            find-update run_key write (λ r. refl) run.id (matches run) db.runs,
            found,
            same,
          ),
          matches_moved run row next db.now same,
        ),
      ),
      refl,
      refl,
      (refl, refl),
    )

matches_saved :
    (run run' row : Run) (now : ℕ)
    → (run'.id ≡ run.id) × (run'.status ≡ run.status) × (run'.attempt_id ≡ run.attempt_id)
    → matches run row ≡ true
    → matches run' (record row {
      checkpoint_version = run'.checkpoint_version;
      output_json = run'.output_json;
      usage = run'.usage;
      cost = run'.cost;
      finished_at = run'.finished_at;
      updated_at = now;
    })
      ≡ true
matches_saved run run' row now (i, s, a) h = ground (arith, ==-refl run'.checkpoint_version)

-- The flush of the columns that the worker assigns.
pub save_run-IsCurrent :
    (run run' : Run) (db : Db)
    → IsCurrent run db
    → (run'.id ≡ run.id) × (run'.status ≡ run.status) × (run'.attempt_id ≡ run.attempt_id)
    → IsCurrent run' (save_run run' db)
save_run-IsCurrent run run' db (u, (row, found, same)) (i, s, a) =
    let write = λ (r : Run). record r {
      checkpoint_version = run'.checkpoint_version;
      output_json = run'.output_json;
      usage = run'.usage;
      cost = run'.cost;
      finished_at = run'.finished_at;
      updated_at = db.now;
    } in
    let found' : get_run run'.id db ≡ some row = ground (arith, i, found) in
    (
      UniqueKeys-update run_key (λ (r : Run). r.id == run'.id) write db.runs (λ r. refl) u,
      (
        write row,
        ground (
          arith,
          find-update run_key write (λ r. refl) run'.id (λ (r : Run). r.id == run'.id) db.runs,
          find_holds (λ (r : Run). r.id == run'.id) db.runs row,
          found',
        ),
        matches_saved run run' row db.now (i, s, a) same,
      ),
    )

-- What keeps the rows and the columns that are compared keeps the object current.
pub same_rows-IsCurrent :
    (run run' : Run) (db db' : Db)
    → IsCurrent run db
    → db'.runs ≡ db.runs
    → SameRow run db run'
    → IsCurrent run' db'
same_rows-IsCurrent run run' db db' (u, (row, found, same)) rows (i, s, a, c) = (
  subst (λ rs. UniqueKeys run_key rs) (sym rows) u,
  (row, ground (arith, rows, i, found), ground (arith, i, s, a, c, same)),
)
