-- ===== src/Runs/Tenancy.antt =====
-- No endpoint that moves runs touches a run of another tenant.
use general_agent_platform.Base.{
  ℕ, ◌≡◌, refl, ◌∙◌, Bool, true, not, ◌&&◌, Option, none, some, List, arith, ◌==◌, select, find,
  find_holds, inl, inr, Option-cases, Result, ok, err,
}
use general_agent_platform.Principal.{Principal}
use general_agent_platform.Db.{
  Db, Run, RunStatus, accepted, stopping, run_replayed, run_restored, Checkpoint, EventType,
  get_run, write_run,
}
use general_agent_platform.Db.Rows.{UniqueKeys, UniqueKeys-update, find-update, update-unseen}
use general_agent_platform.Runs.{
  matches, move_run, transition_run, begin_new_attempt, record_runtime_event,
}
use general_agent_platform.Runs.Endpoints.{
  get_tenant_run_or_404, stopped_run, stop_loaded, replayed_run, replay_loaded, restored_run,
  restore_loaded, restored_from, Reply,
}
use general_agent_platform.Runs.Lifecycle.{run_key, matches-key, matches_self}

-- the runs of the other tenants
abbrev pub foreign : ℕ → Db → List Run
foreign tenant db = select (λ (r : Run). not (r.tenant_id == tenant)) db.runs

-- The object is the row of a run of the tenant.
abbrev pub IsOwn : ℕ → Run → Db → Type 0
IsOwn tenant run db =
    UniqueKeys run_key db.runs × (get_run run.id db ≡ some run) × ((run.tenant_id == tenant) ≡ true)

pub move_run-foreign :
    (tenant : ℕ) (run : Run) (next : RunStatus) (db : Db)
    → IsOwn tenant run db
    → foreign tenant (move_run run next db).1 ≡ foreign tenant db
unfolding move_run record_runtime_event
move_run-foreign tenant run next db (u, h, own) =
    update-unseen run_key run.id (matches run) (λ (r : Run). not (r.tenant_id == tenant))
      (λ (r : Run). record r { status = next; updated_at = db.now }) db.runs run (matches-key run) u
      h (ground arith) (ground arith)

transition_run-foreign :
    (tenant : ℕ) (run run' : Run) (b : Bool) (next : RunStatus) (db db' : Db)
    → IsOwn tenant run db
    → transition_run run next none db ≡ ok (b, run', db')
    → foreign tenant db' ≡ foreign tenant db
unfolding transition_run
transition_run-foreign tenant run run' b next db db' o e =
    ground (arith, move_run-foreign tenant run next db o)

begin_new_attempt-foreign :
    (tenant : ℕ) (run run' : Run) (version : Option ℕ) (event_type : EventType) (db db' : Db)
    → IsOwn tenant run db
    → begin_new_attempt run version event_type db ≡ ok (run', db')
    → foreign tenant db' ≡ foreign tenant db
unfolding begin_new_attempt record_runtime_event
begin_new_attempt-foreign tenant run run' version event_type db db' (u, h, own) e =
    let reopen : Run → Run = λ r. record r {
      status = accepted;
      attempt_id = db.next_id;
      checkpoint_version = elim version [ none ↦ run.checkpoint_version | some v ↦ v ];
      finished_at = none;
      updated_at = db.now;
    } in
    ground (
      arith,
      update-unseen run_key run.id (matches run) (λ (r : Run). not (r.tenant_id == tenant)) reopen
          db.runs run (matches-key run) u h (ground arith) (ground arith),
    )

-- The object's row is one of the tenant's.
abbrev IsReached : ℕ → Run → Db → Type 0
IsReached tenant run db =
    UniqueKeys run_key db.runs
    × ((row : Run) × (get_run run.id db ≡ some row) × ((row.tenant_id == tenant) ≡ true))

begin_new_attempt-IsReached :
    (tenant : ℕ) (run run' : Run) (version : Option ℕ) (event_type : EventType) (db db' : Db)
    → IsOwn tenant run db
    → begin_new_attempt run version event_type db ≡ ok (run', db')
    → IsReached tenant run' db'
unfolding begin_new_attempt record_runtime_event
begin_new_attempt-IsReached tenant run run' version event_type db db' (u, h, own) e =
    let reopen : Run → Run = λ r. record r {
      status = accepted;
      attempt_id = db.next_id;
      checkpoint_version = elim version [ none ↦ run.checkpoint_version | some v ↦ v ];
      finished_at = none;
      updated_at = db.now;
    } in
    let unique = UniqueKeys-update run_key (matches run) reopen db.runs (λ r. refl) u in
    let found = find-update run_key reopen (λ r. refl) run.id (matches run) db.runs in
    (ground (arith, unique), (reopen run, ground (arith, found, matches_self run), own))

-- A write to the row leaves the rows of the other tenants, if it keeps the key and the tenant.
write_run-foreign :
    (tenant : ℕ) (run : Run) (f : Run → Run) (db : Db)
    → ((r : Run) → ((f r).id ≡ r.id) × ((f r).tenant_id ≡ r.tenant_id))
    → IsReached tenant run db
    → foreign tenant (write_run run.id f db) ≡ foreign tenant db
write_run-foreign tenant run f db keeps (u, (row, found, own)) =
    update-unseen run_key run.id (λ (r : Run). r.id == run.id)
      (λ (r : Run). not (r.tenant_id == tenant)) (λ (r : Run). record (f r) { updated_at = db.now })
      db.runs row (λ b h. ground arith) u found (ground (arith, own))
      (ground (arith, own, keeps row))

get_tenant_run-IsOwn :
    (p : Principal) (run_id : ℕ) (run : Run) (db : Db)
    → UniqueKeys run_key db.runs
    → (get_tenant_run_or_404 p run_id db).0 ≡ ok run
    → IsOwn p.tenant_id run db × (run.id ≡ run_id)
unfolding get_tenant_run_or_404
get_tenant_run-IsOwn p run_id run db u e =
    ground (arith, find_holds (λ (r : Run). r.id == run_id) db.runs run)

get_tenant_run-foreign :
    (p : Principal) (run_id : ℕ) (db : Db) → ((get_tenant_run_or_404 p run_id db).1).runs ≡ db.runs
unfolding get_tenant_run_or_404
get_tenant_run-foreign p run_id db = ground arith

-- What an endpoint needs to know of the access check that it begins with.
abbrev pub Loaded : Principal → Reply Run → Db → Type 0
Loaded p reply db =
    ((run : Run) → reply.0 ≡ ok run → IsOwn p.tenant_id run reply.1) × (reply.1.runs ≡ db.runs)

pub get_tenant_run-Loaded :
    (p : Principal) (run_id : ℕ) (db : Db)
    → UniqueKeys run_key db.runs
    → Loaded p (get_tenant_run_or_404 p run_id db) db
get_tenant_run-Loaded p run_id db u =
    let same = get_tenant_run-foreign p run_id db in
    ((λ run e. rw same (get_tenant_run-IsOwn p run_id run db u e).0), same)

module _ (p : Principal) where
  stopped_run-foreign :
      (r : Result (Bool × Run × Db)) (db : Db)
      → ((b : Bool) (run' : Run) (db' : Db)
          → r ≡ ok (b, run', db')
          → foreign p.tenant_id db' ≡ foreign p.tenant_id db)
      → foreign p.tenant_id (stopped_run p r db).1 ≡ foreign p.tenant_id db
  unfolding stopped_run
  stopped_run-foreign (ok (b, run', db')) db f = f b run' db' refl
  stopped_run-foreign (err e) db f = refl

  pub stop_loaded-foreign :
      (reply : Reply Run) (db : Db)
      → Loaded p reply db
      → foreign p.tenant_id (stop_loaded p reply).1 ≡ foreign p.tenant_id db
  unfolding stop_loaded
  stop_loaded-foreign (err e, db1) db (o, same) = rw same
  stop_loaded-foreign (ok run, db1) db (o, same) =
      let kept = stopped_run-foreign (transition_run run stopping none db1) db1 (λ b run' db'.
        transition_run-foreign p.tenant_id run run' b stopping db1 db' (o run refl)) in
      ground (arith, same, kept)

  replayed_run-foreign :
      (r : Result (Run × Db)) (db : Db)
      → ((run' : Run) (db' : Db)
          → r ≡ ok (run', db')
          → foreign p.tenant_id db' ≡ foreign p.tenant_id db)
      → foreign p.tenant_id (replayed_run p r db).1 ≡ foreign p.tenant_id db
  unfolding replayed_run
  replayed_run-foreign (ok (run', db')) db f = f run' db' refl
  replayed_run-foreign (err e) db f = refl

  pub replay_loaded-foreign :
      (reply : Reply Run) (db : Db)
      → Loaded p reply db
      → foreign p.tenant_id (replay_loaded p reply).1 ≡ foreign p.tenant_id db
  unfolding replay_loaded
  replay_loaded-foreign (err e, db1) db (o, same) = rw same
  replay_loaded-foreign (ok run, db1) db (o, same) =
      let kept = replayed_run-foreign (begin_new_attempt run none run_replayed db1) db1 (λ run' db'.
        begin_new_attempt-foreign p.tenant_id run run' none run_replayed db1 db' (o run refl)) in
      ground (arith, same, kept)

  restored_run-foreign :
      (version : ℕ) (r : Result (Run × Db)) (db : Db)
      → ((run' : Run) (db' : Db)
          → r ≡ ok (run', db')
          → IsReached p.tenant_id run' db' × (foreign p.tenant_id db' ≡ foreign p.tenant_id db))
      → foreign p.tenant_id (restored_run p version r db).1 ≡ foreign p.tenant_id db
  unfolding restored_run
  restored_run-foreign version (ok (run', db')) db f =
      let (reached, kept) = f run' db' refl in
      write_run-foreign p.tenant_id run'
        (λ (r : Run). record r { output_json = restored_from version }) db' (λ r. (refl, refl))
        reached
      ∙ kept
  restored_run-foreign version (err e) db f = refl

  pub restore_loaded-foreign :
      (run_id version : ℕ) (reply : Reply Run) (db : Db)
      → Loaded p reply db
      → foreign p.tenant_id (restore_loaded p run_id version reply).1 ≡ foreign p.tenant_id db
  unfolding restore_loaded
  restore_loaded-foreign run_id version (err e, db1) db (o, same) = rw same
  restore_loaded-foreign run_id version (ok run, db1) db (o, same) =
      elim (Option-cases (
        find
          (λ (c : Checkpoint).
            c.run_id == run_id && c.tenant_id == p.tenant_id && c.version == version)
          db1.checkpoints)) [
            | inl absent ↦ ground (arith, same)
            | inr (c, found) ↦
                let kept =
                  restored_run-foreign c.version
                    (begin_new_attempt run (some c.version) run_restored db1) db1
                    (λ run' db' e. (
                      begin_new_attempt-IsReached p.tenant_id run run' (some c.version) run_restored
                          db1 db' (o run refl) e,
                      begin_new_attempt-foreign p.tenant_id run run' (some c.version) run_restored
                          db1 db' (o run refl) e,
                    )) in
                ground (arith, same, kept)
          ]
