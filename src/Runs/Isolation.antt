-- ===== src/Runs/Isolation.antt =====
-- Tenant isolation of the endpoints that move runs.
use general_agent_platform.Base.{
  ℕ, ◌≡◌, refl, ◌∙◌, true, not, ◌&&◌, some, arith, ◌==◌, find, find_holds, Bool-cases, inl, inr,
  Option-cases, subst,
}
use general_agent_platform.Principal.{Principal}
use general_agent_platform.Db.{Db, Run, cancelled, status_in, get_run}
use general_agent_platform.Db.Rows.{UniqueKeys, update-unseen, UniqueKeys-update, find_of_find-and}
use general_agent_platform.Runs.{terminal, matches, move_run, record_runtime_event}
use general_agent_platform.Runs.Endpoints.{
  get_tenant_run_or_404, finish, cancel_run, stop_run, replay_run, restore_run,
}
use general_agent_platform.Runs.Lifecycle.{run_key, move_run_row, cancel_run-eq, cancel_run_ended}
use general_agent_platform.Runs.Tenancy.{
  foreign, IsOwn, move_run-foreign, get_tenant_run-Loaded, stop_loaded-foreign,
  replay_loaded-foreign, restore_loaded-foreign,
}

moved-keys :
    (run : Run) (db : Db)
    → UniqueKeys run_key db.runs
    → UniqueKeys run_key ((move_run run cancelled db).1).runs
unfolding move_run record_runtime_event
moved-keys run db u =
    UniqueKeys-update run_key (matches run)
      (λ (r : Run). record r { status = cancelled; updated_at = db.now }) db.runs (λ r. refl) u

finish-foreign :
    (tenant : ℕ) (run row : Run) (db : Db)
    → UniqueKeys run_key db.runs
    → get_run run.id db ≡ some row
    → (row.tenant_id == tenant) ≡ true
    → foreign tenant (finish run db).1 ≡ foreign tenant db
finish-foreign tenant run row db u h own =
    update-unseen run_key run.id (λ (r : Run). r.id == run.id)
      (λ (r : Run). not (r.tenant_id == tenant))
      (λ (r : Run). record r { finished_at = some db.now; updated_at = db.now }) db.runs row
      (λ b e. ground arith) u h (ground arith) (ground arith)

moved_id : (run : Run) (db : Db) → ((move_run run cancelled db).0).id ≡ run.id
unfolding move_run record_runtime_event
moved_id run db = refl

cancelled-foreign :
    (tenant : ℕ) (run : Run) (db : Db)
    → IsOwn tenant run db
    → let (run', db') = move_run run cancelled db in
      foreign tenant (finish run' db').1 ≡ foreign tenant db
cancelled-foreign tenant run db (u, h, own) =
    let (run', db') = move_run run cancelled db in
    finish-foreign tenant run' (record run { status = cancelled; updated_at = db.now }) db'
      (moved-keys run db u) (rw (moved_id run db) (move_run_row run cancelled db h)) own
    ∙ move_run-foreign tenant run cancelled db (u, h, own)

found-IsOwn :
    (p : Principal) (run_id : ℕ) (run : Run) (db : Db)
    → UniqueKeys run_key db.runs
    → find (λ (r : Run). r.id == run_id && r.tenant_id == p.tenant_id) db.runs ≡ some run
    → IsOwn p.tenant_id run db × (run.id ≡ run_id)
found-IsOwn p run_id run db u found = ground (
  arith,
  find_holds (λ (r : Run). r.id == run_id && r.tenant_id == p.tenant_id) db.runs run found,
  find_of_find-and run_key run_id (λ (r : Run). r.tenant_id == p.tenant_id) db.runs run u found,
)

cancel_own-foreign :
    (p : Principal) (run : Run) (db : Db)
    → IsOwn p.tenant_id run db
    → foreign p.tenant_id (cancel_run p run.id db).1 ≡ foreign p.tenant_id db
cancel_own-foreign p run db (u, h, own) = elim (Bool-cases (status_in run.status terminal)) [
  | inl ended ↦ rw (cancel_run_ended p run db h own ended)
  | inr alive ↦
      rw (cancel_run-eq p run db u h own alive) (cancelled-foreign p.tenant_id run db (u, h, own))
]

cancel_run-foreign :
    (p : Principal) (run_id : ℕ) (db : Db)
    → UniqueKeys run_key db.runs
    → foreign p.tenant_id (cancel_run p run_id db).1 ≡ foreign p.tenant_id db
unfolding cancel_run get_tenant_run_or_404
cancel_run-foreign p run_id db u =
    elim (Option-cases (find (λ (r : Run). r.id == run_id && r.tenant_id == p.tenant_id) db.runs)) [
      | inl absent ↦ ground arith
      | inr (run, found) ↦
          let (own, same) = found-IsOwn p run_id run db u found in
          subst (λ k. foreign p.tenant_id (cancel_run p k db).1 ≡ foreign p.tenant_id db) same
            (cancel_own-foreign p run db own)
    ]

-- Whatever a principal cancels, stops, replays or restores, and whether the request succeeds or is
-- refused, the runs of the other tenants are as they were, provided that no two runs have the same
-- primary key.
pub endpoints_isolated :
    (p : Principal) (run_id version : ℕ) (db : Db)
    → UniqueKeys run_key db.runs
    → (foreign p.tenant_id (cancel_run p run_id db).1 ≡ foreign p.tenant_id db)
      × (foreign p.tenant_id (stop_run p run_id db).1 ≡ foreign p.tenant_id db)
      × (foreign p.tenant_id (replay_run p run_id db).1 ≡ foreign p.tenant_id db)
      × (foreign p.tenant_id (restore_run p run_id version db).1 ≡ foreign p.tenant_id db)
unfolding stop_run replay_run restore_run
endpoints_isolated p run_id version db u =
    let loaded = get_tenant_run-Loaded p run_id db u in
    let reply = get_tenant_run_or_404 p run_id db in
    (
      cancel_run-foreign p run_id db u,
      stop_loaded-foreign p reply db loaded,
      replay_loaded-foreign p reply db loaded,
      restore_loaded-foreign p run_id version reply db loaded,
    )
