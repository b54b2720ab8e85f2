-- ===== src/Runs/Lifecycle.antt =====
-- Cancelling a run through its endpoint.
use general_agent_platform.Base.{
  ℕ, ◌≡◌, refl, inl, inr, true, false, none, some, arith, ◌==◌, ==-refl, Bool-cases, ok, find_holds,
}
use general_agent_platform.Principal.{Principal}
use general_agent_platform.Db.{Db, Run, RunStatus, cancelled, status_eq, status_in, get_run}
use general_agent_platform.Db.Rows.{UniqueKeys, select_unique, find-update, find-and}
use general_agent_platform.Runs.{
  terminal, transitions, matches, rowcount, transition_run, record_runtime_event, move_run,
}
use general_agent_platform.Runs.Transitions.{status_eq_refl}
use general_agent_platform.Runs.Endpoints.{cancel_run, finish, audit_run}

abbrev pub run_key : Run → ℕ
run_key r = r.id

pub matches_self : (run : Run) → matches run run ≡ true
matches_self run = ground (
  arith,
  ==-refl run.id,
  status_eq_refl run.status,
  ==-refl run.attempt_id,
  ==-refl run.checkpoint_version,
)

pub matches-key : (run row : Run) → matches run row ≡ true → row.id ≡ run.id
matches-key run row h = ground arith

-- An object that equals its row is found by the compare-and-set update.
pub rowcount_of_found :
    (run : Run) (db : Db)
    → UniqueKeys run_key db.runs
    → get_run run.id db ≡ some run
    → rowcount run db ≡ 1
rowcount_of_found run db u h = rw (
    select_unique run_key run.id (matches run) db.runs run (matches-key run) u h (matches_self run))

-- The row of a run after `transition_run` has moved it.
pub get_run-transition_run :
    (run run' : Run) (next : RunStatus) (db db' : Db)
    → get_run run.id db ≡ some run
    → status_eq run.status next ≡ false
    → transition_run run next none db ≡ ok (true, run', db')
    → (get_run run.id db' ≡ some (record run { status = next; updated_at = db.now }))
      × (run'.id ≡ run.id)
unfolding transition_run record_runtime_event
get_run-transition_run run run' next db db' h d e = ground (
  arith,
  find-update run_key (λ (r : Run). record r { status = next; updated_at = db.now }) (λ r. refl)
      run.id (matches run) db.runs,
  matches_self run,
)

-- Every status that is not terminal may go to `cancelled`.
pub cancel-allowed :
    (s : RunStatus)
    → status_in s terminal ≡ false
    → (status_in cancelled (transitions s) ≡ true) × (status_eq s cancelled ≡ false)
unfolding transitions
cancel-allowed s h = ground arith

pub transition_run_moves :
    (run : Run) (next : RunStatus) (db : Db)
    → status_in next (transitions run.status) ≡ true
    → status_eq run.status next ≡ false
    → UniqueKeys run_key db.runs
    → get_run run.id db ≡ some run
    → let (run', db') = move_run run next db in
      transition_run run next none db ≡ ok (true, run', db')
unfolding transition_run
transition_run_moves run next db a d u h = ground (arith, rowcount_of_found run db u h)

-- The row of a run after it has been cancelled.
abbrev pub cancelled_row : Run → Db → Run
cancelled_row run db = record run {
  status = cancelled;
  finished_at = some db.now;
  updated_at = db.now;
}

pub get_run-finish :
    (run row : Run) (db : Db)
    → get_run run.id db ≡ some row
    → get_run run.id (finish run db).1
      ≡ some (record row { finished_at = some db.now; updated_at = db.now })
get_run-finish run row db h = ground (
  arith,
  find-update run_key (λ (r : Run). record r { finished_at = some db.now; updated_at = db.now })
      (λ r. refl) run.id (λ (r : Run). r.id == run.id) db.runs,
  find_holds (λ (r : Run). r.id == run.id) db.runs row h,
)

pub cancel_run-eq :
    (p : Principal) (run : Run) (db : Db)
    → UniqueKeys run_key db.runs
    → get_run run.id db ≡ some run
    → (run.tenant_id == p.tenant_id) ≡ true
    → status_in run.status terminal ≡ false
    → let (run', db') = move_run run cancelled db in
      cancel_run p run.id db ≡ audit_run p run.id (finish run' db')
unfolding cancel_run
cancel_run-eq p run db u h own t =
    let (allowed, moves) = cancel-allowed run.status t in
    ground (
      arith,
      find-and (λ (r : Run). r.id == run.id) (λ (r : Run). r.tenant_id == p.tenant_id) db.runs run h
          own,
      transition_run_moves run cancelled db allowed moves u h,
    )

pub move_run_row :
    (run : Run) (next : RunStatus) (db : Db)
    → get_run run.id db ≡ some run
    → get_run run.id (move_run run next db).1
      ≡ some (record run { status = next; updated_at = db.now })
unfolding move_run
move_run_row run next db h = ground (
  arith,
  find-update run_key (λ (r : Run). record r { status = next; updated_at = db.now }) (λ r. refl)
      run.id (matches run) db.runs,
  matches_self run,
)

cancelled_outcome :
    (p : Principal) (run : Run) (db : Db)
    → get_run run.id db ≡ some run
    → let (run', db') = move_run run cancelled db in
      let (reply, db'') = audit_run p run.id (finish run' db') in
      ((final : Run) × (reply ≡ ok final) × (final.status ≡ cancelled))
      × (get_run run.id db'' ≡ some (cancelled_row run db))
unfolding move_run
cancelled_outcome p run db h =
    let (run', db') = move_run run cancelled db in
    (
      (record run' { finished_at = some db.now; updated_at = db.now }, refl, refl),
      get_run-finish run' (record run { status = cancelled; updated_at = db.now }) db'
          (move_run_row run cancelled db h),
    )

pub cancel_run_ended :
    (p : Principal) (run : Run) (db : Db)
    → get_run run.id db ≡ some run
    → (run.tenant_id == p.tenant_id) ≡ true
    → status_in run.status terminal ≡ true
    → (cancel_run p run.id db).1 ≡ db
unfolding cancel_run
cancel_run_ended p run db h own t = ground (
  arith,
  find-and (λ (r : Run). r.id == run.id) (λ (r : Run). r.tenant_id == p.tenant_id) db.runs run h
      own,
)

-- Cancelling a run that is not in a terminal status, and whose row is the one that the request
-- reads, always succeeds: the response is a cancelled run, and its row is then in status
-- `cancelled`, with the time of the cancelling as the time of its end and of its last update, and
-- otherwise as it was.
pub cancel_run_lem :
    (p : Principal) (run : Run) (db : Db)
    → UniqueKeys run_key db.runs
    → get_run run.id db ≡ some run
    → (run.tenant_id == p.tenant_id) ≡ true
    → status_in run.status terminal ≡ false
    → let (reply, db') = cancel_run p run.id db in
      ((final : Run) × (reply ≡ ok final) × (final.status ≡ cancelled))
      × (get_run run.id db' ≡ some (cancelled_row run db))
unfolding cancel_run
cancel_run_lem p run db u h own t =
    rw (cancel_run-eq p run db u h own t) (cancelled_outcome p run db h)

-- Cancelling once more changes nothing: the second request leaves the database of the first.
pub cancel_run_twice :
    (p : Principal) (run : Run) (db : Db)
    → UniqueKeys run_key db.runs
    → get_run run.id db ≡ some run
    → (run.tenant_id == p.tenant_id) ≡ true
    → let db' = (cancel_run p run.id db).1 in (cancel_run p run.id db').1 ≡ db'
cancel_run_twice p run db u h own = elim (Bool-cases (status_in run.status terminal)) [
  | inl ended ↦ let once = cancel_run_ended p run db h own ended in rw once once
  | inr alive ↦
      cancel_run_ended p (cancelled_row run db) (cancel_run p run.id db).1
        (cancel_run_lem p run db u h own alive).1 own refl
]
