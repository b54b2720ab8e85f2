-- ===== src/Approvals/Sweep.antt =====
-- The sweep of the approvals that are past their time.
use general_agent_platform.Base.{
  ℕ, ◌≡◌, refl, sym, ap, subst, ◌∙◌, Bool, true, false, not, ◌||◌, Option, none, some, List, [],
  ◌∷◌, arith, ◌==◌, ==-refl, select, length, update_where, find_holds, any, all, Bool-cases, inl,
  inr, Option-cases, ok, ◌>>=◌,
}
use general_agent_platform.Db.{
  Db, Run, RunStatus, status_in, waiting_approval, failed, Approval, status_eq, get_run,
  write_approval,
}
use general_agent_platform.Db.Rows.{UniqueKeys, UniqueKeys-update}
use general_agent_platform.Runs.{
  matches, move_run, record_runtime_event, transition_run, transitions,
}
use general_agent_platform.Runs.Endpoints.{finish}
use general_agent_platform.Runs.Lifecycle.{run_key, transition_run_moves}
use general_agent_platform.Approvals.{
  is_due, expire, expire_call, expire_run, expire_one, expire_all, expire_pending_approvals,
}

-- What a step of the sweep keeps, and the approvals that it leaves.
abbrev IsStep : List Approval → Db → Db → Type 0
IsStep approvals db db' =
    (db'.approvals ≡ approvals) × (db'.now ≡ db.now) × UniqueKeys run_key db'.runs

expire_call-keeps :
    (a : Approval) (db : Db)
    → let db' = expire_call a db in
      (db'.approvals ≡ db.approvals) × (db'.now ≡ db.now) × (db'.runs ≡ db.runs)
unfolding expire_call
expire_call-keeps a db = ground arith

may_fail :
    (s : RunStatus)
    → status_eq s waiting_approval ≡ true
    → (status_in failed (transitions s) ≡ true) × (status_eq s failed ≡ false)
unfolding transitions
may_fail s h = ground arith

failed_run-IsStep :
    (run : Run) (db : Db)
    → UniqueKeys run_key db.runs
    → let (run', db') = move_run run failed db in IsStep db.approvals db (finish run' db').1
unfolding move_run record_runtime_event
failed_run-IsStep run db u = (
  refl,
  refl,
  UniqueKeys-update run_key (λ (r : Run). r.id == run.id)
      (λ (r : Run). record r { finished_at = some db.now; updated_at = db.now })
      (update_where (matches run) (λ (r : Run). record r { status = failed; updated_at = db.now })
        db.runs)
      (λ r. refl)
      (UniqueKeys-update run_key (matches run)
        (λ (r : Run). record r { status = failed; updated_at = db.now }) db.runs (λ r. refl) u),
)

found_run-moves :
    (k : ℕ) (run : Run) (db : Db)
    → UniqueKeys run_key db.runs
    → get_run k db ≡ some run
    → status_eq run.status waiting_approval ≡ true
    → let (run', db') = move_run run failed db in
      transition_run run failed none db ≡ ok (true, run', db')
found_run-moves k run db u found waiting =
    let (allowed, moves) = may_fail run.status waiting in
    transition_run_moves run failed db allowed moves u
      (ground (arith, found, find_holds (λ (r : Run). r.id == k) db.runs run found))

expire_run-IsStep :
    (a : Approval) (db : Db)
    → UniqueKeys run_key db.runs
    → (db' : Db) × (expire_run a db ≡ ok db') × IsStep db.approvals db db'
unfolding expire_run
expire_run-IsStep a db u = elim (Option-cases (get_run a.run_id db)) [
  | inl absent ↦ (db, ground (arith, absent), (refl, refl, u))
  | inr (run, found) ↦ elim (Bool-cases (status_eq run.status waiting_approval)) [
    | inr other ↦ (db, ground (arith, found, other), (refl, refl, u))
    | inl waiting ↦
        let (run', db') = move_run run failed db in
        (
          (finish run' db').1,
          ground (arith, found, waiting, found_run-moves a.run_id run db u found waiting),
          failed_run-IsStep run db u,
        )
  ]
]

abbrev swept : Approval → Db → List Approval
swept a db = update_where (λ (b : Approval). b.id == a.id) (expire db.now) db.approvals

expire_one-IsStep :
    (a : Approval) (db : Db)
    → UniqueKeys run_key db.runs
    → (db' : Db) × (expire_one a db ≡ ok db') × IsStep (swept a db) db db'
unfolding expire_one
expire_one-IsStep a db u =
    let db1 = write_approval a.id (expire db.now) db in
    let db2 = expire_call a db1 in
    let (rows, clock, same) = expire_call-keeps a db1 in
    let (db3, ran, (rows', clock', unique)) =
      expire_run-IsStep a db2 (subst (UniqueKeys run_key) (sym same) u) in
    (db3, ran, (rows' ∙ rows, clock' ∙ clock, unique))

-- Every approval that is due is in the list.
abbrev covers : Option ℕ → ℕ → List Approval → List Approval → Bool
covers tenant now todo rows =
    all (λ (b : Approval). not (is_due tenant now b) || any (λ (a : Approval). b.id == a.id) todo)
      rows

-- The approval of a step need not be in the list any more.
covers-step :
    (tenant : Option ℕ) (now : ℕ) (a : Approval) (todo rows : List Approval)
    → covers tenant now (a ∷ todo) rows ≡ true
    → covers tenant now todo (update_where (λ (b : Approval). b.id == a.id) (expire now) rows)
      ≡ true
covers-step tenant now a todo [] h = refl
covers-step tenant now a todo (b ∷ rows) h = ground (arith, covers-step tenant now a todo rows)

covers-grow :
    (tenant : Option ℕ) (now : ℕ) (a : Approval) (todo rows : List Approval)
    → covers tenant now todo rows ≡ true
    → covers tenant now (a ∷ todo) rows ≡ true
covers-grow tenant now a todo [] h = refl
covers-grow tenant now a todo (b ∷ rows) h = ground (arith, covers-grow tenant now a todo rows)

covers_all :
    (tenant : Option ℕ) (now : ℕ) (rows : List Approval)
    → covers tenant now (select (is_due tenant now) rows) rows ≡ true
covers_all tenant now [] = refl
covers_all tenant now (b ∷ rows) =
    let due = select (is_due tenant now) rows in
    ground (
      arith,
      ==-refl b.id,
      covers_all tenant now rows,
      covers-grow tenant now b due rows (covers_all tenant now rows),
    )

none_due :
    (tenant : Option ℕ) (now : ℕ) (rows : List Approval)
    → covers tenant now [] rows ≡ true
    → select (is_due tenant now) rows ≡ []
none_due tenant now [] h = refl
none_due tenant now (b ∷ rows) h = ground (arith, none_due tenant now rows)

-- The loop reaches its end, and no approval is due after it.
expire_all_clears :
    (tenant : Option ℕ) (todo : List Approval) (db : Db)
    → UniqueKeys run_key db.runs
    → covers tenant db.now todo db.approvals ≡ true
    → (db' : Db) × (expire_all todo db ≡ ok db')
      × (select (is_due tenant db.now) db'.approvals ≡ [])
unfolding expire_all
expire_all_clears tenant [] db u h = (db, refl, none_due tenant db.now db.approvals h)
expire_all_clears tenant (a ∷ todo) db u h =
    let (db1, ran, (rows, clock, unique)) = expire_one-IsStep a db u in
    let covered : covers tenant db1.now todo db1.approvals ≡ true =
      subst (λ n. covers tenant n todo db1.approvals ≡ true) (sym clock)
        (subst (λ rs. covers tenant db.now todo rs ≡ true) (sym rows)
          (covers-step tenant db.now a todo db.approvals h)) in
    let (db2, ended, clear) = expire_all_clears tenant todo db1 unique covered in
    (
      db2,
      ap (λ m. m >>= λ db'. expire_all todo db') ran ∙ ended,
      subst (λ n. select (is_due tenant n) db2.approvals ≡ []) clock clear,
    )

-- The sweep always ends well, if no two runs have the same primary key: it counts the approvals
-- that were due, and after it none of the tenants that it was asked for is due.
pub expire_pending_approvals_lem :
    (tenant : Option ℕ) (db : Db)
    → UniqueKeys run_key db.runs
    → (db' : Db) × (expire_pending_approvals tenant db
        ≡ ok (length (select (is_due tenant db.now) db.approvals), db'))
      × (select (is_due tenant db.now) db'.approvals ≡ [])
unfolding expire_pending_approvals
expire_pending_approvals_lem tenant db u =
    let due = select (is_due tenant db.now) db.approvals in
    let (db', ended, clear) =
      expire_all_clears tenant due db u (covers_all tenant db.now db.approvals) in
    (db', ap (λ m. m >>= λ db'. ok (length due, db')) ended, clear)
