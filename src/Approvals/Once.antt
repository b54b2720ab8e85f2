-- ===== src/Approvals/Once.antt =====
-- An approval is decided once, in time, by an administrator who has its token.
use general_agent_platform.Base.{
  ℕ, ◌≡◌, refl, sym, subst, String, Bool, true, false, ◌&&◌, none, some, List, [], ◌∷◌, arith, ◌==◌,
  if◌then◌else◌, select, length, update_where, find, any, Bool-cases, inl, inr, Option-cases,
  Result, ok, err, ◌>>=◌,
}
use general_agent_platform.Principal.{Principal}
use general_agent_platform.Db.{
  Db, write_call, created, call_rejected, record_audit, Run, RunStatus, waiting_approval, running,
  failed, ToolCall, Approval, status_eq,
}
use general_agent_platform.Db.Rows.{UniqueKeys, has_key}
use general_agent_platform.Runs.{transition_run, record_runtime_event, move_run}
use general_agent_platform.Runs.Endpoints.{Reply, finish}
use general_agent_platform.Approvals.{
  Decision, Examined, is_unused, examine, consumable, consume, grant, refuse, fail_instances,
  finish_decision, decide_examined, decide_reply, decide_approval,
}

abbrev pub approval_key : Approval → ℕ
approval_key a = a.id

abbrev pub is_ok {ℓ} : {A : Type ℓ} → Result A → Bool
is_ok (ok a) = true
is_ok (err e) = false

-- Some approval with the key may still be decided.
abbrev pub is_open : ℕ → List Approval → Bool
is_open k rows = any (λ (a : Approval). a.id == k && is_unused a) rows

closed-found :
    (k tenant : ℕ) (rows : List Approval) (a : Approval)
    → is_open k rows ≡ false
    → find (λ (b : Approval). b.id == k && b.tenant_id == tenant) rows ≡ some a
    → is_unused a ≡ false
closed-found k tenant [] a closed h = ground arith
closed-found k tenant (b ∷ rows) a closed h = ground (arith, closed-found k tenant rows a)

-- The guards refuse an approval that is no longer open, and leave it as it is.
examine-closed :
    (sha256 : String → String) (p : Principal) (k : ℕ) (decision : Decision) (db : Db)
    → is_open k db.approvals ≡ false
    → let (reply, db') = examine sha256 p k decision db in
      (is_ok reply ≡ false) × (db'.approvals ≡ db.approvals)
unfolding examine
examine-closed sha256 p k decision db closed =
    elim (Option-cases
      (find (λ (a : Approval). a.id == k && a.tenant_id == p.tenant_id) db.approvals)) [
        | inl absent ↦ ground (arith, absent)
        | inr (a, found) ↦
            ground (arith, found, closed-found k p.tenant_id db.approvals a closed found)
      ]

decide_reply-refused :
    (p : Principal) (k : ℕ) (decision : Decision) (meanwhile : Db → Db) (reply : Reply Examined)
    (rows : List Approval)
    → is_ok reply.0 ≡ false
    → reply.1.approvals ≡ rows
    → let (reply', db') = decide_reply p k decision meanwhile reply in
      (is_ok reply' ≡ false) × (db'.approvals ≡ rows)
unfolding decide_reply
decide_reply-refused p k decision meanwhile (ok e, db) rows refused same = cc
decide_reply-refused p k decision meanwhile (err e, db) rows refused same = (refl, same)

module _ (p : Principal) (k : ℕ) (decision : Decision) (now : ℕ) where
  abbrev decided : List Approval → List Approval
  decided rows = update_where (consumable p k now) (consume p decision now) rows

  absent_none :
      (rows : List Approval)
      → has_key approval_key k rows ≡ false
      → select (consumable p k now) rows ≡ []
  absent_none [] h = refl
  absent_none (b ∷ rows) h = ground (arith, absent_none rows)

  absent_closed :
      (rows : List Approval)
      → has_key approval_key k rows ≡ false
      → is_open k (decided rows) ≡ false
  absent_closed [] h = refl
  absent_closed (b ∷ rows) h = ground (arith, absent_closed rows)

  -- The update closes the approval, when it finds one row.
  consumed_closed :
      (rows : List Approval)
      → UniqueKeys approval_key rows
      → length (select (consumable p k now) rows) ≡ 1
      → is_open k (decided rows) ≡ false
  consumed_closed [] u h = ground arith
  consumed_closed (b ∷ rows) u h = elim (Bool-cases (b.id == k)) [
    | inr later ↦ ground (arith, consumed_closed rows u.1)
    | inl here ↦
        let absent : has_key approval_key k rows ≡ false = ground (arith, u.0) in
        ground (arith, absent_none rows absent, absent_closed rows absent)
  ]

transition_run-approvals :
    (run run' : Run) (b : Bool) (next : RunStatus) (db db' : Db)
    → transition_run run next none db ≡ ok (b, run', db')
    → db'.approvals ≡ db.approvals
unfolding transition_run move_run record_runtime_event
transition_run-approvals run run' b next db db' e = ground arith

-- What follows the update leaves the approvals alone.
moved-approvals :
    (m : Result (Bool × Run × Db)) (f : Run → Db → Db) (db db' : Db)
    → ((b : Bool) (run' : Run) (db1 : Db) → m ≡ ok (b, run', db1) → db1.approvals ≡ db.approvals)
    → ((run : Run) (db1 : Db) → (f run db1).approvals ≡ db1.approvals)
    → (m >>= λ (b, run, db1). ok (f run db1)) ≡ ok db'
    → db'.approvals ≡ db.approvals
moved-approvals (ok (b, run, db1)) f db db' moved keeps e =
    ground (arith, moved b run db1 refl, keeps run db1)
moved-approvals (err c) f db db' moved keeps e = cc

grant-approvals :
    (run : Run) (call : ToolCall) (db db' : Db)
    → grant run call db ≡ ok db'
    → db'.approvals ≡ db.approvals
unfolding grant
grant-approvals run call db db' e = elim (Bool-cases (status_eq run.status waiting_approval)) [
  | inr other ↦ ground (arith, e, other)
  | inl waiting ↦
      let db1 = write_call call.id (λ (c : ToolCall). record c { status = created }) db in
      moved-approvals (transition_run run running none db1) (λ run' db2. db2) db1 db'
        (λ b run' db2. transition_run-approvals run run' b running db1 db2) (λ run' db2. refl)
        (ground (arith, e, waiting))
]

refuse-approvals :
    (p : Principal) (run : Run) (call : ToolCall) (db db' : Db)
    → refuse p run call db ≡ ok db'
    → db'.approvals ≡ db.approvals
unfolding refuse
refuse-approvals p run call db db' e = elim (Bool-cases (status_eq run.status waiting_approval)) [
  | inr other ↦ ground (arith, e, other)
  | inl waiting ↦
      let db1 = write_call call.id (λ (c : ToolCall). record c { status = call_rejected }) db in
      moved-approvals (transition_run run failed none db1)
        (λ run' db2.
          record_audit p.tenant_id (some p.user_id) "run.failed" run.id "success"
            (fail_instances p (finish run' db2).0 (finish run' db2).1))
        db1 db' (λ b run' db2. transition_run-approvals run run' b failed db1 db2)
        (λ run' db2. refl) (ground (arith, e, waiting))
]

settled-approvals :
    (p : Principal) (run : Run) (call : ToolCall) (b : Bool) (db db' : Db)
    → (if b then grant run call db else refuse p run call db) ≡ ok db'
    → db'.approvals ≡ db.approvals
settled-approvals p run call true db db' = grant-approvals run call db db'
settled-approvals p run call false db db' = refuse-approvals p run call db db'

finish_decision-approvals :
    (p : Principal) (decision : Decision) (a : Approval) (old mid : Db) (m : Result Db)
    → ((db' : Db) → m ≡ ok db' → db'.approvals ≡ mid.approvals)
    → let (reply, db') = finish_decision p decision a old m in
      is_ok reply ≡ true → db'.approvals ≡ mid.approvals
unfolding finish_decision
finish_decision-approvals p decision a old mid (ok db) keeps h = keeps db refl
finish_decision-approvals p decision a old mid (err e) keeps h = cc

decide_examined-closed :
    (p : Principal) (k : ℕ) (decision : Decision) (e : Examined) (db : Db)
    → UniqueKeys approval_key db.approvals
    → let (reply, db') = decide_examined p k decision e db in
      is_ok reply ≡ true → is_open k db'.approvals ≡ false
unfolding decide_examined
decide_examined-closed p k decision e db u h =
    elim (Bool-cases (length (select (consumable p k db.now) db.approvals) == 1)) [
      | inr lost ↦ ground (arith, h, lost)
      | inl won ↦
          let mid = record db { approvals = decided p k decision db.now db.approvals } in
          let m = if decision.approves then grant e.run e.call mid else refuse p e.run e.call mid in
          let kept =
            finish_decision-approvals p decision (consume p decision db.now e.approval) db mid m
              (λ db'. settled-approvals p e.run e.call decision.approves mid db') in
          ground (arith, won, kept, consumed_closed p k decision db.now db.approvals u)
    ]

decide_reply-closed :
    (p : Principal) (k : ℕ) (decision : Decision) (meanwhile : Db → Db) (db : Db)
    (reply : Reply Examined)
    → (is_ok reply.0 ≡ true → reply.1 ≡ db)
    → UniqueKeys approval_key (meanwhile db).approvals
    → let (reply', db') = decide_reply p k decision meanwhile reply in
      is_ok reply' ≡ true → is_open k db'.approvals ≡ false
unfolding decide_reply
decide_reply-closed p k decision meanwhile db (ok e, db1) same u h =
    decide_examined-closed p k decision e (meanwhile db1)
      (subst (λ d. UniqueKeys approval_key (meanwhile d).approvals) (sym (same refl)) u) h
decide_reply-closed p k decision meanwhile db (err e, db1) same u h = cc

pub examine-same :
    (sha256 : String → String) (p : Principal) (k : ℕ) (decision : Decision) (db : Db)
    → let (reply, db') = examine sha256 p k decision db in is_ok reply ≡ true → db' ≡ db
unfolding examine
examine-same sha256 p k decision db h = ground (arith, h)

-- Once a decision of an approval has been taken, no further one is: every later request for it, by
-- whatever principal and with whatever decision, is refused and leaves the approvals as they are,
-- provided that no two approvals have the same primary key when the first decision is written.
pub decide_approval_once :
    (sha256 : String → String) (p : Principal) (k : ℕ) (decision : Decision) (meanwhile : Db → Db)
    (db : Db)
    → UniqueKeys approval_key (meanwhile db).approvals
    → let (reply, db') = decide_approval sha256 p k decision meanwhile db in
      is_ok reply ≡ true
      → (p2 : Principal) (decision2 : Decision) (meanwhile2 : Db → Db)
      → let (reply2, db2) = decide_approval sha256 p2 k decision2 meanwhile2 db' in
        (is_ok reply2 ≡ false) × (db2.approvals ≡ db'.approvals)
unfolding decide_approval
decide_approval_once sha256 p k decision meanwhile db u h p2 decision2 meanwhile2 =
    let db' = (decide_reply p k decision meanwhile (examine sha256 p k decision db)).1 in
    let closed =
      decide_reply-closed p k decision meanwhile db (examine sha256 p k decision db)
        (examine-same sha256 p k decision db) u h in
    let (refused, same) = examine-closed sha256 p2 k decision2 db' closed in
    decide_reply-refused p2 k decision2 meanwhile2 (examine sha256 p2 k decision2 db') db'.approvals
      refused same
