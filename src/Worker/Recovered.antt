-- ===== src/Worker/Recovered.antt =====
-- What the two recoveries of the worker (app/worker.py) leave.
use general_agent_platform.Base.{
  ℕ, ◌+◌, ◌≡◌, refl, ap, Bool, false, List, [], ◌∷◌, arith, if◌then◌else◌, select, update_where,
  length, ◌&&◌, not, ltb, Bool-cases, inl, inr,
}
use general_agent_platform.Db.{Db, Run, running, waiting_approval, status_eq}
use general_agent_platform.Worker.Recovery.{
  is_stuck, requeue, recover_stuck_runs, Verdict, resume, cancel, wait, decided, latest_approval,
  apply_verdict, is_decided, recover_approval_waiting, is_wait,
}

module _ {ℓ} {A : Type ℓ} (p : A → Bool) (f : A → A) where
  update-none : (xs : List A) → select p xs ≡ [] → update_where p f xs ≡ xs
  update-none [] h = refl
  update-none (x ∷ xs) h = ground (arith, h, update-none xs)

  -- A write after which no row passes a test leaves none that does.
  select-update_none :
      (q : A → Bool) (xs : List A)
      → ((x : A) → q (if p x then f x else x) ≡ false)
      → select q (update_where p f xs) ≡ []
  select-update_none q [] h = refl
  select-update_none q (x ∷ xs) h = ground (arith, h x, select-update_none q xs h)

  -- And so does one that makes no row pass it, where none did.
  select-update_still :
      (q : A → Bool) (xs : List A)
      → ((x : A) → q x ≡ false → q (if p x then f x else x) ≡ false)
      → select q xs ≡ []
      → select q (update_where p f xs) ≡ []
  select-update_still q [] h none_now = refl
  select-update_still q (x ∷ xs) h none_now = ground (arith, h x, select-update_still q xs h)

requeue-is_stuck :
    (is_locked : ℕ → Bool) (stale now : ℕ) (r : Run)
    → is_stuck is_locked stale now (if is_stuck is_locked stale now r then requeue now r else r)
      ≡ false
requeue-is_stuck is_locked stale now r = elim (Bool-cases (is_stuck is_locked stale now r)) [
  | inl stuck ↦ ground (arith, stuck)
  | inr free ↦ ground (arith, free)
]

abbrev settle : Db → Run → Run
settle db r = apply_verdict db.now (decided (latest_approval db r)) r

-- A verdict takes the run out of the statuses that the recoveries look for.
apply_verdict-status :
    (now : ℕ) (v : Verdict) (r : Run)
    → is_wait v ≡ false
    → (status_eq (apply_verdict now v r).status waiting_approval ≡ false)
      × (status_eq (apply_verdict now v r).status running ≡ false)
apply_verdict-status now resume r h = (refl, refl)
apply_verdict-status now cancel r h = (refl, refl)
apply_verdict-status now wait r h = ground arith

settle-is_decided :
    (db : Db) (r : Run) → is_decided db (if is_decided db r then settle db r else r) ≡ false
settle-is_decided db r =
    let moved = apply_verdict-status db.now (decided (latest_approval db r)) r in
    elim (Bool-cases (is_decided db r)) [
      | inl settles ↦
          let decides : is_wait (decided (latest_approval db r)) ≡ false = ground arith in
          rw settles (
            ap (λ b. b && not (is_wait (decided (latest_approval db (settle db r)))))
              (moved decides).0)
      | inr rests ↦ rw rests rests
    ]

settle-is_stuck :
    (is_locked : ℕ → Bool) (stale now : ℕ) (db : Db) (r : Run)
    → is_stuck is_locked stale now r ≡ false
    → is_stuck is_locked stale now (if is_decided db r then settle db r else r) ≡ false
settle-is_stuck is_locked stale now db r h =
    let moved = apply_verdict-status db.now (decided (latest_approval db r)) r in
    elim (Bool-cases (is_decided db r)) [
      | inl settles ↦
          let decides : is_wait (decided (latest_approval db r)) ≡ false = ground arith in
          let s = settle db r in
          rw settles (
            ap (λ b. b && ltb (s.updated_at + stale) now && not (is_locked s.id)) (moved decides).1)
      | inr rests ↦ rw rests h
    ]

-- The two recoveries of `process_once`.
abbrev pub recover : (ℕ → Bool) → ℕ → Db → Db
recover is_locked stale db = (recover_approval_waiting (recover_stuck_runs is_locked stale db).1).1

recover-settled :
    (is_locked : ℕ → Bool) (stale : ℕ) (db : Db)
    → (select (is_stuck is_locked stale db.now) (recover is_locked stale db).runs ≡ [])
      × (select (is_decided db) (recover is_locked stale db).runs ≡ [])
unfolding recover_stuck_runs recover_approval_waiting
recover-settled is_locked stale db =
    let stuck = is_stuck is_locked stale db.now in
    let requeued = update_where stuck (requeue db.now) db.runs in
    (
      select-update_still (is_decided db) (settle db) stuck requeued
          (settle-is_stuck is_locked stale db.now db)
          (select-update_none stuck (requeue db.now) stuck db.runs
            (requeue-is_stuck is_locked stale db.now)),
      select-update_none (is_decided db) (settle db) (is_decided db) requeued
          (settle-is_decided db),
    )

-- After the recoveries no run is left that a worker lost, and none that waits for an approval which
-- is decided: when they run again at the same time and with the same locks, both count no run, and
-- the database stays as it is.
pub recover_idempotent :
    (is_locked : ℕ → Bool) (stale : ℕ) (db : Db)
    → let once = recover is_locked stale db in
      (recover_stuck_runs is_locked stale once ≡ (0, once))
      × (recover_approval_waiting once ≡ (0, once))
unfolding recover_stuck_runs recover_approval_waiting
recover_idempotent is_locked stale db =
    let once = recover is_locked stale db in
    let (none_stuck, none_decided) = recover-settled is_locked stale db in
    let same_stuck =
      update-none (is_stuck is_locked stale db.now) (requeue db.now) once.runs none_stuck in
    let same_decided = update-none (is_decided db) (settle db) once.runs none_decided in
    (
      λ i. (length (none_stuck i), record once { runs = same_stuck i }),
      λ i. (length (none_decided i), record once { runs = same_decided i }),
    )
