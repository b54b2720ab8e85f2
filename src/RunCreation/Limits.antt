-- ===== src/RunCreation/Limits.antt =====
-- The quotas of a tenant hold whatever runs are created (`create_run`, app/main.py).
use general_agent_platform.Base.{
  ℕ, suc, ◌≤◌, ◌≡◌, refl, sym, subst, Bool, true, false, not, ◌&&◌, ◌||◌, Option, none, some, List,
  [], ◌∷◌, ◌++◌, arith, ltb, leb, ◌==◌, length, select, Result, ok, err, ◌>>=◌, ◌>>◌, Gives,
  Gives-bind, Gives-test, Option-cases, inl, inr,
}
use general_agent_platform.Json.{Fields}
use general_agent_platform.Principal.{Principal}
use general_agent_platform.Db.{Db, Run, Quota}
use general_agent_platform.Agents.{Agent, AgentVersion, live_agent}
use general_agent_platform.Quota.{is_active_of}
use general_agent_platform.Idempotency.{replay_or_reject}
use general_agent_platform.Runs.{record_runtime_event}
use general_agent_platform.RunCreation.{
  Store, RunCreate, Surroundings, published_version, quota_row, load_quota, is_used_up, active_runs,
  runs_since, check_quota, new_run, add_run, accept_run, create_from, create_new, replayed,
  create_run,
}

select-append {ℓ} :
    {A : Type ℓ} (p : A → Bool) (xs ys : List A) → select p (xs ++ ys) ≡ select p xs ++ select p ys
select-append p [] ys = refl
select-append p (x ∷ xs) ys = ground (arith, select-append p xs ys)

length-select-one {ℓ} :
    {A : Type ℓ} (p : A → Bool) (xs : List A) (x : A)
    → length (select p (xs ++ x ∷ [])) ≤ suc (length (select p xs))
length-select-one p [] x = ground arith
length-select-one p (y ∷ ys) x = ground (arith, length-select-one p ys x)

-- A limit that is 0 is none.
abbrev pub is_within : ℕ → ℕ → Bool
is_within limit used = not (ltb 0 limit) || leb used limit

module _ (around : Surroundings) (tenant : ℕ) (q : Quota) where
  -- The tenant has this quota, and its runs are within it: those that are active, and those of the
  -- day.
  abbrev pub IsWithin : Store → Type 0
  IsWithin store =
      (quota_row tenant store.db ≡ some q)
      × (is_within q.max_concurrent_runs (active_runs tenant store.db) ≡ true)
      × (is_within q.max_workflow_runs_per_day (runs_since around.day_start tenant store.db) ≡ true)

  add_run-IsWithin :
      (p : Principal) (agent : Agent) (version : AgentVersion) (payload : RunCreate)
      (input : Fields) (store : Store)
      → quota_row tenant store.db ≡ some q
      → is_used_up q.max_concurrent_runs (active_runs tenant store.db) ≡ false
      → is_used_up q.max_workflow_runs_per_day (runs_since around.day_start tenant store.db) ≡ false
      → IsWithin (accept_run around p agent version payload input store).1
  unfolding accept_run add_run record_runtime_event
  add_run-IsWithin p agent version payload input store row active daily =
      let run = new_run around p agent version input store.db in
      (
        row,
        ground (arith, length-select-one (is_active_of tenant) store.db.runs run),
        ground (
          arith,
          length-select-one
              (λ (r : Run). r.tenant_id == tenant && leb around.day_start r.created_at)
              store.db.runs run,
        ),
      )

check_quota-eq-ok :
    (around : Surroundings) (q : Quota) (tenant : ℕ) (db : Db)
    → check_quota around q tenant db ≡ ok tt
    → (is_used_up q.max_concurrent_runs (active_runs tenant db) ≡ false)
      × (is_used_up q.max_workflow_runs_per_day (runs_since around.day_start tenant db) ≡ false)
unfolding check_quota
check_quota-eq-ok around q tenant db h = ground (arith, h)

load_quota-found :
    (tenant : ℕ) (q : Quota) (db : Db)
    → quota_row tenant db ≡ some q
    → load_quota tenant db ≡ (q, db)
unfolding load_quota
load_quota-found tenant q db row = rw (row, load_quota) refl

module _ (around : Surroundings) (p : Principal) (q : Quota) where
  abbrev Keeps : Result (Fields × Store) → Type 0
  Keeps result = Gives (λ s. IsWithin around p.tenant_id q s.1) result

  create_from-Keeps :
      (agent : Agent) (version : AgentVersion) (payload : RunCreate) (store : Store)
      → IsWithin around p.tenant_id q store
      → Keeps (create_from around p agent version payload store)
  unfolding create_from load_quota
  create_from-Keeps agent version payload store (row, active, daily) =
      subst
        (λ (s : Quota × Db). Keeps (
          check_quota around s.0 p.tenant_id s.1
          >> (around.retrieve payload.input >>= λ input.
              ok (accept_run around p agent version payload input (record store { db = s.1 })))))
        (sym (load_quota-found p.tenant_id q store.db row))
        (Gives-test (λ s. IsWithin around p.tenant_id q s.1)
          (check_quota around q p.tenant_id store.db)
          (around.retrieve payload.input >>= λ input.
            ok (accept_run around p agent version payload input store))
          (λ passed.
            let (active', daily') = check_quota-eq-ok around q p.tenant_id store.db passed in
            Gives-bind (λ s. IsWithin around p.tenant_id q s.1) (around.retrieve payload.input)
              (λ input. ok (accept_run around p agent version payload input store))
              (λ input.
                add_run-IsWithin around p.tenant_id q p agent version payload input store row
                  active' daily')))

  create_new-Keeps :
      (payload : RunCreate) (store : Store)
      → IsWithin around p.tenant_id q store
      → Keeps (create_new around p payload store)
  unfolding create_new
  create_new-Keeps payload store h =
      elim (Option-cases (live_agent p payload.agent_id store.db.registry)) [
        | inl absent ↦ rw (absent, create_new) tt
        | inr (agent, found) ↦ elim (Option-cases (published_version p agent store.db.registry)) [
          | inl draft ↦ rw (found, draft, create_new) tt
          | inr (version, is_published) ↦
              rw (found, is_published, create_new) (create_from-Keeps agent version payload store h)
        ]
      ]

  replayed-Keeps :
      (replay : Result (Option Fields)) (store : Store) (next : Result (Fields × Store))
      → IsWithin around p.tenant_id q store
      → Keeps next
      → Keeps (replay >>= λ r. replayed around r store next)
  replayed-Keeps (err e) store next h n = tt
  replayed-Keeps (ok none) store next h n = n
  replayed-Keeps (ok (some response)) store next h n = h

-- Creating runs keeps a tenant within its quotas: if the tenant has a row of limits, and its active
-- runs and its runs of the day are within those that are set, then they are so after any request
-- to create a run that succeeds, whoever of the tenant makes it and for whatever agent.
pub create_run-IsWithin :
    (around : Surroundings) (p : Principal) (q : Quota) (payload : RunCreate) (store store' : Store)
    (response : Fields)
    → IsWithin around p.tenant_id q store
    → create_run around p payload store ≡ ok (response, store')
    → IsWithin around p.tenant_id q store'
unfolding create_run
create_run-IsWithin around p q payload store store' response h done =
    subst (λ m. Keeps around p q m) done
      (replayed-Keeps around p q
        (replay_or_reject p.tenant_id payload.idempotency_key payload.fingerprint store.records)
        store (create_new around p payload store) h (create_new-Keeps around p q payload store h))
