-- ===== src/RunCreation/Repeat.antt =====
-- A request to create a run that is sent again (`create_run`, app/main.py).
use general_agent_platform.Base.{
  ℕ, ◌≡◌, refl, sym, ap, ◌∙◌, subst, String, false, Option, none, some, List, arith, Result, ok,
  err, ◌>>=◌, Gives, Gives-bind, Gives-test, Option-cases, inl, inr, str_eq,
}
use general_agent_platform.Json.{Fields}
use general_agent_platform.Principal.{Principal}
use general_agent_platform.Db.{Db}
use general_agent_platform.Agents.{Agent, AgentVersion, live_agent}
use general_agent_platform.Idempotency.{
  IdempotencyRecord, record_of, replay_or_reject, persist_response,
}
use general_agent_platform.Idempotency.Replay.{replay-persist_response}
use general_agent_platform.RunCreation.{
  Store, RunCreate, Surroundings, published_version, load_quota, check_quota, accept_run,
  create_from, create_new, replayed, create_run,
}

module _ (around : Surroundings) (p : Principal) (payload : RunCreate) (store : Store) where
  -- The response is kept under the key of the request.
  abbrev IsKept : Fields × Store → Type 0
  IsKept (response, after) =
      (k : ℕ) × (after.records
        ≡ persist_response p.tenant_id payload.idempotency_key payload.fingerprint 202 response
            "run" k store.records)

  accept_run-IsKept :
      (agent : Agent) (version : AgentVersion) (input : Fields) (db1 : Db)
      → IsKept (accept_run around p agent version payload input (record store { db = db1 }))
  unfolding accept_run
  accept_run-IsKept agent version input db1 = (db1.next_id, refl)

  create_from-IsKept :
      (agent : Agent) (version : AgentVersion)
      → Gives IsKept (create_from around p agent version payload store)
  unfolding create_from
  create_from-IsKept agent version =
      let (q, db1) = load_quota p.tenant_id store.db in
      Gives-test IsKept (check_quota around q p.tenant_id db1)
        (around.retrieve payload.input >>= λ input.
          ok (accept_run around p agent version payload input (record store { db = db1 })))
        (λ passed.
          Gives-bind IsKept (around.retrieve payload.input)
            (λ input.
              ok (accept_run around p agent version payload input (record store { db = db1 })))
            (λ input. accept_run-IsKept agent version input db1))

  create_new-IsKept : Gives IsKept (create_new around p payload store)
  unfolding create_new
  create_new-IsKept = elim (Option-cases (live_agent p payload.agent_id store.db.registry)) [
    | inl absent ↦ rw (absent, create_new) tt
    | inr (agent, found) ↦ elim (Option-cases (published_version p agent store.db.registry)) [
      | inl draft ↦ rw (found, draft, create_new) tt
      | inr (version, is_published) ↦
          rw (found, is_published, create_new) (create_from-IsKept agent version)
    ]
  ]

-- What is given again is given again after it too.
again :
    (around : Surroundings) (p : Principal) (payload : RunCreate) (store store' : Store)
    (response : Fields)
    → replay_or_reject p.tenant_id payload.idempotency_key payload.fingerprint store'.records
      ≡ ok (some response)
    → create_run around p payload store' ≡ ok (response, store')
unfolding create_run
again around p payload store store' response h =
    ap (λ m. m >>= λ r. replayed around r store' (create_new around p payload store')) h

fresh_key :
    (tenant : ℕ) (key fingerprint : String) (records : List IdempotencyRecord)
    → str_eq key "" ≡ false
    → replay_or_reject tenant (some key) fingerprint records ≡ ok none
    → record_of tenant key records ≡ none
unfolding replay_or_reject
fresh_key tenant key fingerprint records given_key h = ground (arith, given_key, h)

twice_from :
    (around : Surroundings) (p : Principal) (payload : RunCreate) (store store' : Store)
    (response : Fields) (key : String) (replay : Result (Option Fields))
    → payload.idempotency_key ≡ some key
    → str_eq key "" ≡ false
    → replay_or_reject p.tenant_id payload.idempotency_key payload.fingerprint store.records
      ≡ replay
    → (replay >>= λ r. replayed around r store (create_new around p payload store))
      ≡ ok (response, store')
    → replay_or_reject p.tenant_id payload.idempotency_key payload.fingerprint store'.records
      ≡ ok (some response)
twice_from around p payload store store' response key (err e) has_key given_key h done = cc
twice_from around p payload store store' response key (ok (some kept)) has_key given_key h done =
    subst
      (λ m.
        Gives
          (λ (s : Fields × Store).
            replay_or_reject p.tenant_id payload.idempotency_key payload.fingerprint s.1.records
            ≡ ok (some s.0))
          m)
      done h
twice_from around p payload store store' response key (ok none) has_key given_key h done =
    let (k, records) =
      subst (λ m. Gives (IsKept around p payload store) m) done
        (create_new-IsKept around p payload store) in
    let fresh = fresh_key p.tenant_id key payload.fingerprint store.records given_key (
      subst (λ o. replay_or_reject p.tenant_id o payload.fingerprint store.records ≡ ok none)
        has_key h) in
    let (kept, rejected, others) =
      replay-persist_response p.tenant_id key payload.fingerprint 202 response "run" k store.records
        given_key fresh in
    let kept_records =
      records
      ∙ ap
          (λ o.
            persist_response p.tenant_id o payload.fingerprint 202 response "run" k store.records)
          has_key in
    subst
      (λ o. replay_or_reject p.tenant_id o payload.fingerprint store'.records ≡ ok (some response))
      (sym has_key)
      (ap (λ rs. replay_or_reject p.tenant_id (some key) payload.fingerprint rs) kept_records
        ∙ kept)

-- A request to create a run that is sent again under its key gets the same response, and stores
-- nothing: if a request with a key succeeds, whether it created a run or was a repeat itself, then
-- the same request afterwards gives that response again and leaves the tables as they are.
pub create_run_twice :
    (around : Surroundings) (p : Principal) (payload : RunCreate) (store store' : Store)
    (response : Fields) (key : String)
    → payload.idempotency_key ≡ some key
    → str_eq key "" ≡ false
    → create_run around p payload store ≡ ok (response, store')
    → create_run around p payload store' ≡ ok (response, store')
unfolding create_run
create_run_twice around p payload store store' response key has_key given_key done =
    again around p payload store store' response (
      twice_from around p payload store store' response key
        (replay_or_reject p.tenant_id payload.idempotency_key payload.fingerprint store.records)
        has_key given_key refl done)
