-- ===== src/Idempotency/Replay.antt =====
-- A kept response is given again, to the same request alone.
use general_agent_platform.Base.{
  ℕ, ◌≡◌, String, Bool, false, ◌&&◌, Option, none, some, List, [], ◌∷◌, ◌++◌, arith, ◌==◌, ==-refl,
  if◌then◌else◌, find, str_eq, str_eq_refl, Option-cases, inl, inr, ok, err, idempotency_key_reused,
}
use general_agent_platform.Json.{Fields}
use general_agent_platform.Idempotency.{
  IdempotencyRecord, given, record_of, replay_or_reject, persist_response,
}

find-append {ℓ} :
    {A : Type ℓ} (q : A → Bool) (rows : List A) (a : A)
    → find q (rows ++ a ∷ [])
      ≡ elim (find q rows) [ none ↦ if q a then some a else none | some b ↦ some b ]
find-append q [] a = ground arith
find-append q (b ∷ rows) a = ground (arith, find-append q rows a)

-- A response that is kept under a fresh key, neither absent nor empty, is what a repeat of the
-- request gets; another request under the key is rejected; and for every other tenant or key
-- nothing changes.
pub replay-persist_response :
    (tenant : ℕ) (key fingerprint : String) (status : ℕ) (response : Fields)
    (resource_type : String) (resource_id : ℕ) (records : List IdempotencyRecord)
    → str_eq key "" ≡ false
    → record_of tenant key records ≡ none
    → let after =
        persist_response tenant
          (some key)
          fingerprint
          status
          response
          resource_type
          resource_id
          records in
      (replay_or_reject tenant (some key) fingerprint after ≡ ok (some response))
      × ((other : String)
          → str_eq fingerprint other ≡ false
          → replay_or_reject tenant (some key) other after ≡ err idempotency_key_reused)
      × ((tenant2 : ℕ) (key2 : Option String) (fingerprint2 : String)
          → ((k : String) → given key2 ≡ some k → (tenant == tenant2 && str_eq key k) ≡ false)
          → replay_or_reject tenant2 key2 fingerprint2 after
            ≡ replay_or_reject tenant2 key2 fingerprint2 records)
unfolding replay_or_reject persist_response
replay-persist_response tenant key fingerprint status response resource_type resource_id records
      given_key fresh =
    let new : IdempotencyRecord = record {
      tenant_id = tenant;
      key = key;
      request_hash = fingerprint;
      response_status = status;
      response_json = response;
      resource_type = resource_type;
      resource_id = resource_id;
    } in
    let kept =
      find-append (λ (r : IdempotencyRecord). r.tenant_id == tenant && str_eq r.key key) records
        new in
    (
      ground
          (arith, given_key, kept, fresh, ==-refl tenant, str_eq_refl key, str_eq_refl fingerprint),
      (λ other differs.
          ground (arith, given_key, kept, fresh, ==-refl tenant, str_eq_refl key, differs)),
      (λ tenant2 key2 fingerprint2 apart. elim (Option-cases (given key2)) [
        | inl absent ↦ ground (arith, absent)
        | inr (k, there) ↦ ground (
          arith,
          given_key,
          there,
          apart k there,
          find-append (λ (r : IdempotencyRecord). r.tenant_id == tenant2 && str_eq r.key k) records
              new,
        )
      ]),
    )
