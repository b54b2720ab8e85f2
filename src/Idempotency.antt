-- ===== src/Idempotency.antt =====
-- Responses that are kept under an idempotency key (app/idempotency.py). The fingerprint of a
-- request, a digest of its method, path and payload, is a parameter of both operations. The code
-- finds a key by its tenant alone and for ever; project/docs/10-shared-contracts.md scopes it by the
-- principal, the method and the path as well, for 24 hours.
pub mod Replay
mod Tests
use general_agent_platform.Base.{
  ℕ, String, true, false, not, ◌&&◌, Option, none, some, List, [], ◌∷◌, ◌++◌, ◌==◌, if◌then◌else◌,
  find, str_eq, Result, ok, err, idempotency_key_reused,
}
use general_agent_platform.Json.{Fields}

pub record IdempotencyRecord : Type 0 where
  pub tenant_id : ℕ
  pub key : String
  pub request_hash : String
  pub response_status : ℕ
  pub response_json : Fields
  pub resource_type : String
  pub resource_id : ℕ

-- `not key`: the header is absent or empty
abbrev pub given : Option String → Option String
given none = none
given (some key) = if str_eq key "" then none else some key

abbrev pub record_of : ℕ → String → List IdempotencyRecord → Option IdempotencyRecord
record_of tenant key records =
    find (λ (r : IdempotencyRecord). r.tenant_id == tenant && str_eq r.key key) records

-- The result is the response to give again, if there is one.
unfoldable pub replay_or_reject :
    ℕ → Option String → String → List IdempotencyRecord → Result (Option Fields)
replay_or_reject tenant key fingerprint records = elim (given key) [
  | none ↦ ok none
  | some k ↦ elim (record_of tenant k records) [
    | none ↦ ok none
    | some r ↦
        if not (str_eq r.request_hash fingerprint)
        then err idempotency_key_reused
        else ok (some r.response_json)
  ]
]

unfoldable pub persist_response :
    ℕ
    → Option String
    → String
    → (status : ℕ) → Fields
    → (resource_type : String) → (resource_id : ℕ) → List IdempotencyRecord
    → List IdempotencyRecord
persist_response tenant key fingerprint status response resource_type resource_id records =
    elim (given key) [
      | none ↦ records
      | some k ↦
          records
          ++ record {
            tenant_id = tenant;
            key = k;
            request_hash = fingerprint;
            response_status = status;
            response_json = response;
            resource_type = resource_type;
            resource_id = resource_id;
          }
            ∷ []
    ]
