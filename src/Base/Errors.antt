-- ===== src/Base/Errors.antt =====
-- The error codes that the modelled code raises, and a computation that may raise one.
use mathlib.Core.Path.{◌≡◌, refl}
use mathlib.Core.Bool.{Bool, true, false}
use mathlib.Core.Logic.{◌⊎◌, inl, inr}

-- `ValueError(code)` in the runtime, the worker and the tools, and `HTTPException(detail=code)`.
pub data Code : Type 0 where
  invalid_workflow invalid_workflow_node invalid_workflow_condition : Code
  invalid_workflow_dependency invalid_workflow_cycle workflow_condition_timeout : Code
  invalid_state_transition version_conflict run_not_replayable run_not_restorable : Code
  run_not_stoppable : Code
  invalid_tool_input invalid_tool_output invalid_tool_schema tool_executor_not_allowed : Code
  tool_execution_transient tool_not_allowed tool_policy_denied tool_not_found : Code
  sandbox_timeout tool_execution_failed : Code
  approval_already_handled approval_expired : Code
  model_circuit_open model_provider_transient model_provider_unavailable : Code
  model_provider_rejected : Code
  unauthorized forbidden not_found conflict version_not_found precondition_required : Code
  idempotency_key_reused : Code
  precondition_failed rate_limit_exceeded : Code
  skill_already_submitted skill_not_pending : Code
  published_version_conflict agent_version_not_published : Code
  tenant_concurrency_quota_exceeded quota_exceeded workflow_run_quota_exceeded : Code
  workflow_not_found reset_token_invalid reset_token_expired : Code
  invalid_skill_manifest invalid_skill_version invalid_skill_risk : Code
  invalid_skill_dependencies invalid_tool_capabilities tool_resource_limit_exceeded : Code
  -- exceptions that no code catches as its own
  type_error attribute_error overflow_error integrity_error : Code
  -- The fuel of a modelled loop ran out: no code raises it.
  out_of_fuel : Code

pub Code-discrete : Discrete Code
Code-discrete = hlevel

-- What a computation gives, or the code that it raises.
pub data Result {ℓ} (V : Type ℓ) : Type ℓ where
  ok : V → Result V
  err : Code → Result V

-- The rest of a computation, with the value so far; a raise skips it.
infixl 5 ◌>>=◌
abbrev pub ◌>>=◌ {ℓ κ} : {V : Type ℓ} {W : Type κ} → Result V → (V → Result W) → Result W
ok v >>= rest = rest v
err raised >>= rest = err raised

-- The rest of a computation, after a test that may raise.
infixl 5 ◌>>◌
abbrev pub ◌>>◌ {κ} : {W : Type κ} → Result (Unit {0}) → Result W → Result W
test >> rest = test >>= λ passed. rest

-- `if test: raise`
abbrev pub raise_if : Bool → Code → Result (Unit {0})
raise_if false code = ok tt
raise_if true code = err code

-- What gives a value in two steps gives one in each of them.
pub >>=-eq-ok {ℓ κ} :
    {V : Type ℓ} {W : Type κ} (before : Result V) (rest : V → Result W) {w : W}
    → (before >>= rest) ≡ ok w
    → (v : V) × (before ≡ ok v) × (rest v ≡ ok w)
>>=-eq-ok (err raised) rest same = cc
>>=-eq-ok (ok v) rest same = (v, refl, same)

pub Result-cases {ℓ} :
    {V : Type ℓ} (r : Result V) → ((e : Code) × (r ≡ err e)) ⊎ ((v : V) × (r ≡ ok v))
Result-cases (ok v) = inr (v, refl)
Result-cases (err e) = inl (e, refl)

-- What a computation gives has the property, if it gives something.
abbrev pub Gives {ℓ κ} : {V : Type ℓ} → (V → Type κ) → Result V → Type κ
Gives P (ok v) = P v
Gives P (err e) = Unit

pub Gives-bind {ℓ ℓ' κ} :
    {V : Type ℓ} {W : Type ℓ'} (P : W → Type κ) (before : Result V) (rest : V → Result W)
    → ((v : V) → Gives P (rest v))
    → Gives P (before >>= rest)
Gives-bind P (ok v) rest h = h v
Gives-bind P (err e) rest h = tt

pub Gives-test {ℓ κ} :
    {V : Type ℓ} (P : V → Type κ) (test : Result (Unit {0})) (rest : Result V)
    → (test ≡ ok tt → Gives P rest)
    → Gives P (test >> rest)
Gives-test P (ok passed) rest h = h refl
Gives-test P (err e) rest h = tt
