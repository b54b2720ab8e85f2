-- ===== src/SkillSdk.antt =====
-- The checks of tools and skills (app/skill_sdk.py). Python's `strip`, `int` and the match of a
-- version are parameters, and so are the check of a JSON schema and the digest.
use general_agent_platform.Base.{
  ℕ, String, Bool, true, false, not, ◌&&◌, ◌||◌, List, [], ◌∷◌, ltb, if◌then◌else◌, all, mem,
  str_eq, Result, ok, err, ◌>>=◌, ◌>>◌, raise_if, type_error, invalid_skill_manifest,
  invalid_skill_version, invalid_skill_risk, invalid_skill_dependencies, invalid_tool_capabilities,
  tool_resource_limit_exceeded, invalid_tool_schema,
}
use general_agent_platform.Base.Int.{ℤ, pos, negsuc}
use general_agent_platform.Json.{
  Value, boolean, number, text, array, object, Items, nil, cons, Fields, end, field, get_or_null,
  has,
}
use general_agent_platform.Json.Dict.{get_or}

pub record Checks : Type 0 where
  pub strip : String → String
  pub is_semver : Value → Bool
  pub int_of : Value → Result ℤ
  pub is_schema : Fields → Bool
  pub content_digest : Fields → Fields → Fields → String

abbrev has_all : List String → Fields → Bool
has_all keys fs = all (λ k. has k fs) keys

abbrev pub is_list : Value → Bool
is_list (array xs) = true
is_list _ = false

abbrev pub is_boolean : Value → Bool
is_boolean (boolean b) = true
is_boolean _ = false

-- `value not in ALLOWED_RISKS`; a list or a dict is unhashable
abbrev pub is_risk : Value → Result Bool
is_risk (text t) = ok (mem t ("low" ∷ "medium" ∷ "high" ∷ "critical" ∷ []))
is_risk (array xs) = err type_error
is_risk (object fs) = err type_error
is_risk _ = ok false

-- The texts of a list, none of them empty.
abbrev pub are_names : Items → Bool
are_names nil = true
are_names (cons (text t) rest) = not (str_eq t "") && are_names rest
are_names (cons _ rest) = false

abbrev pub is_name_list : Value → Bool
is_name_list (array xs) = are_names xs
is_name_list _ = false

abbrev pub only_keys : List String → Fields → Bool
only_keys keys end = true
only_keys keys (field k v fs) = mem k keys && only_keys keys fs

-- `int(value) > limit`
abbrev pub exceeds : ℕ → ℤ → Bool
exceeds limit (pos n) = ltb limit n
exceeds limit (negsuc n) = false

module _ (checks : Checks) where
  abbrev pub is_identifier : Value → Bool
  is_identifier (text t) = not (str_eq (checks.strip t) "")
  is_identifier _ = false

  -- The last raise is a `TypeError`.
  unfoldable pub validate_manifest : Fields → Result Fields
  validate_manifest manifest =
      raise_if
        (not (
          has_all
            ("id" ∷ "version" ∷ "description" ∷ "entrypoint" ∷ "license" ∷ "riskLevel"
              ∷ "sideEffects" ∷ [])
            manifest))
        invalid_skill_manifest
      >> raise_if
          (not (is_identifier (get_or_null "id" manifest))
            || not (checks.is_semver (get_or_null "version" manifest)))
          invalid_skill_version
      >> (is_risk (get_or_null "riskLevel" manifest) >>= λ allowed.
          raise_if (not allowed || not (is_boolean (get_or_null "sideEffects" manifest)))
            invalid_skill_risk
          >> raise_if
              (not (is_list (get_or "requiredPermissions" manifest (array nil)))
                || not (is_list (get_or "dependencies" manifest (array nil))))
              invalid_skill_dependencies
          >> ok manifest)

  unfoldable pub validate_capabilities : Fields → Result Fields
  validate_capabilities capabilities =
      raise_if
        (not (
          only_keys
            ("networkDomains" ∷ "fileRoots" ∷ "commands" ∷ "maxRuntimeMs" ∷ "maxMemoryMb" ∷ [])
            capabilities))
        invalid_tool_capabilities
      >> raise_if
          (not (
            all (λ k. is_name_list (get_or k capabilities (array nil)))
              ("networkDomains" ∷ "fileRoots" ∷ "commands" ∷ [])))
          invalid_tool_capabilities
      >> (checks.int_of (get_or "maxRuntimeMs" capabilities (number (pos 120000))) >>= λ runtime.
          if exceeds 120000 runtime
          then err tool_resource_limit_exceeded
          else (checks.int_of (get_or "maxMemoryMb" capabilities (number (pos 512))) >>= λ memory.
              raise_if (exceeds 4096 memory) tool_resource_limit_exceeded >> ok capabilities))

  unfoldable pub validate_tool_schemas : Fields → Fields → Result (Unit {0})
  validate_tool_schemas input output =
      raise_if (not (checks.is_schema input)) invalid_tool_schema
      >> raise_if (not (checks.is_schema output)) invalid_tool_schema
