-- ===== src/Json/Tests.antt =====
-- Redaction of a small payload.
use general_agent_platform.Base.{◌≡◌, refl, String, true}
use mathlib.Core.Option
use general_agent_platform.Base.Int.{pos}
use general_agent_platform.Json.{number, text, array, nil, cons, object, Fields, end, field, get}
use general_agent_platform.Json.Redact.{
  fold, is_sensitive, redacted, redact_json, redact_fields, redact_items, is_clean, redact_field,
  redact_json-clean, redact_secrets, replacement,
}

abbrev whole : (String → String) → String → String
whole replace s = replace s

abbrev payload : Fields
payload = field "API_Key" (text "abc") (
    field "items"
      (array (cons (object (field "my-token" (number (pos 5)) end)) (cons (number (pos 7)) nil)))
      (field "note" (text "Bearer xyz") end))

payload-redacted :
    redact_json whole (object payload)
    ≡ object (
        field "API_Key" (text redacted) (
          field "items"
            (array
              (cons (object (field "my-token" (text redacted) end)) (cons (number (pos 7)) nil)))
            (field "note" (text "Bearer ***REDACTED***") end)))
unfolding redact_json redact_fields redact_items redact_secrets replacement is_sensitive fold
payload-redacted = refl

redact_json-clean_example :
    (is_clean (redact_json whole (object payload)) ≡ true)
    × ((k : String)
        → get k (redact_fields whole payload) ≡ Option.map (redact_field whole k) (get k payload))
redact_json-clean_example = redact_json-clean whole payload
