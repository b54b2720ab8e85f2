-- ===== src/Json/Redact.antt =====
-- What is removed from a payload before it is stored or returned (app/security_utils.py). The
-- search for credentials in free text, `_SECRET_VALUE.sub`, is the regular expression engine's:
-- `sub replace s` stands for it.
use general_agent_platform.Base.{
  eq_iff, ℕ, ◌+◌, ◌≡◌, refl, String, Bool, true, false, ◌&&◌, ◌||◌, List, [], ◌∷◌, arith, leb, ◌==◌,
  if◌then◌else◌, any, map, str_eq, Bool-cases, inl, inr,
}
use mathlib.Core.Option
use general_agent_platform.Json.{
  Value, null, boolean, number, text, array, object, Items, nil, cons, Fields, end, field, get,
}
use general_agent_platform.Json.Text.{codes, is_prefix, is_sublist_at}

-- A code point without its case, as the `re` module folds it for the letters of these patterns:
-- U+0130 and U+0131 are an i, U+017F is an s and U+212A is a k.
unfoldable pub fold : ℕ → ℕ
fold c =
    if leb 65 c && leb c 90
    then c + 32
    else if c == 304 || c == 305
    then 105
    else if c == 383
    then 115
    else if c == 8490
    then 107
    else c

-- The alternatives of `_SENSITIVE_KEY`.
abbrev pub sensitive_words : List String
sensitive_words =
    "password" ∷ "passwd" ∷ "token" ∷ "apikey" ∷ "api_key" ∷ "api-key" ∷ "secret" ∷ "credential"
    ∷ "authorization" ∷ []

-- `_SENSITIVE_KEY.search(key)`
unfoldable pub is_sensitive : String → Bool
unfolding fold
is_sensitive key =
    any (λ (w : String). is_sublist_at (codes w) (map fold (codes key))) sensitive_words

abbrev pub redacted : String
redacted = "***REDACTED***"

-- The replacement of a match of `_SECRET_VALUE`; `lower` of ASCII letters is their folding, and no
-- other character is in the start of a match that begins with `bearer`.
unfoldable pub replacement : String → String
unfolding fold
replacement found =
    if is_prefix (codes "bearer") (map fold (codes found))
    then "Bearer ***REDACTED***"
    else redacted

abbrev pub is_redacted : Value → Bool
is_redacted (text s) = str_eq s redacted
is_redacted _ = false

-- At no depth does a sensitive key keep a value of its own.
unfoldable mutual
  unfolding is_sensitive

  pub is_clean : Value → Bool
  is_clean (object fs) = fields_clean fs
  is_clean (array xs) = items_clean xs
  is_clean _ = true

  pub items_clean : Items → Bool
  items_clean nil = true
  items_clean (cons v xs) = is_clean v && items_clean xs

  pub fields_clean : Fields → Bool
  fields_clean end = true
  fields_clean (field k v fs) =
      (if is_sensitive k then is_redacted v else is_clean v) && fields_clean fs

module _ (sub : (String → String) → String → String) where
  unfoldable pub redact_secrets : String → String
  unfolding replacement
  redact_secrets s = sub replacement s

  -- `redact_json(value)`, and its two comprehensions. An empty key matches nothing.
  unfoldable mutual
    unfolding is_sensitive redact_secrets

    pub redact_json : Value → Value
    redact_json (object fs) = object (redact_fields fs)
    redact_json (array xs) = array (redact_items xs)
    redact_json (text s) = text (redact_secrets s)
    redact_json null = null
    redact_json (boolean b) = boolean b
    redact_json (number n) = number n

    pub redact_items : Items → Items
    redact_items nil = nil
    redact_items (cons v xs) = cons (redact_json v) (redact_items xs)

    pub redact_fields : Fields → Fields
    redact_fields end = end
    redact_fields (field k v fs) =
        field k (if is_sensitive k then text redacted else redact_json v) (redact_fields fs)

  mutual
    unfolding is_clean items_clean fields_clean redact_json redact_items redact_fields

    value-is_clean : (v : Value) → is_clean (redact_json v) ≡ true
    value-is_clean (object fs) = fields-is_clean fs
    value-is_clean (array xs) = items-is_clean xs
    value-is_clean (text s) = refl
    value-is_clean null = refl
    value-is_clean (boolean b) = refl
    value-is_clean (number n) = refl

    items-is_clean : (xs : Items) → items_clean (redact_items xs) ≡ true
    items-is_clean nil = refl
    items-is_clean (cons v xs) = ground (arith, value-is_clean v, items-is_clean xs)

    fields-is_clean : (fs : Fields) → fields_clean (redact_fields fs) ≡ true
    fields-is_clean end = refl
    fields-is_clean (field k v fs) = elim (Bool-cases (is_sensitive k)) [
      | inl s ↦ ground (arith, fields-is_clean fs)
      | inr s ↦ ground (arith, value-is_clean v, fields-is_clean fs)
    ]

  -- the value that a field of the result has
  abbrev pub redact_field : String → Value → Value
  redact_field k v = if is_sensitive k then text redacted else redact_json v

  get-redact_fields :
      (k : String) (fs : Fields) → get k (redact_fields fs) ≡ Option.map (redact_field k) (get k fs)
  unfolding redact_fields
  get-redact_fields k end = refl
  get-redact_fields k (field j v fs) = elim (Bool-cases (str_eq j k)) [
    | inl here ↦ let same : j ≡ k = (eq_iff j k).0 here in ground (arith, same)
    | inr later ↦ ground (arith, get-redact_fields k fs)
  ]

  -- What `redact_json` makes of a dict has, at no depth and under no key that looks sensitive, a
  -- value other than the redaction mark; and it has the keys of the dict, each with the mark if it
  -- looks sensitive, and else with the redacted value.
  pub redact_json-clean :
      (fs : Fields)
      → (is_clean (redact_json (object fs)) ≡ true)
        × ((k : String) → get k (redact_fields fs) ≡ Option.map (redact_field k) (get k fs))
  redact_json-clean fs = (value-is_clean (object fs), λ k. get-redact_fields k fs)
