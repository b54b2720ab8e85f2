-- ===== src/Json/Dict.antt =====
-- What the program asks of JSON values as Python's dicts and truth values.
use general_agent_platform.Base.{
  zero, String, Bool, true, false, not, none, some, if◌then◌else◌, str_eq,
}
use general_agent_platform.Base.Int.{pos}
use general_agent_platform.Json.{
  Value, null, boolean, number, text, array, object, nil, cons, Fields, end, field, get,
}

-- `value or other`
abbrev pub is_truthy : Value → Bool
is_truthy null = false
is_truthy (boolean b) = b
is_truthy (number (pos zero)) = false
is_truthy (number _) = true
is_truthy (text t) = not (str_eq t "")
is_truthy (array nil) = false
is_truthy (array (cons _ _)) = true
is_truthy (object end) = false
is_truthy (object (field _ _ _)) = true

infixr 20 ◌or◌
abbrev pub ◌or◌ : Value → Value → Value
v or w = if is_truthy v then v else w

-- `dict.get(k, default)`
abbrev pub get_or : String → Fields → Value → Value
get_or k fs default = elim (get k fs) [ none ↦ default | some v ↦ v ]

-- `d[key] = value`
abbrev pub set_field : String → Value → Fields → Fields
set_field k v end = field k v end
set_field k v (field j w fs) = if str_eq j k then field j v fs else field j w (set_field k v fs)
