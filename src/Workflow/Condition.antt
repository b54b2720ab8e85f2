-- ===== src/Workflow/Condition.antt =====
-- Condition nodes (app/runtime.py): `condition_matches` and `condition_route`. Python's regular
-- expressions are no code of the program: `search pattern subject` is what compiling the pattern
-- and searching the subject within 0.1 seconds gives.
use general_agent_platform.Base.{
  ℕ, String, Bool, true, false, not, ◌&&◌, ◌||◌, Option, none, some, List, [], ◌∷◌, ltb, ◌==◌,
  if◌then◌else◌, str_eq, Result, ok, err, ◌>>=◌, type_error, invalid_workflow_condition,
  workflow_condition_timeout,
}
use general_agent_platform.Json.{
  Value, null, text, Fields, end, field, has, get_or_null, value_eq, value_lt, value_in,
  is_container,
}
use general_agent_platform.Json.Text.{codes, text_length}
use general_agent_platform.Workflow.{Node}

pub data Search : Type 0 where
  malformed timed_out : Search
  found : Bool → Search

abbrev pub Engine : Type 0
Engine = (pattern subject : String) → Search

pub data Operator : Type 0 where
  equals not_equals contains not_contains greater_than less_than regex_match : Operator

abbrev operators : List (String × Operator)
operators =
    ("equals", equals)
    ∷ ("not_equals", not_equals)
    ∷ ("contains", contains)
    ∷ ("not_contains", not_contains)
    ∷ ("greater_than", greater_than)
    ∷ ("less_than", less_than)
    ∷ ("regex_match", regex_match)
    ∷ []

abbrev find_operator : String → List (String × Operator) → Option Operator
find_operator s [] = none
find_operator s ((name, op) ∷ rest) = if str_eq s name then some op else find_operator s rest

-- `isinstance(operator, str) and operator in {...}`
abbrev pub operator_of : Value → Option Operator
operator_of (text s) = find_operator s operators
operator_of _ = none

abbrev is_quantifier : ℕ → Bool
is_quantifier c = c == b'+' || c == b'*'

abbrev quantified : List ℕ → Bool
quantified [] = false
quantified (c ∷ cs) = is_quantifier c

-- Behind a `(`: whether a quantifier stands before the first `)` and another right after it.
abbrev closes : Bool → List ℕ → Bool
closes inner [] = false
closes inner (c ∷ cs) =
    if c == b')' then inner && quantified cs else closes (inner || is_quantifier c) cs

-- `re.search(r"\([^)]*[+*][^)]*\)[+*]", pattern)`
abbrev nested_quantifier : List ℕ → Bool
nested_quantifier [] = false
nested_quantifier (c ∷ cs) = c == b'(' && closes false cs || nested_quantifier cs

-- `len(right) > 256 or re.search(...)`
unfoldable pub is_unsafe : String → Bool
unfolding text_length
is_unsafe pattern = ltb 256 (text_length pattern) || nested_quantifier (codes pattern)

or_type_error : Option Bool → Result Bool
or_type_error none = err type_error
or_type_error (some b) = ok b

-- `except TypeError: return False`
or_false : Option Bool → Bool
or_false none = false
or_false (some b) = b

negate : Option Bool → Option Bool
negate none = none
negate (some b) = some (not b)

search_result : Search → Result Bool
search_result malformed = err invalid_workflow_condition
search_result timed_out = err workflow_condition_timeout
search_result (found b) = ok b

regex_case : Engine → Value → Value → Result Bool
unfolding search_result
regex_case search (text subject) (text pattern) =
    if is_unsafe pattern
    then err invalid_workflow_condition
    else search_result (search pattern subject)
regex_case search _ _ = err invalid_workflow_condition

-- The comparison, for `left` and `right` as read from the condition.
unfoldable pub apply_operator : Engine → Operator → Value → Value → Result Bool
unfolding or_type_error or_false negate regex_case
apply_operator search equals left right = ok (value_eq left right)
apply_operator search not_equals left right = ok (not (value_eq left right))
apply_operator search contains left right =
    if is_container left then or_type_error (value_in right left) else ok false
apply_operator search not_contains left right =
    if is_container left then or_type_error (negate (value_in right left)) else ok true
apply_operator search greater_than left right = ok (or_false (value_lt right left))
apply_operator search less_than left right = ok (or_false (value_lt left right))
apply_operator search regex_match left right = regex_case search left right

-- `context.get(field) if isinstance(field, str) else None`
field_operand : Fields → Value → Value
field_operand context (text k) = get_or_null k context
field_operand context _ = null

-- `context.get(left) if isinstance(left, str) else left`
left_operand : Fields → Value → Value
left_operand context (text k) = get_or_null k context
left_operand context v = v

operator_case : Engine → Option Operator → Value → Value → Result Bool
operator_case search none left right = err invalid_workflow_condition
operator_case search (some op) left right = apply_operator search op left right

-- An empty condition, or none at all, is the empty dict here.
unfoldable pub condition_matches : Engine → Fields → Fields → Result Bool
unfolding field_operand left_operand operator_case
condition_matches search end context = ok true
condition_matches search (field j v fs) context =
    let condition = field j v fs in
    if has "field" condition && has "equals" condition
    then apply_operator search equals (field_operand context (get_or_null "field" condition))
        (get_or_null "equals" condition)
    else operator_case search (operator_of (get_or_null "operator" condition))
        (left_operand context (get_or_null "left" condition)) (get_or_null "right" condition)

abbrev pub or_null : Option Value → Value
or_null none = null
or_null (some v) = v

-- `node.get("when") or {"left": ..., "operator": ..., "right": ...}`
unfoldable pub condition_of : Node → Fields → Fields
condition_of n end =
    field "left" (or_null n.left)
      (field "operator" (or_null n.operator) (field "right" (or_null n.right) end))
condition_of n (field k v fs) = field k v fs

unfoldable pub condition_route : Engine → Node → Fields → Result (Bool × Option Value)
unfolding condition_of
condition_route search n context = do
  matched ← condition_matches search (condition_of n n.when) context
  ok (matched, if matched then n.true_next else n.false_next)
