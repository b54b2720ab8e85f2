-- ===== src/Workflow/Tests.antt =====
-- A small workflow with a branch, and the theorems at it.
use general_agent_platform.Base.{
  ℕ, String, ◌≡◌, ◌≢◌, ◌↔◌, refl, true, mem, none, some, List, [], ◌∷◌, Perm, str_eq, if◌then◌else◌,
  ok, err, out_of_fuel, invalid_workflow_cycle,
}
use general_agent_platform.Base.Int.{pos}
use general_agent_platform.Json.{number, text, array, cons, nil, end, value_eq, value_in}
use general_agent_platform.Json.Text.{text_lt}
use general_agent_platform.Workflow.{
  Node, NodeType, start, model, condition, finalize, validate_workflow, order_workflow, rounds,
  sort_by_key, kahn, visit_children, decrement, degree, children, validate_node,
}
use general_agent_platform.Workflow.Condition.{Search, found, contains, apply_operator, is_unsafe}
use general_agent_platform.Workflow.Branches.{get_all_descendants}
use general_agent_platform.Workflow.Descendants.{IsDescendant, get_all_descendants_lem}
use general_agent_platform.Workflow.Order.{IsOrdered, order_workflow_sound}
use general_agent_platform.Workflow.Complete.{IsRanked, order_workflow-ne-out_of_fuel}
use general_agent_platform.Workflow.Accepts.{order_workflow_complete}

abbrev plain : String → NodeType → List String → Node
plain k t deps = record {
  key = some k;
  type = some t;
  depends_on = deps;
  when = end;
  condition_type = none;
  left = none;
  operator = none;
  right = none;
  true_next = none;
  false_next = none;
  rest = end;
}

abbrev branch : Node
branch = record {
  key = some "check";
  type = some condition;
  depends_on = "ask" ∷ [];
  when = end;
  condition_type = some (text "comparison");
  left = some (text "amount");
  operator = some (text "greater_than");
  right = some (number (pos 10));
  true_next = some (text "big");
  false_next = some (text "all");
  rest = end;
}

-- The editor may list nodes in any order, and leaves the condition's edges out of `depends_on`.
abbrev sample : List Node
sample =
    plain "big" model [] ∷ branch ∷ plain "all" finalize ("big" ∷ []) ∷ plain "ask" start [] ∷ []

abbrev sample_order : List Node
sample_order =
    plain "ask" start [] ∷ branch ∷ plain "big" model [] ∷ plain "all" finalize ("big" ∷ []) ∷ []

program : Unit {0}
unfolding order_workflow validate_workflow validate_node rounds sort_by_key kahn visit_children
    decrement degree children text_lt
program = tt

order-sample : order_workflow sample ≡ ok sample_order
unfolding program
order-sample = refl

order_cyclic :
    order_workflow (plain "a" model ("b" ∷ []) ∷ plain "b" model ("a" ∷ []) ∷ [])
    ≡ err invalid_workflow_cycle
unfolding program
order_cyclic = refl

order_workflow_sound_example : Perm sample_order sample × IsOrdered sample sample_order
order_workflow_sound_example = order_workflow_sound sample sample_order order-sample

order_workflow-ne-out_of_fuel_example : order_workflow sample ≢ err out_of_fuel
order_workflow-ne-out_of_fuel_example = order_workflow-ne-out_of_fuel sample

validate-sample : validate_workflow sample ≡ ok tt
unfolding program
validate-sample = refl

sample_rank : String → ℕ
sample_rank k =
    if str_eq k "ask" then 0 else if str_eq k "check" then 1 else if str_eq k "big" then 2 else 3

sample-IsRanked : IsRanked sample_rank sample
unfolding sample_rank
sample-IsRanked = refl

order_workflow_complete_example : (l : List Node) × (order_workflow sample ≡ ok l)
order_workflow_complete_example =
    order_workflow_complete sample sample_rank validate-sample sample-IsRanked

abbrev engine : (pattern subject : String) → Search
engine pattern subject = found true

nested-unsafe : is_unsafe "(a+)+" ≡ true
unfolding is_unsafe
nested-unsafe = refl

-- A list holds a value that is equal to the one sought.
list_contains :
    apply_operator engine contains (array (cons (number (pos 3)) nil)) (number (pos 3)) ≡ ok true
unfolding apply_operator value_in value_eq
list_contains = refl

-- The last node depends on both branches, and is excluded with the one that is not taken.
get_all_descendants_lem_example :
    (mem "all" (get_all_descendants sample "big") ≡ true) ↔ IsDescendant sample "big" "all"
get_all_descendants_lem_example = get_all_descendants_lem sample "big" "all"
