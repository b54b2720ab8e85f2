-- ===== src/Workflow.antt =====
-- Workflow graphs (app/runtime.py): a node is a dict of a stored definition, with the entries that
-- scheduling and conditions read as fields. `validate_workflow` and `order_workflow` follow the
-- functions of these names.
pub mod Condition
pub mod Kahn
pub mod Schedule
pub mod Order
pub mod Complete
pub mod Accepts
pub mod Branches
pub mod Descendants
mod Tests
use general_agent_platform.Base.{
  ℕ, zero, suc, ◌+◌, String, Bool, true, false, not, ◌&&◌, ◌||◌, Option, none, some, List, [], ◌∷◌,
  ◌++◌, map, ◌==◌, if◌then◌else◌, length, select, any, all, is_none, mem, subset, dedup, str_eq,
  Code, invalid_workflow, invalid_workflow_node, invalid_workflow_condition,
  invalid_workflow_dependency, invalid_workflow_cycle, type_error, out_of_fuel, Result, ok, err,
  ◌>>=◌, ◌>>◌, raise_if,
}
use general_agent_platform.Base.Int.{ℤ, pos, negsuc}
use general_agent_platform.Json.{Value, text, array, object, Fields}
use general_agent_platform.Json.Text.{text_lt}

pub data NodeType : Type 0 where
  start prepare model tool condition finalize end : NodeType

-- A field is `none` where the dict has no such key. A `type` outside the known ones is `none` too.
pub record Node : Type 0 where
  pub key : Option String
  pub type : Option NodeType
  pub depends_on : List String
  pub when : Fields
  pub condition_type : Option Value
  pub left : Option Value
  pub operator : Option Value
  pub right : Option Value
  pub true_next : Option Value
  pub false_next : Option Value
  pub rest : Fields

-- `node["key"]`, once `validate_workflow` has seen that every node has one
abbrev pub key_of : Node → String
key_of n = elim n.key [ none ↦ "" | some k ↦ k ]

abbrev pub keys_of : List Node → List String
keys_of nodes = map key_of nodes

abbrev pub is_condition : Node → Bool
is_condition n = elim n.type [ some condition ↦ true | _ ↦ false ]

-- `node["true_next"] in keys`; a list or a dict is unhashable
abbrev pub next_in : Option Value → List String → Result Bool
next_in (some (text k)) keys = ok (mem k keys)
next_in (some (array _)) keys = err type_error
next_in (some (object _)) keys = err type_error
next_in _ keys = ok false

abbrev pub points_to : Option Value → String → Bool
points_to (some (text j)) k = str_eq j k
points_to _ k = false

-- `required_fields <= node.keys()`
has_condition_fields : Node → Bool
has_condition_fields n =
    not (is_none n.condition_type)
    && not (is_none n.left)
    && not (is_none n.operator)
    && not (is_none n.right)
    && not (is_none n.true_next)
    && not (is_none n.false_next)

-- `node["true_next"] not in keys or node["false_next"] not in keys`
check_nexts : List String → Node → Result (Unit {0})
check_nexts keys n = do
  first ← next_in n.true_next keys
  second ← if first then next_in n.false_next keys else ok true
  raise_if (not (first && second)) invalid_workflow_condition

unfoldable pub validate_node : List String → Node → Result (Unit {0})
unfolding has_condition_fields check_nexts
validate_node keys n = do
  raise_if (is_none n.type) invalid_workflow_node
  if is_condition n
      then (raise_if (not (has_condition_fields n)) invalid_workflow_condition
          >> check_nexts keys n)
      else ok tt
  raise_if (not (all (λ d. mem d keys) n.depends_on)) invalid_workflow_dependency

unfoldable pub validate_nodes : List String → List Node → Result (Unit {0})
validate_nodes keys [] = ok tt
validate_nodes keys (n ∷ rest) = validate_node keys n >> validate_nodes keys rest

abbrev pub Indegree : Type 0
Indegree = List (String × ℤ)

abbrev pub pred_ℤ : ℤ → ℤ
pred_ℤ (pos zero) = negsuc 0
pred_ℤ (pos (suc n)) = pos n
pred_ℤ (negsuc n) = negsuc (suc n)

abbrev pub is_zero : ℤ → Bool
is_zero (pos zero) = true
is_zero _ = false

-- `indegree[child] -= 1`, with the new value
unfoldable pub decrement : String → Indegree → Indegree
decrement child [] = []
decrement child ((k, d) ∷ rest) =
    if str_eq child k then (k, pred_ℤ d) ∷ rest else (k, d) ∷ decrement child rest

unfoldable pub degree : String → Indegree → ℤ
degree child [] = negsuc 0
degree child ((k, d) ∷ rest) = if str_eq child k then d else degree child rest

-- `for child in children[key]: ...`
unfoldable pub visit_children : List String → Indegree → List String → Indegree × List String
visit_children [] indegree queue = (indegree, queue)
visit_children (child ∷ rest) indegree queue =
    let next = decrement child indegree in
    visit_children rest next (if is_zero (degree child next) then queue ++ child ∷ [] else queue)

-- `children[key]`: a node once for each time that it names `key`
abbrev repeat_for : String → String → List String → List String
repeat_for key child [] = []
repeat_for key child (d ∷ ds) =
    let rest = repeat_for key child ds in if str_eq d key then child ∷ rest else rest

unfoldable pub children : List Node → String → List String
children [] key = []
children (n ∷ rest) key = repeat_for key (key_of n) n.depends_on ++ children rest key

abbrev initial_indegree : List Node → Indegree
initial_indegree nodes = map (λ n. (key_of n, pos (length n.depends_on))) nodes

abbrev roots : Indegree → List String
roots [] = []
roots ((k, d) ∷ rest) = let others = roots rest in if is_zero d then k ∷ others else others

-- The `while queue` loop: the number of keys visited.
unfoldable pub kahn : List Node → ℕ → List String → Indegree → ℕ → Result ℕ
kahn nodes zero queue indegree visited = err out_of_fuel
kahn nodes (suc fuel) [] indegree visited = ok visited
kahn nodes (suc fuel) (key ∷ queue) indegree visited =
    let (next, queue') = visit_children (children nodes key) indegree queue in
    kahn nodes fuel queue' next (visited + 1)

-- the fuel: the keys and the edges
abbrev pub edges : List Node → ℕ
edges [] = 0
edges (n ∷ rest) = length n.depends_on + edges rest

abbrev pub count_visited : List Node → Result ℕ
count_visited nodes =
    let indegree = initial_indegree nodes in
    kahn nodes (suc (length nodes + edges nodes)) (roots indegree) indegree 0

unfoldable pub validate_workflow : List Node → Result (Unit {0})
unfolding validate_nodes
validate_workflow nodes = do
  let keys = keys_of nodes
  raise_if (any (λ n. is_none n.key) nodes || not (length (dedup keys) == length nodes))
      invalid_workflow
  validate_nodes keys nodes
  visited ← count_visited nodes
  raise_if (not (visited == length nodes)) invalid_workflow_cycle

-- `{parent["key"] for parent in nodes if parent is a condition that selects key}`
abbrev pub condition_parents : List Node → String → List String
condition_parents nodes key = keys_of (
    select (λ p. is_condition p && (points_to p.true_next key || points_to p.false_next key)) nodes)

abbrev pub virtual_deps : List Node → Node → List String
virtual_deps nodes n = n.depends_on ++ condition_parents nodes (key_of n)

-- `sorted(ready, key=lambda item: item["key"])`, which keeps equal keys in place
unfoldable pub insert_by_key : Node → List Node → List Node
insert_by_key n [] = n ∷ []
insert_by_key n (m ∷ rest) =
    if text_lt (key_of m) (key_of n) then m ∷ insert_by_key n rest else n ∷ m ∷ rest

unfoldable pub sort_by_key : List Node → List Node
unfolding insert_by_key
sort_by_key [] = []
sort_by_key (n ∷ rest) = insert_by_key n (sort_by_key rest)

abbrev pub is_ready : List Node → List String → Node → Bool
is_ready nodes completed n = subset (virtual_deps nodes n) completed

-- `remaining.pop(key)` for each of the keys
abbrev pub without : List String → List Node → List Node
without keys remaining = select (λ n. not (mem (key_of n) keys)) remaining

-- The `while remaining` loop.
unfoldable pub rounds : List Node → ℕ → List Node → List String → List Node → Result (List Node)
rounds nodes fuel [] completed ordered = ok ordered
rounds nodes zero (n ∷ ns) completed ordered = err out_of_fuel
rounds nodes (suc fuel) (n ∷ ns) completed ordered =
    let ready = sort_by_key (select (is_ready nodes completed) (n ∷ ns)) in
    let rest =
      rounds nodes fuel (without (keys_of ready) (n ∷ ns)) (completed ++ keys_of ready)
        (ordered ++ ready) in
    elim ready [ [] ↦ err invalid_workflow_cycle | _ ∷ _ ↦ rest ]

unfoldable pub order_workflow : List Node → Result (List Node)
order_workflow nodes = validate_workflow nodes >> rounds nodes (length nodes) nodes [] []
