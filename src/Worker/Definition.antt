-- ===== src/Worker/Definition.antt =====
-- The workflow that a definition holds (`execute_workflow`, app/worker.py): a list of nodes, or a
-- dict of nodes and edges as the editor stores it, or none. `str` is Python's. A node whose fields
-- do not have the types that are declared for them is outside the model, and reads as none.
use general_agent_platform.Base.{
  String, Bool, true, false, ◌&&◌, Option, none, some, List, [], ◌∷◌, if◌then◌else◌, str_eq, all,
}
use general_agent_platform.Json.{
  Value, null, text, array, object, Items, nil, cons, Fields, end, field, get, get_or_null,
}
use general_agent_platform.Workflow.{
  Node, NodeType, start, prepare, model, tool, condition, finalize,
}
use general_agent_platform.Json.Dict.{◌or◌, is_truthy, get_or, set_field}
use general_agent_platform.Worker.Calls.{config_of}

-- The texts of a list.
abbrev pub texts : Items → Option (List String)
texts nil = some []
texts (cons (text t) rest) = elim (texts rest) [ none ↦ none | some ts ↦ some (t ∷ ts) ]
texts (cons _ rest) = none

abbrev text_of : Value → Option String
text_of (text t) = some t
text_of _ = none

abbrev pub type_of : Value → Option NodeType
type_of (text t) =
    if str_eq t "start"
    then some start
    else if str_eq t "prepare"
    then some prepare
    else if str_eq t "model"
    then some model
    else if str_eq t "tool"
    then some tool
    else if str_eq t "condition"
    then some condition
    else if str_eq t "finalize"
    then some finalize
    else if str_eq t "end"
    then some NodeType.end
    else none
type_of _ = none

abbrev depends_of : Option Value → Option (List String)
depends_of none = some []
depends_of (some (array xs)) = texts xs
depends_of (some _) = none

abbrev when_of : Option Value → Option Fields
when_of none = some end
when_of (some null) = some end
when_of (some (object fs)) = some fs
when_of (some _) = none

-- A node, from its dict.
unfoldable pub read_node : Fields → Option Node
read_node fs = elim (depends_of (get "depends_on" fs)) [
  | none ↦ none
  | some deps ↦ elim (when_of (get "when" fs)) [
    | none ↦ none
    | some when ↦ some (record {
      key = text_of (get_or_null "key" fs);
      type = type_of (get_or_null "type" fs);
      depends_on = deps;
      when = when;
      condition_type = get "condition_type" fs;
      left = get "left" fs;
      operator = get "operator" fs;
      right = get "right" fs;
      true_next = get "true_next" fs;
      false_next = get "false_next" fs;
      rest = fs;
    })
  ]
]

unfoldable pub read_nodes : Items → Option (List Node)
unfolding read_node
read_nodes nil = some []
read_nodes (cons (object fs) rest) = elim (read_node fs) [
  | none ↦ none
  | some n ↦ elim (read_nodes rest) [ none ↦ none | some ns ↦ some (n ∷ ns) ]
]
read_nodes (cons _ rest) = none

module _ (str : Value → String) where
  -- The sources of the edges to a node, in order.
  abbrev pub sources_of : String → Items → List Value
  sources_of target nil = []
  sources_of target (cons (object e) rest) =
      let later = sources_of target rest in
      if is_truthy (get_or_null "source" e)
        && is_truthy (get_or_null "target" e)
        && str_eq (str (get_or_null "target" e)) target
      then text (str (get_or_null "source" e)) ∷ later
      else later
  sources_of target (cons _ rest) = sources_of target rest

  abbrev items_of : List Value → Items
  items_of [] = nil
  items_of (v ∷ vs) = cons v (items_of vs)

  -- A node of the editor, with its key and its dependencies from the edges.
  abbrev pub normalize : Items → Fields → Fields
  normalize edges fs =
      let key = str (get_or_null "key" fs or get_or_null "id" fs) in
      set_field "depends_on"
        (get_or_null "depends_on" fs or array (items_of (sources_of key edges)))
        (set_field "key" (text key) fs)

  -- The nodes that are dicts with a key or an id.
  abbrev pub normalize_all : Items → Items → Items
  normalize_all edges nil = nil
  normalize_all edges (cons (object fs) rest) =
      let later = normalize_all edges rest in
      if is_truthy (get_or_null "key" fs or get_or_null "id" fs)
      then cons (object (normalize edges fs)) later
      else later
  normalize_all edges (cons _ rest) = normalize_all edges rest

  abbrev edited : Value → Value → Value
  edited (array nodes) (array edges) = array (normalize_all edges nodes)
  edited nodes _ = nodes

  abbrev pub raw_workflow : Value → Value
  raw_workflow (object fs) = edited (get_or "nodes" fs (array nil)) (get_or "edges" fs (array nil))
  raw_workflow v = v

  -- The nodes of `raw_workflow`, with none for an empty workflow.
  unfoldable pub workflow_of : Fields → Option (List Node)
  unfolding read_nodes
  workflow_of definition = elim (raw_workflow (get_or "workflow" definition (array nil))) [
    | array xs ↦ read_nodes xs
    | v ↦ if is_truthy v then none else some []
  ]

  -- `definition.get("instructions") or ...`
  abbrev pub instructions_of : Fields → Value
  instructions_of definition =
      get_or_null "instructions" definition
      or get_or_null "systemPrompt" definition
      or get_or_null "system_prompt" definition

  -- The single step that stands for instructions without a workflow. `join` makes its prompt.
  unfoldable pub fallback : (String → String) → Value → List Node
  fallback join instructions =
      if is_truthy instructions
      then record {
        key = some "model";
        type = some model;
        depends_on = [];
        when = end;
        condition_type = none;
        left = none;
        operator = none;
        right = none;
        true_next = none;
        false_next = none;
        rest = field "prompt" (text (join (str instructions))) end;
      }
        ∷ []
      else []

  -- The workflow of a definition is in the model, and the inputs that it states are objects.
  abbrev is_object : Value → Bool
  is_object (object fs) = true
  is_object _ = false

  abbrev pub is_readable : Fields → Bool
  is_readable definition = elim (workflow_of definition) [
    | none ↦ false
    | some nodes ↦
        all
          (λ (n : Node).
            is_object (get_or "input" n.rest (get_or "input" (config_of n) (object end))))
          nodes
  ]
