-- ===== src/Worker/Nodes.antt =====
-- The types of nodes in the loop of `execute_workflow` (app/worker.py), and the loop.
use general_agent_platform.Base.{
  ℕ, suc, ◌+◌, String, Bool, true, false, ◌||◌, Option, none, some, List, [], ◌∷◌, ◌++◌,
  if◌then◌else◌, mem, str_eq, Result, ok, err,
}
use general_agent_platform.Json.{Value, null, boolean, text, object, Fields, end, field}
use general_agent_platform.Db.{node_running, node_skipped, Usage}
use general_agent_platform.Workflow.{Node, model, tool, condition, key_of}
use general_agent_platform.Workflow.Branches.{get_all_descendants}
use general_agent_platform.Workflow.Condition.{condition_matches, condition_route}
use general_agent_platform.Worker.Provider.{Completion, complete_model}
use general_agent_platform.Worker.Steps.{
  Host, Exec, Next, go, halt, raise, crash, persist, persist_workflow_node, succeed, is_unselected,
  check_limits,
}
use general_agent_platform.Json.Dict.{get_or}
use general_agent_platform.Worker.Calls.{run_tool}

-- The prompt of a model node: its own, or the context's, with the context's put in.
abbrev pub prompt_of : Host → Node → Fields → String
prompt_of host n context =
    host.replace_prompt (host.str (get_or "prompt" n.rest (get_or "prompt" context (text ""))))
      (host.str (get_or "prompt" context (text "")))

abbrev pub add_usage : Usage → Usage → Usage
add_usage u v = record {
  prompt_tokens = u.prompt_tokens + v.prompt_tokens;
  completion_tokens = u.completion_tokens + v.completion_tokens;
  total_tokens = u.total_tokens + v.total_tokens;
}

-- The usage and the output of a model node.
unfoldable pub finish_model : Node → Completion → Exec → Next
unfolding persist_workflow_node
finish_model n c e = succeed n (object c.output) (record e {
  run = record e.run { usage = add_usage e.run.usage c.usage; cost = e.run.cost + c.cost };
})

abbrev pub ahead_of : String → List (String × Completion) → Option Completion
ahead_of key [] = none
ahead_of key ((k, c) ∷ rest) = if str_eq k key then some c else ahead_of key rest

unfoldable pub answer_model : Node → ℕ × Result Completion → Exec → Next
unfolding finish_model
answer_model n (failures, ok c) e = finish_model n c (record e { failures = failures })
answer_model n (failures, err code) e = raise code (record e { failures = failures })

unfoldable pub run_model : Host → Node → Exec → Next
unfolding answer_model complete_model
run_model host n e = elim (ahead_of (key_of n) e.ahead) [
  | some c ↦ finish_model n c e
  | none ↦
      answer_model n
        (complete_model host.provider (prompt_of host n e.context) e.context e.failures) e
]

-- The text of a branch that was not selected: `{true_next, false_next} - {selected}`, less `None`.
abbrev pub not_taken : Option Value → Option Value → List String
not_taken (some (text k)) (some (text s)) = if str_eq k s then [] else k ∷ []
not_taken (some (text k)) _ = k ∷ []
not_taken _ _ = []

-- A branch that is not taken is excluded, with all its descendants.
abbrev pub exclude_branches : List Node → List String → List String → List String
exclude_branches ordered [] excluded = excluded
exclude_branches ordered (k ∷ rest) excluded =
    exclude_branches ordered rest
      (if str_eq k "" then excluded else excluded ++ k ∷ get_all_descendants ordered k)

unfoldable pub route : List Node → Node → Result (Bool × Option Value) → Exec → Next
unfolding persist_workflow_node
route ordered n (err code) e = raise code e
route ordered n (ok (matched, selected)) e =
    succeed n (object (field "matched" (boolean matched) end)) (record e {
      selected = (key_of n, selected) ∷ e.selected;
      excluded =
          exclude_branches ordered
            (not_taken n.true_next selected ++ not_taken n.false_next selected) e.excluded;
    })

-- `{"status": "succeeded"}`
abbrev pub plain_output : Value
plain_output = object (field "status" (text "succeeded") end)

unfoldable pub run_type : Host → List Node → Node → Exec → Next
unfolding run_model route run_tool persist_workflow_node condition_route
run_type host ordered n e = elim n.type [
  | some model ↦ run_model host n e
  | some condition ↦ route ordered n (condition_route host.engine n e.context) e
  | some tool ↦ run_tool host n e
  | _ ↦ succeed n plain_output e
]

abbrev skip : Node → Exec → Next
skip n e = go (persist n node_skipped null e)

unfoldable pub run_matched : Host → List Node → Node → Result Bool → Exec → Next
unfolding run_type persist_workflow_node
run_matched host ordered n (err code) e = raise code e
run_matched host ordered n (ok false) e = skip n e
run_matched host ordered n (ok true) e = run_type host ordered n (persist n node_running null e)

-- The body of the loop.
unfoldable pub run_node : Host → List Node → Node → Exec → Next
unfolding run_matched persist_workflow_node condition_matches
run_node host ordered n e0 =
    let e = record e0 { steps = suc e0.steps } in
    elim (check_limits host n e) [
      | some h ↦ halt h e
      | none ↦
          if is_unselected ordered n e || mem (key_of n) e.excluded
          then skip n e
          else run_matched host ordered n (condition_matches host.engine n.when e.context) e
    ]

-- `for node in ordered`
unfoldable pub run_nodes : Host → List Node → List Node → Exec → Next
unfolding run_node
run_nodes host ordered [] e = go e
run_nodes host ordered (n ∷ rest) e = elim (run_node host ordered n e) [
  | go e' ↦ run_nodes host ordered rest e'
  | halt h e' ↦ halt h e'
  | raise code e' ↦ raise code e'
  | crash code e' ↦ crash code e'
]
