-- ===== src/Worker/Steps.antt =====
-- One node of a workflow in the loop of `execute_workflow` (app/worker.py). What the code takes
-- from Python and its packages is a parameter: `str`, `str.replace`, the digest of a tool's input,
-- the token of an approval, the regular expression engine and the model provider.
use general_agent_platform.Base.{
  ℕ, String, Bool, true, false, not, ◌&&◌, Option, none, some, List, [], ◌∷◌, ◌++◌, ◌==◌, ltb, leb,
  if◌then◌else◌, any, find, update_where, is_empty, str_eq, Code,
}
use general_agent_platform.Json.{Value, Fields}
use general_agent_platform.Json.Dict.{set_field}
use general_agent_platform.Db.{
  Db, Run, stopping, NodeStatus, node_succeeded, WorkflowNode, Quota, status_eq, write_run,
}
use general_agent_platform.Tools.{Environment}
use general_agent_platform.Quota.{soft_limit_reached, tenant_usage}
use general_agent_platform.Workflow.{Node, tool, key_of, points_to, condition_parents}
use general_agent_platform.Workflow.Condition.{Engine}
use general_agent_platform.Worker.Provider.{Provider, Completion}

-- The limits of a workflow.
abbrev pub max_workflow_nodes : ℕ
max_workflow_nodes = 100

abbrev pub max_workflow_steps : ℕ
max_workflow_steps = 1000

abbrev pub max_tool_calls : ℕ
max_tool_calls = 50

-- What the loop reads and does not change.
pub record Host : Type 0 where
  pub tools : Environment
  pub engine : Engine
  pub provider : Provider
  -- `str(value)`, and `prompt.replace("{prompt}", value)`
  pub str : Value → String
  pub replace_prompt : String → String → String
  -- `f"{definition.id}:{args_hash}:{run.id}"` of the input
  pub call_key : ℕ → Value → ℕ → String
  pub sha256 : String → String
  pub token : ℕ → String
  -- the identifier that a text stands for
  pub id_of : Value → ℕ
  pub month_start : ℕ

-- What the loop changes: the object of the run, the database, the context, what each condition
-- selected, the excluded keys, the counters, the failures of the model, and the results that were
-- computed ahead.
pub record Exec : Type 0 where
  pub run : Run
  pub db : Db
  pub context : Fields
  pub selected : List (String × Option Value)
  pub excluded : List String
  pub steps : ℕ
  pub tool_calls : ℕ
  pub failures : ℕ
  pub ahead : List (String × Completion)

-- Why the loop ends before its last node, by a `return`.
pub data Halt : Type 0 where
  step_limit stop_requested soft_limit token_budget cost_budget tool_limit awaiting : Halt

-- How a node ends: the loop goes on, returns, or leaves by an exception, which the handler of
-- `execute_workflow` catches (`ValueError`, `TypeError`) or does not.
pub data Next : Type 0 where
  go : Exec → Next
  halt : Halt → Exec → Next
  raise : Code → Exec → Next
  crash : Code → Exec → Next

-- The node's row in the run, if it has one.
abbrev pub is_node : Run → String → WorkflowNode → Bool
is_node run key w = w.tenant_id == run.tenant_id && w.workflow_id == run.id && str_eq w.node_key key

-- `persist_workflow_node`, with the node's status and output
unfoldable pub persist_workflow_node : Run → String → NodeStatus → Value → Db → Db
persist_workflow_node run key status output db = record db {
  nodes =
      if any (is_node run key) db.nodes
      then update_where (is_node run key)
          (λ (w : WorkflowNode). record w { status = status; output_json = output }) db.nodes
      else db.nodes
        ++ record {
          tenant_id = run.tenant_id;
          workflow_id = run.id;
          node_key = key;
          status = status;
          output_json = output;
        }
          ∷ [];
}

abbrev pub persist : Node → NodeStatus → Value → Exec → Exec
persist n status output e = record e {
  db = persist_workflow_node e.run (key_of n) status output e.db;
}

-- The end of a node that ran: its output goes to the context and to its row.
abbrev pub succeed : Node → Value → Exec → Next
succeed n output e =
    go (
      persist n node_succeeded output
        (record e { context = set_field (key_of n) output e.context }))

abbrev pub selected_by : String → List (String × Option Value) → Option Value
selected_by parent [] = none
selected_by parent ((k, v) ∷ rest) = if str_eq k parent then v else selected_by parent rest

-- `parents and not any(selected_next.get(parent) == node["key"] ...)`
abbrev pub is_unselected : List Node → Node → Exec → Bool
is_unselected ordered n e =
    let parents = condition_parents ordered (key_of n) in
    not (is_empty parents)
    && not (any (λ p. points_to (selected_by p e.selected) (key_of n)) parents)

-- The flush of the object's usage, which a query over the runs reads.
abbrev pub flush_usage : Run → Db → Db
flush_usage run db =
    write_run run.id (λ (r : Run). record r { usage = run.usage; cost = run.cost }) db

-- The limits that are checked before each node.
abbrev pub over_quota : Host → Node → Exec → Bool
over_quota host n e = elim (find (λ (q : Quota). q.tenant_id == e.run.tenant_id) e.db.quotas) [
  | none ↦ false
  | some q ↦
      soft_limit_reached q (tenant_usage host.month_start e.run.tenant_id (flush_usage e.run e.db))
      && elim n.type [ some tool ↦ true | _ ↦ false ]
]

abbrev pub check_limits : Host → Node → Exec → Option Halt
check_limits host n e =
    if ltb max_workflow_steps e.steps
    then some step_limit
    else if status_eq e.run.status stopping
    then some stop_requested
    else if over_quota host n e
    then some soft_limit
    else if not (e.run.budget.max_tokens == 0)
        && leb e.run.budget.max_tokens e.run.usage.total_tokens
    then some token_budget
    else if not (e.run.budget.max_cost == 0) && leb e.run.budget.max_cost e.run.cost
    then some cost_budget
    else none
