-- ===== src/Db.antt =====
-- The database (app/models.py): a list of rows for each table that the modelled code reads or
-- writes. Identifiers (UUID texts) are numbers, since the code only compares them; `next_id` is the
-- next one that `uuid4()` gives, and `now` is the clock. An assignment to an attribute of an object
-- is written to its row at once, where SQLAlchemy waits for the next flush.
pub mod Rows
use general_agent_platform.Base.{
  ℕ, suc, ◌+◌, String, Bool, true, false, ◌&&◌, Option, none, some, List, [], ◌∷◌, ◌++◌, ◌==◌,
  if◌then◌else◌, find, update_where, ◌||◌, Code,
}
use general_agent_platform.Json.{Value, Fields}
use general_agent_platform.Agents.{Registry}

pub data RunStatus : Type 0 where
  accepted preparing running stopping waiting_approval : RunStatus
  completed failed cancelled timed_out budget_exceeded : RunStatus

pub RunStatus-discrete : Discrete RunStatus
RunStatus-discrete = hlevel

-- `usage_json`
pub record Usage : Type 0 where
  pub prompt_tokens : ℕ
  pub completion_tokens : ℕ
  pub total_tokens : ℕ

-- `budget_json`, where 0 is no limit
pub record Budget : Type 0 where
  pub max_tokens : ℕ
  pub max_cost : ℕ

-- Costs are counted in a unit that is small enough, where the code has floats; an output that is
-- absent is the empty dict.
-- `event_sequence` is the attribute `_runtime_event_sequence` of an object in memory; a row that
-- is read from the table has none.
pub record Run : Type 0 where
  pub id : ℕ
  pub tenant_id : ℕ
  pub agent_id : ℕ
  pub status : RunStatus
  pub attempt_id : ℕ
  pub snapshot_id : Option ℕ
  pub checkpoint_version : ℕ
  pub updated_at : ℕ
  pub finished_at : Option ℕ
  pub created_at : ℕ
  pub created_by : ℕ
  pub input_json : Fields
  pub output_json : Fields
  pub usage : Usage
  pub cost : ℕ
  pub budget : Budget
  pub event_sequence : Option ℕ

-- `run.{status}`, `run.accepted`, `run.replayed`, `run.restored`, `tool.approval.required`
pub data EventType : Type 0 where
  run_is : RunStatus → EventType
  run_accepted run_replayed run_restored approval_required : EventType

pub record RuntimeEvent : Type 0 where
  pub run_id : ℕ
  pub attempt_id : ℕ
  pub sequence : ℕ
  pub event_type : EventType

pub record AuditEvent : Type 0 where
  pub tenant_id : ℕ
  pub actor_id : Option ℕ
  pub action : String
  pub resource_id : ℕ
  pub outcome : String

pub record Checkpoint : Type 0 where
  pub run_id : ℕ
  pub tenant_id : ℕ
  pub version : ℕ

pub data ToolCallStatus : Type 0 where
  created pending_approval validating executing retry_scheduled : ToolCallStatus
  call_succeeded call_rejected call_expired permanently_failed call_timed_out : ToolCallStatus

pub ToolCallStatus-discrete : Discrete ToolCallStatus
ToolCallStatus-discrete = hlevel

pub data ApprovalStatus : Type 0 where
  pending approved rejected expired : ApprovalStatus

pub ApprovalStatus-discrete : Discrete ApprovalStatus
ApprovalStatus-discrete = hlevel

pub data Risk : Type 0 where
  low medium high critical : Risk

pub record ToolDefinition : Type 0 where
  pub id : ℕ
  pub tenant_id : ℕ
  pub name : String
  pub version : ℕ
  pub executor : String
  pub is_active : Bool
  pub side_effects : Bool
  pub risk_level : Risk
  pub input_schema : Fields
  pub output_schema : Fields
  pub manifest_json : Fields

pub record ToolCall : Type 0 where
  pub id : ℕ
  pub tenant_id : ℕ
  pub run_id : ℕ
  pub tool_definition_id : ℕ
  pub idempotency_key : String
  pub status : ToolCallStatus
  pub input_json : Fields
  pub output_json : Option Value
  pub error_code : Option Code
  pub attempt : ℕ
  pub started_at : Option ℕ
  pub finished_at : Option ℕ

pub record Snapshot : Type 0 where
  pub run_id : ℕ
  pub tenant_id : ℕ
  pub definition_json : Fields
  pub tool_policies : Value

pub record Approval : Type 0 where
  pub id : ℕ
  pub tenant_id : ℕ
  pub run_id : ℕ
  pub tool_call_id : ℕ
  pub status : ApprovalStatus
  pub decision_reason : Option String
  pub decided_by : Option ℕ
  pub token_hash : Option String
  pub snapshot_id : Option ℕ
  pub used_at : Option ℕ
  pub expires_at : ℕ
  pub created_at : ℕ

-- `status` takes the run's.
pub record WorkflowInstance : Type 0 where
  pub id : ℕ
  pub run_id : ℕ
  pub tenant_id : ℕ
  pub status : RunStatus
  pub output_json : Fields

pub data NodeStatus : Type 0 where
  node_running node_succeeded node_skipped node_waiting_approval : NodeStatus

-- A row of `workflow_nodes`: the state of a node in a run.
pub record WorkflowNode : Type 0 where
  pub tenant_id : ℕ
  pub workflow_id : ℕ
  pub node_key : String
  pub status : NodeStatus
  pub output_json : Value

pub record Quota : Type 0 where
  pub tenant_id : ℕ
  pub monthly_token_limit : ℕ
  pub monthly_cost_limit : ℕ
  pub max_concurrent_runs : ℕ
  pub max_workflow_runs_per_day : ℕ
  pub warning_percent : ℕ

pub record Db : Type 0 where
  pub runs : List Run
  pub snapshots : List Snapshot
  pub definitions : List ToolDefinition
  pub calls : List ToolCall
  pub approvals : List Approval
  pub checkpoints : List Checkpoint
  pub instances : List WorkflowInstance
  pub nodes : List WorkflowNode
  pub quotas : List Quota
  pub registry : Registry
  pub events : List RuntimeEvent
  pub audits : List AuditEvent
  pub now : ℕ
  pub next_id : ℕ

abbrev index : RunStatus → ℕ
index accepted = 0
index preparing = 1
index running = 2
index stopping = 3
index waiting_approval = 4
index completed = 5
index failed = 6
index cancelled = 7
index timed_out = 8
index budget_exceeded = 9

-- `status == other`
abbrev pub status_eq : RunStatus → RunStatus → Bool
status_eq s t = index s == index t

-- `status in {...}`
abbrev pub status_in : RunStatus → List RunStatus → Bool
status_in s [] = false
status_in s (t ∷ rest) = status_eq s t || status_in s rest

abbrev pub is_pending_call : ToolCallStatus → Bool
is_pending_call pending_approval = true
is_pending_call _ = false

abbrev pub is_pending : ApprovalStatus → Bool
is_pending pending = true
is_pending _ = false

-- Rows by primary key.
abbrev pub get_run : ℕ → Db → Option Run
get_run k db = find (λ (r : Run). r.id == k) db.runs

abbrev pub get_call : ℕ → Db → Option ToolCall
get_call k db = find (λ (c : ToolCall). c.id == k) db.calls

abbrev pub get_definition : ℕ → Db → Option ToolDefinition
get_definition k db = find (λ (d : ToolDefinition). d.id == k) db.definitions

abbrev pub get_approval : ℕ → Db → Option Approval
get_approval k db = find (λ (a : Approval). a.id == k) db.approvals

-- Writes of columns, by primary key. The column `updated_at` of a run has `onupdate=now_utc`: an
-- update of the row writes it too.
abbrev pub write_run : ℕ → (Run → Run) → Db → Db
write_run k f db = record db {
  runs =
      update_where (λ (r : Run). r.id == k) (λ (r : Run). record (f r) { updated_at = db.now })
        db.runs;
}

abbrev pub write_call : ℕ → (ToolCall → ToolCall) → Db → Db
write_call k f db = record db { calls = update_where (λ (c : ToolCall). c.id == k) f db.calls }

abbrev pub write_approval : ℕ → (Approval → Approval) → Db → Db
write_approval k f db = record db {
  approvals = update_where (λ (a : Approval). a.id == k) f db.approvals;
}

-- `record_audit` (app/audit.py), less the metadata
abbrev pub record_audit : ℕ → Option ℕ → String → ℕ → String → Db → Db
record_audit tenant actor action resource outcome db = record db {
  audits =
      db.audits
      ++ record {
        tenant_id = tenant;
        actor_id = actor;
        action = action;
        resource_id = resource;
        outcome = outcome;
      }
        ∷ [];
}
