-- ===== src/Samples.antt =====
-- A small database, for the tests.
use general_agent_platform.Base.{ℕ, String, true, false, none, some, [], ◌∷◌, ok, err, type_error}
use general_agent_platform.Base.Int.{pos}
use general_agent_platform.Json.{number, text, Fields, end, field, array, object, text, nil, cons}
use general_agent_platform.Principal.{Principal, admin}
use general_agent_platform.Db.{
  Db, Run, RunStatus, running, waiting_approval, ToolDefinition, low, ToolCall, created,
  pending_approval, Approval, pending, cancelled,
}
use general_agent_platform.Tools.{Environment}
use general_agent_platform.Approvals.{Decision}

abbrev pub operator : Principal
operator = record { user_id = 100; tenant_id = 1; role = admin; session_id = none }

abbrev pub run_at : ℕ → ℕ → RunStatus → Run
run_at id tenant status = record {
  id = id;
  tenant_id = tenant;
  agent_id = 50;
  status = status;
  attempt_id = 20;
  snapshot_id = some 30;
  checkpoint_version = 2;
  updated_at = 0;
  finished_at = none;
  created_at = 0;
  created_by = 100;
  input_json = end;
  output_json = end;
  usage = record { prompt_tokens = 0; completion_tokens = 0; total_tokens = 0 };
  cost = 0;
  budget = record { max_tokens = 0; max_cost = 0 };
  event_sequence = none;
}

abbrev pub running_run : Run
running_run = run_at 10 1 running

abbrev pub waiting_run : Run
waiting_run = run_at 11 1 waiting_approval

abbrev pub ended_run : Run
ended_run = run_at 12 1 cancelled

abbrev pub foreign_run : Run
foreign_run = run_at 13 2 running

abbrev pub adder : ToolDefinition
adder = record {
  id = 40;
  tenant_id = 1;
  name = "add";
  version = 1;
  executor = "builtin.add";
  is_active = true;
  side_effects = false;
  risk_level = low;
  input_schema = field "type" (text "object") end;
  output_schema = end;
  manifest_json = field "maxAttempts" (number (pos 3)) end;
}

abbrev pub sum_input : Fields
sum_input = field "left" (number (pos 2)) (field "right" (number (pos 3)) end)

abbrev pub sum_call : ToolCall
sum_call = record {
  id = 60;
  tenant_id = 1;
  run_id = 10;
  tool_definition_id = 40;
  idempotency_key = "first-key-000000";
  status = created;
  input_json = sum_input;
  output_json = none;
  error_code = none;
  attempt = 1;
  started_at = none;
  finished_at = none;
}

abbrev pub waiting_call : ToolCall
waiting_call = record sum_call {
  id = 61;
  run_id = 11;
  idempotency_key = "second-key-00000";
  status = pending_approval;
}

abbrev pub approval : Approval
approval = record {
  id = 70;
  tenant_id = 1;
  run_id = 11;
  tool_call_id = 61;
  status = pending;
  decision_reason = none;
  decided_by = none;
  token_hash = some "token";
  snapshot_id = some 30;
  used_at = none;
  expires_at = 1000;
  created_at = 100;
}

abbrev pub sample_db : Db
sample_db = record {
  runs = running_run ∷ waiting_run ∷ ended_run ∷ foreign_run ∷ [];
  snapshots =
      record {
        run_id = 10;
        tenant_id = 1;
        definition_json = end;
        tool_policies = array (cons (object (field "tool" (text "*") end)) nil);
      }
      ∷ [];
  definitions = adder ∷ [];
  calls = sum_call ∷ waiting_call ∷ [];
  approvals = approval ∷ [];
  checkpoints = record { run_id = 10; tenant_id = 1; version = 2 } ∷ [];
  instances =
      record { id = 80; run_id = 11; tenant_id = 1; status = waiting_approval; output_json = end }
      ∷ [];
  nodes = [];
  quotas = [];
  registry = record { agents = []; versions = []; now = 500 };
  events = [];
  audits = [];
  now = 500;
  next_id = 900;
}

-- The same, past the time of its approval.
abbrev pub late_db : Db
late_db = record sample_db { now = 1000 }

-- Every schema is one and takes every value, and no executor is slow.
abbrev pub lenient : Environment
lenient = record {
  is_schema = λ schema. true;
  accepts = λ schema value. true;
  is_slow = λ n. false;
  int_of = λ v. elim v [ number z ↦ ok z | _ ↦ err type_error ];
  code_text = λ code. "TOOL_FAILED";
  sub = λ replace s. s;
}

abbrev pub approve : Decision
approve = record { approves = true; reason = none; token = "token" }

-- A digest that changes nothing, and no other session.
abbrev pub same_text : String → String
same_text s = s

abbrev pub nothing : Db → Db
nothing db = db
