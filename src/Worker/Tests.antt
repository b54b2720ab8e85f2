-- ===== src/Worker/Tests.antt =====
-- A run whose agent has a small workflow, a model that fails, and the theorems at them.
use general_agent_platform.Base.{
  ℕ, zero, suc, String, ◌≡◌, refl, Bool, true, false, Option, none, some, List, [], ◌∷◌, ◌++◌,
  arith, Result, ok, err, Code, model_provider_transient,
}
use general_agent_platform.Json.{text, array, object, nil, cons, Fields, end, field}
use general_agent_platform.Db.{Db, Run, accepted, RunStatus, completed}
use general_agent_platform.Agents.{Agent, draft}
use general_agent_platform.Runs.{transition_run, transitions}
use general_agent_platform.Workflow.{
  validate_workflow, validate_node, kahn, visit_children, children, degree, decrement, rounds,
  sort_by_key,
}
use general_agent_platform.Workflow.Condition.{found}
use general_agent_platform.Worker.Provider.{
  Provider, Request, IsOutage, serve_requests, refusals, outage_opens_circuit,
}
use general_agent_platform.Worker.Steps.{Host}
use general_agent_platform.Worker.Claim.{process_claimed_run}
use general_agent_platform.Worker.Recovery.{recover_stuck_runs, recover_approval_waiting}
use general_agent_platform.Worker.Recovered.{recover, recover_idempotent}
use general_agent_platform.Samples.{sample_db, run_at, lenient, same_text, sum_input}

-- Takes its answers from the attempt: the first fails.
abbrev flaky : Provider
flaky = record {
  max_retries = 2;
  threshold = 2;
  input_price = 1;
  output_price = 2;
  complete = λ attempt prompt context. elim attempt [
    | zero ↦ err model_provider_transient
    | suc n ↦ ok (field "text" (text prompt) end, 3, 4, none)
  ];
}

abbrev host : Host
host = record {
  tools = lenient;
  engine = λ pattern subject. found true;
  provider = flaky;
  str = λ v. elim v [ text t ↦ t | _ ↦ "" ];
  replace_prompt = λ prompt value. prompt;
  call_key = λ definition input run. "workflow-call-key";
  sha256 = same_text;
  token = λ n. "fresh";
  id_of = λ v. 0;
  month_start = 0;
}

abbrev ask_node : Fields
ask_node =
    field "key" (text "ask") (field "type" (text "model") (field "prompt" (text "How much?") end))

abbrev sum_node : Fields
sum_node = field "key" (text "sum") (
    field "type" (text "tool") (
      field "tool_name" (text "add") (
        field "input" (object sum_input) (field "depends_on" (array (cons (text "ask") nil)) end))))

abbrev workflow : Fields
workflow = field "workflow" (array (cons (object sum_node) (cons (object ask_node) nil))) end

abbrev agent : Agent
agent = record {
  id = 50;
  tenant_id = 1;
  name = "helper";
  definition = workflow;
  status = draft;
  version = 1;
  updated_by = 100;
  deleted_at = none;
}

abbrev queued_run : Run
queued_run = run_at 14 1 accepted

abbrev worker_db : Db
worker_db = record sample_db {
  runs = queued_run ∷ sample_db.runs;
  registry = record { agents = agent ∷ []; versions = []; now = 500 };
}

abbrev code_text : Code → String
code_text code = "error"

abbrev status_of : Result (Run × Db) → Option RunStatus
status_of (ok (run, db)) = some run.status
status_of (err e) = none

-- The model answers in its second attempt, the tool adds, and the run completes.
completes :
    status_of (process_claimed_run code_text same_text host 0 queued_run worker_db) ≡ some completed
unfolding process_claimed_run transition_run transitions validate_workflow validate_node kahn
    visit_children children degree decrement rounds sort_by_key
completes = refl

-- No lock is taken.
abbrev no_lock : ℕ → Bool
no_lock k = false

abbrev unanswered : Request
unanswered = record { prompt = "a"; context = end; answer = λ n. err model_provider_transient }

abbrev outage : List Request
outage = unanswered ∷ unanswered ∷ []

abbrev later : List Request
later = record { prompt = "b"; context = end; answer = λ n. ok (end, 1, 1, none) } ∷ []

outage-IsOutage : IsOutage flaky outage
outage-IsOutage = (
  (λ n. (model_provider_transient, refl, refl)),
  ((λ n. (model_provider_transient, refl, refl)), tt),
)

outage_opens_circuit_example :
    let (failures, results) = serve_requests flaky 0 outage in
    serve_requests flaky 0 (outage ++ later) ≡ (failures, results ++ refusals flaky later)
outage_opens_circuit_example = outage_opens_circuit flaky outage later outage-IsOutage (omega arith)

-- A run was lost 500 seconds ago, with no lock, and another one waits.
recover_idempotent_example :
    let once = recover no_lock 100 sample_db in
    (recover_stuck_runs no_lock 100 once ≡ (0, once)) × (recover_approval_waiting once ≡ (0, once))
recover_idempotent_example = recover_idempotent no_lock 100 sample_db
