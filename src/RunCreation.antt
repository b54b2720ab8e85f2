-- ===== src/RunCreation.antt =====
-- Accepting runs (app/main.py): `create_run`, with the quotas of the tenant and the kept responses,
-- and `create_workflow_instance`. Of its environment a request takes the time, what the JSON columns
-- hold, and the retrieval of a knowledge base. The queue is left out, which only wakes the worker,
-- and so is the case that another session keeps a response under the key before the commit.
pub mod Limits
pub mod Repeat
mod Tests
use general_agent_platform.Base.{
  ℕ, suc, ◌+◌, String, Bool, true, false, not, ◌&&◌, ◌||◌, Option, none, some, List, [], ◌∷◌, ◌++◌,
  ◌==◌, ltb, leb, if◌then◌else◌, length, select, find, is_none, Result, ok, err, Code, ◌>>=◌, ◌>>◌,
  raise_if, not_found, agent_version_not_published, tenant_concurrency_quota_exceeded,
  quota_exceeded, workflow_run_quota_exceeded, workflow_not_found,
}
use general_agent_platform.Json.{Value, array, object, Fields, end, Items, nil}
use general_agent_platform.Json.Redact.{redact_fields}
use general_agent_platform.Principal.{Principal}
use general_agent_platform.Db.{
  Db, Run, RunStatus, accepted, Usage, Budget, Snapshot, WorkflowInstance, Quota, status_in,
  run_accepted, record_audit,
}
use general_agent_platform.Agents.{
  Agent, AgentVersion, Registry, AgentStatus, published, live_agent, version_of,
}
use general_agent_platform.Quota.{TenantUsage, tenant_usage, active_statuses, is_active_of}
use general_agent_platform.Idempotency.{IdempotencyRecord, replay_or_reject, persist_response}
use general_agent_platform.Runs.{record_runtime_event}
use general_agent_platform.Json.Dict.{get_or, is_truthy}

-- The tables of the runs, and the kept responses.
pub record Store : Type 0 where
  pub db : Db
  pub records : List IdempotencyRecord

-- The body of the request, with its headers.
pub record RunCreate : Type 0 where
  pub agent_id : ℕ
  pub input : Fields
  pub workflow_id : Option ℕ
  pub idempotency_key : Option String
  pub fingerprint : String

pub record Surroundings : Type 0 where
  -- the first instants of the month and of the day
  pub month_start : ℕ
  pub day_start : ℕ
  -- `_SECRET_VALUE.sub`
  pub sub : (String → String) → String → String
  -- the column that keeps the budget of a definition
  pub budget_of : Value → Budget
  -- the input with the chunks that its knowledge base has for its query
  pub retrieve : Fields → Result Fields
  -- the body of a response
  pub response_of : Run → Fields

-- The agent's published version, of an agent that is published.
abbrev pub published_version : Principal → Agent → Registry → Option AgentVersion
published_version p agent registry = elim agent.status [
  | published ↦ version_of p agent.id agent.version registry
  | _ ↦ none
]

-- The columns of a new row of `tenant_quotas`.
abbrev pub default_quota : ℕ → Quota
default_quota tenant = record {
  tenant_id = tenant;
  monthly_token_limit = 0;
  monthly_cost_limit = 0;
  max_concurrent_runs = 10;
  max_workflow_runs_per_day = 0;
  warning_percent = 90;
}

abbrev pub quota_row : ℕ → Db → Option Quota
quota_row tenant db = find (λ (q : Quota). q.tenant_id == tenant) db.quotas

-- The tenant's quota, which gets a row if it has none.
unfoldable pub load_quota : ℕ → Db → Quota × Db
load_quota tenant db = elim (quota_row tenant db) [
  | some q ↦ (q, db)
  | none ↦ (default_quota tenant, record db { quotas = db.quotas ++ default_quota tenant ∷ [] })
]

-- `limit > 0 and used >= limit`
abbrev pub is_used_up : ℕ → ℕ → Bool
is_used_up limit used = ltb 0 limit && leb limit used

abbrev pub active_runs : ℕ → Db → ℕ
active_runs tenant db = length (select (is_active_of tenant) db.runs)

abbrev pub runs_since : ℕ → ℕ → Db → ℕ
runs_since start tenant db =
    length (select (λ (r : Run). r.tenant_id == tenant && leb start r.created_at) db.runs)

module _ (around : Surroundings) where
  unfoldable pub check_quota : Quota → ℕ → Db → Result (Unit {0})
  unfolding tenant_usage
  check_quota q tenant db =
      let usage = tenant_usage around.month_start tenant db in
      raise_if (is_used_up q.max_concurrent_runs (active_runs tenant db))
        tenant_concurrency_quota_exceeded
      >> raise_if (is_used_up q.monthly_token_limit usage.total_tokens) quota_exceeded
      >> raise_if (is_used_up q.monthly_cost_limit usage.cost) quota_exceeded
      >> raise_if (is_used_up q.max_workflow_runs_per_day (runs_since around.day_start tenant db))
          workflow_run_quota_exceeded

  -- The object of the snapshot has no key yet when the run takes it.
  abbrev pub new_run : Principal → Agent → AgentVersion → Fields → Db → Run
  new_run p agent version input db = record {
    id = db.next_id;
    tenant_id = p.tenant_id;
    agent_id = agent.id;
    status = accepted;
    attempt_id = suc db.next_id;
    snapshot_id = none;
    checkpoint_version = 0;
    updated_at = db.now;
    finished_at = none;
    created_at = db.now;
    created_by = p.user_id;
    input_json = redact_fields around.sub input;
    output_json = end;
    usage = record { prompt_tokens = 0; completion_tokens = 0; total_tokens = 0 };
    cost = 0;
    budget = around.budget_of (get_or "budget" version.definition (object end));
    event_sequence = none;
  }

  abbrev pub new_snapshot : Run → AgentVersion → Snapshot
  new_snapshot run version = record {
    run_id = run.id;
    tenant_id = run.tenant_id;
    definition_json = version.definition;
    tool_policies = get_or "tool_policies" version.definition (array nil);
  }

  -- `payload.workflow_id or definition.get("workflow")`
  abbrev pub has_workflow : RunCreate → AgentVersion → Bool
  has_workflow payload version =
      not (is_none payload.workflow_id)
      || is_truthy (get_or "workflow" version.definition (array nil))

  abbrev pub new_instances : RunCreate → Run → AgentVersion → Db → List WorkflowInstance
  new_instances payload run version db =
      if has_workflow payload version
      then record {
        id = db.next_id;
        run_id = run.id;
        tenant_id = run.tenant_id;
        status = accepted;
        output_json = end;
      }
        ∷ []
      else []

  -- The rows of an accepted run, its trail, and its first event.
  unfoldable pub add_run : Principal → Agent → AgentVersion → RunCreate → Fields → Db → Run × Db
  unfolding record_runtime_event
  add_run p agent version payload input db =
      let run = new_run p agent version input db in
      let db1 = record db { next_id = suc (suc db.next_id) } in
      let db2 = record db1 {
        runs = db1.runs ++ run ∷ [];
        snapshots = db1.snapshots ++ new_snapshot run version ∷ [];
        instances = db1.instances ++ new_instances payload run version db1;
        next_id = suc db1.next_id;
      } in
      record_runtime_event run run_accepted
        (record_audit p.tenant_id (some p.user_id) "run.accepted" run.id "success" db2)

  -- What is stored, and the response that is kept.
  unfoldable pub accept_run :
      Principal → Agent → AgentVersion → RunCreate → Fields → Store → Fields × Store
  unfolding add_run persist_response
  accept_run p agent version payload input store =
      let (run, db') = add_run p agent version payload input store.db in
      let response = around.response_of run in
      (
        response,
        record {
          db = db';
          records =
              persist_response p.tenant_id payload.idempotency_key payload.fingerprint 202 response
                "run" run.id store.records;
        },
      )

  -- From the agent's version on. A raise stores nothing, the row of the quota neither.
  unfoldable pub create_from :
      Principal → Agent → AgentVersion → RunCreate → Store → Result (Fields × Store)
  unfolding accept_run check_quota load_quota
  create_from p agent version payload store =
      let (q, db1) = load_quota p.tenant_id store.db in
      check_quota q p.tenant_id db1
      >> (around.retrieve payload.input >>= λ input.
          ok (accept_run p agent version payload input (record store { db = db1 })))

  -- What the request makes when there is no response to give again.
  unfoldable pub create_new : Principal → RunCreate → Store → Result (Fields × Store)
  unfolding create_from
  create_new p payload store = elim (live_agent p payload.agent_id store.db.registry) [
    | none ↦ err not_found
    | some agent ↦ elim (published_version p agent store.db.registry) [
      | none ↦ err agent_version_not_published
      | some version ↦ create_from p agent version payload store
    ]
  ]

  abbrev pub replayed : Option Fields → Store → Result (Fields × Store) → Result (Fields × Store)
  replayed none store next = next
  replayed (some response) store next = ok (response, store)

  unfoldable pub create_run : Principal → RunCreate → Store → Result (Fields × Store)
  unfolding create_new replay_or_reject
  create_run p payload store =
      replay_or_reject p.tenant_id payload.idempotency_key payload.fingerprint store.records
      >>= λ replay. replayed replay store (create_new p payload store)

  -- `create_workflow_instance`: a run of the agent, which has a workflow. The request has the body of
  -- the run that it creates.
  unfoldable pub create_workflow_instance : Principal → RunCreate → Store → Result (Fields × Store)
  unfolding create_run
  create_workflow_instance p payload store =
      elim (live_agent p payload.agent_id store.db.registry) [
        | none ↦ err workflow_not_found
        | some agent ↦
            if is_truthy (get_or "workflow" agent.definition (array nil))
            then create_run p (record payload { workflow_id = some agent.id }) store
            else err workflow_not_found
      ]
