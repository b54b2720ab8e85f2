-- ===== src/RunCreation/Tests.antt =====
-- A request to create a run, and the theorems at it.
use general_agent_platform.Base.{◌≡◌, refl, none, some, [], ◌∷◌, Result, ok, err}
use general_agent_platform.Json.{text, Fields, end, field}
use general_agent_platform.Db.{Quota}
use general_agent_platform.Agents.{Agent, AgentVersion, published}
use general_agent_platform.RunCreation.{Store, RunCreate, Surroundings, create_run}
use general_agent_platform.RunCreation.Limits.{IsWithin, create_run-IsWithin}
use general_agent_platform.RunCreation.Repeat.{create_run_twice}
use general_agent_platform.Samples.{operator, sample_db}

abbrev helper : Agent
helper = record {
  id = 50;
  tenant_id = 1;
  name = "helper";
  definition = end;
  status = published;
  version = 1;
  updated_by = 100;
  deleted_at = none;
}

abbrev first_version : AgentVersion
first_version = record {
  tenant_id = 1;
  agent_id = 50;
  version = 1;
  definition = end;
  content_digest = "digest";
  published_by = 100;
}

-- Two runs of the tenant are active, and a third one may be.
abbrev quota : Quota
quota = record {
  tenant_id = 1;
  monthly_token_limit = 0;
  monthly_cost_limit = 0;
  max_concurrent_runs = 3;
  max_workflow_runs_per_day = 20;
  warning_percent = 90;
}

abbrev store : Store
store = record {
  db = record sample_db {
    quotas = quota ∷ [];
    registry = record { agents = helper ∷ []; versions = first_version ∷ []; now = 500 };
  };
  records = [];
}

abbrev around : Surroundings
around = record {
  month_start = 0;
  day_start = 0;
  sub = λ replace s. s;
  budget_of = λ v. record { max_tokens = 0; max_cost = 0 };
  retrieve = λ input. ok input;
  response_of = λ run. field "status" (text "accepted") end;
}

abbrev payload : RunCreate
payload = record {
  agent_id = 50;
  input = end;
  workflow_id = none;
  idempotency_key = some "create-key-00000";
  fingerprint = "hash";
}

abbrev result : Result (Fields × Store)
result = create_run around operator payload store

abbrev store_of : Result (Fields × Store) → Store
store_of (ok (response, s)) = s
store_of (err e) = store

creates : result ≡ ok (field "status" (text "accepted") end, store_of result)
unfolding create_run
creates = refl

create_run-IsWithin_example : IsWithin around 1 quota (store_of result)
create_run-IsWithin_example =
    create_run-IsWithin around operator quota payload store (store_of result)
      (field "status" (text "accepted") end) (refl, refl, refl) creates

create_run_twice_example :
    create_run around operator payload (store_of result)
    ≡ ok (field "status" (text "accepted") end, store_of result)
create_run_twice_example =
    create_run_twice around operator payload store (store_of result)
      (field "status" (text "accepted") end) "create-key-00000" refl refl creates
