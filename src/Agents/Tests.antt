-- ===== src/Agents/Tests.antt =====
-- An agent that was published, changed, and rolled back.
use general_agent_platform.Base.{
  ◌≡◌, refl, ap, String, none, some, [], ◌∷◌, ok, err, precondition_failed,
}
use general_agent_platform.Json.{Fields, text, end, field}
use general_agent_platform.Agents.{
  Agent, AgentVersion, Registry, AgentUpdate, number_text, draft, update_agent, rollback_agent,
  roll_back, updated,
}
use general_agent_platform.Agents.Versions.{IsFresh, rollback_agent-IsFresh, update_agent_once}
use general_agent_platform.Samples.{operator}

abbrev digest : Fields → String
digest definition = "digest"

abbrev agent : Agent
agent = record {
  id = 50;
  tenant_id = 1;
  name = "helper";
  definition = field "model" (text "new") end;
  status = draft;
  version = 3;
  updated_by = 100;
  deleted_at = none;
}

abbrev first : AgentVersion
first = record {
  tenant_id = 1;
  agent_id = 50;
  version = 1;
  definition = field "model" (text "old") end;
  content_digest = "digest";
  published_by = 100;
}

abbrev registry : Registry
registry = record { agents = agent ∷ []; versions = first ∷ []; now = 7 }

abbrev back : AgentVersion × Registry
back = roll_back digest operator agent first registry

rolls_back : rollback_agent digest operator 50 1 registry ≡ (ok back.0, back.1)
unfolding rollback_agent
rolls_back = refl

rollback_agent-IsFresh_example :
    IsFresh registry back.0 (rollback_agent digest operator 50 1 registry).1
rollback_agent-IsFresh_example =
    rollback_agent-IsFresh digest operator 50 1 registry back.0 refl (ap (λ r. r.0) rolls_back)

abbrev payload : AgentUpdate
payload = record { name = some "other"; definition = none }

abbrev renamed : Agent
renamed = updated operator payload 3 agent

updates :
    update_agent operator 50 payload (number_text 3) registry
    ≡ (ok renamed, record registry { agents = renamed ∷ [] })
unfolding update_agent
updates = refl

-- Another change, prepared from the same version.
update_agent_once_example :
    let after = record registry { agents = renamed ∷ [] } in
    update_agent operator 50 (record { name = none; definition = some end }) (number_text 3) after
    ≡ (err precondition_failed, after)
update_agent_once_example =
    update_agent_once operator operator 50 payload (record { name = none; definition = some end })
      (number_text 3) renamed registry (record registry { agents = renamed ∷ [] }) refl refl updates
