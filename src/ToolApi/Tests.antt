-- ===== src/ToolApi/Tests.antt =====
-- A tool that is registered, changed and rolled back, and the theorems at it.
use general_agent_platform.Base.{
  ◌≡◌, refl, String, true, false, Option, none, some, List, [], ◌∷◌, map, Result, ok, err,
}
use general_agent_platform.Base.Int.{pos}
use general_agent_platform.Json.{end}
use general_agent_platform.Db.{low}
use general_agent_platform.Agents.{number_text}
use general_agent_platform.SkillSdk.{Checks}
use general_agent_platform.ToolApi.{
  Contents, Tool, Catalog, ToolCreate, ToolUpdate, snapshot_tool, create_tool,
}
use general_agent_platform.ToolApi.Entries.{Tracks}
use general_agent_platform.ToolApi.History.{
  update, rollback, Requests, serve_changes, extended_all, AreAnswers, serve_changes_refines,
}
use general_agent_platform.ToolApi.Creation.{Starts, create_tool-Starts}
use general_agent_platform.Samples.{operator}

abbrev checks : Checks
checks = record {
  strip = λ s. s;
  is_semver = λ v. true;
  int_of = λ v. ok (pos 100);
  is_schema = λ schema. true;
  content_digest = λ manifest input output. "digest";
}

abbrev payload : ToolCreate
payload = record {
  name = "add";
  description = "Adds.";
  executor = "builtin.add";
  input_schema = end;
  output_schema = end;
  side_effects = false;
  risk_level = low;
  timeout_ms = 5000;
  manifest = end;
  capabilities = end;
}

abbrev empty_catalog : Catalog
empty_catalog = record { tools = []; versions = []; next_id = 1 }

create_tool-Starts_example :
    Starts checks operator payload empty_catalog (create_tool checks operator payload empty_catalog)
create_tool-Starts_example =
    create_tool-Starts checks operator payload empty_catalog (tt, refl, refl)

abbrev first_contents : Contents
first_contents = record {
  name = "add";
  description = "Adds.";
  executor = "builtin.add";
  input_schema = end;
  output_schema = end;
  side_effects = false;
  risk_level = low;
  timeout_ms = 5000;
  manifest_json = end;
  capabilities_json = end;
  content_digest = none;
  signature_status = "unsigned";
}

abbrev adder : Tool
adder = record {
  id = 1;
  tenant_id = 1;
  version = 1;
  contents = first_contents;
  is_active = true;
  created_by = 100;
}

abbrev catalog : Catalog
catalog = record { tools = adder ∷ []; versions = snapshot_tool adder 100 ∷ []; next_id = 2 }

creates : create_tool checks operator payload empty_catalog ≡ (ok adder, catalog)
unfolding create_tool
creates = refl

abbrev renaming : ToolUpdate
renaming = record {
  name = some "sum";
  description = none;
  executor = none;
  input_schema = none;
  output_schema = none;
  side_effects = none;
  risk_level = none;
  timeout_ms = none;
}

-- The last request still has the old version in its header.
abbrev requests : Requests
requests =
    (operator, update renaming, number_text 1)
    ∷ (operator, rollback 1, number_text 2)
    ∷ (operator, rollback 2, number_text 2)
    ∷ []

abbrev names : List (Result Tool) → List (Option String)
names replies =
    map (λ (r : Result Tool). elim r [ ok t ↦ some t.contents.name | err e ↦ none ]) replies

renames_and_returns :
    names (serve_changes checks 1 requests catalog).0 ≡ some "sum" ∷ some "add" ∷ none ∷ []
unfolding serve_changes
renames_and_returns = refl

serve_changes_refines_example :
    let (replies, final) = serve_changes checks 1 requests catalog in
    Tracks final 1 (extended_all checks 1 replies (first_contents ∷ []))
    × AreAnswers checks 1 requests replies (first_contents ∷ [])
serve_changes_refines_example =
    serve_changes_refines checks 1 requests (first_contents ∷ []) catalog
      ((refl, tt), (adder, refl, refl, refl, refl))
