-- ===== src/ToolApi.antt =====
-- The tools that a tenant registers, and their versions (app/main.py): `create_tool`, `update_tool`,
-- `rollback_tool` and `delete_tool`. The audit trail is left out. A commit that the constraints of
-- the tables refuse is a conflict, and stores nothing; the flush of a new tool that they refuse
-- raises an exception that nothing catches.
pub mod Entries
pub mod History
pub mod Creation
mod Tests
use general_agent_platform.Base.{
  ℕ, suc, ◌+◌, String, Bool, true, false, not, ◌&&◌, ◌||◌, Option, none, some, List, [], ◌∷◌, ◌++◌,
  ◌==◌, if◌then◌else◌, any, find, update_where, is_none, str_eq, Result, ok, err, Code, ◌>>=◌, ◌>>◌,
  raise_if, forbidden, not_found, precondition_required, precondition_failed, version_not_found,
  conflict, integrity_error,
}
use general_agent_platform.Json.{Fields, end, field}
use general_agent_platform.Principal.{Principal, is_admin}
use general_agent_platform.Db.{Risk}
use general_agent_platform.Agents.{IfMatch, is_blank, is_match}
use general_agent_platform.SkillSdk.{
  Checks, validate_manifest, validate_capabilities, validate_tool_schemas,
}

-- The columns that the tables of tools and of their versions share.
pub record Contents : Type 0 where
  pub name : String
  pub description : String
  pub executor : String
  pub input_schema : Fields
  pub output_schema : Fields
  pub side_effects : Bool
  pub risk_level : Risk
  pub timeout_ms : ℕ
  pub manifest_json : Fields
  pub capabilities_json : Fields
  pub content_digest : Option String
  pub signature_status : String

pub record Tool : Type 0 where
  pub id : ℕ
  pub tenant_id : ℕ
  pub version : ℕ
  pub contents : Contents
  pub is_active : Bool
  pub created_by : ℕ

pub record ToolVersion : Type 0 where
  pub tenant_id : ℕ
  pub tool_definition_id : ℕ
  pub version : ℕ
  pub contents : Contents
  pub created_by : ℕ

pub record Catalog : Type 0 where
  pub tools : List Tool
  pub versions : List ToolVersion
  pub next_id : ℕ

pub record ToolCreate : Type 0 where
  pub name : String
  pub description : String
  pub executor : String
  pub input_schema : Fields
  pub output_schema : Fields
  pub side_effects : Bool
  pub risk_level : Risk
  pub timeout_ms : ℕ
  pub manifest : Fields
  pub capabilities : Fields

-- A field that is not set, or is null, changes nothing.
pub record ToolUpdate : Type 0 where
  pub name : Option String
  pub description : Option String
  pub executor : Option String
  pub input_schema : Option Fields
  pub output_schema : Option Fields
  pub side_effects : Option Bool
  pub risk_level : Option Risk
  pub timeout_ms : Option ℕ

abbrev pub snapshot_tool : Tool → ℕ → ToolVersion
snapshot_tool tool actor = record {
  tenant_id = tool.tenant_id;
  tool_definition_id = tool.id;
  version = tool.version;
  contents = tool.contents;
  created_by = actor;
}

-- The constraint `uq_tools_tenant_name_version`.
abbrev pub clashes_tool : Tool → Catalog → Bool
clashes_tool tool catalog =
    any
      (λ (t : Tool).
        not (t.id == tool.id)
        && t.tenant_id == tool.tenant_id
        && str_eq t.contents.name tool.contents.name
        && t.version == tool.version)
      catalog.tools

-- The constraint `uq_tool_versions_tool_version`.
abbrev pub clashes_version : Tool → Catalog → Bool
clashes_version tool catalog =
    any (λ (v : ToolVersion). v.tool_definition_id == tool.id && v.version == tool.version)
      catalog.versions

abbrev pub clashes : Tool → Catalog → Bool
clashes tool catalog = clashes_tool tool catalog || clashes_version tool catalog

-- The commit of a tool with the snapshot of its version, where `catalog'` has the row of the tool.
unfoldable pub commit_tool : Tool → ℕ → Catalog → Catalog → Result Tool × Catalog
commit_tool tool actor catalog catalog' =
    if clashes tool catalog then (err conflict, catalog) else (
      ok tool,
      record catalog' { versions = catalog'.versions ++ snapshot_tool tool actor ∷ [] },
    )

abbrev pub write_tool : Tool → Catalog → Catalog
write_tool tool catalog = record catalog {
  tools =
      update_where (λ (t : Tool). t.id == tool.id)
        (λ (t : Tool). record t {
          version = tool.version;
          contents = tool.contents;
          is_active = tool.is_active;
        })
        catalog.tools;
}

abbrev pub live_tool : Principal → ℕ → Catalog → Option Tool
live_tool p k catalog =
    find (λ (t : Tool). t.id == k && (t.tenant_id == p.tenant_id && t.is_active)) catalog.tools

abbrev is_empty_dict : Fields → Bool
is_empty_dict end = true
is_empty_dict (field k v fs) = false

abbrev pub or_old {ℓ} : {A : Type ℓ} → Option A → A → A
or_old none old = old
or_old (some new) old = new

-- `If-Match` is there, and has the version of the tool.
abbrev pub check_match : IfMatch → Tool → Result (Unit {0})
check_match if_match tool =
    raise_if (is_blank if_match) precondition_required
    >> raise_if (not (is_match if_match tool.version)) precondition_failed

-- What is done with the tool that the request names, by an administrator.
abbrev pub with_tool :
    Principal → ℕ → Catalog → (Tool → Result Tool × Catalog) → Result Tool × Catalog
with_tool p k catalog next =
    if not (is_admin p.role)
    then (err forbidden, catalog)
    else elim (live_tool p k catalog) [ none ↦ (err not_found, catalog) | some tool ↦ next tool ]

abbrev pub raised_or :
    {A : Type 0} → Result A → Catalog → (A → Result Tool × Catalog) → Result Tool × Catalog
raised_or (err e) catalog next = (err e, catalog)
raised_or (ok v) catalog next = next v

module _ (checks : Checks) where
  abbrev pub checked_manifest : Fields → Result Fields
  checked_manifest manifest =
      if is_empty_dict manifest then ok end else validate_manifest checks manifest

  abbrev pub digest_of : Fields → Fields → Fields → Option String
  digest_of manifest input output =
      if is_empty_dict manifest then none else some (checks.content_digest manifest input output)

  abbrev pub new_tool : Principal → ToolCreate → Fields → Catalog → Tool
  new_tool p payload manifest catalog = record {
    id = catalog.next_id;
    tenant_id = p.tenant_id;
    version = 1;
    contents = record {
      name = payload.name;
      description = payload.description;
      executor = payload.executor;
      input_schema = payload.input_schema;
      output_schema = payload.output_schema;
      side_effects = payload.side_effects;
      risk_level = payload.risk_level;
      timeout_ms = payload.timeout_ms;
      manifest_json = manifest;
      capabilities_json = payload.capabilities;
      content_digest = digest_of manifest payload.input_schema payload.output_schema;
      signature_status = "unsigned";
    };
    is_active = true;
    created_by = p.user_id;
  }

  -- The checks of a new tool, which give its manifest.
  unfoldable pub check_new : ToolCreate → Result Fields
  unfolding validate_manifest validate_capabilities validate_tool_schemas
  check_new payload = checked_manifest payload.manifest >>= λ manifest.
      validate_capabilities checks payload.capabilities >>= λ capabilities.
      validate_tool_schemas checks payload.input_schema payload.output_schema >> ok manifest

  -- The row of the tool is flushed before the `try` of the commit: an exception of that flush is not
  -- caught.
  unfoldable pub create_tool : Principal → ToolCreate → Catalog → Result Tool × Catalog
  unfolding check_new commit_tool
  create_tool p payload catalog =
      if not (is_admin p.role)
      then (err forbidden, catalog)
      else raised_or (check_new payload) catalog (λ manifest.
        let tool = new_tool p payload manifest catalog in
        if clashes_tool tool catalog
        then (err integrity_error, catalog)
        else commit_tool tool p.user_id catalog
            (record catalog { tools = catalog.tools ++ tool ∷ []; next_id = suc catalog.next_id }))

  -- The columns after an update. A tool with a manifest gets a new digest, and loses its signature.
  abbrev pub updated_contents : ToolUpdate → Contents → Contents
  updated_contents payload c =
      let input = or_old payload.input_schema c.input_schema in
      let output = or_old payload.output_schema c.output_schema in
      record {
        name = or_old payload.name c.name;
        description = or_old payload.description c.description;
        executor = or_old payload.executor c.executor;
        input_schema = input;
        output_schema = output;
        side_effects = or_old payload.side_effects c.side_effects;
        risk_level = or_old payload.risk_level c.risk_level;
        timeout_ms = or_old payload.timeout_ms c.timeout_ms;
        manifest_json = c.manifest_json;
        capabilities_json = c.capabilities_json;
        content_digest =
            if is_empty_dict c.manifest_json
            then c.content_digest
            else some (checks.content_digest c.manifest_json input output);
        signature_status = if is_empty_dict c.manifest_json then c.signature_status else "unsigned";
      }

  -- The next version of a tool, with these contents.
  unfoldable pub commit_next : Principal → Tool → Contents → Catalog → Result Tool × Catalog
  unfolding commit_tool
  commit_next p tool contents catalog =
      let next = record tool { version = tool.version + 1; contents = contents } in
      commit_tool next p.user_id catalog (write_tool next catalog)

  unfoldable pub update_tool :
      Principal → ℕ → ToolUpdate → IfMatch → Catalog → Result Tool × Catalog
  unfolding commit_next validate_tool_schemas
  update_tool p k payload if_match catalog = with_tool p k catalog (λ tool.
      raised_or
        (check_match if_match tool
          >> validate_tool_schemas checks (or_old payload.input_schema tool.contents.input_schema)
              (or_old payload.output_schema tool.contents.output_schema))
        catalog (λ passed. commit_next p tool (updated_contents payload tool.contents) catalog))

  abbrev pub version_row : Principal → ℕ → ℕ → Catalog → Option ToolVersion
  version_row p k n catalog =
      find
        (λ (v : ToolVersion).
          v.tool_definition_id == k && v.tenant_id == p.tenant_id && v.version == n)
        catalog.versions

  unfoldable pub rollback_tool :
      Principal → ℕ → (version : ℕ) → IfMatch → Catalog → Result Tool × Catalog
  unfolding commit_next
  rollback_tool p k n if_match catalog = with_tool p k catalog (λ tool.
      raised_or (check_match if_match tool) catalog (λ passed. elim (version_row p k n catalog) [
        | none ↦ (err version_not_found, catalog)
        | some target ↦ commit_next p tool target.contents catalog
      ]))

  unfoldable pub delete_tool : Principal → ℕ → Catalog → Result Tool × Catalog
  delete_tool p k catalog = with_tool p k catalog (λ tool.
      let archived = record tool { is_active = false } in
      (ok archived, write_tool archived catalog))
