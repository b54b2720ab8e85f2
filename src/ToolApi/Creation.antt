-- ===== src/ToolApi/Creation.antt =====
-- A new tool (`create_tool`, app/main.py) starts a history.
use general_agent_platform.Base.{
  ℕ, suc, ◌≡◌, refl, ap, ◌∙◌, true, false, some, List, [], ◌∷◌, ◌++◌, arith, ◌==◌, ==-refl, all,
  find, Result, ok, err, Bool-cases, inl, inr, ltb, conflict, integrity_error, if_holds,
  if◌then◌else◌,
}
use general_agent_platform.Json.{Fields}
use general_agent_platform.Principal.{Principal, is_admin}
use general_agent_platform.Db.Rows.{UniqueKeys, has_key}
use general_agent_platform.SkillSdk.{Checks}
use general_agent_platform.ToolApi.{
  Tool, ToolVersion, Catalog, ToolCreate, clashes_tool, clashes, commit_tool, snapshot_tool,
  new_tool, check_new, create_tool, raised_or,
}
use general_agent_platform.ToolApi.Entries.{history, history-append, tool_key, Tracks}

-- The keys in use are below the next one, and no two tools have the same.
abbrev pub IsCatalog : Catalog → Type 0
IsCatalog catalog =
    UniqueKeys tool_key catalog.tools
    × (all (λ (t : Tool). ltb t.id catalog.next_id) catalog.tools ≡ true)
    × (all (λ (v : ToolVersion). ltb v.tool_definition_id catalog.next_id) catalog.versions ≡ true)

find-new :
    (k : ℕ) (tools : List Tool) (t : Tool)
    → all (λ (x : Tool). ltb x.id k) tools ≡ true
    → t.id ≡ k
    → find (λ (x : Tool). x.id == k) (tools ++ t ∷ []) ≡ some t
find-new k [] t h own = ground (arith, ==-refl k)
find-new k (x ∷ tools) t h own = ground (arith, find-new k tools t)

has_key-new :
    (j k : ℕ) (tools : List Tool) (t : Tool)
    → has_key tool_key j tools ≡ false
    → ltb j k ≡ true
    → t.id ≡ k
    → has_key tool_key j (tools ++ t ∷ []) ≡ false
has_key-new j k [] t h less own = ground arith
has_key-new j k (x ∷ tools) t h less own = ground (arith, has_key-new j k tools t)

UniqueKeys-new :
    (k : ℕ) (tools : List Tool) (t : Tool)
    → UniqueKeys tool_key tools
    → all (λ (x : Tool). ltb x.id k) tools ≡ true
    → t.id ≡ k
    → UniqueKeys tool_key (tools ++ t ∷ [])
UniqueKeys-new k [] t u h own = (refl, tt)
UniqueKeys-new k (x ∷ tools) t u h own = (
  has_key-new x.id k tools t u.0 (ground arith) own,
  UniqueKeys-new k tools t u.1 (ground arith) own,
)

history-new :
    (k : ℕ) (rows : List ToolVersion)
    → all (λ (v : ToolVersion). ltb v.tool_definition_id k) rows ≡ true
    → history k rows ≡ []
history-new k [] h = refl
history-new k (v ∷ rows) h = ground (arith, history-new k rows)

module _ (checks : Checks) (p : Principal) (payload : ToolCreate) (catalog : Catalog) where
  -- The reply and the tables after the creation.
  abbrev pub Starts : Result Tool × Catalog → Type 0
  Starts (ok tool, after) =
      Tracks after tool.id (tool.contents ∷ []) × (tool.tenant_id ≡ p.tenant_id)
  Starts (err e, after) = after ≡ catalog

  checked-Starts :
      (checked : Result Fields)
      → IsCatalog catalog
      → Starts (
          raised_or checked catalog (λ manifest.
            let tool = new_tool checks p payload manifest catalog in
            if clashes_tool tool catalog
            then (err integrity_error, catalog)
            else commit_tool tool p.user_id catalog (record catalog {
              tools = catalog.tools ++ tool ∷ [];
              next_id = suc catalog.next_id;
            })))
  unfolding commit_tool
  checked-Starts (err e) h = refl
  checked-Starts (ok manifest) (u, ids, rows) =
      let tool = new_tool checks p payload manifest catalog in
      let after = record catalog {
        tools = catalog.tools ++ tool ∷ [];
        versions = catalog.versions ++ snapshot_tool tool p.user_id ∷ [];
        next_id = suc catalog.next_id;
      } in
      if_holds (λ s. Starts s) (clashes_tool tool catalog) (err integrity_error, catalog)
        (if clashes tool catalog then (err conflict, catalog) else (ok tool, after)) refl
        (if_holds (λ s. Starts s) (clashes tool catalog) (err conflict, catalog) (ok tool, after)
          refl
          (
            (
              UniqueKeys-new catalog.next_id catalog.tools tool u ids refl,
              (
                tool,
                find-new catalog.next_id catalog.tools tool ids refl,
                refl,
                refl,
                history-append tool.id catalog.versions (snapshot_tool tool p.user_id) refl
                    ∙ ap (λ es. es ++ (p.tenant_id, 1, tool.contents) ∷ [])
                        (history-new catalog.next_id catalog.versions rows),
              ),
            ),
            refl,
          ))

-- A request to register a tool that is accepted starts the history of a tool of the tenant, with its
-- contents as the only entry; one that is refused leaves the tables as they are. The keys in use
-- are below the next one.
pub create_tool-Starts :
    (checks : Checks) (p : Principal) (payload : ToolCreate) (catalog : Catalog)
    → IsCatalog catalog
    → Starts checks p payload catalog (create_tool checks p payload catalog)
unfolding create_tool
create_tool-Starts checks p payload catalog h = elim (Bool-cases (is_admin p.role)) [
  | inr not_admin ↦ rw (not_admin, create_tool) refl
  | inl admin ↦
      rw (admin, create_tool) (checked-Starts checks p payload catalog (check_new checks payload) h)
]
