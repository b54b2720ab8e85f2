-- ===== src/Agents.antt =====
-- Agents and their published versions (app/routers/agents.py): updating, deleting, publishing and
-- rolling back. The digest of a definition is a parameter. The audit trail and the
-- constraint on the names of agents are left out.
pub mod Versions
mod Tests
use general_agent_platform.Base.{
  ℕ, suc, ◌+◌, String, Bool, true, false, not, ◌&&◌, ◌||◌, Option, none, some, List, [], ◌∷◌, ◌++◌,
  ◌==◌, if◌then◌else◌, find, update_where, is_none, str_eq, Result, ok, err, not_found, forbidden,
  precondition_required, precondition_failed, version_not_found, published_version_conflict,
}
use general_agent_platform.Json.{Fields}
use general_agent_platform.Principal.{Principal, is_admin}

pub data AgentStatus : Type 0 where
  draft published archived : AgentStatus

pub record Agent : Type 0 where
  pub id : ℕ
  pub tenant_id : ℕ
  pub name : String
  pub definition : Fields
  pub status : AgentStatus
  pub version : ℕ
  pub updated_by : ℕ
  pub deleted_at : Option ℕ

pub record AgentVersion : Type 0 where
  pub tenant_id : ℕ
  pub agent_id : ℕ
  pub version : ℕ
  pub definition : Fields
  pub content_digest : String
  pub published_by : ℕ

pub record Registry : Type 0 where
  pub agents : List Agent
  pub versions : List AgentVersion
  pub now : ℕ

abbrev pub live_agent : Principal → ℕ → Registry → Option Agent
live_agent p k db =
    find (λ (a : Agent). a.id == k && a.tenant_id == p.tenant_id && is_none a.deleted_at) db.agents

abbrev pub version_of : Principal → ℕ → ℕ → Registry → Option AgentVersion
version_of p k n db =
    find (λ (v : AgentVersion). v.agent_id == k && v.tenant_id == p.tenant_id && v.version == n)
      db.versions

abbrev pub write_agent : ℕ → (Agent → Agent) → Registry → Registry
write_agent k f db = record db { agents = update_where (λ (a : Agent). a.id == k) f db.agents }

-- The fields of a request that are set.
pub record AgentUpdate : Type 0 where
  pub name : Option String
  pub definition : Option Fields

abbrev or_kept {ℓ} : {A : Type ℓ} → Option A → A → A
or_kept none kept = kept
or_kept (some new) kept = new

-- `setattr` for each field that is set, and the next version
abbrev pub updated : Principal → AgentUpdate → ℕ → Agent → Agent
updated p payload n a = record a {
  name = or_kept payload.name a.name;
  definition = or_kept payload.definition a.definition;
  version = n + 1;
  updated_by = p.user_id;
}

-- The `If-Match` header, less its quotes: absent or blank, the text of a number, or another text.
pub data IfMatch : Type 0 where
  blank other_text : IfMatch
  number_text : ℕ → IfMatch

abbrev pub is_match : IfMatch → ℕ → Bool
is_match (number_text m) n = m == n
is_match _ n = false

abbrev pub is_blank : IfMatch → Bool
is_blank blank = true
is_blank _ = false

unfoldable pub update_agent :
    Principal → ℕ → AgentUpdate → IfMatch → Registry → Result Agent × Registry
update_agent p k payload if_match db = elim (live_agent p k db) [
  | none ↦ (err not_found, db)
  | some a ↦
      if not (is_admin p.role)
      then (err forbidden, db)
      else if is_blank if_match
      then (err precondition_required, db)
      else if not (is_match if_match a.version)
      then (err precondition_failed, db)
      else (ok (updated p payload a.version a), write_agent a.id (updated p payload a.version) db)
]

unfoldable pub delete_agent : Principal → ℕ → Registry → Result (Unit {0}) × Registry
delete_agent p k db =
    if not (is_admin p.role) then (err forbidden, db) else elim (live_agent p k db) [
      | none ↦ (err not_found, db)
      | some a ↦ (
        ok tt,
        write_agent a.id
            (λ (b : Agent). record b { deleted_at = some db.now; updated_by = p.user_id }) db,
      )
    ]

abbrev pub append_version : AgentVersion → Registry → Registry
append_version v db = record db { versions = db.versions ++ v ∷ [] }

module _ (digest : Fields → String) where
  abbrev pub new_version : Principal → Agent → ℕ → Fields → AgentVersion
  new_version p a n definition = record {
    tenant_id = a.tenant_id;
    agent_id = a.id;
    version = n;
    definition = definition;
    content_digest = digest definition;
    published_by = p.user_id;
  }

  unfoldable pub publish_agent : Principal → ℕ → Registry → Result AgentVersion × Registry
  publish_agent p k db = elim (live_agent p k db) [
    | none ↦ (err not_found, db)
    | some a ↦
        if not (is_admin p.role)
        then (err forbidden, db)
        else elim (version_of p a.id a.version db) [
          | some existing ↦
              if not (str_eq existing.content_digest (digest a.definition))
              then (err published_version_conflict, db)
              else (ok existing, db)
          | none ↦
              let v = new_version p a a.version a.definition in
              (
                ok v,
                append_version v
                    (write_agent a.id (λ (b : Agent). record b { status = published }) db),
              )
        ]
  ]

  -- The columns that a rollback writes.
  abbrev pub rolled_back : Principal → Agent → AgentVersion → Agent → Agent
  rolled_back p a target b = record b {
    version = a.version + 1;
    definition = target.definition;
    status = published;
    updated_by = p.user_id;
  }

  -- The version of a rollback, and the registry with it.
  abbrev pub roll_back : Principal → Agent → AgentVersion → Registry → AgentVersion × Registry
  roll_back p a target db =
      let v = new_version p a (a.version + 1) target.definition in
      (v, append_version v (write_agent a.id (rolled_back p a target) db))

  unfoldable pub rollback_agent : Principal → ℕ → ℕ → Registry → Result AgentVersion × Registry
  rollback_agent p k n db = elim (live_agent p k db) [
    | none ↦ (err not_found, db)
    | some a ↦ if not (is_admin p.role) then (err forbidden, db) else elim (version_of p k n db) [
      | none ↦ (err version_not_found, db)
      | some target ↦ let (v, db') = roll_back p a target db in (ok v, db')
    ]
  ]
