-- ===== src/Access.antt =====
-- Who may do what (app/dependencies.py): the principal of a request, and the permission gate with
-- its rate limit. The decoding of the access token is a parameter, none where it raises.
pub mod Gate
mod Tests
use general_agent_platform.Base.{
  ℕ, ◌-◌, String, Bool, true, false, not, ◌&&◌, ◌||◌, Option, none, some, List, [], ◌∷◌, ◌==◌,
  if◌then◌else◌, find, subset, mem, is_none, Result, ok, err, unauthorized, forbidden,
  rate_limit_exceeded,
}
use general_agent_platform.Principal.{Principal, Role, admin, tenant_admin, member, readonly, other}
use general_agent_platform.Db.{Db, record_audit}
use general_agent_platform.RateLimit.{Events, Verdict, check}
use general_agent_platform.Runs.Endpoints.{Reply}

-- The payload of an access token.
pub record Claims : Type 0 where
  pub sub : ℕ
  pub tenant_id : ℕ
  pub sid : Option ℕ

pub record User : Type 0 where
  pub id : ℕ
  pub tenant_id : ℕ
  pub role : Role
  pub is_active : Bool
  pub deleted_at : Option ℕ
  pub password_hash : String
  pub version : ℕ

pub record Tenant : Type 0 where
  pub id : ℕ
  pub is_active : Bool

pub record Session : Type 0 where
  pub id : ℕ
  pub tenant_id : ℕ
  pub user_id : ℕ
  pub refresh_token_hash : String
  pub expires_at : ℕ
  pub revoked_at : Option ℕ

-- The tables that say who exists.
pub record Directory : Type 0 where
  pub users : List User
  pub tenants : List Tenant
  pub sessions : List Session

abbrev pub user_of : ℕ → Directory → Option User
user_of k dir = find (λ (u : User). u.id == k) dir.users

abbrev pub tenant_of : ℕ → Directory → Option Tenant
tenant_of k dir = find (λ (t : Tenant). t.id == k) dir.tenants

abbrev pub session_of : ℕ → Directory → Option Session
session_of k dir = find (λ (s : Session). s.id == k) dir.sessions

-- The session that the token names, if it names one, is the user's and is not revoked.
unfoldable pub session_ok : Option ℕ → User → Directory → Bool
session_ok none user dir = true
session_ok (some sid) user dir = elim (session_of sid dir) [
  | none ↦ false
  | some s ↦ s.user_id == user.id && is_none s.revoked_at
]

abbrev pub principal_of : Claims → User → Principal
principal_of claims user = record {
  user_id = user.id;
  tenant_id = user.tenant_id;
  role = user.role;
  session_id = claims.sid;
}

unfoldable pub get_principal :
    (String → Option Claims) → Option String → Directory → Result Principal
unfolding session_ok
get_principal decode none dir = err unauthorized
get_principal decode (some token) dir = elim (decode token) [
  | none ↦ err unauthorized
  | some claims ↦ elim (user_of claims.sub dir) [
    | none ↦ err unauthorized
    | some user ↦ elim (tenant_of claims.tenant_id dir) [
      | none ↦ err unauthorized
      | some tenant ↦
          if not tenant.is_active
            || not (is_none user.deleted_at)
            || not user.is_active
            || not (user.tenant_id == claims.tenant_id)
          then err unauthorized
          else if not (session_ok claims.sid user dir)
          then err unauthorized
          else ok (principal_of claims user)
    ]
  ]
]

abbrev pub tenant_admin_permissions : List String
tenant_admin_permissions =
    "agent:read" ∷ "agent:write" ∷ "agent:delete" ∷ "tool:read" ∷ "tool:write" ∷ "run:read"
    ∷ "run:execute" ∷ "approval:decide" ∷ "audit:read" ∷ "audit:export" ∷ "memory:read"
    ∷ "memory:write" ∷ "user:read" ∷ "user:write" ∷ "admin:settings" ∷ []

abbrev pub member_permissions : List String
member_permissions =
    "agent:read" ∷ "run:read" ∷ "run:execute" ∷ "tool:read" ∷ "approval:decide" ∷ "audit:read"
    ∷ "memory:read" ∷ "memory:write" ∷ []

abbrev pub readonly_permissions : List String
readonly_permissions = "agent:read" ∷ "run:read" ∷ "tool:read" ∷ "audit:read" ∷ "memory:read" ∷ []

-- `role_permissions.get(role, set())`
unfoldable pub granted : Role → List String
granted admin = "*" ∷ []
granted tenant_admin = tenant_admin_permissions
granted member = member_permissions
granted readonly = readonly_permissions
granted other = []

-- The settings and the tenant's quota that the gate reads.
pub record Limits : Type 0 where
  pub enabled : Bool
  pub default : ℕ
  pub quota : Option ℕ

abbrev pub limit_of : Limits → ℕ
limit_of limits = elim limits.quota [ none ↦ limits.default | some n ↦ n ]

-- The window of `_RATE_LIMITER`, and its limit where none is given.
abbrev pub window : ℕ
window = 60

abbrev pub default_limit : ℕ
default_limit = 120

-- `key` is the tenant's identifier as a text, and `current` and `time` are the clocks.
unfoldable pub take_request :
    Limits → String → (current time : ℕ) → (redis : Option ℕ) → Events → Verdict × Events
unfolding check
take_request limits key current time redis events =
    if not limits.enabled
    then (record { allowed = true; remaining = limit_of limits - 1; reset = 0 }, events)
    else check window default_limit events key current time (some (limit_of limits)) true redis

-- What is left after the rate limit: the permissions. A refusal is audited.
unfoldable pub check_permissions : List String → Principal → ℕ → Db → Reply Principal
unfolding granted
check_permissions permissions p resource db =
    if not (mem "*" (granted p.role)) && not (subset permissions (granted p.role))
    then (
      err forbidden,
      record_audit p.tenant_id (some p.user_id) "permission.denied" resource "denied" db,
    )
    else (ok p, db)

unfoldable pub require_permission :
    List String
    → Limits
    → String
    → (current time : ℕ) → (redis : Option ℕ) → Principal
    → (resource : ℕ) → Events × Db
    → Result Principal × Events × Db
unfolding take_request check_permissions
require_permission permissions limits key current time redis p resource (events, db) =
    let (verdict, events') = take_request limits key current time redis events in
    if not verdict.allowed
    then (err rate_limit_exceeded, events', db)
    else (let (reply, db') = check_permissions permissions p resource db in (reply, events', db'))
