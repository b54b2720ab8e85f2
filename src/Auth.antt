-- ===== src/Auth.antt =====
-- Sessions and passwords (app/routers/auth.py): `refresh`, `logout` and `confirm_password_reset`.
-- Parameters are the digests `sha256` and `hash_password`, `jwt.decode`, which reads the clock for
-- the `exp` of a token and gives none where it raises, whether the database is PostgreSQL, and the
-- text of a fresh refresh token of a tenant. The audit trail is left out, and so is the tenant that
-- `refresh` sets for the row policies of PostgreSQL.
pub mod Rotation
pub mod Reset
mod Tests
use general_agent_platform.Base.{
  ℕ, suc, ◌+◌, String, Bool, true, false, not, ◌&&◌, ◌||◌, Option, none, some, List, ◌==◌, leb, any,
  if◌then◌else◌, find, update_where, is_none, str_eq, Result, ok, err, unauthorized, is_some_eq,
  reset_token_invalid, reset_token_expired,
}
use general_agent_platform.Json.Text.{codes}
use general_agent_platform.Principal.{Principal, Role}
use general_agent_platform.Access.{User, Tenant, Session, Directory, user_of, tenant_of, session_of}

-- The payload of a token that `jwt.decode` accepts; an empty text is an absent one.
pub record Payload : Type 0 where
  pub type : Option String
  pub sub : Option ℕ
  pub tenant_id : Option ℕ
  pub password_version : Option ℕ

pub record ResetClaims : Type 0 where
  pub sub : ℕ
  pub tenant_id : ℕ
  pub password_version : Option ℕ

pub record Tokens : Type 0 where
  pub sha256 : String → String
  pub hash_password : String → String
  pub jwt_decode : (now : ℕ) → String → Option Payload
  pub is_postgresql : Bool
  pub fresh_token : ℕ → ℕ → String

-- Whom the access token of a response stands for, and the refresh token of its cookie.
pub record AuthResponse : Type 0 where
  pub user_id : ℕ
  pub tenant_id : ℕ
  pub role : Role
  pub session_id : ℕ
  pub refresh_token : String

abbrev pub write_session : ℕ → (Session → Session) → Directory → Directory
write_session k f dir = record dir {
  sessions = update_where (λ (s : Session). s.id == k) f dir.sessions;
}

module _ (tokens : Tokens) where
  abbrev pub session_of_token : String → Directory → Option Session
  session_of_token token dir =
      find (λ (s : Session). str_eq s.refresh_token_hash (tokens.sha256 token)) dir.sessions

  abbrev pub is_live_session : ℕ → Session → Bool
  is_live_session now s = is_none s.revoked_at && not (leb s.expires_at now)

  abbrev pub is_live_user : User → Tenant → Bool
  is_live_user user tenant = user.is_active && is_none user.deleted_at && tenant.is_active

  -- `refresh_token.partition(".")` has a separator.
  abbrev pub has_separator : String → Bool
  has_separator token = any (λ c. c == 46) (codes token)

  -- The session gets the digest of the next token.
  abbrev pub rotate : User → Session → String → Directory → Result AuthResponse × Directory
  rotate user session next dir = (
    ok (record {
      user_id = user.id;
      tenant_id = user.tenant_id;
      role = user.role;
      session_id = session.id;
      refresh_token = next;
    }),
    write_session session.id (λ (s : Session). record s { refresh_token_hash = tokens.sha256 next })
        dir,
  )

  -- From the session on; `seed` is what the fresh token is made of.
  unfoldable pub refresh_session : ℕ → ℕ → Session → Directory → Result AuthResponse × Directory
  refresh_session seed now session dir =
      if not (is_live_session now session)
      then (err unauthorized, dir)
      else elim (user_of session.user_id dir) [
        | none ↦ (err unauthorized, dir)
        | some user ↦ elim (tenant_of session.tenant_id dir) [
          | none ↦ (err unauthorized, dir)
          | some tenant ↦
              if is_live_user user tenant
              then rotate user session (tokens.fresh_token user.tenant_id seed) dir
              else (err unauthorized, dir)
        ]
      ]

  unfoldable pub refresh : ℕ → ℕ → Option String → Directory → Result AuthResponse × Directory
  unfolding refresh_session
  refresh seed now none dir = (err unauthorized, dir)
  refresh seed now (some token) dir =
      if str_eq token "" || (tokens.is_postgresql && not (has_separator token))
      then (err unauthorized, dir)
      else elim (session_of_token token dir) [
        | none ↦ (err unauthorized, dir)
        | some session ↦ refresh_session seed now session dir
      ]

  unfoldable pub logout : ℕ → Principal → Directory → Directory
  logout now p dir = elim p.session_id [
    | none ↦ dir
    | some sid ↦ elim (session_of sid dir) [
      | none ↦ dir
      | some session ↦
          if is_none session.revoked_at
          then write_session session.id (λ (s : Session). record s { revoked_at = some now }) dir
          else dir
    ]
  ]

  abbrev pub user_of_claims : ResetClaims → Directory → Option User
  user_of_claims claims dir =
      find
        (λ (u : User).
          u.id == claims.sub && (u.tenant_id == claims.tenant_id && is_none u.deleted_at))
        dir.users

  -- The user's columns, and the end of the sessions that are not revoked.
  abbrev pub reset_password : ℕ → User → String → Directory → Directory
  reset_password now user password dir = record dir {
    users =
        update_where (λ (u : User). u.id == user.id)
          (λ (u : User). record u {
            password_hash = tokens.hash_password password;
            version = user.version + 1;
          })
          dir.users;
    sessions =
        update_where (λ (s : Session). s.user_id == user.id && is_none s.revoked_at)
          (λ (s : Session). record s { revoked_at = some now }) dir.sessions;
  }

  abbrev claims_of : Option String → Option ℕ → Option ℕ → Option ℕ → Result ResetClaims
  claims_of (some type) (some sub) (some tenant) version =
      if str_eq type "password_reset"
      then ok (record { sub = sub; tenant_id = tenant; password_version = version })
      else err reset_token_invalid
  claims_of _ _ _ _ = err reset_token_invalid

  unfoldable pub decode_password_reset_token : ℕ → String → Result ResetClaims
  decode_password_reset_token now token = elim (tokens.jwt_decode now token) [
    | none ↦ err reset_token_invalid
    | some payload ↦ claims_of payload.type payload.sub payload.tenant_id payload.password_version
  ]

  unfoldable pub confirm_password_reset :
      ℕ → (token password : String) → Directory → Result ℕ × Directory
  unfolding decode_password_reset_token
  confirm_password_reset now token password dir = elim (decode_password_reset_token now token) [
    | err e ↦ (err e, dir)
    | ok claims ↦ elim (user_of_claims claims dir) [
      | none ↦ (err reset_token_expired, dir)
      | some user ↦
          if is_some_eq claims.password_version user.version && user.is_active
          then (ok user.id, reset_password now user password dir)
          else (err reset_token_expired, dir)
    ]
  ]
