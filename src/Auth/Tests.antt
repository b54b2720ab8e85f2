-- ===== src/Auth/Tests.antt =====
-- A user with a session, and the theorems at it.
use general_agent_platform.Base.{
  ◌≡◌, refl, true, false, arith, none, some, [], ◌∷◌, Result, ok, err, unauthorized,
  reset_token_invalid, if◌then◌else◌, ltb,
}
use general_agent_platform.Principal.{member}
use general_agent_platform.Access.{User, Session, Directory}
use general_agent_platform.Auth.{
  Tokens, Payload, AuthResponse, reset_password, rotate, refresh, confirm_password_reset,
}
use general_agent_platform.Auth.Rotation.{refresh_once}
use general_agent_platform.Auth.Reset.{all_revoked, refusal, IsSigned, confirm_password_reset_once}

-- what the token of a reset says until its time has passed
abbrev reset_payload : Payload
reset_payload = record {
  type = some "password_reset";
  sub = some 100;
  tenant_id = some 1;
  password_version = some 1;
}

abbrev tokens : Tokens
tokens = record {
  sha256 = λ s. s;
  hash_password = λ s. s;
  jwt_decode = λ now s. if ltb now 1000 then some reset_payload else none;
  is_postgresql = false;
  fresh_token = λ tenant seed. "second";
}

abbrev member_user : User
member_user = record {
  id = 100;
  tenant_id = 1;
  role = member;
  is_active = true;
  deleted_at = none;
  password_hash = "old";
  version = 1;
}

abbrev live_session : Session
live_session = record {
  id = 7;
  tenant_id = 1;
  user_id = 100;
  refresh_token_hash = "first";
  expires_at = 1000;
  revoked_at = none;
}

abbrev members : Directory
members = record {
  users = member_user ∷ [];
  tenants = record { id = 1; is_active = true } ∷ [];
  sessions = live_session ∷ [];
}

abbrev rotated : Result AuthResponse × Directory
rotated = rotate tokens member_user live_session "second" members

abbrev second : AuthResponse
second = record {
  user_id = 100;
  tenant_id = 1;
  role = member;
  session_id = 7;
  refresh_token = "second";
}

rotates : refresh tokens 0 500 (some "first") members ≡ (ok second, rotated.1)
unfolding refresh
rotates = refl

refresh_once_example : refresh tokens 3 600 (some "first") rotated.1 ≡ (err unauthorized, rotated.1)
refresh_once_example =
    refresh_once tokens 0 3 500 600 "first" members rotated.1 second (refl, tt) rotates refl

abbrev changed : Directory
changed = reset_password tokens 500 member_user "new" members

resets : confirm_password_reset tokens 500 "reset" "new" members ≡ (ok 100, changed)
unfolding confirm_password_reset
resets = refl

reset-IsSigned : IsSigned tokens "reset"
reset-IsSigned now now' payload payload' h h' = ground arith

-- A token whose time has passed is invalid.
expires : (confirm_password_reset tokens 1000 "reset" "new" members).0 ≡ err reset_token_invalid
unfolding confirm_password_reset
expires = refl

confirm_password_reset_once_example :
    (confirm_password_reset tokens 600 "reset" "newer" changed
      ≡ (err (refusal tokens 600 "reset"), changed))
    × (all_revoked 100 changed.sessions ≡ true)
confirm_password_reset_once_example =
    confirm_password_reset_once tokens 500 600 "reset" "new" "newer" members changed 100
      reset-IsSigned resets
