-- ===== src/Access/Tests.antt =====
-- The theorems about access, at a directory of one user.
use general_agent_platform.Base.{◌≡◌, refl, String, true, Option, none, some, [], ◌∷◌, ok}
use general_agent_platform.Principal.{Principal, member, readonly, tenant_admin, admin}
use general_agent_platform.Access.{
  Claims, Directory, Limits, get_principal, session_ok, take_request, require_permission,
}
use general_agent_platform.Access.Gate.{
  may, granted_chain, IsAuthentic, get_principal_sound, require_permission_sound,
}
use general_agent_platform.Samples.{sample_db}

abbrev decode : String → Option Claims
decode token = some (record { sub = 100; tenant_id = 1; sid = some 7 })

abbrev directory : Directory
directory = record {
  users =
      record {
        id = 100;
        tenant_id = 1;
        role = member;
        is_active = true;
        deleted_at = none;
        password_hash = "hash";
        version = 1;
      }
      ∷ [];
  tenants = record { id = 1; is_active = true } ∷ [];
  sessions =
      record {
        id = 7;
        tenant_id = 1;
        user_id = 100;
        refresh_token_hash = "token";
        expires_at = 1000;
        revoked_at = none;
      }
      ∷ [];
}

abbrev somebody : Principal
somebody = record { user_id = 100; tenant_id = 1; role = member; session_id = some 7 }

is_somebody : get_principal decode (some "token") directory ≡ ok somebody
unfolding get_principal session_ok
is_somebody = refl

get_principal_sound_example : IsAuthentic directory somebody
get_principal_sound_example =
    get_principal_sound decode (some "token") directory somebody is_somebody

granted_chain_example :
    (may readonly ("run:read" ∷ []) ≡ true → may member ("run:read" ∷ []) ≡ true)
    × (may member ("run:read" ∷ []) ≡ true → may tenant_admin ("run:read" ∷ []) ≡ true)
    × (may tenant_admin ("run:read" ∷ []) ≡ true → may admin ("run:read" ∷ []) ≡ true)
granted_chain_example = granted_chain ("run:read" ∷ [])

abbrev limits : Limits
limits = record { enabled = true; default = 120; quota = some 5 }

require_permission_sound_example :
    let (reply, events', db') =
      require_permission ("run:execute" ∷ []) limits "1" 3 4 none somebody 9 (λ k. [], sample_db) in
    ((q : Principal)
      → reply ≡ ok q
      → (q ≡ somebody)
        × (may member ("run:execute" ∷ []) ≡ true)
        × ((take_request limits "1" 3 4 none (λ k. [])).0.allowed ≡ true))
    × (record db' { audits = sample_db.audits } ≡ sample_db)
require_permission_sound_example =
    require_permission_sound ("run:execute" ∷ []) limits "1" 3 4 none somebody 9 (λ k. []) sample_db
