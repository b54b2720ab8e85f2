-- ===== src/Access/Gate.antt =====
-- What the gate lets through.
use general_agent_platform.Base.{
  ℕ, ◌≡◌, refl, sym, subst, unauthorized, String, Bool, true, not, ◌||◌, Option, none, some, List,
  [], ◌∷◌, arith, ◌==◌, if◌then◌else◌, find_holds, subset, mem, mem_of_subset, is_none, Result, ok,
  err, inl, inr, Option-cases,
}
use general_agent_platform.Principal.{Principal, Role, admin, tenant_admin, member, readonly}
use general_agent_platform.Db.{Db}
use general_agent_platform.RateLimit.{Events}
use general_agent_platform.Access.{
  Claims, User, Tenant, Directory, user_of, tenant_of, session_ok, get_principal,
  readonly_permissions, member_permissions, tenant_admin_permissions, principal_of, granted, Limits,
  take_request, check_permissions, require_permission,
}

-- The role of a principal bears what it asks for.
abbrev pub may : Role → List String → Bool
may role permissions = mem "*" (granted role) || subset permissions (granted role)

subset_trans :
    (xs ys zs : List String) → subset ys zs ≡ true → subset xs ys ≡ true → subset xs zs ≡ true
subset_trans [] ys zs h t = refl
subset_trans (x ∷ xs) ys zs h t = ground (arith, subset_trans xs ys zs h, mem_of_subset x ys zs h)

-- Each role may do what the next one may.
pub granted_chain :
    (permissions : List String)
    → (may readonly permissions ≡ true → may member permissions ≡ true)
      × (may member permissions ≡ true → may tenant_admin permissions ≡ true)
      × (may tenant_admin permissions ≡ true → may admin permissions ≡ true)
unfolding granted
granted_chain permissions = (
  subset_trans permissions readonly_permissions member_permissions refl,
  subset_trans permissions member_permissions tenant_admin_permissions refl,
  λ h. refl,
)

is_none-eq {ℓ} : {A : Type ℓ} (o : Option A) → is_none o ≡ true → o ≡ none
is_none-eq none h = refl
is_none-eq (some a) h = cc

-- An active user of an active tenant, with the role and the session of the principal.
abbrev pub IsAuthentic : Directory → Principal → Type 0
IsAuthentic dir p =
    (user : User) × (tenant : Tenant) × (user_of p.user_id dir ≡ some user)
    × (tenant_of p.tenant_id dir ≡ some tenant)
    × (user.tenant_id ≡ p.tenant_id)
    × (user.role ≡ p.role)
    × (user.is_active ≡ true)
    × (user.deleted_at ≡ none)
    × (tenant.is_active ≡ true)
    × (session_ok p.session_id user dir ≡ true)

-- The guards that come last.
abbrev admit : Claims → User → Tenant → Directory → Result Principal
admit claims user tenant dir =
    if not tenant.is_active
      || not (is_none user.deleted_at)
      || not user.is_active
      || not (user.tenant_id == claims.tenant_id)
    then err unauthorized
    else if not (session_ok claims.sid user dir)
    then err unauthorized
    else ok (principal_of claims user)

admitted_sound :
    (claims : Claims) (user : User) (tenant : Tenant) (dir : Directory) (p : Principal)
    → user_of claims.sub dir ≡ some user
    → tenant_of claims.tenant_id dir ≡ some tenant
    → admit claims user tenant dir ≡ ok p
    → IsAuthentic dir p
admitted_sound claims user tenant dir p known there h =
    let same : p ≡ principal_of claims user = ground (arith, h) in
    let facts : (tenant.is_active ≡ true)
        × (is_none user.deleted_at ≡ true)
        × (user.is_active ≡ true)
        × (user.tenant_id ≡ claims.tenant_id)
        × (session_ok claims.sid user dir ≡ true) =
      ground (arith, h) in
    let (t, d, a, own, s) = facts in
    let id : user.id ≡ claims.sub =
      ground (arith, find_holds (λ (u : User). u.id == claims.sub) dir.users user known) in
    subst (IsAuthentic dir) (sym same) (
      user,
      tenant,
      subst (λ k. user_of k dir ≡ some user) (sym id) known,
      subst (λ k. tenant_of k dir ≡ some tenant) (sym own) there,
      refl,
      refl,
      a,
      is_none-eq user.deleted_at d,
      t,
      s,
    )

-- A principal stands for a user that the directory has, who is active and not deleted, of a tenant
-- that it has and that is active. The role and the tenant are the user's own, not the token's, and
-- a session that the token names is the user's and is not revoked.
pub get_principal_sound :
    (decode : String → Option Claims) (credentials : Option String) (dir : Directory)
    (p : Principal)
    → get_principal decode credentials dir ≡ ok p
    → IsAuthentic dir p
unfolding get_principal
get_principal_sound decode none dir p h = cc
get_principal_sound decode (some token) dir p h = elim (Option-cases (decode token)) [
  | inl bad ↦ ground (arith, h, bad)
  | inr (claims, decoded) ↦ elim (Option-cases (user_of claims.sub dir)) [
    | inl nobody ↦ ground (arith, h, decoded, nobody)
    | inr (user, known) ↦ elim (Option-cases (tenant_of claims.tenant_id dir)) [
      | inl nowhere ↦ ground (arith, h, decoded, known, nowhere)
      | inr (tenant, there) ↦
          admitted_sound claims user tenant dir p known there
            (ground (arith, h, decoded, known, there))
    ]
  ]
]

-- A request passes the gate only if its rate limit allows it and the role bears every permission
-- that is asked for; whatever the outcome, nothing but the audit trail changes in the database.
pub require_permission_sound :
    (permissions : List String) (limits : Limits) (key : String) (current time : ℕ)
    (redis : Option ℕ) (p : Principal) (resource : ℕ) (events : Events) (db : Db)
    → let (reply, events', db') =
        require_permission permissions limits key current time redis p resource (events, db) in
      ((q : Principal)
        → reply ≡ ok q
        → (q ≡ p)
          × (may p.role permissions ≡ true)
          × ((take_request limits key current time redis events).0.allowed ≡ true))
      × (record db' { audits = db.audits } ≡ db)
unfolding require_permission check_permissions
require_permission_sound permissions limits key current time redis p resource events db =
    ((λ q h. ground (arith, h)), ground arith)
