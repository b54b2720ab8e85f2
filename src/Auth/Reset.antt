-- ===== src/Auth/Reset.antt =====
-- A password is reset once by a token, and ends the sessions of the user
-- (`confirm_password_reset`, app/routers/auth.py).
use general_agent_platform.Base.{
  ℕ, ◌+◌, ◌≡◌, refl, ap, ◌∙◌, sym, subst, String, Bool, true, false, not, ◌&&◌, ◌||◌, some, List,
  [], ◌∷◌, arith, ◌==◌, ==-refl, if◌then◌else◌, update_where, all, is_none, is_some_eq, Result, ok,
  err, Code, Result-cases, reset_token_expired, Bool-cases, Option-cases, inl, inr,
}
use mathlib.Core.Option
use general_agent_platform.Db.Rows.{find-update_kept}
use general_agent_platform.Access.{User, Session, Directory}
use general_agent_platform.Auth.{
  Tokens, Payload, ResetClaims, decode_password_reset_token, user_of_claims, reset_password,
  confirm_password_reset,
}

module _ {ℓ} {A : Type ℓ} (p : A → Bool) (f : A → A) where
  all-update :
      (q : A → Bool) (xs : List A)
      → ((x : A) → q (if p x then f x else x) ≡ true)
      → all q (update_where p f xs) ≡ true
  all-update q [] h = refl
  all-update q (x ∷ xs) h = ground (arith, h x, all-update q xs h)

-- No session of the user is live.
abbrev pub all_revoked : ℕ → List Session → Bool
all_revoked k sessions =
    all (λ (s : Session). not (s.user_id == k) || not (is_none s.revoked_at)) sessions

revokes :
    (now k : ℕ) (sessions : List Session)
    → all_revoked k (
        update_where
          (λ (s : Session). s.user_id == k && is_none s.revoked_at)
          (λ (s : Session). record s { revoked_at = some now })
          sessions)
      ≡ true
revokes now k sessions =
    all-update (λ (s : Session). s.user_id == k && is_none s.revoked_at)
      (λ (s : Session). record s { revoked_at = some now })
      (λ (s : Session). not (s.user_id == k) || not (is_none s.revoked_at)) sessions
      (λ s. elim (Bool-cases (s.user_id == k && is_none s.revoked_at)) [
        | inl live ↦ ground (arith, live)
        | inr over ↦ ground (arith, over)
      ])

-- The code of a token that is of no use any more: it depends on whether its time has passed.
abbrev refused_claims : Result ResetClaims → Code
refused_claims (err e) = e
refused_claims (ok claims) = reset_token_expired

abbrev pub refusal : Tokens → ℕ → String → Code
refusal tokens now token = refused_claims (decode_password_reset_token tokens now token)

-- What a token says does not change while it is decoded at all.
abbrev pub IsSigned : Tokens → String → Type 0
IsSigned tokens token =
    (now now' : ℕ) (payload payload' : Payload)
    → tokens.jwt_decode now token ≡ some payload
    → tokens.jwt_decode now' token ≡ some payload'
    → payload ≡ payload'

decode-same :
    (tokens : Tokens) (token : String) (now now' : ℕ) (claims claims' : ResetClaims)
    → IsSigned tokens token
    → decode_password_reset_token tokens now token ≡ ok claims
    → decode_password_reset_token tokens now' token ≡ ok claims'
    → claims ≡ claims'
unfolding decode_password_reset_token
decode-same tokens token now now' claims claims' signed h h' =
    elim (Option-cases (tokens.jwt_decode now token)) [
      | inl raised ↦ ground arith
      | inr (payload, decoded) ↦ elim (Option-cases (tokens.jwt_decode now' token)) [
        | inl raised ↦ ground arith
        | inr (payload', decoded') ↦
            let same = signed now now' payload payload' decoded decoded' in ground (arith, same)
      ]
    ]

module _ (tokens : Tokens) (now : ℕ) (password : String) (dir : Directory) where
  -- The user of the claims after the reset.
  user-reset_password :
      (claims : ResetClaims) (user : User)
      → user_of_claims tokens claims dir ≡ some user
      → user_of_claims tokens claims (reset_password tokens now user password dir)
        ≡ some (record user {
          password_hash = tokens.hash_password password;
          version = user.version + 1;
        })
  user-reset_password claims user found =
      let write = λ (u : User). record u {
        password_hash = tokens.hash_password password;
        version = user.version + 1;
      } in
      let named = λ (u : User).
        u.id == claims.sub && (u.tenant_id == claims.tenant_id && is_none u.deleted_at) in
      find-update_kept (λ (u : User). u.id == user.id) write named dir.users
        (λ u. elim (Bool-cases (u.id == user.id)) [
          | inl same ↦ rw same refl
          | inr other ↦ rw other refl
        ])
      ∙ ap (λ o. Option.map (λ (u : User). if u.id == user.id then write u else u) o) found
      ∙ ap (λ b. some (if b then write user else user)) (==-refl user.id)

  -- The token is of no use any more, and the sessions are over.
  abbrev IsEnded : ℕ → String → String → Result ℕ × Directory → Type 0
  IsEnded now' token password' (err e, after) = Unit
  IsEnded now' token password' (ok k, after) =
      (confirm_password_reset tokens now' token password' after
        ≡ (err (refusal tokens now' token), after))
      × (all_revoked k after.sessions ≡ true)

  taken-IsEnded :
      (now' : ℕ) (token password' : String) (claims : ResetClaims) (user : User)
      → IsSigned tokens token
      → decode_password_reset_token tokens now token ≡ ok claims
      → user_of_claims tokens claims dir ≡ some user
      → is_some_eq claims.password_version user.version ≡ true
      → IsEnded now' token password' (ok user.id, reset_password tokens now user password dir)
  unfolding confirm_password_reset
  taken-IsEnded now' token password' claims user signed decoded found current =
      let later : is_some_eq claims.password_version (user.version + 1) ≡ false = ground arith in
      (
        elim (Result-cases (decode_password_reset_token tokens now' token)) [
          | inl (e, raised) ↦ rw (raised, confirm_password_reset) refl
          | inr (claims', decoded') ↦
              let same = decode-same tokens token now now' claims claims' signed decoded decoded' in
              let again =
                subst (λ c. decode_password_reset_token tokens now' token ≡ ok c) (sym same)
                  decoded' in
              rw (again, user-reset_password claims user found, later, confirm_password_reset) refl
        ],
        revokes now user.id dir.sessions,
      )

  confirm-IsEnded :
      (now' : ℕ) (token password' : String)
      → IsSigned tokens token
      → IsEnded now' token password' (confirm_password_reset tokens now token password dir)
  unfolding confirm_password_reset
  confirm-IsEnded now' token password' signed =
      elim (Result-cases (decode_password_reset_token tokens now token)) [
        | inl (e, invalid) ↦ rw (invalid, confirm_password_reset) tt
        | inr (claims, decoded) ↦ elim (Option-cases (user_of_claims tokens claims dir)) [
          | inl absent ↦ rw (decoded, absent, confirm_password_reset) tt
          | inr (user, found) ↦
              elim (Bool-cases
                (is_some_eq claims.password_version user.version && user.is_active)) [
                  | inr stale ↦ rw (decoded, found, stale, confirm_password_reset) tt
                  | inl fresh ↦
                      let current : is_some_eq claims.password_version user.version ≡ true =
                        ground arith in
                      rw (decoded, found, fresh, confirm_password_reset)
                        (taken-IsEnded now' token password' claims user signed decoded found
                          current)
                ]
        ]
      ]

-- A reset token works once, and ends the sessions: after a reset that is accepted, every later
-- request with the same token is refused and changes nothing, at whatever time and with whatever
-- password, and no session of the user is live. The code is RESET_TOKEN_EXPIRED while the token is
-- decoded, and RESET_TOKEN_INVALID once that raises; whenever `jwt.decode` accepts the token, it
-- gives the same payload.
pub confirm_password_reset_once :
    (tokens : Tokens) (now now' : ℕ) (token password password' : String) (dir dir' : Directory)
    (k : ℕ)
    → IsSigned tokens token
    → confirm_password_reset tokens now token password dir ≡ (ok k, dir')
    → (confirm_password_reset tokens now' token password' dir'
        ≡ (err (refusal tokens now' token), dir'))
      × (all_revoked k dir'.sessions ≡ true)
confirm_password_reset_once tokens now now' token password password' dir dir' k signed done =
    subst (λ r. IsEnded tokens now password dir now' token password' r) done
      (confirm-IsEnded tokens now password dir now' token password' signed)
