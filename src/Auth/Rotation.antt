-- ===== src/Auth/Rotation.antt =====
-- A refresh token works once (`refresh`, app/routers/auth.py).
use general_agent_platform.Base.{
  ℕ, ◌≡◌, refl, subst, String, Bool, false, none, some, List, [], ◌∷◌, arith, ◌==◌, ==-refl, find,
  update_where, mem, map, Distinct, str_eq, eq_iff, ◌||◌, ◌&&◌, not, Result, ok, err, unauthorized,
  Bool-cases, Option-cases, inl, inr,
}
use general_agent_platform.Access.{User, Session, Directory, user_of, tenant_of}
use general_agent_platform.Auth.{
  Tokens, AuthResponse, session_of_token, is_live_session, is_live_user, rotate, refresh_session,
  refresh, has_separator,
}

abbrev pub hashes : List Session → List String
hashes sessions = map (λ (s : Session). s.refresh_token_hash) sessions

abbrev has_hash : String → Session → Bool
has_hash h s = str_eq s.refresh_token_hash h

abbrev rehash : String → Session → Session
rehash next s = record s { refresh_token_hash = next }

find-rehash_absent :
    (k : ℕ) (h next : String) (rows : List Session)
    → mem h (hashes rows) ≡ false
    → str_eq next h ≡ false
    → find (has_hash h) (update_where (λ (s : Session). s.id == k) (rehash next) rows) ≡ none
find-rehash_absent k h next [] absent other = refl
find-rehash_absent k h next (s ∷ rows) absent other = ground (
  arith,
  eq_iff h s.refresh_token_hash,
  eq_iff s.refresh_token_hash h,
  find-rehash_absent k h next rows,
)

-- No session has the old digest after the only one that had it has another.
find-rehash :
    (h next : String) (rows : List Session) (s : Session)
    → Distinct (hashes rows)
    → find (has_hash h) rows ≡ some s
    → str_eq next h ≡ false
    → find (has_hash h) (update_where (λ (t : Session). t.id == s.id) (rehash next) rows) ≡ none
find-rehash h next [] s distinct found other = ground arith
find-rehash h next (t ∷ rows) s distinct found other = elim (Bool-cases (has_hash h t)) [
  | inl here ↦
      let same : t ≡ s = ground arith in
      let hash : t.refresh_token_hash ≡ h = (eq_iff t.refresh_token_hash h).0 here in
      let absent : mem h (hashes rows) ≡ false =
        subst (λ x. mem x (hashes rows) ≡ false) hash distinct.0 in
      ground (arith, same, ==-refl s.id, find-rehash_absent s.id h next rows absent other)
  | inr elsewhere ↦ ground (arith, find-rehash h next rows s distinct.1)
]

module _ (tokens : Tokens) (seed now : ℕ) (token : String) (dir : Directory) where
  -- The token of an accepted request is refused afterwards.
  abbrev IsSpent : ℕ → ℕ → Result AuthResponse × Directory → Type 0
  IsSpent seed' now' (err e, after) = Unit
  IsSpent seed' now' (ok r, after) =
      str_eq (tokens.sha256 r.refresh_token) (tokens.sha256 token) ≡ false
      → refresh tokens seed' now' (some token) after ≡ (err unauthorized, after)

  -- the tests of the text of a token
  abbrev is_refused : String → Bool
  is_refused t = str_eq t "" || (tokens.is_postgresql && not (has_separator tokens t))

  rotate-IsSpent :
      (seed' now' : ℕ) (user : User) (s : Session) (next : String)
      → Distinct (hashes dir.sessions)
      → session_of_token tokens token dir ≡ some s
      → is_refused token ≡ false
      → IsSpent seed' now' (rotate tokens user s next dir)
  unfolding refresh
  rotate-IsSpent seed' now' user s next distinct found given other =
      let gone =
        find-rehash (tokens.sha256 token) (tokens.sha256 next) dir.sessions s distinct found
          other in
      rw (given, gone, refresh) refl

  refresh_session-IsSpent :
      (seed' now' : ℕ) (s : Session)
      → Distinct (hashes dir.sessions)
      → session_of_token tokens token dir ≡ some s
      → is_refused token ≡ false
      → IsSpent seed' now' (refresh_session tokens seed now s dir)
  unfolding refresh_session
  refresh_session-IsSpent seed' now' s distinct found given =
      elim (Bool-cases (is_live_session tokens now s)) [
        | inr over ↦ rw (over, refresh_session) tt
        | inl live ↦ elim (Option-cases (user_of s.user_id dir)) [
          | inl absent ↦ rw (live, absent, refresh_session) tt
          | inr (user, has_user) ↦ elim (Option-cases (tenant_of s.tenant_id dir)) [
            | inl absent ↦ rw (live, has_user, absent, refresh_session) tt
            | inr (tenant, has_tenant) ↦ elim (Bool-cases (is_live_user tokens user tenant)) [
              | inr gone ↦ rw (live, has_user, has_tenant, gone, refresh_session) tt
              | inl both ↦
                  rw (live, has_user, has_tenant, both, refresh_session)
                    (rotate-IsSpent seed' now' user s (tokens.fresh_token user.tenant_id seed)
                      distinct found given)
            ]
          ]
        ]
      ]

  refresh-IsSpent :
      (seed' now' : ℕ)
      → Distinct (hashes dir.sessions)
      → IsSpent seed' now' (refresh tokens seed now (some token) dir)
  unfolding refresh
  refresh-IsSpent seed' now' distinct = elim (Bool-cases (is_refused token)) [
    | inl empty ↦ rw (empty, refresh) tt
    | inr given ↦ elim (Option-cases (session_of_token tokens token dir)) [
      | inl absent ↦ rw (given, absent, refresh) tt
      | inr (s, found) ↦
          rw (given, found, refresh) (refresh_session-IsSpent seed' now' s distinct found given)
    ]
  ]

-- A refresh token works once: if no two sessions have the same digest of a token, then after a
-- refresh that is accepted, and that gave a token with another digest, a request with the old token
-- is refused and changes nothing, whenever it comes.
pub refresh_once :
    (tokens : Tokens) (seed seed' now now' : ℕ) (token : String) (dir dir' : Directory)
    (r : AuthResponse)
    → Distinct (hashes dir.sessions)
    → refresh tokens seed now (some token) dir ≡ (ok r, dir')
    → str_eq (tokens.sha256 r.refresh_token) (tokens.sha256 token) ≡ false
    → refresh tokens seed' now' (some token) dir' ≡ (err unauthorized, dir')
refresh_once tokens seed seed' now now' token dir dir' r distinct done other =
    subst (λ x. IsSpent tokens seed now token dir seed' now' x) done
      (refresh-IsSpent tokens seed now token dir seed' now' distinct) other
