-- ===== src/Tools/Readable.antt =====
-- Tools and policies that can be read raise nothing (`execute_tool_call`, app/runtime.py).
use general_agent_platform.Base.{
  ◌≡◌, refl, sym, subst, Bool, true, false, not, ◌&&◌, ◌||◌, Option, none, some, List, [], ◌∷◌,
  arith, ◌==◌, all, find, is_none, ok, Bool-cases, Option-cases, Result-cases, inl, inr,
}
use general_agent_platform.Json.{Value, array, nil}
use general_agent_platform.Db.{Db, Snapshot, ToolDefinition, ToolCall}
use general_agent_platform.Tools.{
  Environment, is_terminal, retries_of, run_call, obey, settle_call, execute_tool_call,
  are_policies, policies_of, run_of, is_ok, is_readable_tools,
}
use general_agent_platform.Tools.Permitted.{is_permitted-readable}

-- What holds of all rows holds of the one that is found.
pub find-all {ℓ} :
    {A : Type ℓ} (p q : A → Bool) (xs : List A) (x : A)
    → all p xs ≡ true
    → find q xs ≡ some x
    → p x ≡ true
find-all p q [] x h found = ground arith
find-all p q (y ∷ ys) x h found = ground (arith, find-all p q ys x)

module _ (env : Environment) (d : ToolDefinition) (call : ToolCall) (db : Db) where
  run_call-returns :
      is_ok (retries_of env d) ≡ true → (done : ToolCall) × ((run_call env d call db).0 ≡ ok done)
  unfolding run_call
  run_call-returns h = elim (Result-cases (run_call env d call db).0) [
    | inr returned ↦ returned
    | inl (e, raised) ↦ elim (Result-cases (retries_of env d)) [
      | inl (e', unread) ↦ ground (arith, h, unread)
      | inr (known, got) ↦ ground (arith, raised, got)
    ]
  ]

  obey-returns :
      (b : Bool)
      → is_ok (retries_of env d) ≡ true
      → (done : ToolCall) × ((obey env d call db (ok b)).0 ≡ ok done)
  unfolding obey
  obey-returns true h = run_call-returns h
  obey-returns false h = elim (Result-cases (obey env d call db (ok false)).0) [
    | inr returned ↦ returned
    | inl (e, raised) ↦ cc
  ]

  pub execute-returns :
      is_ok (retries_of env d) ≡ true
      → are_policies (policies_of call db) ≡ true
      → (done : ToolCall) × ((execute_tool_call env d call db).0 ≡ ok done)
  unfolding execute_tool_call settle_call
  execute-returns h readable = elim (Bool-cases (is_terminal call.status)) [
    | inl over ↦ (call, rw (over, execute_tool_call) refl)
    | inr live ↦
        elim (Bool-cases
          (is_none (run_of call db) || not (d.tenant_id == call.tenant_id) || not d.is_active)) [
            | inl foreign ↦ elim (Result-cases (settle_call env d call db).0) [
              | inr (done, returned) ↦ (done, rw (live, execute_tool_call) returned)
              | inl (e, raised) ↦ ground (arith, foreign, raised)
            ]
            | inr own ↦
                let (b, answer) = is_permitted-readable d (policies_of call db) readable in
                let (done, returned) = obey-returns b h in
                (done, rw (live, own, answer, execute_tool_call, settle_call) returned)
          ]
  ]

abbrev IsReadable : Option Snapshot → Type 0
IsReadable o =
    are_policies (elim o as (λ x. Value) [ none ↦ array nil | some s ↦ s.tool_policies ]) ≡ true

-- The policies of a call are those of a snapshot, or none.
pub policies_of-readable :
    (env : Environment) (call : ToolCall) (db : Db)
    → is_readable_tools env db ≡ true
    → are_policies (policies_of call db) ≡ true
policies_of-readable env call db h =
    let mine = λ (s : Snapshot). s.run_id == call.run_id && s.tenant_id == call.tenant_id in
    elim (Option-cases (find mine db.snapshots)) [
      | inl absent ↦ subst (λ o. IsReadable o) (sym absent) refl
      | inr (s, found) ↦
          let holds =
            find-all (λ (s : Snapshot). are_policies s.tool_policies) mine db.snapshots s
              (ground (arith, h)) found in
          subst (λ o. IsReadable o) (sym found) holds
    ]
