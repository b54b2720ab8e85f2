-- ===== src/Approvals/Idempotent.antt =====
-- A tool call is created once for each idempotency key. The code compares neither the tool nor the
-- input, where project/docs/10-shared-contracts.md asks for a 409 if the body is another one.
use general_agent_platform.Base.{
  ℕ, ◌≡◌, ap, sym, subst, ◌∙◌, String, Bool, true, not, ◌&&◌, none, some, List, [], ◌∷◌, ◌++◌,
  arith, ◌==◌, ==-refl, if◌then◌else◌, find, str_eq, str_eq_refl, Bool-cases, Option-cases, inl,
  inr, Result, ok, err, not_found, conflict, invalid_tool_input,
}
use general_agent_platform.Json.{object}
use general_agent_platform.Principal.{Principal}
use general_agent_platform.Db.{Db, Run, ToolDefinition, ToolCall}
use general_agent_platform.Runs.Endpoints.{Reply}
use general_agent_platform.Tools.{Environment, validate_json_schema}
use general_agent_platform.Approvals.Creation.{
  CallRequest, active_tool, call_of_key, new_call, add_call, store_call, create_tool_call,
}

-- A database in which the request with this key has been served.
abbrev pub IsServed : Principal → ℕ → String → ToolCall → Db → Type 0
IsServed p run_id key call db =
    (run : Run) × (find (λ (r : Run). r.id == run_id && r.tenant_id == p.tenant_id) db.runs
      ≡ some run)
    × (call_of_key p key db ≡ some call)
    × ((call.run_id == run_id) ≡ true)

find-append-none {ℓ} :
    {A : Type ℓ} (q : A → Bool) (rows : List A) (a : A)
    → find q rows ≡ none
    → q a ≡ true
    → find q (rows ++ a ∷ []) ≡ some a
find-append-none q [] a h t = ground arith
find-append-none q (b ∷ rows) a h t = ground (arith, find-append-none q rows a)

module _ (env : Environment) (sha256 : String → String) (token : String) where
  served_again :
      (p : Principal) (run_id : ℕ) (request : CallRequest) (call : ToolCall) (db : Db)
      → IsServed p run_id request.idempotency_key call db
      → create_tool_call env sha256 token p run_id request db ≡ (ok call, db)
  unfolding create_tool_call
  served_again p run_id request call db (run, found, there, own) = ground (arith, found, there, own)

  add_call-keeps :
      (p : Principal) (run : Run) (tool : ToolDefinition) (call : ToolCall) (db : Db)
      → let db' = add_call env sha256 token p run tool call db in
        (db'.runs ≡ db.runs) × (db'.calls ≡ db.calls ++ call ∷ [])
  unfolding add_call
  add_call-keeps p run tool call db = ground arith

  store_call-IsServed :
      (p : Principal) (run_id : ℕ) (run : Run) (tool : ToolDefinition) (request : CallRequest)
      (valid : Result (Unit {0})) (db : Db) (call : ToolCall)
      → find (λ (r : Run). r.id == run_id && r.tenant_id == p.tenant_id) db.runs ≡ some run
      → call_of_key p request.idempotency_key db ≡ none
      → let (reply, db') = store_call env sha256 token p run_id run tool request valid db in
        reply ≡ ok call → IsServed p run_id request.idempotency_key call db'
  unfolding store_call
  store_call-IsServed p run_id run tool request (err e) db call found fresh h = cc
  store_call-IsServed p run_id run tool request (ok u) db call found fresh h =
      let new = new_call env sha256 token p run_id request tool db in
      let (same_runs, appended) = add_call-keeps p run tool new db in
      let same : new ≡ call = ground (arith, h) in
      let mine : Bool =
        new.tenant_id == p.tenant_id && str_eq new.idempotency_key request.idempotency_key in
      let passes : mine ≡ true =
        ground (arith, ==-refl p.tenant_id, str_eq_refl request.idempotency_key) in
      (
        run,
        rw same_runs found,
        rw appended (
            find-append-none
              (λ (c : ToolCall).
                c.tenant_id == p.tenant_id && str_eq c.idempotency_key request.idempotency_key)
              db.calls new fresh passes
            ∙ ap some same),
        ground (arith, ap (λ (c : ToolCall). c.run_id) same, ==-refl run_id),
      )

  -- A reply that gives a call leaves a database in which the request has been served by it.
  abbrev IsServing : Principal → ℕ → String → Reply ToolCall → Type 0
  IsServing p run_id key reply =
      (call : ToolCall) → reply.0 ≡ ok call → IsServed p run_id key call reply.1

  existing-IsServing :
      (p : Principal) (run_id : ℕ) (key : String) (run : Run) (existing : ToolCall) (db : Db)
      → find (λ (r : Run). r.id == run_id && r.tenant_id == p.tenant_id) db.runs ≡ some run
      → call_of_key p key db ≡ some existing
      → IsServing p run_id key
          (if not (existing.run_id == run_id) then (err conflict, db) else (ok existing, db))
  existing-IsServing p run_id key run existing db found there =
      elim (Bool-cases (existing.run_id == run_id)) [
        | inr other ↦ rw other (λ call h. cc)
        | inl own ↦ rw own (λ call h.
            let same : existing ≡ call = ground (arith, h) in
            (
              run,
              found,
              there ∙ ap some same,
              ap (λ (c : ToolCall). c.run_id == run_id) (sym same) ∙ own,
            ))
      ]

  create_tool_call-IsServing :
      (p : Principal) (run_id : ℕ) (request : CallRequest) (db : Db)
      → IsServing p run_id request.idempotency_key
          (create_tool_call env sha256 token p run_id request db)
  unfolding create_tool_call
  create_tool_call-IsServing p run_id request db =
      let key = request.idempotency_key in
      let serving = IsServing p run_id key in
      let reply = create_tool_call env sha256 token p run_id request db in
      elim (Option-cases
        (find (λ (r : Run). r.id == run_id && r.tenant_id == p.tenant_id) db.runs)) [
          | inl absent ↦
              let e : reply ≡ (err not_found, db) = ground (arith, absent) in
              subst serving (sym e) (λ call h. cc)
          | inr (run, found) ↦ elim (Option-cases (call_of_key p key db)) [
            | inr (existing, there) ↦
                let e : reply ≡ (
                    if not (existing.run_id == run_id)
                    then (err conflict, db)
                    else (ok existing, db)) =
                  ground (arith, found, there) in
                subst serving (sym e) (existing-IsServing p run_id key run existing db found there)
            | inl fresh ↦ elim (Option-cases (active_tool p request.tool_name db)) [
              | inl no_tool ↦
                  let e : reply ≡ (err not_found, db) = ground (arith, found, fresh, no_tool) in
                  subst serving (sym e) (λ call h. cc)
              | inr (tool, chosen) ↦
                  let valid =
                    validate_json_schema env (object request.input) tool.input_schema
                      invalid_tool_input in
                  let e : reply ≡ store_call env sha256 token p run_id run tool request valid db =
                    ground (arith, found, fresh, chosen) in
                  subst serving (sym e) (λ call.
                    store_call-IsServed p run_id run tool request valid db call found fresh)
            ]
          ]
        ]

-- A request that gave a tool call gives the same one when it is sent again under its idempotency
-- key, whatever tool and input it names by then, and changes nothing the second time.
pub create_tool_call_idempotent :
    (env : Environment) (sha256 : String → String) (token token2 : String) (p : Principal)
    (run_id : ℕ) (request request2 : CallRequest) (call : ToolCall) (db : Db)
    → request2.idempotency_key ≡ request.idempotency_key
    → let (reply, db') = create_tool_call env sha256 token p run_id request db in
      reply ≡ ok call → create_tool_call env sha256 token2 p run_id request2 db' ≡ (ok call, db')
create_tool_call_idempotent env sha256 token token2 p run_id request request2 call db same h =
    let db' = (create_tool_call env sha256 token p run_id request db).1 in
    served_again env sha256 token2 p run_id request2 call db' (
      subst (λ key. IsServed p run_id key call db') (sym same)
        (create_tool_call-IsServing env sha256 token p run_id request db call h))
