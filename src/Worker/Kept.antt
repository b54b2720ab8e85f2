-- ===== src/Worker/Kept.antt =====
-- What the loop of `execute_workflow` (app/worker.py) keeps, whatever its nodes do: the rows of the
-- runs, the columns that a transition compares, and the number of tool calls.
use general_agent_platform.Base.{
  ℕ, suc, ◌+◌, ◌≤◌, ◌≡◌, refl, Bool, true, false, Option, none, List, [], ◌∷◌, arith, ◌==◌, ap,
  length, length-append, update_where, Result, ok, err, Option-cases, Bool-cases, inl, inr, ◌<◌,
  ltb, ◌∙◌, sym, subst, some, not, ◌||◌, ◌&&◌, is_none, all, select, Code, Result-cases,
}
use general_agent_platform.Json.{Value, null, boolean, number, text, array, object}
use general_agent_platform.Db.{Db, Run, ToolDefinition, ToolCall, Snapshot, executing, node_running}
use general_agent_platform.Runs.{record_runtime_event}
use general_agent_platform.Tools.{
  Environment, is_terminal, retries_of, run_of, policies_of, is_permitted, are_policies, is_ok,
  is_readable_tools, store, disallowed, denied, finish_call, run_call, obey, settle_call,
  execute_tool_call,
}
use general_agent_platform.Tools.Readable.{execute-returns, policies_of-readable}
use general_agent_platform.Approvals.Creation.{newest}
use general_agent_platform.Workflow.{Node, key_of}
use general_agent_platform.Workflow.Condition.{condition_matches, condition_route}
use general_agent_platform.Worker.Provider.{Completion, complete_model}
use general_agent_platform.Worker.Steps.{
  Host, Exec, Next, go, halt, raise, crash, check_limits, persist_workflow_node,
}
use general_agent_platform.Worker.Calls.{
  use_call, used_call, add_workflow_call, workflow_call, find_or_add_call, call_of_run, input_of,
  tool_of, run_tool,
}
use general_agent_platform.Worker.Nodes.{
  finish_model, answer_model, run_model, prompt_of, route, run_type, run_matched, run_node,
  run_nodes,
}

-- The new row of a call takes the place of the old one.
length-update_where {ℓ} :
    {A : Type ℓ} (p : A → Bool) (f : A → A) (xs : List A) → length (update_where p f xs) ≡ length xs
length-update_where p f [] = refl
length-update_where p f (x ∷ xs) = ap suc (length-update_where p f xs)

-- The tables that a tool call leaves, and how many calls there are.
abbrev pub SameTables : Db → Db → Type 0
SameTables db db' =
    (db'.runs ≡ db.runs)
    × (length db'.calls ≡ length db.calls)
    × (db'.definitions ≡ db.definitions)
    × (db'.snapshots ≡ db.snapshots)

module _ (env : Environment) (d : ToolDefinition) (call : ToolCall) (db : Db) where
  store-keeps : (call' : ToolCall) → SameTables db (store env call' db)
  store-keeps call' = (
    refl,
    length-update_where (λ (c : ToolCall). c.id == call'.id) (λ (c : ToolCall). call') db.calls,
    refl,
    refl,
  )

  run_call-keeps : SameTables db (run_call env d call db).1
  unfolding run_call
  run_call-keeps = elim (Result-cases (retries_of env d)) [
    | inl (e, raised) ↦
        rw (raised, run_call)
          (store-keeps (record call { status = executing; started_at = some db.now }))
    | inr ((max, codes), known) ↦
        rw (known, run_call)
          (store-keeps (
            finish_call env d codes max db.now
              (record call { status = executing; started_at = some db.now })))
  ]

  obey-keeps : (answer : Result Bool) → SameTables db (obey env d call db answer).1
  unfolding obey
  obey-keeps (err e) = (refl, refl, refl, refl)
  obey-keeps (ok true) = run_call-keeps
  obey-keeps (ok false) = store-keeps (denied env call db.now)

  pub execute_tool_call-keeps : SameTables db (execute_tool_call env d call db).1
  unfolding execute_tool_call settle_call
  execute_tool_call-keeps = elim (Bool-cases (is_terminal call.status)) [
    | inl over ↦ rw (over, execute_tool_call) (refl, refl, refl, refl)
    | inr live ↦
        elim (Bool-cases
          (is_none (run_of call db) || not (d.tenant_id == call.tenant_id) || not d.is_active)) [
            | inl foreign ↦
                rw (live, foreign, execute_tool_call, settle_call)
                  (store-keeps (disallowed env call))
            | inr own ↦
                rw (live, own, execute_tool_call, settle_call)
                  (obey-keeps (is_permitted d (policies_of call db)))
          ]
  ]

-- The state at the start of the loop is `run`, `db`.
module _ (run : Run) (db : Db) where
  abbrev pub SameRow : Run → Type 0
  SameRow r =
      (r.id ≡ run.id)
      × (r.status ≡ run.status)
      × (r.attempt_id ≡ run.attempt_id)
      × (r.checkpoint_version ≡ run.checkpoint_version)

-- The tools and the snapshots are as they were.
abbrev pub SameTools : Db → Db → Type 0
SameTools db db' = (db'.definitions ≡ db.definitions) × (db'.snapshots ≡ db.snapshots)

pub readable_kept :
    (env : Environment) (db db' : Db)
    → SameTools db db'
    → is_readable_tools env db' ≡ is_readable_tools env db
readable_kept env db db' (defs, snaps) =
    ap
      (λ ds.
        all (λ (d : ToolDefinition). is_ok (retries_of env d)) ds
        && all (λ (s : Snapshot). are_policies s.tool_policies) db'.snapshots)
      defs
    ∙ ap
        (λ ss.
          all (λ (d : ToolDefinition). is_ok (retries_of env d)) db.definitions
          && all (λ (s : Snapshot). are_policies s.tool_policies) ss)
        snaps

newest_holds :
    (p : ToolDefinition → Bool) (ds : List ToolDefinition) (d : ToolDefinition)
    → all p ds ≡ true
    → newest ds ≡ some d
    → p d ≡ true
newest_holds p [] d h found = ground arith
newest_holds p (c ∷ ds) d h found = elim (Option-cases (newest ds)) [
  | inl last ↦ ground (arith, last)
  | inr (e, later) ↦ ground (arith, later, newest_holds p ds e)
]

all-select_kept {ℓ} :
    {A : Type ℓ} (p q : A → Bool) (xs : List A) → all p xs ≡ true → all p (select q xs) ≡ true
all-select_kept p q [] h = refl
all-select_kept p q (x ∷ xs) h = ground (arith, all-select_kept p q xs)

module _ (host : Host) (run : Run) (db : Db) where
  abbrev pub IsKept : Exec → Type 0
  IsKept e =
      (e.db.runs ≡ db.runs)
      × SameRow run db e.run
      × (length e.db.calls ≤ length db.calls + e.tool_calls)
      × (length e.db.calls ≤ length db.calls + 50)
      × SameTools db e.db

  abbrev pub KeptNext : Next → Type 0
  KeptNext (go e) = IsKept e
  KeptNext (halt h e) = IsKept e
  KeptNext (raise code e) = IsKept e
  KeptNext (crash code e) = IsKept e × (is_readable_tools host.tools db ≡ false)

  finish_model-KeptNext :
      (n : Node) (c : Completion) (e : Exec) → IsKept e → KeptNext (finish_model n c e)
  unfolding finish_model persist_workflow_node
  finish_model-KeptNext n c e h = h

  answer_model-KeptNext :
      (n : Node) (r : ℕ × Result Completion) (e : Exec) → IsKept e → KeptNext (answer_model n r e)
  unfolding answer_model
  answer_model-KeptNext n (failures, ok c) e h =
      finish_model-KeptNext n c (record e { failures = failures }) h
  answer_model-KeptNext n (failures, err code) e h = h

  run_model-KeptNext : (n : Node) (e : Exec) → IsKept e → KeptNext (run_model host n e)
  unfolding run_model
  run_model-KeptNext n e h = ground (
    arith,
    finish_model-KeptNext n,
    answer_model-KeptNext n
        (complete_model host.provider (prompt_of host n e.context) e.context e.failures) e h,
  )

  route-KeptNext :
      (ordered : List Node) (n : Node) (r : Result (Bool × Option Value)) (e : Exec)
      → IsKept e
      → KeptNext (route ordered n r e)
  unfolding route persist_workflow_node
  route-KeptNext ordered n (ok (matched, selected)) e h = h
  route-KeptNext ordered n (err code) e h = h

  -- The tool is one of those that can be read, if all can.
  abbrev IsListed : ToolDefinition → Type 0
  IsListed d = is_readable_tools host.tools db ≡ true → is_ok (retries_of host.tools d) ≡ true

  tool_of-IsListed :
      (n : Node) (d : ToolDefinition) (e : Exec) → IsKept e → tool_of host n e ≡ some d → IsListed d
  tool_of-IsListed n d e h found = λ readable.
      let (rows, row, few, most, (defs, snaps)) = h in
      let p = λ (c : ToolDefinition). is_ok (retries_of host.tools c) in
      newest_holds p _ d
        (all-select_kept p _ e.db.definitions
          (subst (λ ds. all p ds ≡ true) (sym defs) (ground (arith, readable))))
        found

  -- A call that raises is one of tools that cannot all be read.
  raises-unreadable :
      (d : ToolDefinition) (call : ToolCall) (e : Exec) (code : Code)
      → IsKept e
      → IsListed d
      → (execute_tool_call host.tools d call e.db).0 ≡ err code
      → is_readable_tools host.tools db ≡ false
  raises-unreadable d call e code h listed raised =
      elim (Bool-cases (is_readable_tools host.tools db)) [
        | inr unreadable ↦ unreadable
        | inl readable ↦
            let same : is_readable_tools host.tools e.db ≡ is_readable_tools host.tools db =
              let (rows, row, few, most, (defs, snaps)) = h in
              readable_kept host.tools db e.db (defs, snaps) in
            let (done, returned) =
              execute-returns host.tools d call e.db (listed readable)
                (policies_of-readable host.tools call e.db (same ∙ readable)) in
            ground (arith, raised, returned)
      ]

  use_call-KeptNext :
      (n : Node) (d : ToolDefinition) (call : ToolCall) (e : Exec)
      → IsKept e
      → IsListed d
      → KeptNext (use_call host n d call e)
  unfolding use_call used_call persist_workflow_node
  use_call-KeptNext n d call e h listed =
      let kept = execute_tool_call-keeps host.tools d call e.db in
      elim (Result-cases (execute_tool_call host.tools d call e.db).0) [
        | inr (done, returned) ↦ ground (arith, returned, kept)
        | inl (code, raised) ↦
            let unreadable = raises-unreadable d call e code h listed raised in
            ground (arith, raised, kept, unreadable)
      ]

  -- A new call fits into the bound, since the node has been counted.
  add_workflow_call-IsKept :
      (d : ToolDefinition) (call : ToolCall) (e : Exec)
      → IsKept e
      → length e.db.calls < length db.calls + e.tool_calls
      → e.tool_calls ≤ 50
      → IsKept (add_workflow_call host d call e)
  unfolding add_workflow_call record_runtime_event
  add_workflow_call-IsKept d call e h less few =
      ground (arith, length-append e.db.calls (call ∷ []))

  add_call-KeptNext :
      (n : Node) (d : ToolDefinition) (input : Value) (e : Exec)
      → IsKept e
      → IsListed d
      → length e.db.calls < length db.calls + e.tool_calls
      → e.tool_calls ≤ 50
      → call_of_run e.run (host.call_key d.id input e.run.id) e.db ≡ none
      → KeptNext (find_or_add_call host n d input e)
  unfolding find_or_add_call
  add_call-KeptNext n d (object fs) e h listed less few absent =
      let call = workflow_call host e.run d (host.call_key d.id (object fs) e.run.id) fs e.db in
      ground (
        arith,
        absent,
        use_call-KeptNext n d call (add_workflow_call host d call e)
            (add_workflow_call-IsKept d call e h less few) listed,
      )
  add_call-KeptNext n d null e h listed less few absent = ground (arith, absent)
  add_call-KeptNext n d (boolean b) e h listed less few absent = ground (arith, absent)
  add_call-KeptNext n d (number k) e h listed less few absent = ground (arith, absent)
  add_call-KeptNext n d (text t) e h listed less few absent = ground (arith, absent)
  add_call-KeptNext n d (array vs) e h listed less few absent = ground (arith, absent)

  find_or_add_call-KeptNext :
      (n : Node) (d : ToolDefinition) (input : Value) (e : Exec)
      → IsKept e
      → IsListed d
      → length e.db.calls < length db.calls + e.tool_calls
      → e.tool_calls ≤ 50
      → KeptNext (find_or_add_call host n d input e)
  unfolding find_or_add_call
  find_or_add_call-KeptNext n d input e h listed less few =
      elim (Option-cases (call_of_run e.run (host.call_key d.id input e.run.id) e.db)) [
        | inl absent ↦ add_call-KeptNext n d input e h listed less few absent
        | inr (call, found) ↦ ground (arith, found, use_call-KeptNext n d call e h listed)
      ]

  run_tool-KeptNext : (n : Node) (e : Exec) → IsKept e → KeptNext (run_tool host n e)
  unfolding run_tool
  run_tool-KeptNext n e (rows, row, few, most, tools) =
      let e' = record e { tool_calls = suc e.tool_calls } in
      let kept : IsKept e' = (rows, row, omega (arith, few), most, tools) in
      elim (Bool-cases (ltb 50 e'.tool_calls)) [
        | inl over ↦ ground (arith, over, kept)
        | inr under ↦ elim (Option-cases (tool_of host n e')) [
          | inl absent ↦ ground (arith, under, absent, kept)
          | inr (d, found) ↦
              let enough : e'.tool_calls ≤ 50 = ground arith in
              ground (
                arith,
                under,
                found,
                find_or_add_call-KeptNext n d (input_of n e') e' kept
                    (tool_of-IsListed n d e' kept found) (omega (arith, few)) enough,
              )
        ]
      ]

  run_type-KeptNext :
      (ordered : List Node) (n : Node) (e : Exec) → IsKept e → KeptNext (run_type host ordered n e)
  unfolding run_type persist_workflow_node
  run_type-KeptNext ordered n e h = ground (
    arith,
    run_model-KeptNext n e h,
    run_tool-KeptNext n e h,
    route-KeptNext ordered n (condition_route host.engine n e.context) e h,
  )

  run_matched-KeptNext :
      (ordered : List Node) (n : Node) (r : Result Bool) (e : Exec)
      → IsKept e
      → KeptNext (run_matched host ordered n r e)
  unfolding run_matched persist_workflow_node
  run_matched-KeptNext ordered n (err code) e h = h
  run_matched-KeptNext ordered n (ok false) e h = h
  run_matched-KeptNext ordered n (ok true) e h =
      run_type-KeptNext ordered n
        (record e { db = persist_workflow_node e.run (key_of n) node_running null e.db }) h

  run_node-KeptNext :
      (ordered : List Node) (n : Node) (e : Exec) → IsKept e → KeptNext (run_node host ordered n e)
  unfolding run_node persist_workflow_node
  run_node-KeptNext ordered n e h =
      let e' = record e { steps = suc e.steps } in
      elim (Option-cases (check_limits host n e')) [
        | inl none_hit ↦ ground (
          arith,
          none_hit,
          run_matched-KeptNext ordered n (condition_matches host.engine n.when e'.context) e' h,
        )
        | inr (limit, hit) ↦ ground (arith, hit)
      ]

  next-KeptNext :
      (ordered rest : List Node) (r : Next)
      → KeptNext r
      → ((e : Exec) → IsKept e → KeptNext (run_nodes host ordered rest e))
      → KeptNext (elim r [
        | go e ↦ run_nodes host ordered rest e
        | halt why e ↦ halt why e
        | raise code e ↦ raise code e
        | crash code e ↦ crash code e
      ])
  next-KeptNext ordered rest (go e) h later = later e h
  next-KeptNext ordered rest (halt why e) h later = h
  next-KeptNext ordered rest (raise code e) h later = h
  next-KeptNext ordered rest (crash code e) h later = h

  pub run_nodes-KeptNext :
      (ordered ns : List Node) (e : Exec) → IsKept e → KeptNext (run_nodes host ordered ns e)
  unfolding run_nodes
  run_nodes-KeptNext ordered [] e h = h
  run_nodes-KeptNext ordered (n ∷ rest) e h =
      next-KeptNext ordered rest (run_node host ordered n e) (run_node-KeptNext ordered n e h)
        (λ e' h'. run_nodes-KeptNext ordered rest e' h')
