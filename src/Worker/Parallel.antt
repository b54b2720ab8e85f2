-- ===== src/Worker/Parallel.antt =====
-- `_prepare_parallel_results` (app/worker.py): the nodes of one depth that need no others, computed
-- before the loop. The pool's calls are taken in the order of the batch, which is one of the orders
-- in which it may run them; the duration is left out.
use general_agent_platform.Base.{
  ℕ, suc, String, Bool, true, false, ◌&&◌, some, List, [], ◌∷◌, ◌++◌, ◌==◌, ltb, if◌then◌else◌,
  length, is_empty, str_eq, Result, ok, err,
}
use general_agent_platform.Json.{text, Fields}
use general_agent_platform.Workflow.{Node, prepare, model, finalize, key_of, condition_parents}
use general_agent_platform.Worker.Provider.{Completion, complete_model}
use general_agent_platform.Worker.Steps.{Host}
use general_agent_platform.Json.Dict.{get_or}

abbrev pub Depths : Type 0
Depths = List (String × ℕ)

abbrev depth_of : String → Depths → ℕ
depth_of key [] = 0
depth_of key ((k, d) ∷ rest) = if str_eq k key then d else depth_of key rest

abbrev deepest : List String → Depths → ℕ
deepest [] depths = 0
deepest (dep ∷ deps) depths =
    let rest = deepest deps depths in
    let here = depth_of dep depths in if ltb rest here then here else rest

-- `1 + max(...)` for each node, in order
unfoldable pub depths_of : List Node → Depths → Depths
depths_of [] depths = depths
depths_of (n ∷ rest) depths =
    depths_of rest ((key_of n, suc (deepest n.depends_on depths)) ∷ depths)

abbrev pub is_parallel : List Node → Node → Bool
is_parallel ordered n =
    elim n.type [ some model ↦ true | some prepare ↦ true | some finalize ↦ true | _ ↦ false ]
    && is_empty (condition_parents ordered (key_of n))

abbrev pub Groups : Type 0
Groups = List (ℕ × List Node)

-- `groups.setdefault(depth, []).append(node)`
abbrev pub add_to_group : ℕ → Node → Groups → Groups
add_to_group d n [] = (d, n ∷ []) ∷ []
add_to_group d n ((k, batch) ∷ rest) =
    if k == d then (k, batch ++ n ∷ []) ∷ rest else (k, batch) ∷ add_to_group d n rest

unfoldable pub groups_of : List Node → Depths → List Node → Groups → Groups
groups_of ordered depths [] groups = groups
groups_of ordered depths (n ∷ rest) groups =
    groups_of ordered depths rest
      (if is_parallel ordered n then add_to_group (depth_of (key_of n) depths) n groups else groups)

-- The batches of more than one node, one after the other.
abbrev pub batches : Groups → List Node
batches [] = []
batches ((d, batch) ∷ rest) = if ltb 1 (length batch) then batch ++ batches rest else batches rest

-- The prompt of a node that is computed ahead: nothing is put into it.
abbrev pub ahead_prompt : Host → Node → Fields → String
ahead_prompt host n context = host.str (get_or "prompt" n.rest (get_or "prompt" context (text "")))

-- The model nodes among them are computed, until one raises.
unfoldable pub compute : Host → Fields → List Node → ℕ → ℕ × Result (List (String × Completion))
unfolding complete_model
compute host context [] failures = (failures, ok [])
compute host context (n ∷ rest) failures = elim n.type [
  | some model ↦
      let (failures', result) =
        complete_model host.provider (ahead_prompt host n context) context failures in
      elim result [
        | err e ↦ (failures', err e)
        | ok c ↦
            let (final, others) = compute host context rest failures' in
            elim others [ err e ↦ (final, err e) | ok done ↦ (final, ok ((key_of n, c) ∷ done)) ]
      ]
  | _ ↦ compute host context rest failures
]

unfoldable pub prepare_parallel_results :
    Host → List Node → Fields → ℕ → ℕ × Result (List (String × Completion))
unfolding depths_of groups_of compute
prepare_parallel_results host ordered context failures =
    compute host context (batches (groups_of ordered (depths_of ordered []) ordered [])) failures
