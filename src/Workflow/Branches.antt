-- ===== src/Workflow/Branches.antt =====
-- What a branch that is not taken excludes: `get_all_descendants` of `execute_workflow`
-- (app/worker.py), and `branch_excluded_keys` (app/runtime.py), which nothing calls.
use general_agent_platform.Base.{
  ℕ, zero, suc, String, Bool, true, false, not, ◌&&◌, ◌||◌, Option, none, some, List, [], ◌∷◌, ◌++◌,
  if◌then◌else◌, length, select, any, mem, subset, str_eq,
}
use general_agent_platform.Workflow.{Node, key_of, keys_of}

-- the keys that are added to `descendants_map[key]`, less repetitions
abbrev pub dependents_among : List Node → String → List String
dependents_among [] key = []
dependents_among (n ∷ rest) key =
    let later = dependents_among rest key in
    if mem key n.depends_on then key_of n ∷ later else later

-- `descendants_map.get(key, set())`: the map has the keys of the nodes.
abbrev pub dependents : List Node → String → List String
dependents nodes key = if mem key (keys_of nodes) then dependents_among nodes key else []

-- `get_all_descendants` for keys one after the other, with the descendants and the visited keys so
-- far. The first argument is the depth of the recursion that is left.
unfoldable pub visit_all :
    List Node → ℕ → List String → List String → List String → List String × List String
visit_all nodes zero keys result visited = (result, visited)
visit_all nodes (suc depth) [] result visited = (result, visited)
visit_all nodes (suc depth) (k ∷ keys) result visited = elim (mem k visited) [
  | true ↦ visit_all nodes (suc depth) keys result visited
  | false ↦
      let kids = dependents nodes k in
      let (result', visited') = visit_all nodes depth kids (result ++ kids) (k ∷ visited) in
      visit_all nodes (suc depth) keys result' visited'
]

unfoldable pub get_all_descendants : List Node → String → List String
unfolding visit_all
get_all_descendants nodes key = (visit_all nodes (suc (suc (length nodes))) (key ∷ []) [] []).0

-- Whether a node is excluded in a pass of `branch_excluded_keys`.
abbrev pub is_branch_only : String → List String → Node → Bool
is_branch_only condition_key excluded n =
    not (mem (key_of n) excluded)
    && not (str_eq (key_of n) condition_key)
    && any (λ d. mem d excluded) n.depends_on
    && subset n.depends_on (excluded ++ condition_key ∷ [])

-- The `for` loop: whether anything changed, and the excluded keys.
unfoldable pub exclude_pass : String → List Node → List String → Bool × List String
exclude_pass condition_key [] excluded = (false, excluded)
exclude_pass condition_key (n ∷ rest) excluded =
    let takes = is_branch_only condition_key excluded n in
    let (changed, final) =
      exclude_pass condition_key rest (if takes then key_of n ∷ excluded else excluded) in
    (takes || changed, final)

-- The `while changed` loop; none when the fuel runs out.
unfoldable pub exclude_all : List Node → String → ℕ → List String → Option (List String)
unfolding exclude_pass
exclude_all nodes condition_key zero excluded = none
exclude_all nodes condition_key (suc fuel) excluded =
    let (changed, next) = exclude_pass condition_key nodes excluded in
    let rest = exclude_all nodes condition_key fuel next in if changed then rest else some next

unfoldable pub branch_excluded_keys : List Node → String → String → Option (List String)
unfolding exclude_all
branch_excluded_keys nodes condition_key root =
    elim (exclude_all nodes condition_key (suc (length nodes)) (root ∷ [])) [
      | none ↦ none
      | some excluded ↦ some (select (λ k. mem k (keys_of nodes)) excluded)
    ]
