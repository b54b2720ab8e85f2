-- ===== src/Workflow/Accepts.antt =====
-- Which workflows `order_workflow` accepts.
use general_agent_platform.Base.{
  ℕ, String, ◌≡◌, refl, Bool, true, List, [], ◌∷◌, arith, ltb, length, select, all, all-append, mem,
  subset, ok, >>=-eq-ok, str_eq_refl,
}
use general_agent_platform.Workflow.{
  Node, key_of, keys_of, virtual_deps, condition_parents, validate_node, validate_nodes,
  validate_workflow, order_workflow,
}
use general_agent_platform.Workflow.Order.{Distinct-of_valid, valid_parts}
use general_agent_platform.Workflow.Complete.{IsRanked, waits, rounds_complete}

validate_node-deps :
    (keys : List String) (n : Node) → validate_node keys n ≡ ok tt → subset n.depends_on keys ≡ true
unfolding validate_node
validate_node-deps keys n h = ground arith

validate_nodes-deps :
    (keys : List String) (nodes : List Node)
    → validate_nodes keys nodes ≡ ok tt
    → all (λ n. subset n.depends_on keys) nodes ≡ true
unfolding validate_nodes
validate_nodes-deps keys [] h = refl
validate_nodes-deps keys (n ∷ rest) h =
    let (u, first, others) = >>=-eq-ok (validate_node keys n) _ h in
    ground (arith, validate_node-deps keys n first, validate_nodes-deps keys rest others)

subset-cons : (k : String) (xs ys : List String) → subset xs ys ≡ true → subset xs (k ∷ ys) ≡ true
subset-cons k [] ys h = refl
subset-cons k (x ∷ xs) ys h = ground (arith, subset-cons k xs ys)

subset-keys-select :
    (p : Node → Bool) (nodes : List Node) → subset (keys_of (select p nodes)) (keys_of nodes) ≡ true
subset-keys-select p [] = refl
subset-keys-select p (n ∷ rest) = ground (
  arith,
  str_eq_refl (key_of n),
  subset-cons (key_of n) (keys_of (select p rest)) (keys_of rest) (subset-keys-select p rest),
)

condition_parents-subset :
    (nodes : List Node) (k : String) → subset (condition_parents nodes k) (keys_of nodes) ≡ true
condition_parents-subset nodes k = subset-keys-select _ nodes

all-waits :
    (nodes : List Node) (rank : String → ℕ) (l : List Node)
    → all (λ n. subset n.depends_on (keys_of nodes)) l ≡ true
    → all (λ n. all (λ d. ltb (rank d) (rank (key_of n))) (virtual_deps nodes n)) l ≡ true
    → all (waits nodes rank [] nodes) l ≡ true
all-waits nodes rank [] k r = refl
all-waits nodes rank (n ∷ rest) k r = ground (
  arith,
  all-append (λ d. mem d (keys_of nodes)) n.depends_on (condition_parents nodes (key_of n)),
  condition_parents-subset nodes (key_of n),
  all-waits nodes rank rest,
)

-- A workflow that passes validation, and whose dependencies together with its condition edges have
-- a ranking, that is no cycle, is ordered: `order_workflow` raises nothing.
pub order_workflow_complete :
    (nodes : List Node) (rank : String → ℕ)
    → validate_workflow nodes ≡ ok tt
    → IsRanked rank nodes
    → (l : List Node) × (order_workflow nodes ≡ ok l)
unfolding order_workflow
order_workflow_complete nodes rank valid ranked = rw valid (
    rounds_complete nodes rank (length nodes) nodes [] [] (Distinct-of_valid nodes valid)
      (omega arith)
      (all-waits nodes rank nodes
        (validate_nodes-deps (keys_of nodes) nodes (valid_parts nodes valid).1) ranked))
