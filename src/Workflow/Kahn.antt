-- ===== src/Workflow/Kahn.antt =====
-- The `while queue` loop of `validate_workflow` ends: its fuel, the nodes and the edges, is enough.
use general_agent_platform.Base.{
  ℕ, zero, suc, ◌+◌, ◌≤◌, ◌<◌, String, ◌≡◌, refl, ap, List, [], ◌∷◌, ◌++◌, arith, if◌then◌else◌,
  length, length-append, ok, Bool-cases, inl, inr,
}
use general_agent_platform.Base.Int.{pos, negsuc, pos_part}
use general_agent_platform.Workflow.{
  Node, Indegree, is_zero, decrement, degree, visit_children, children, roots, edges,
  initial_indegree, kahn, count_visited,
}

-- What the loop uses up: the keys in the queue and the edges that are left.
abbrev total : Indegree → ℕ
total [] = 0
total ((k, d) ∷ rest) = pos_part d + total rest

-- A decrement that reaches zero has used up an edge.
total-decrement :
    (child : String) (indegree : Indegree)
    → (if is_zero (degree child (decrement child indegree)) then 1 else 0)
        + total (decrement child indegree)
      ≤ total indegree
unfolding decrement degree
total-decrement child [] = omega arith
total-decrement child ((k, pos zero) ∷ rest) = ground (arith, total-decrement child rest)
total-decrement child ((k, pos (suc n)) ∷ rest) = ground (arith, total-decrement child rest)
total-decrement child ((k, negsuc n) ∷ rest) = ground (arith, total-decrement child rest)

visit_children-le :
    (childs : List String) (indegree : Indegree) (queue : List String)
    → let (next, queue') = visit_children childs indegree queue in
      total next + length queue' ≤ total indegree + length queue
unfolding visit_children
visit_children-le [] indegree queue = omega arith
visit_children-le (child ∷ rest) indegree queue =
    let next = decrement child indegree in
    elim (Bool-cases (is_zero (degree child next))) [
      | inl z ↦ ground (
        arith,
        visit_children-le rest next (queue ++ child ∷ []),
        total-decrement child indegree,
        length-append queue (child ∷ []),
      )
      | inr z ↦ ground (arith, visit_children-le rest next queue, total-decrement child indegree)
    ]

kahn-total :
    (nodes : List Node) (fuel : ℕ) (queue : List String) (indegree : Indegree) (visited : ℕ)
    → total indegree + length queue < fuel
    → (v : ℕ) × (kahn nodes fuel queue indegree visited ≡ ok v)
unfolding kahn
kahn-total nodes zero queue indegree visited h = absurd (omega arith)
kahn-total nodes (suc fuel) [] indegree visited h = (visited, refl)
kahn-total nodes (suc fuel) (key ∷ queue) indegree visited h =
    let (next, queue') = visit_children (children nodes key) indegree queue in
    kahn-total nodes fuel queue' next (visited + 1)
      (omega (arith, visit_children-le (children nodes key) indegree queue))

length-roots-le : (indegree : Indegree) → length (roots indegree) ≤ length indegree
length-roots-le [] = omega arith
length-roots-le ((k, d) ∷ rest) = ground (arith, length-roots-le rest)

length-initial : (nodes : List Node) → length (initial_indegree nodes) ≡ length nodes
length-initial [] = refl
length-initial (n ∷ rest) = ap suc (length-initial rest)

total-initial : (nodes : List Node) → total (initial_indegree nodes) ≡ edges nodes
total-initial [] = refl
total-initial (n ∷ rest) = omega (arith, total-initial rest)

-- Whatever the nodes, the loop runs until its queue is empty.
pub count_visited-total : (nodes : List Node) → (v : ℕ) × (count_visited nodes ≡ ok v)
count_visited-total nodes =
    let indegree = initial_indegree nodes in
    kahn-total nodes (suc (length nodes + edges nodes)) (roots indegree) indegree 0
      (omega (arith, length-roots-le indegree, length-initial nodes, total-initial nodes))
