-- ===== src/Workflow/Complete.antt =====
-- `order_workflow` always answers, and it finds an order wherever the dependencies allow one.
use general_agent_platform.Base.{
  ℕ, zero, suc, ◌+◌, ◌≤◌, ◌<◌, String, ◌≡◌, ◌≢◌, refl, sym, ◌∙◌, ap, Bool, true, false, not, ◌&&◌,
  ◌||◌, List, [], ◌∷◌, ◌++◌, arith, ltb, length, select, all, mem, subset, Distinct, str_eq, eq_iff,
  Bool-cases, inl, inr, mem-append, Code, Result, ok, err, ◌>>◌, out_of_fuel,
  invalid_workflow_cycle, str_eq_refl,
}
use general_agent_platform.Workflow.{
  Node, key_of, keys_of, virtual_deps, is_ready, without, sort_by_key, rounds, validate_workflow,
  order_workflow, validate_nodes, validate_node,
}
use general_agent_platform.Workflow.Kahn.{count_visited-total}
use general_agent_platform.Workflow.Schedule.{mem-sort_by_key, length-sort_by_key, without-sorted}
use general_agent_platform.Workflow.Order.{round-Distinct, round_shrinks, Distinct-of_valid}

validate_node-ne-out_of_fuel :
    (keys : List String) (n : Node) → validate_node keys n ≢ err out_of_fuel
unfolding validate_node
validate_node-ne-out_of_fuel keys n = ground arith

validate_nodes-ne-out_of_fuel :
    (keys : List String) (nodes : List Node) → validate_nodes keys nodes ≢ err out_of_fuel
unfolding validate_nodes
validate_nodes-ne-out_of_fuel keys [] = cc
validate_nodes-ne-out_of_fuel keys (n ∷ rest) =
    ground (arith, validate_node-ne-out_of_fuel keys n, validate_nodes-ne-out_of_fuel keys rest)

validate_workflow-ne-out_of_fuel : (nodes : List Node) → validate_workflow nodes ≢ err out_of_fuel
unfolding validate_workflow
validate_workflow-ne-out_of_fuel nodes =
    let (v, counted) = count_visited-total nodes in
    ground (arith, counted, validate_nodes-ne-out_of_fuel (keys_of nodes) nodes)

length-pos_of_cons :
    (ready : List Node) (r : Result (List Node)) (c : Code)
    → c ≢ out_of_fuel
    → (0 < length ready → r ≢ err out_of_fuel)
    → (elim ready [ [] ↦ err c | _ ∷ _ ↦ r ]) ≢ err out_of_fuel
length-pos_of_cons [] r c h f = ground arith
length-pos_of_cons (x ∷ xs) r c h f = f (omega arith)

rounds-ne-out_of_fuel :
    (nodes : List Node) (fuel : ℕ) (remaining : List Node) (done : List String)
    (ordered : List Node)
    → Distinct (keys_of remaining)
    → length remaining ≤ fuel
    → rounds nodes fuel remaining done ordered ≢ err out_of_fuel
unfolding rounds
rounds-ne-out_of_fuel nodes fuel [] done ordered d h = ground arith
rounds-ne-out_of_fuel nodes zero (n ∷ ns) done ordered d h = absurd (omega arith)
rounds-ne-out_of_fuel nodes (suc fuel) (n ∷ ns) done ordered d h =
    let p = is_ready nodes done in
    let ready = sort_by_key (select p (n ∷ ns)) in
    length-pos_of_cons ready _ invalid_workflow_cycle (ground arith) (λ nonempty.
      rounds-ne-out_of_fuel nodes fuel (without (keys_of ready) (n ∷ ns)) (done ++ keys_of ready)
        (ordered ++ ready) (round-Distinct p (n ∷ ns) d)
        (omega (arith, round_shrinks p (n ∷ ns) d)))

-- Neither loop of `order_workflow` runs on for ever: for every list of nodes the fuel given to
-- Kahn's loop and to the rounds is enough.
pub order_workflow-ne-out_of_fuel : (nodes : List Node) → order_workflow nodes ≢ err out_of_fuel
unfolding order_workflow
order_workflow-ne-out_of_fuel nodes h = go (validate_workflow nodes) refl h
  where
    go :
        (r : Result (Unit {0}))
        → validate_workflow nodes ≡ r
        → (r >> rounds nodes (length nodes) nodes [] []) ≢ err out_of_fuel
    go (ok u) valid =
        rounds-ne-out_of_fuel nodes (length nodes) nodes [] [] (Distinct-of_valid nodes valid)
          (omega arith)
    go (err c) valid =
        let other = validate_workflow-ne-out_of_fuel nodes in λ e. other (rw valid (cc))

-- Every dependency has a smaller rank than the node that waits for it.
abbrev pub IsRanked : (String → ℕ) → List Node → Type 0
IsRanked rank nodes =
    all (λ n. all (λ d. ltb (rank d) (rank (key_of n))) (virtual_deps nodes n)) nodes ≡ true

-- A node that is not ready waits for one that is still to be placed, of a smaller rank.
missing_dep :
    (rank : String → ℕ) (bound : ℕ) (done left ds : List String)
    → subset ds done ≡ false
    → subset ds (done ++ left) ≡ true
    → all (λ d. ltb (rank d) bound) ds ≡ true
    → (d : String) × (mem d left ≡ true) × (rank d < bound)
missing_dep rank bound done left [] h k r = ground arith
missing_dep rank bound done left (d ∷ ds) h k r = elim (Bool-cases (mem d done)) [
  | inl placed ↦ missing_dep rank bound done left ds (ground arith) (ground arith) (ground arith)
  | inr absent ↦ (d, ground (arith, mem-append d done left), ground arith)
]

node_at :
    (p : Node → Bool) (k : String) (nodes : List Node)
    → all p nodes ≡ true
    → mem k (keys_of nodes) ≡ true
    → (n : Node) × (key_of n ≡ k) × (p n ≡ true)
node_at p k [] a m = ground arith
node_at p k (n ∷ rest) a m = elim (Bool-cases (str_eq k (key_of n))) [
  | inl same ↦ (n, sym ((eq_iff k (key_of n)).0 same), ground arith)
  | inr other ↦ node_at p k rest (ground arith) (ground arith)
]

module _ (nodes : List Node) (rank : String → ℕ) (done : List String) (remaining : List Node) where
  -- what holds of every node that is still to be placed
  abbrev pub waits : Node → Bool
  waits n =
      subset (virtual_deps nodes n) (done ++ keys_of remaining)
      && all (λ d. ltb (rank d) (rank (key_of n))) (virtual_deps nodes n)

  abbrev is_blocked : Node → Bool
  is_blocked n = not (is_ready nodes done n) && waits n

  no_blocked :
      (r : ℕ) (k : String)
      → all is_blocked remaining ≡ true
      → mem k (keys_of remaining) ≡ true
      → rank k < r
      → ⊥
  no_blocked zero k a m h = absurd (omega arith)
  no_blocked (suc r) k a m h =
      let (n, named, b) = node_at is_blocked k remaining a m in
      let (d, left, smaller) =
        missing_dep rank (rank (key_of n)) done (keys_of remaining) (virtual_deps nodes n)
          (ground arith) (ground arith) (ground arith) in
      no_blocked r d a left (ground (arith, named))

not_empty_of_waits :
    (nodes : List Node) (rank : String → ℕ) (done : List String) (n : Node) (ns : List Node)
    → all (waits nodes rank done (n ∷ ns)) (n ∷ ns) ≡ true
    → select (is_ready nodes done) (n ∷ ns) ≢ []
not_empty_of_waits nodes rank done n ns w e =
    no_blocked nodes rank done (n ∷ ns) (suc (rank (key_of n))) (key_of n) (blocked (n ∷ ns) w e)
      (ground (arith, str_eq_refl (key_of n))) (omega arith)
  where
    blocked :
        (l : List Node)
        → all (waits nodes rank done (n ∷ ns)) l ≡ true
        → select (is_ready nodes done) l ≡ []
        → all (is_blocked nodes rank done (n ∷ ns)) l ≡ true
    blocked [] a b = refl
    blocked (m ∷ rest) a b = ground (arith, blocked rest)

mem-keys-split :
    (k : String) (p : Node → Bool) (l : List Node)
    → mem k (keys_of l)
      ≡ (mem k (keys_of (select p l)) || mem k (keys_of (select (λ n. not (p n)) l)))
mem-keys-split k p [] = refl
mem-keys-split k p (n ∷ rest) = ground (arith, mem-keys-split k p rest)

-- A round moves keys from those left to those done.
mem-round :
    (k : String) (p : Node → Bool) (done : List String) (remaining : List Node)
    → Distinct (keys_of remaining)
    → let ready = sort_by_key (select p remaining) in
      mem k (done ++ keys_of remaining)
      ≡ mem k ((done ++ keys_of ready) ++ keys_of (without (keys_of ready) remaining))
mem-round k p done remaining d =
    rw (without-sorted p remaining d)
      (simp (mem-append, mem-sort_by_key) (ground (arith, mem-keys-split k p remaining)))

subset-congr :
    (xs ys zs : List String) → ((k : String) → mem k ys ≡ mem k zs) → subset xs ys ≡ subset xs zs
subset-congr [] ys zs same = refl
subset-congr (x ∷ xs) ys zs same = ground (arith, same x, subset-congr xs ys zs same)

all-waits-select :
    (nodes : List Node) (rank : String → ℕ) (done done' : List String) (rem rem' : List Node)
    (p : Node → Bool) (l : List Node)
    → ((k : String) → mem k (done ++ keys_of rem) ≡ mem k (done' ++ keys_of rem'))
    → all (waits nodes rank done rem) l ≡ true
    → all (waits nodes rank done' rem') (select p l) ≡ true
all-waits-select nodes rank done done' rem rem' p [] same a = refl
all-waits-select nodes rank done done' rem rem' p (n ∷ rest) same a = ground (
  arith,
  subset-congr (virtual_deps nodes n) _ _ same,
  all-waits-select nodes rank done done' rem rem' p rest same,
)

elim_ready :
    (ready : List Node) (r : Result (List Node)) (c : Code)
    → ready ≢ []
    → (elim ready [ [] ↦ err c | _ ∷ _ ↦ r ]) ≡ r
elim_ready [] r c h = absurd (h refl)
elim_ready (x ∷ xs) r c h = refl

sorted-ne-nil : (l : List Node) → l ≢ [] → sort_by_key l ≢ []
sorted-ne-nil [] h = absurd (h refl)
sorted-ne-nil (x ∷ xs) h = λ e. ground (arith, length-sort_by_key (x ∷ xs), ap length e)

pub rounds_complete :
    (nodes : List Node) (rank : String → ℕ) (fuel : ℕ) (remaining : List Node) (done : List String)
    (ordered : List Node)
    → Distinct (keys_of remaining)
    → length remaining ≤ fuel
    → all (waits nodes rank done remaining) remaining ≡ true
    → (l : List Node) × (rounds nodes fuel remaining done ordered ≡ ok l)
unfolding rounds
rounds_complete nodes rank fuel [] done ordered d h w = (ordered, refl)
rounds_complete nodes rank zero (n ∷ ns) done ordered d h w = absurd (omega arith)
rounds_complete nodes rank (suc fuel) (n ∷ ns) done ordered d h w =
    let p = is_ready nodes done in
    let ready = sort_by_key (select p (n ∷ ns)) in
    let rest = without (keys_of ready) (n ∷ ns) in
    let some_ready : ready ≢ [] = sorted-ne-nil _ (not_empty_of_waits nodes rank done n ns w) in
    let fewer : length rest ≤ fuel = shrink ready rest some_ready (round_shrinks p (n ∷ ns) d) in
    let still : all (waits nodes rank (done ++ keys_of ready) rest) rest ≡ true =
      rw (without-sorted p (n ∷ ns) d) (
        all-waits-select nodes rank done _ (n ∷ ns) _ (λ m. not (p m)) (n ∷ ns)
          (λ k. rw (without-sorted p (n ∷ ns) d) at (mem-round k p done (n ∷ ns) d)) w) in
    let (l, e) =
      rounds_complete nodes rank fuel rest (done ++ keys_of ready) (ordered ++ ready)
        (round-Distinct p (n ∷ ns) d) fewer still in
    (l, elim_ready ready _ invalid_workflow_cycle some_ready ∙ e)
  where
    shrink :
        (ready rest : List Node)
        → ready ≢ []
        → length rest + length ready ≡ suc (length ns)
        → length rest ≤ fuel
    shrink [] rest s e = absurd (s refl)
    shrink (x ∷ xs) rest s e = omega arith
