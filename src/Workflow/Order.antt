-- ===== src/Workflow/Order.antt =====
-- `order_workflow` returns a topological order of the nodes, and fails only where there is none.
use mathlib.Core.List.Perm
use mathlib.Core.List.{append-nil, append_assoc, map-append}
use general_agent_platform.Base.{
  ℕ, zero, suc, ◌+◌, String, ◌≡◌, refl, sym, ◌∙◌, ap, Bool, true, false, not, ◌||◌, List, [], ◌∷◌,
  ◌++◌, Perm, arith, length, select, all, any, is_none, subset, dedup, Distinct,
  Distinct-of_length-dedup, subset-append_right, all-select, length-select-add, select-append-perm,
  Code, Result, ok, err, raise_if, >>=-eq-ok, ◌==◌, invalid_workflow,
}
use general_agent_platform.Workflow.{
  Node, key_of, keys_of, virtual_deps, is_ready, without, sort_by_key, rounds, validate_workflow,
  order_workflow, validate_nodes,
}
use general_agent_platform.Workflow.Schedule.{
  sort_by_key-perm, all-sort_by_key, length-sort_by_key, Distinct-select, without-sorted,
}

-- Every node of the list comes after the nodes that it waits for, given those already done.
abbrev pub OrderedAfter : List Node → List String → List Node → Type 0
OrderedAfter nodes done [] = Unit
OrderedAfter nodes done (n ∷ rest) =
    (subset (virtual_deps nodes n) done ≡ true) × OrderedAfter nodes (done ++ key_of n ∷ []) rest

abbrev pub IsOrdered : List Node → List Node → Type 0
IsOrdered nodes = OrderedAfter nodes []

-- Nodes that are all ready may come in any order.
OrderedAfter-ready :
    (nodes : List Node) (done extra : List String) (ns : List Node)
    → all (is_ready nodes done) ns ≡ true
    → OrderedAfter nodes (done ++ extra) ns
OrderedAfter-ready nodes done extra [] h = tt
OrderedAfter-ready nodes done extra (n ∷ rest) h =
    let now : subset (virtual_deps nodes n) done ≡ true = ground arith in
    let later : all (is_ready nodes done) rest ≡ true = ground arith in
    (
      subset-append_right (virtual_deps nodes n) done extra now,
      rw append_assoc (OrderedAfter-ready nodes done (extra ++ key_of n ∷ []) rest later),
    )

OrderedAfter-append :
    (nodes : List Node) (done : List String) (xs ys : List Node)
    → OrderedAfter nodes done xs
    → all (is_ready nodes (done ++ keys_of xs)) ys ≡ true
    → OrderedAfter nodes done (xs ++ ys)
OrderedAfter-append nodes done [] ys h r =
    rw (append-nil done) at (OrderedAfter-ready nodes done [] ys (rw (append-nil done) at r))
OrderedAfter-append nodes done (x ∷ xs) ys h r =
    (h.0, OrderedAfter-append nodes (done ++ key_of x ∷ []) xs ys h.1 (rw append_assoc r))

-- One round: what `remaining` loses is what `ordered` gains.
round-perm :
    (p : Node → Bool) (ordered remaining : List Node)
    → Distinct (keys_of remaining)
    → let ready = sort_by_key (select p remaining) in
      Perm ((ordered ++ ready) ++ without (keys_of ready) remaining) (ordered ++ remaining)
round-perm p ordered remaining d =
    rw (without-sorted p remaining d, append_assoc)
      (Perm.append_left ordered (
        Perm.trans (Perm.append_right (select (λ n. not (p n)) remaining) (sort_by_key-perm _))
          (select-append-perm p remaining)))

pub round-Distinct :
    (p : Node → Bool) (remaining : List Node)
    → Distinct (keys_of remaining)
    → Distinct (keys_of (without (keys_of (sort_by_key (select p remaining))) remaining))
round-Distinct p remaining d =
    rw (without-sorted p remaining d) (Distinct-select (λ n. not (p n)) remaining d)

pub round_shrinks :
    (p : Node → Bool) (remaining : List Node)
    → Distinct (keys_of remaining)
    → length (without (keys_of (sort_by_key (select p remaining))) remaining)
        + length (sort_by_key (select p remaining))
      ≡ length remaining
round_shrinks p remaining d =
    rw (without-sorted p remaining d)
      (omega (arith, length-select-add p remaining, length-sort_by_key (select p remaining)))

pub nonempty_of_ok :
    (ready : List Node) (rest : Result (List Node)) (c : Code) (l : List Node)
    → (elim ready [ [] ↦ err c | _ ∷ _ ↦ rest ]) ≡ ok l
    → rest ≡ ok l
nonempty_of_ok [] rest c l h = cc
nonempty_of_ok (x ∷ xs) rest c l h = h

sorted-ready :
    (nodes : List Node) (done : List String) (remaining : List Node)
    → all (is_ready nodes done) (sort_by_key (select (is_ready nodes done) remaining)) ≡ true
sorted-ready nodes done remaining =
    all-sort_by_key (is_ready nodes done) (select (is_ready nodes done) remaining)
    ∙ all-select (is_ready nodes done) remaining

-- What the loop returns holds the nodes still to place behind those placed, in a topological order.
rounds_sound :
    (nodes : List Node) (fuel : ℕ) (remaining ordered l : List Node)
    → Distinct (keys_of remaining)
    → IsOrdered nodes ordered
    → rounds nodes fuel remaining (keys_of ordered) ordered ≡ ok l
    → Perm l (ordered ++ remaining) × IsOrdered nodes l
unfolding rounds
rounds_sound nodes fuel [] ordered l d o h =
    let same : ordered ≡ l = cc in rw (append-nil ordered, ← same) (Perm.rfl, o)
rounds_sound nodes zero (n ∷ ns) ordered l d o h = cc
rounds_sound nodes (suc fuel) (n ∷ ns) ordered l d o h =
    let p = is_ready nodes (keys_of ordered) in
    let ready = sort_by_key (select p (n ∷ ns)) in
    let (perm, topological) =
      rounds_sound nodes fuel (without (keys_of ready) (n ∷ ns)) (ordered ++ ready) l
        (round-Distinct p (n ∷ ns) d)
        (OrderedAfter-append nodes [] ordered ready o
          (sorted-ready nodes (keys_of ordered) (n ∷ ns)))
        (rw map-append (nonempty_of_ok ready _ _ l h)) in
    (Perm.trans perm (round-perm p ordered (n ∷ ns) d), topological)

raise_if-eq-ok : (b : Bool) (c : Code) → raise_if b c ≡ ok tt → b ≡ false
raise_if-eq-ok true c h = cc
raise_if-eq-ok false c h = refl

-- What `validate_workflow` has checked where it raises nothing.
pub valid_parts :
    (nodes : List Node)
    → validate_workflow nodes ≡ ok tt
    → (length (dedup (keys_of nodes)) ≡ length nodes)
      × (validate_nodes (keys_of nodes) nodes ≡ ok tt)
unfolding validate_workflow
valid_parts nodes h =
    let (u, first, rest) = >>=-eq-ok _ _ h in
    let (v, second, _) = >>=-eq-ok (validate_nodes (keys_of nodes) nodes) _ rest in
    let unique : (any (λ n. is_none n.key) nodes
          || not (length (dedup (keys_of nodes)) == length nodes))
        ≡ false =
      raise_if-eq-ok _ invalid_workflow first in
    (ground arith, second)

length-keys_of : (nodes : List Node) → length (keys_of nodes) ≡ length nodes
length-keys_of [] = refl
length-keys_of (n ∷ rest) = ap suc (length-keys_of rest)

pub Distinct-of_valid :
    (nodes : List Node) → validate_workflow nodes ≡ ok tt → Distinct (keys_of nodes)
Distinct-of_valid nodes h =
    Distinct-of_length-dedup (keys_of nodes) ((valid_parts nodes h).0 ∙ sym (length-keys_of nodes))

-- An order that `order_workflow` returns holds each node of the workflow exactly as often as it was
-- given, and each node comes after all that it depends on and after the condition nodes that
-- select it.
pub order_workflow_sound :
    (nodes l : List Node) → order_workflow nodes ≡ ok l → Perm l nodes × IsOrdered nodes l
unfolding order_workflow
order_workflow_sound nodes l h =
    let (u, valid, rest) = >>=-eq-ok (validate_workflow nodes) _ h in
    rounds_sound nodes (length nodes) nodes [] l (Distinct-of_valid nodes valid) tt rest
