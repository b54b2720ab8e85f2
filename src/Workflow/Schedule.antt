-- ===== src/Workflow/Schedule.antt =====
-- The parts of a round of `order_workflow`: sorting keeps the nodes, and what is popped from
-- `remaining` are exactly the ready nodes.
use mathlib.Core.List.Perm
use general_agent_platform.Base.{
  ◌∙◌, ◌+◌, String, ◌≡◌, refl, Bool, false, not, ◌&&◌, ◌||◌, List, [], ◌∷◌, Perm, arith, length,
  select, all, mem, Distinct, str_eq, eq_iff, Bool-cases, inl, inr,
}
use general_agent_platform.Json.Text.{text_lt}
use general_agent_platform.Workflow.{Node, key_of, keys_of, insert_by_key, sort_by_key, without}

insert_by_key-perm : (n : Node) (rest : List Node) → Perm (insert_by_key n rest) (n ∷ rest)
unfolding insert_by_key
insert_by_key-perm n [] = Perm.rfl
insert_by_key-perm n (m ∷ rest) = elim (Bool-cases (text_lt (key_of m) (key_of n))) [
  | inl later ↦ rw later (Perm.trans (Perm.cons m (insert_by_key-perm n rest)) (Perm.swap n m rest))
  | inr here ↦ rw here Perm.rfl
]

pub sort_by_key-perm : (nodes : List Node) → Perm (sort_by_key nodes) nodes
unfolding sort_by_key
sort_by_key-perm [] = Perm.rfl
sort_by_key-perm (n ∷ rest) =
    Perm.trans (insert_by_key-perm n (sort_by_key rest)) (Perm.cons n (sort_by_key-perm rest))

all-insert_by_key :
    (p : Node → Bool) (n : Node) (rest : List Node)
    → all p (insert_by_key n rest) ≡ (p n && all p rest)
unfolding insert_by_key
all-insert_by_key p n [] = refl
all-insert_by_key p n (m ∷ rest) = ground (arith, all-insert_by_key p n rest)

pub all-sort_by_key :
    (p : Node → Bool) (nodes : List Node) → all p (sort_by_key nodes) ≡ all p nodes
unfolding sort_by_key
all-sort_by_key p [] = refl
all-sort_by_key p (n ∷ rest) =
    ground (arith, all-insert_by_key p n (sort_by_key rest), all-sort_by_key p rest)

mem-insert_by_key :
    (k : String) (n : Node) (rest : List Node)
    → mem k (keys_of (insert_by_key n rest)) ≡ (str_eq k (key_of n) || mem k (keys_of rest))
unfolding insert_by_key
mem-insert_by_key k n [] = refl
mem-insert_by_key k n (m ∷ rest) = ground (arith, mem-insert_by_key k n rest)

pub mem-sort_by_key :
    (k : String) (nodes : List Node) → mem k (keys_of (sort_by_key nodes)) ≡ mem k (keys_of nodes)
unfolding sort_by_key
mem-sort_by_key k [] = refl
mem-sort_by_key k (n ∷ rest) =
    ground (arith, mem-insert_by_key k n (sort_by_key rest), mem-sort_by_key k rest)

length-insert_by_key :
    (n : Node) (rest : List Node) → length (insert_by_key n rest) ≡ length rest + 1
unfolding insert_by_key
length-insert_by_key n [] = refl
length-insert_by_key n (m ∷ rest) = ground (arith, length-insert_by_key n rest)

pub length-sort_by_key : (nodes : List Node) → length (sort_by_key nodes) ≡ length nodes
unfolding sort_by_key
length-sort_by_key [] = refl
length-sort_by_key (n ∷ rest) =
    ground (arith, length-insert_by_key n (sort_by_key rest), length-sort_by_key rest)

pub mem-keys-select :
    (k : String) (p : Node → Bool) (nodes : List Node)
    → mem k (keys_of nodes) ≡ false
    → mem k (keys_of (select p nodes)) ≡ false
mem-keys-select k p [] h = refl
mem-keys-select k p (n ∷ rest) h = ground (arith, mem-keys-select k p rest)

pub Distinct-select :
    (p : Node → Bool) (nodes : List Node)
    → Distinct (keys_of nodes)
    → Distinct (keys_of (select p nodes))
Distinct-select p [] d = tt
Distinct-select p (n ∷ rest) d =
    ground (arith, mem-keys-select (key_of n) p rest, Distinct-select p rest d.1)

without-cons :
    (k : String) (keys : List String) (nodes : List Node)
    → mem k (keys_of nodes) ≡ false
    → without (k ∷ keys) nodes ≡ without keys nodes
without-cons k keys [] h = refl
without-cons k keys (n ∷ rest) h =
    ground (arith, eq_iff k (key_of n), eq_iff (key_of n) k, without-cons k keys rest)

-- Where no key is repeated, popping the selected nodes by key leaves the others.
pub without-select :
    (p : Node → Bool) (nodes : List Node)
    → Distinct (keys_of nodes)
    → without (keys_of (select p nodes)) nodes ≡ select (λ n. not (p n)) nodes
without-select p [] d = refl
without-select p (n ∷ rest) d = ground (
  arith,
  eq_iff (key_of n) (key_of n),
  without-cons (key_of n) (keys_of (select p rest)) rest,
  mem-keys-select (key_of n) p rest,
  without-select p rest d.1,
)

without-congr :
    (keys keys' : List String) (nodes : List Node)
    → ((k : String) → mem k keys ≡ mem k keys')
    → without keys nodes ≡ without keys' nodes
without-congr keys keys' [] same = refl
without-congr keys keys' (n ∷ rest) same =
    ground (arith, same (key_of n), without-congr keys keys' rest same)

-- The same for the sorted nodes.
pub without-sorted :
    (p : Node → Bool) (nodes : List Node)
    → Distinct (keys_of nodes)
    → without (keys_of (sort_by_key (select p nodes))) nodes ≡ select (λ n. not (p n)) nodes
without-sorted p nodes d =
    without-congr _ _ nodes (λ k. mem-sort_by_key k (select p nodes)) ∙ without-select p nodes d
