-- ===== src/Workflow/Descendants.antt =====
-- `get_all_descendants` (app/worker.py) finds all descendants, and its depth is enough.
use general_agent_platform.Base.{
  ℕ, zero, suc, ◌≤◌, ◌<◌, ◌≡◌, ◌↔◌, refl, sym, ap, subst, String, true, false, not, ◌||◌, List, [],
  ◌∷◌, ◌++◌, arith, length, select, length-select-le, mem, mem-append, str_eq, str_eq_refl, eq_iff,
  Bool-cases, inl, inr,
}
use general_agent_platform.Workflow.{Node, key_of, keys_of}
use general_agent_platform.Workflow.Branches.{
  dependents_among, dependents, visit_all, get_all_descendants,
}

-- `xs <= ys` as sets
abbrev pub Includes : List String → List String → Type 0
Includes ys xs = (v : String) → mem v xs ≡ true → mem v ys ≡ true

module _ (nodes : List Node) where
  -- The nodes that have not been visited.
  abbrev unseen : List Node → List String → ℕ
  unseen ns visited = length (select (λ n. not (mem (key_of n) visited)) ns)

  dependents_among-keys :
      (ns : List Node) (k : String) → Includes (keys_of ns) (dependents_among ns k)
  dependents_among-keys [] k v h = h
  dependents_among-keys (n ∷ ns) k v h = ground (arith, dependents_among-keys ns k v)

  dependents-keys : (k : String) → Includes (keys_of nodes) (dependents nodes k)
  dependents-keys k v h = ground (arith, dependents_among-keys nodes k v)

  unseen_antitone :
      (ns : List Node) (xs ys : List String) → Includes ys xs → unseen ns ys ≤ unseen ns xs
  unseen_antitone [] xs ys h = omega arith
  unseen_antitone (n ∷ ns) xs ys h = ground (arith, h (key_of n), unseen_antitone ns xs ys h)

  unseen_grow : (ns : List Node) (k : String) (xs : List String) → unseen ns (k ∷ xs) ≤ unseen ns xs
  unseen_grow ns k xs = unseen_antitone ns xs (k ∷ xs) (λ v h. ground (arith, h))

  unseen_visit :
      (ns : List Node) (k : String) (visited : List String)
      → mem k (keys_of ns) ≡ true
      → mem k visited ≡ false
      → unseen ns (k ∷ visited) < unseen ns visited
  unseen_visit [] k visited h new = ground arith
  unseen_visit (n ∷ ns) k visited h new = ground (
    arith,
    eq_iff k (key_of n),
    str_eq_refl k,
    unseen_grow ns k visited,
    unseen_visit ns k visited,
  )

  -- What a visit of keys makes of the keys that are found and visited.
  abbrev IsVisit : List String → List String → List String → List String × List String → Type 0
  IsVisit keys result visited (result', visited') =
      Includes visited' visited
      × Includes result' result
      × Includes visited' keys
      × ((v : String)
          → mem v visited' ≡ true
          → mem v visited ≡ false
          → Includes result' (dependents nodes v) × Includes visited' (dependents nodes v))

  -- A visit of a key that was not visited, and of the other keys after it.
  IsVisit-step :
      (k : String) (keys result visited result1 visited1 result2 visited2 : List String)
      → IsVisit
          (dependents nodes k)
          (result ++ dependents nodes k)
          (k ∷ visited)
          (result1, visited1)
      → IsVisit keys result1 visited1 (result2, visited2)
      → IsVisit (k ∷ keys) result visited (result2, visited2)
  IsVisit-step k keys result visited result1 visited1 result2 visited2 (v01, r01, k01, new1)
        (v12, r12, k12, new2) =
      let kids = dependents nodes k in
      let has_k : mem k visited2 ≡ true =
        v12 k (v01 k (ap (λ b. b || mem k visited) (str_eq_refl k))) in
      (
        (λ v h. v12 v (v01 v (ground (arith, h)))),
        (λ v h. r12 v (r01 v (ground (arith, mem-append v result kids)))),
        (λ v h. elim (Bool-cases (str_eq v k)) [
          | inl same ↦ ground (arith, has_k, eq_iff v k)
          | inr other ↦ k12 v (ground arith)
        ]),
        (λ v now before. elim (Bool-cases (mem v visited1)) [
          | inr later ↦ new2 v now later
          | inl first ↦ elim (Bool-cases (str_eq v k)) [
            | inl same ↦
                let here : v ≡ k = (eq_iff v k).0 same in
                subst
                  (λ w.
                    Includes result2 (dependents nodes w) × Includes visited2 (dependents nodes w))
                  (sym here)
                  (
                    (λ w h. r12 w (r01 w (ground (arith, mem-append w result kids)))),
                    (λ w h. v12 w (k01 w h)),
                  )
            | inr other ↦
                let (r, vs) = new1 v first (ground (arith, other, before)) in
                ((λ w h. r12 w (r w h)), (λ w h. v12 w (vs w h)))
          ]
        ]),
      )

  visit_old :
      (depth : ℕ) (k : String) (keys result visited : List String)
      → mem k visited ≡ true
      → visit_all nodes (suc depth) (k ∷ keys) result visited
        ≡ visit_all nodes (suc depth) keys result visited
  unfolding visit_all
  visit_old depth k keys result visited old = rw (old, visit_all) refl

  visit_new :
      (depth : ℕ) (k : String) (keys result visited : List String)
      → mem k visited ≡ false
      → let kids = dependents nodes k in
        let (result1, visited1) = visit_all nodes depth kids (result ++ kids) (k ∷ visited) in
        visit_all nodes (suc depth) (k ∷ keys) result visited
        ≡ visit_all nodes (suc depth) keys result1 visited1
  unfolding visit_all
  visit_new depth k keys result visited new = rw (new, visit_all) refl

  -- A key that was visited is left out.
  IsVisit-old :
      (k : String) (keys result visited : List String) (out : List String × List String)
      → mem k visited ≡ true
      → IsVisit keys result visited out
      → IsVisit (k ∷ keys) result visited out
  IsVisit-old k keys result visited (result', visited') old (vs, rs, ks, new) = (
    vs,
    rs,
    (λ v h. elim (Bool-cases (str_eq v k)) [
      | inl same ↦ ground (arith, vs k old, eq_iff v k)
      | inr other ↦ ks v (ground arith)
    ]),
    new,
  )

  visit_all-IsVisit :
      (depth : ℕ) (keys result visited : List String)
      → Includes (keys_of nodes) keys
      → unseen nodes visited < depth
      → IsVisit keys result visited (visit_all nodes depth keys result visited)
  unfolding visit_all
  visit_all-IsVisit zero keys result visited known enough = ground arith
  visit_all-IsVisit (suc depth) [] result visited known enough =
      ((λ v h. h), (λ v h. h), (λ v h. ground arith), (λ v now before. ground arith))
  visit_all-IsVisit (suc depth) (k ∷ keys) result visited known enough =
      let known' : Includes (keys_of nodes) keys = λ v h. known v (ground (arith, h)) in
      elim (Bool-cases (mem k visited)) [
        | inl old ↦
            subst (λ out. IsVisit (k ∷ keys) result visited out)
              (sym (visit_old depth k keys result visited old))
              (IsVisit-old k keys result visited (visit_all nodes (suc depth) keys result visited)
                old (visit_all-IsVisit (suc depth) keys result visited known' enough))
        | inr new ↦
            let kids = dependents nodes k in
            let (r1, v1) = visit_all nodes depth kids (result ++ kids) (k ∷ visited) in
            let fewer =
              unseen_visit nodes k visited (known k (ap (λ b. b || mem k keys) (str_eq_refl k)))
                new in
            let first =
              visit_all-IsVisit depth kids (result ++ kids) (k ∷ visited) (dependents-keys k)
                (omega (arith, fewer, enough)) in
            let later = visit_all-IsVisit (suc depth) keys r1 v1 known' (
              omega (
                arith,
                enough,
                unseen_antitone nodes visited v1 (λ v h. first.0 v (ground (arith, h))),
              )) in
            let (r2, v2) = visit_all nodes (suc depth) keys r1 v1 in
            subst (λ out. IsVisit (k ∷ keys) result visited out)
              (sym (visit_new depth k keys result visited new))
              (IsVisit-step k keys result visited r1 v1 r2 v2 first later)
      ]

  -- A node that depends on the key, which is that of a node, or on a descendant.
  pub data IsDescendant (key : String) : String → Type 0 where
    direct : {v : String} → mem v (dependents nodes key) ≡ true → IsDescendant key v
    further :
        {u v : String} → IsDescendant key u → mem v (dependents nodes u) ≡ true → IsDescendant key v

  abbrev AreDescendants : String → List String → Type 0
  AreDescendants key xs = (v : String) → mem v xs ≡ true → IsDescendant key v

  -- Descendants alone are found.
  visit_all_sound :
      (key : String) (depth : ℕ) (keys result visited : List String)
      → AreDescendants key keys
      → AreDescendants key result
      → AreDescendants key (visit_all nodes depth keys result visited).0
  unfolding visit_all
  visit_all_sound key zero keys result visited ks rs = rs
  visit_all_sound key (suc depth) [] result visited ks rs = rs
  visit_all_sound key (suc depth) (k ∷ keys) result visited ks rs =
      let ks' : AreDescendants key keys = λ v h. ks v (ground (arith, h)) in
      elim (Bool-cases (mem k visited)) [
        | inl old ↦
            subst (λ out. AreDescendants key out.0)
              (sym (visit_old depth k keys result visited old))
              (visit_all_sound key (suc depth) keys result visited ks' rs)
        | inr new ↦
            let kids = dependents nodes k in
            let (r1, v1) = visit_all nodes depth kids (result ++ kids) (k ∷ visited) in
            let kids' : AreDescendants key kids =
              λ v h. further (ks k (ap (λ b. b || mem k keys) (str_eq_refl k))) h in
            subst (λ out. AreDescendants key out.0)
              (sym (visit_new depth k keys result visited new))
              (visit_all_sound key (suc depth) keys r1 v1 ks' (
                visit_all_sound key depth kids (result ++ kids) (k ∷ visited) kids' (λ v h.
                  elim (Bool-cases (mem v kids)) [
                    | inl kid ↦ kids' v kid
                    | inr known ↦ rs v (ground (arith, mem-append v result kids))
                  ])))
      ]

  -- The visit that `get_all_descendants` starts with.
  start-IsVisit :
      (key : String)
      → IsVisit (dependents nodes key) (dependents nodes key) (key ∷ []) (
          visit_all nodes
            (suc (length nodes))
            (dependents nodes key)
            (dependents nodes key)
            (key ∷ []))
  start-IsVisit key =
      visit_all-IsVisit (suc (length nodes)) (dependents nodes key) (dependents nodes key)
        (key ∷ []) (dependents-keys key)
        (omega (arith, length-select-le (λ n. not (mem (key_of n) (key ∷ []))) nodes))

  found_descendant :
      (key v : String)
      → IsDescendant key v
      → let (result, visited) =
          visit_all nodes
            (suc (length nodes))
            (dependents nodes key)
            (dependents nodes key)
            (key ∷ []) in
        (mem v result ≡ true) × (mem v visited ≡ true)
  found_descendant key v (direct h) = let (vs, rs, ks, new) = start-IsVisit key in (rs v h, ks v h)
  found_descendant key v (further {u} d h) =
      let (vs, rs, ks, new) = start-IsVisit key in
      let (found, seen) = found_descendant key u d in
      elim (Bool-cases (str_eq u key)) [
        | inl same ↦
            let here = subst (λ w. mem v (dependents nodes w) ≡ true) ((eq_iff u key).0 same) h in
            (rs v here, ks v here)
        | inr other ↦ let (r, s) = new u seen (ground (arith, other)) in (r v h, s v h)
      ]

-- What is excluded with a branch is what depends on it: `get_all_descendants` finds a key exactly if
-- a node with that key depends on the key of the branch, which a node has, directly or through other nodes, whatever
-- else that node depends on; and the depth of the recursion is enough, also where the nodes depend
-- on each other in a cycle.
pub get_all_descendants_lem :
    (nodes : List Node) (key v : String)
    → (mem v (get_all_descendants nodes key) ≡ true) ↔ IsDescendant nodes key v
unfolding get_all_descendants
get_all_descendants_lem nodes key v = (
  visit_all_sound nodes key (suc (length nodes)) (dependents nodes key) (dependents nodes key)
      (key ∷ []) (λ w h. direct h) (λ w h. direct h) v,
  λ d. (found_descendant nodes key v d).0,
)
