-- ===== src/Tools/Permitted.antt =====
-- Policies that can be read give an answer (`execute_tool_call`, app/runtime.py).
use general_agent_platform.Base.{
  ◌||◌, Result-cases, Option-cases, if_holds, ◌≡◌, refl, String, Bool, true, false, not, Option,
  none, some, arith, if◌then◌else◌, ok, str_eq, inl, inr,
}
use general_agent_platform.Json.{
  Value, null, boolean, number, text, array, object, Items, nil, cons, Fields, end, field,
  get_or_null, value_in, is_container,
}
use general_agent_platform.Db.{ToolDefinition}
use general_agent_platform.Tools.{
  is_meant, applies, last_matching, is_denied, is_allowed, is_permitted, is_policy, all_policies,
  are_policies, is_nil, is_hashable, allowed_risks, risk_text,
}

text_in_container :
    (t : String) (v : Value) → is_container v ≡ true → (b : Bool) × (value_in (text t) v ≡ some b)
unfolding value_in
text_in_container t null h = ground arith
text_in_container t (boolean b) h = ground arith
text_in_container t (number n) h = ground arith
text_in_container t (text s) h = elim (Option-cases (value_in (text t) (text s))) [
  | inl absent ↦ ground (arith, absent)
  | inr found ↦ found
]
text_in_container t (array vs) h = elim (Option-cases (value_in (text t) (array vs))) [
  | inl absent ↦ ground (arith, absent)
  | inr found ↦ found
]
text_in_container t (object fs) h = elim (Option-cases (value_in (text t) (object fs))) [
  | inl absent ↦ ground (arith, absent)
  | inr found ↦ found
]

module _ (d : ToolDefinition) where
  is_meant-hashable : (v : Value) → is_hashable v ≡ true → (b : Bool) × (is_meant d v ≡ ok b)
  unfolding is_meant
  is_meant-hashable null h = (false, refl)
  is_meant-hashable (boolean b) h = (false, refl)
  is_meant-hashable (number n) h = (false, refl)
  is_meant-hashable (text t) h = (str_eq t d.name || str_eq t "*", refl)
  is_meant-hashable (array vs) h = ground arith
  is_meant-hashable (object fs) h = ground arith

  -- What is kept as the last policy can be asked for its risks.
  abbrev IsPolicy : Option Fields → Type 0
  IsPolicy none = Unit
  IsPolicy (some policy) = is_container (allowed_risks policy) ≡ true

  applies-IsPolicy :
      (v : Value) (last : Option Fields)
      → is_policy v ≡ true
      → IsPolicy last
      → (last' : Option Fields) × (applies d v last ≡ ok last') × IsPolicy last'
  unfolding applies
  applies-IsPolicy (object policy) last h kept =
      let (b, meant) = is_meant-hashable (get_or_null "tool" policy) (ground (arith, h)) in
      let fits : is_container (allowed_risks policy) ≡ true = ground (arith, h) in
      (
        if b then some policy else last,
        rw (meant, applies) refl,
        if_holds (λ o. IsPolicy o) b (some policy) last fits kept,
      )
  applies-IsPolicy null last h kept = ground arith
  applies-IsPolicy (boolean b) last h kept = ground arith
  applies-IsPolicy (number n) last h kept = ground arith
  applies-IsPolicy (text t) last h kept = ground arith
  applies-IsPolicy (array vs) last h kept = ground arith

  last_matching-IsPolicy :
      (vs : Items) (last : Option Fields)
      → all_policies vs ≡ true
      → IsPolicy last
      → (last' : Option Fields) × (last_matching d vs last ≡ ok last') × IsPolicy last'
  unfolding last_matching
  last_matching-IsPolicy nil last h kept = (last, refl, kept)
  last_matching-IsPolicy (cons v vs) last h kept =
      let (last1, done1, kept1) = applies-IsPolicy v last (ground (arith, h)) kept in
      let (last2, done2, kept2) = last_matching-IsPolicy vs last1 (ground (arith, h)) kept1 in
      (last2, rw (done1, done2, last_matching) refl, kept2)

  is_denied-answers :
      (policy : Fields)
      → is_container (allowed_risks policy) ≡ true
      → (b : Bool) × (is_denied d policy ≡ ok b)
  unfolding is_denied
  is_denied-answers policy fits =
      let (b, inside) = text_in_container (risk_text d.risk_level) (allowed_risks policy) fits in
      elim (Result-cases (is_denied d policy)) [
        | inl (e, raised) ↦ ground (arith, raised, inside)
        | inr answer ↦ answer
      ]

  is_allowed-answers :
      (no_policies : Bool) (last : Option Fields)
      → IsPolicy last
      → (b : Bool) × (is_allowed d no_policies last ≡ ok b)
  unfolding is_allowed
  is_allowed-answers no_policies none kept = (no_policies, refl)
  is_allowed-answers no_policies (some policy) kept =
      let (b, denied) = is_denied-answers policy kept in (not b, rw (denied, is_allowed) refl)

  -- Policies that can be read let the tool run or do not.
  pub is_permitted-readable :
      (v : Value) → are_policies v ≡ true → (b : Bool) × (is_permitted d v ≡ ok b)
  unfolding is_permitted
  is_permitted-readable (array vs) h =
      let (last, done, kept) = last_matching-IsPolicy vs none h tt in
      let (b, answer) = is_allowed-answers (is_nil vs) last kept in
      (b, rw (done, answer, is_permitted) refl)
  is_permitted-readable (text t) h = (true, rw (h, is_permitted) refl)
  is_permitted-readable (object end) h = (true, refl)
  is_permitted-readable (object (field k v fs)) h = ground arith
  is_permitted-readable null h = ground arith
  is_permitted-readable (boolean b) h = ground arith
  is_permitted-readable (number n) h = ground arith
