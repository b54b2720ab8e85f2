-- ===== src/Skills/Review.antt =====
-- A skill is published by a review alone.
use general_agent_platform.Base.{
  ℕ, ◌≡◌, refl, String, Bool, true, false, ◌&&◌, Option, none, some, List, [], ◌∷◌, arith, ◌==◌,
  any, update_where, find_holds, Bool-cases, Option-cases, inl, inr,
}
use general_agent_platform.Principal.{Principal, is_admin}
use general_agent_platform.Skills.{
  Skill, SkillStatus, pending_review, published, skill_of, is_pending_review, submit_skill,
  reviewed, review_skill,
}

abbrev pub is_published : SkillStatus → Bool
is_published published = true
is_published _ = false

-- A skill with the key is published.
abbrev pub has_published : ℕ → List Skill → Bool
has_published j skills = any (λ (s : Skill). s.id == j && is_published s.status) skills

has_published-update :
    (j k : ℕ) (f : Skill → Skill) (skills : List Skill)
    → ((s : Skill) → (f s).id ≡ s.id)
    → (j == k) ≡ false
    → has_published j (update_where (λ (s : Skill). s.id == k) f skills) ≡ has_published j skills
has_published-update j k f [] keeps other = refl
has_published-update j k f (s ∷ skills) keeps other =
    ground (arith, keeps s, has_published-update j k f skills keeps other)

has_published-withdraw :
    (j k : ℕ) (f : Skill → Skill) (skills : List Skill)
    → ((s : Skill) → is_published (f s).status ≡ false)
    → has_published j skills ≡ false
    → has_published j (update_where (λ (s : Skill). s.id == k) f skills) ≡ false
has_published-withdraw j k f [] hides h = refl
has_published-withdraw j k f (s ∷ skills) hides h =
    ground (arith, hides s, has_published-withdraw j k f skills hides)

submit_unpublished :
    (p : Principal) (j k : ℕ) (skills : List Skill)
    → has_published j skills ≡ false
    → has_published j (submit_skill p k skills).1 ≡ false
unfolding submit_skill
submit_unpublished p j k skills h = elim (Option-cases (skill_of p k skills)) [
  | inl absent ↦ ground (arith, absent, h)
  | inr (s, found) ↦ ground (
    arith,
    found,
    h,
    has_published-withdraw j s.id
        (λ (t : Skill). record t { status = pending_review; review_reason = none }) skills
        (λ t. refl) h,
  )
]

-- The rows that a review leaves.
abbrev after : Principal → Bool → Option String → Skill → List Skill → List Skill
after p approves reason s skills =
    update_where (λ (t : Skill). t.id == s.id) (reviewed p approves reason) skills

review_found :
    (p : Principal) (j k : ℕ) (approves : Bool) (reason : Option String) (s : Skill)
    (skills : List Skill)
    → (s.id == k) ≡ true
    → has_published j skills ≡ false
    → has_published j (after p approves reason s skills) ≡ true
    → (approves ≡ true) × (j ≡ k)
review_found p j k false reason s skills own h now =
    ground
      (arith, now, has_published-withdraw j s.id (reviewed p false reason) skills (λ t. refl) h)
review_found p j k true reason s skills own h now = elim (Bool-cases (j == s.id)) [
  | inl here ↦ (refl, ground (arith, here, own))
  | inr other ↦
      ground (
        arith,
        now,
        h,
        has_published-update j s.id (reviewed p true reason) skills (λ t. refl) other,
      )
]

review_published :
    (p : Principal) (j k : ℕ) (approves : Bool) (reason : Option String) (skills : List Skill)
    → has_published j skills ≡ false
    → has_published j (review_skill p k approves reason skills).1 ≡ true
    → (is_admin p.role ≡ true)
      × (approves ≡ true)
      × (j ≡ k)
      × (s : Skill) × (skill_of p k skills ≡ some s)
      × (is_pending_review s.status ≡ true)
unfolding review_skill
review_published p j k approves reason skills h now = elim (Option-cases (skill_of p k skills)) [
  | inl absent ↦ ground (arith, absent, h, now)
  | inr (s, found) ↦
      let facts : (is_admin p.role ≡ true)
          × (is_pending_review s.status ≡ true)
          × (has_published j (after p approves reason s skills) ≡ true) =
        ground (arith, found, h, now) in
      let (admin, waiting, shown) = facts in
      let own : (s.id == k) ≡ true = ground (
        arith,
        find_holds (λ (t : Skill). t.id == k && t.tenant_id == p.tenant_id) skills s found,
      ) in
      let (agreed, same) = review_found p j k approves reason s skills own h shown in
      (admin, agreed, same, s, found, waiting)
]

-- No submission publishes a skill. A review publishes one only if an administrator approves it, if
-- it is the skill of the review, and if that skill of the tenant was waiting for a review.
pub published_by_review :
    (p : Principal) (j k : ℕ) (approves : Bool) (reason : Option String) (skills : List Skill)
    → has_published j skills ≡ false
    → (has_published j (submit_skill p k skills).1 ≡ false)
      × (has_published j (review_skill p k approves reason skills).1 ≡ true
          → (is_admin p.role ≡ true)
            × (approves ≡ true)
            × (j ≡ k)
            × (s : Skill) × (skill_of p k skills ≡ some s)
            × (is_pending_review s.status ≡ true))
published_by_review p j k approves reason skills h =
    (submit_unpublished p j k skills h, review_published p j k approves reason skills h)
