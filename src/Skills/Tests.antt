-- ===== src/Skills/Tests.antt =====
-- A skill that waits for its review.
use general_agent_platform.Base.{ℕ, ◌≡◌, refl, true, false, none, List, [], ◌∷◌, some}
use general_agent_platform.Principal.{is_admin}
use general_agent_platform.Skills.{
  Skill, pending_review, skill_of, is_pending_review, submit_skill, review_skill,
}
use general_agent_platform.Skills.Review.{has_published, published_by_review}
use general_agent_platform.Samples.{operator}

abbrev skills : List Skill
skills =
    record {
      id = 5;
      tenant_id = 1;
      status = pending_review;
      review_reason = none;
      reviewed_by = none;
    }
    ∷ []

abbrev skill_id : ℕ
skill_id = 5

published_by_review_example :
    (has_published 5 (submit_skill operator 5 skills).1 ≡ false)
    × (has_published 5 (review_skill operator 5 true none skills).1 ≡ true
        → (is_admin operator.role ≡ true)
          × (true ≡ true)
          × (skill_id ≡ 5)
          × (s : Skill) × (skill_of operator 5 skills ≡ some s)
          × (is_pending_review s.status ≡ true))
published_by_review_example = published_by_review operator 5 5 true none skills refl
