-- ===== src/Skills.antt =====
-- The review of skills (app/main.py): `submit_skill` and `review_skill`.
pub mod Review
mod Tests
use general_agent_platform.Base.{
  ℕ, String, Bool, true, false, not, ◌&&◌, ◌||◌, Option, none, some, List, [], ◌∷◌, ◌==◌,
  if◌then◌else◌, find, update_where, Result, ok, err, not_found, forbidden, skill_already_submitted,
  skill_not_pending,
}
use general_agent_platform.Principal.{Principal, is_admin}

pub data SkillStatus : Type 0 where
  draft pending_review published rejected archived : SkillStatus

pub record Skill : Type 0 where
  pub id : ℕ
  pub tenant_id : ℕ
  pub status : SkillStatus
  pub review_reason : Option String
  pub reviewed_by : Option ℕ

abbrev pub skill_of : Principal → ℕ → List Skill → Option Skill
skill_of p k skills = find (λ (s : Skill). s.id == k && s.tenant_id == p.tenant_id) skills

-- `skill.status in {"draft", "rejected"}`
abbrev pub may_submit : SkillStatus → Bool
may_submit draft = true
may_submit rejected = true
may_submit _ = false

abbrev pub is_pending_review : SkillStatus → Bool
is_pending_review pending_review = true
is_pending_review _ = false

-- The audit trail of both operations is left out.
unfoldable pub submit_skill : Principal → ℕ → List Skill → Result Skill × List Skill
submit_skill p k skills = elim (skill_of p k skills) [
  | none ↦ (err not_found, skills)
  | some s ↦ if not (may_submit s.status) then (err skill_already_submitted, skills) else (
    ok (record s { status = pending_review; review_reason = none }),
    update_where (λ (t : Skill). t.id == s.id)
        (λ (t : Skill). record t { status = pending_review; review_reason = none }) skills,
  )
]

-- The columns that a review writes.
abbrev pub reviewed : Principal → Bool → Option String → Skill → Skill
reviewed p approves reason s = record s {
  status = if approves then published else rejected;
  review_reason = reason;
  reviewed_by = some p.user_id;
}

unfoldable pub review_skill :
    Principal → ℕ → (approves : Bool) → Option String → List Skill → Result Skill × List Skill
review_skill p k approves reason skills =
    if not (is_admin p.role) then (err forbidden, skills) else elim (skill_of p k skills) [
      | none ↦ (err not_found, skills)
      | some s ↦ if not (is_pending_review s.status) then (err skill_not_pending, skills) else (
        ok (reviewed p approves reason s),
        update_where (λ (t : Skill). t.id == s.id) (reviewed p approves reason) skills,
      )
    ]
