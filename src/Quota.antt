-- ===== src/Quota.antt =====
-- The use that a tenant makes of its quota (app/quota.py). `month_start` is the first instant of the
-- month. The shares are compared exactly, where the code has floats.
use general_agent_platform.Base.{
  ℕ, ◌+◌, ◌*◌, ◌≤◌, ◌≡◌, Bool, true, ◌&&◌, ◌||◌, List, [], ◌∷◌, arith, ◌==◌, ltb, leb,
  if◌then◌else◌, select, length,
}
use native.Mathlib.Nat.{mul-le-mul_left}
use general_agent_platform.Db.{
  Db, Run, RunStatus, accepted, preparing, running, waiting_approval, status_in, Quota,
}

pub record TenantUsage : Type 0 where
  pub total_tokens : ℕ
  pub cost : ℕ
  pub run_count : ℕ
  pub active_runs : ℕ

abbrev pub sum_of : (Run → ℕ) → List Run → ℕ
sum_of f [] = 0
sum_of f (r ∷ rest) = f r + sum_of f rest

abbrev pub of_month : ℕ → ℕ → Run → Bool
of_month month_start tenant r = r.tenant_id == tenant && leb month_start r.created_at

abbrev pub active_statuses : List RunStatus
active_statuses = accepted ∷ preparing ∷ running ∷ waiting_approval ∷ []

abbrev pub is_active_of : ℕ → Run → Bool
is_active_of tenant r = r.tenant_id == tenant && status_in r.status active_statuses

unfoldable pub tenant_usage : (month_start : ℕ) → ℕ → Db → TenantUsage
tenant_usage month_start tenant db =
    let rows = select (of_month month_start tenant) db.runs in
    record {
      total_tokens = sum_of (λ (r : Run). r.usage.total_tokens) rows;
      cost = sum_of (λ (r : Run). r.cost) rows;
      run_count = length rows;
      active_runs = length (select (is_active_of tenant) db.runs);
    }

-- `max(0, min(100, int(warning_percent or 90)))`
abbrev pub percent_of : Quota → ℕ
percent_of quota =
    if quota.warning_percent == 0
    then 90
    else if leb 100 quota.warning_percent
    then 100
    else quota.warning_percent

-- `limit > 0 and used >= limit * ratio`
abbrev pub is_hit : ℕ → ℕ → ℕ → Bool
is_hit limit used percent = ltb 0 limit && leb (limit * percent) (used * 100)

unfoldable pub soft_limit_reached : Quota → TenantUsage → Bool
soft_limit_reached quota usage =
    is_hit quota.monthly_token_limit usage.total_tokens (percent_of quota)
    || is_hit quota.monthly_cost_limit usage.cost (percent_of quota)

percent_of-le : (quota : Quota) → percent_of quota ≤ 100
percent_of-le quota = ground arith

is_hit_full :
    (limit used percent : ℕ)
    → percent ≤ 100
    → 1 ≤ limit
    → limit ≤ used
    → is_hit limit used percent ≡ true
is_hit_full limit used percent p l u =
    let share : limit * percent ≤ limit * 100 = mul-le-mul_left limit p in ground (arith, share)

-- A tenant that has used up a limit on tokens that is set has reached its soft limit, whatever the
-- percentage of the warning.
pub soft_limit_before_limit :
    (quota : Quota) (usage : TenantUsage)
    → 1 ≤ quota.monthly_token_limit
    → quota.monthly_token_limit ≤ usage.total_tokens
    → soft_limit_reached quota usage ≡ true
unfolding soft_limit_reached
soft_limit_before_limit quota usage set full = ground (
  arith,
  is_hit_full quota.monthly_token_limit usage.total_tokens (percent_of quota) (percent_of-le quota)
      set full,
)
