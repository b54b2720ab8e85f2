-- ===== src/Principal.antt =====
-- Who makes a request (app/dependencies.py). A role that the program does not know is `other`.
use general_agent_platform.Base.{ℕ, Bool, true, false, Option}

pub data Role : Type 0 where
  admin tenant_admin member readonly other : Role

pub record Principal : Type 0 where
  pub user_id : ℕ
  pub tenant_id : ℕ
  pub role : Role
  pub session_id : Option ℕ

-- `principal.role in {"tenant_admin", "admin"}`
abbrev pub is_admin : Role → Bool
is_admin admin = true
is_admin tenant_admin = true
is_admin _ = false
