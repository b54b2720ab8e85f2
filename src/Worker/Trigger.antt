-- ===== src/Worker/Trigger.antt =====
-- `execute_run` (app/main.py): a request that has the worker process a run, or that only wakes it.
-- The notice on the queue is left out.
use general_agent_platform.Base.{
  ℕ, String, Bool, ◌&&◌, Option, none, some, ◌==◌, if◌then◌else◌, find, ok, err, Code, not_found,
}
use general_agent_platform.Principal.{Principal}
use general_agent_platform.Db.{Db, Run, status_in}
use general_agent_platform.Runs.{terminal}
use general_agent_platform.Runs.Endpoints.{Reply}
use general_agent_platform.Worker.Steps.{Host}
use general_agent_platform.Worker.Claim.{process_once}

abbrev pub tenant_run : Principal → ℕ → Db → Option Run
tenant_run p k db = find (λ (r : Run). r.id == k && r.tenant_id == p.tenant_id) db.runs

abbrev found_or : Option Run → Db → Reply Run
found_or none db = (err not_found, db)
found_or (some run) db = (ok run, db)

-- The response has the run as it is in the database after the worker.
unfoldable pub executed_run : Principal → ℕ → Reply ℕ → Reply Run
executed_run p k (err e, db) = (err e, db)
executed_run p k (ok n, db) = found_or (tenant_run p k db) db

unfoldable pub execute_run :
    (Code → String)
    → (String → String)
    → Host
    → (is_locked : ℕ → Bool) → (failures : ℕ) → (async_mode : Bool) → Principal
    → ℕ
    → Db
    → Reply Run
unfolding executed_run process_once
execute_run code_text join host is_locked failures async_mode p k db = elim (tenant_run p k db) [
  | none ↦ (err not_found, db)
  | some run ↦
      if status_in run.status terminal
      then (ok run, db)
      else if async_mode
      then (ok run, db)
      else executed_run p k (process_once code_text join host is_locked failures (some k) db)
]
