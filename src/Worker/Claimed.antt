-- ===== src/Worker/Claimed.antt =====
-- The claim of a run (`process_once`, app/worker.py): which run it takes, and what becomes of it.
use general_agent_platform.Base.{ℕ, ◌≡◌, Bool, true, false, Option, some, ◌⊎◌, ok}
use general_agent_platform.Db.{Db, Run, get_run, status_in}
use general_agent_platform.Runs.Endpoints.{Reply}
use general_agent_platform.Worker.Claim.{is_claimable}
use general_agent_platform.Worker.Ends.{settled}

-- No run was taken; or one was that may be, whose row is settled afterwards.
abbrev pub IsClaimed : (ℕ → Bool) → Option ℕ → Db → Reply ℕ → Type 0
IsClaimed is_locked wanted db reply =
    (reply ≡ (ok 0, db))
    ⊎ ((run : Run) × (get_run run.id db ≡ some run)
        × (is_claimable wanted run ≡ true)
        × (is_locked run.id ≡ false)
        × ((db' : Db) × (reply ≡ (ok 1, db'))
            × ((row : Run) × (get_run run.id db' ≡ some row)
                × (status_in row.status settled ≡ true))))
