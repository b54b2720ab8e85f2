-- ===== src/Lib.antt =====
-- The verification library of the agent platform: its workflow scheduler and the worker that
-- executes workflows, the life of runs, tool calls and their approvals, quotas, the redaction of
-- secrets, and who may do what.
--
-- The program is a web service over a database. `app/main.py` holds most endpoints; an endpoint
-- takes a principal (`app/dependencies.py`), reads and writes rows (`app/models.py`) and commits.
-- The runtime (`app/runtime.py`) orders and checks workflows, moves runs between statuses and
-- executes tool calls; every transition of a run appends a numbered event (`app/events.py`). The
-- worker (`app/worker.py`) claims accepted runs, one at a time, and executes their workflows: it
-- orders the nodes, asks a model, makes tool calls, follows branches, and moves the run.
--
-- The files, and the code that they are about:
--   Base       types, tests, lists, error codes and integers that all parts share
--   Json       JSON values; Json/Dict: dicts and truth values; Json/Redact:
--              `app/security_utils.py`
--   Workflow   `validate_workflow` and `order_workflow` of `app/runtime.py`; Workflow/Condition:
--              `condition_route` and `condition_matches`; Workflow/Branches: `get_all_descendants`
--              of `app/worker.py` and `branch_excluded_keys` of `app/runtime.py`
--   Worker     `app/worker.py`: Provider (`complete_model`), Recovery, Steps, Calls and Nodes (the
--              loop of `execute_workflow`), Parallel, Definition, Execute (`execute_workflow`) and
--              Claim (`_process_claimed_run`, `process_once`), and Trigger (`execute_run` of
--              `app/main.py`); the other files of it are proofs
--   Quota      `app/quota.py`
--   ToolApi    `create_tool`, `update_tool`, `rollback_tool` and `delete_tool` of `app/main.py`
--   SkillSdk   the checks of `app/skill_sdk.py`
--   RunCreation   `create_run` and `create_workflow_instance` of `app/main.py`
--   Principal, Access   `app/dependencies.py`: `get_principal` and `require_permission`
--   Auth       `refresh`, `logout` and `confirm_password_reset` of `app/routers/auth.py`,
--              and `decode_password_reset_token` of `app/security.py`
--   Db         the tables of `app/models.py` as lists of rows, and `app/audit.py`; Db/Rows: what
--              is read after a write
--   Runs       `transition_run`, `begin_new_attempt` and `record_runtime_event`;
--              Runs/Endpoints and Runs/Instances: the endpoints of `app/main.py` that move a run or
--              a workflow instance
--   Tools      `execute_builtin` and `execute_tool_call` of `app/runtime.py`
--   Approvals  `decide_approval` of `app/main.py` and `expire_pending_approvals` of
--              `app/runtime.py`; Approvals/Creation: `create_tool_call` of `app/main.py`
--   Agents     `app/routers/agents.py`: updating, deleting, publishing and rolling back
--   Skills     `submit_skill` and `review_skill` of `app/main.py`
--   Idempotency   `app/idempotency.py`
--   RateLimit  `app/middleware/rate_limit.py`
--   Samples    a small database for the tests, which stand in a file Tests of each part
--
-- An operation maps a state to a result and a new state. A raise is an error value, and a raise
-- before the commit leaves the database that was there. A function that updates an object and its
-- row takes both, since the row may have been changed by another session in between.
--
-- Bounds and fuel: numbers are unbounded, as Python's are; floats are left out. The loop over the
-- queue in `validate_workflow` runs on the number of nodes and edges as fuel, and that of
-- `order_workflow` on the number of nodes; neither runs out, as is shown below. The retry loop of a
-- tool call is over the length of its range. The recursion of `get_all_descendants` runs on a depth
-- of two more than the number of nodes, which is shown to find all that there is. The limits of
-- the worker are its own: 100 nodes, 1000 steps, 50 tool calls.
--
-- Parameters: the regular expression engine, the jsonschema validator, the digest and the random
-- token of an approval, the decoding of tokens, the clock, what Redis answers, the model
-- provider, `str` and `int` of Python, and what other sessions commit in between.
--
-- Columns of JSON hold JSON values, and what reads them raises as Python does: a manifest or a policy
-- that cannot be read makes a tool call raise, and the worker with it where nothing catches that.
--
-- Not modelled: login and registration, retrieval, the API of workflows, settings, providers,
-- metrics, migrations, scripts and the frontend. A workflow definition whose fields do not have
-- their declared types is outside the model of the worker.
pub mod Access
pub mod Agents
pub mod Approvals
pub mod Auth
pub mod Base
pub mod Db
pub mod Idempotency
pub mod Json
pub mod Principal
pub mod Quota
pub mod RateLimit
pub mod RunCreation
pub mod Runs
pub mod Samples
pub mod SkillSdk
pub mod Skills
pub mod ToolApi
pub mod Tools
pub mod Worker
pub mod Workflow
