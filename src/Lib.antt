-- ===== src/Lib.antt =====
-- A model of the governance loop of an autonomous data pipeline: agents observe its telemetry and
-- propose actions, a policy gate decides on them, an executor carries them out, and an audit table,
-- an approval queue and a kill switch keep people in control. Paths are from the repository's root.
--
-- The parts, and the files that model them:
-- - Contracts: src/acde/contracts/actions.py, the proposed action and its validation
--   (`model_validate`), with JSON values in Json.
-- - Opa: the policies of infra/opa/policies. A rule is the list of the values of its bodies that
--   hold; `decision_values` is what they come to for an input.
-- - Gate: src/acde/policy/gate.py, the context of a decision and the query of the policy server
--   with its fail-safe (`build_context`, `evaluate`).
-- - Executor: src/acde/policy/executor.py, the handlers of the action types (Executor/Handlers), the
--   execution modes, the escalation, and `create_pending` of src/acde/human/approvals.py.
-- - Approvals: src/acde/human/approvals.py (`approve`, `reject`).
-- - Partitions: src/acde/dataplane/partitions.py, the registry of versioned partitions.
-- - Agents: src/acde/agents/base.py (`observe`, `reason`, `act`), the hooks of the four agents,
--   detection.py and monitoring.py.
-- - Control: src/acde/orchestrator/control.py, the kill switch, the heartbeat and the cap.
-- - Loop: src/acde/orchestrator/loop.py, the tick and the resolution of conflicts (Loop/Bids).
-- - RateLimit: src/acde/server/ratelimit.py, the limiter of the operator's interface.
-- - Llm: src/acde/llm/client.py, the budget, the cache and the degradation of the model's client.
-- - Windows: src/acde/dataplane/streaming/windows.py, the tumbling windows of the stream.
-- - Settings: src/acde/config.py, the tables of keys, roles and tenants (`api_key_map`, `role_map`,
--   `tenant_map`).
-- - Server: src/acde/server/app.py and src/acde/tenancy.py, who may call the operator's interface, the
--   middleware of its limiter, and the export of the audit trail in batches.
-- - Cost: src/acde/telemetry/cost.py, the ledger of the compute and the storage of a run.
-- - Migrations: src/acde/migrations/__init__.py, the versioned changes of the database's schema.
-- - Campaign: src/acde/experiments/campaign.py, the supervisor of the experiments, with the matrix of
--   its runs (Campaign/Runs) from configs.py and runner.py beside it.
-- - Workers: src/acde/dataplane/streaming/workers.py, the pool of streaming workers, and
--   src/acde/human/simulator.py, the simulated operators (Workers/Operators).
-- - Isolation: src/acde/experiments/isolation.py and `_reset_run` of runner.py, what is put back
--   before a run of the experiment.
-- - Runner: src/acde/experiments/runner.py, a run, a call of the runner and the files that they leave
--   in the results directory (`run_one`, `run_profile`); Runner/Resumed has the attempts that end
--   before all is written, save the kill that leaves raw.csv without its header, and Runner/Supervised
--   the campaign over it.
-- - Consumer: src/acde/dataplane/streaming/consumer.py, a session of the stream and the rows that it
--   writes (`_write`, `run`), over Windows.
-- - Responders: src/acde/experiments/baseline.py and baselines.py, what resolves a fault where no agent
--   does.
-- - Quality: src/acde/experiments/decision_quality.py and src/acde/ops/decision_quality.py, whether the
--   actions on a fault were acceptable ones.
-- - Harvest: src/acde/experiments/metrics.py, the metrics of a finished run.
-- - Mock: src/acde/llm/mock.py, the deterministic stand-in for the model.
-- A tick of Loop calls Agents, `act` calls Gate and then Executor, and these share the tables of
-- World. World is the database and what leaves the process, Env the settings and third-party code.
--
-- State is passed on explicitly: code that writes and may raise is an `Exec`, from a World to a result
-- and a World, and what was written before an exception stays. Each write to the database is atomic
-- and is seen by all that follows; JSONB refuses a value with a float that is not finite, and the
-- database takes every other write. The clock stands still within an operation. Times are in
-- microseconds, a float from 0 to 1 is counted in units of 2^-1074, of which every such float is a
-- multiple, and costs are in one unit. A formatted message is a constructor of `Message` with its
-- arguments. An id that the program draws is `next_id`.
--
-- Retries recurse on the attempts that are left: three for the policy server and the model, and
-- `executor_retry_attempts`, but at least one, for Airflow. The loops over the windows of the ledger,
-- over the batches of the export, over the turns of a campaign and over the checks of its wait recurse
-- on fuel and give `none` when it is out. A window takes at least a microsecond off the span, a full
-- batch at least a row off those that are left, a turn a run or one of the failures allowed, and a
-- check its pause off the longest wait, so these are enough. The other loops run over lists, that of
-- ticks over the list of the waits after each tick.
--
-- Parameters: Airflow's answers, the policy server's replies, the advisory lock of the database, the
-- conversions of Python and of the database driver (all in Env), the model's proposal and the text of
-- a time (Loop), the regular expression, the hash and the database's answers (Migrations), what the
-- campaign's loop is given and the shuffle of its runs (Campaign), the draw of a latency (Workers),
-- what a provider answers to an attempt (Llm), what a run of the experiment does to the system between
-- the reset and the harvest, the digest of its seed's text and the texts of numbers (Runner), the walk
-- of a set (Mock), the delay of the human (Responders), the median of some times (Harvest), the rounding
-- of a sum (Consumer) and of a quotient (Quality), the values of the stream and their addition (Windows),
-- and Rego's `sprintf` (Opa).
--
-- Not modelled: the physical tables of the partitions and their names, tenants and environments as
-- columns of World, logging, waits between retries, the timeout of a tick and its interruption, and the
-- delivery of notifications; the other routes of the HTTP server, the language model's providers, the
-- connectors, the injection of a fault, the kill of a child process at its timeout, the analysis of the
-- results, and of the streaming data plane the broker and the producer.
pub mod Prelude
pub mod Json
pub mod Contracts
pub mod Opa
pub mod Partitions
pub mod Env
pub mod World
pub mod Exec
pub mod Executor
pub mod Gate
pub mod Approvals
pub mod Agents
pub mod Control
pub mod Loop
pub mod RateLimit
pub mod Llm
pub mod Windows
pub mod Cost
pub mod Migrations
pub mod Campaign
pub mod Settings
pub mod Server
pub mod Workers
pub mod Isolation
pub mod Runner
pub mod Mock
pub mod Consumer
pub mod Responders
pub mod Quality
pub mod Harvest
mod Tests
