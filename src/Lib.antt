-- ===== src/Lib.antt =====
-- A model of the RIF runtime (src/rif_runtime), a governance layer that decides which actions of an
-- agent are allowed, records every decision and raises its guard when denials accumulate.
--
-- A request goes to `RIFRuntime` (runtime.py), which asks `PolicyEngine` (policy.py) for a decision
-- under the rules of the policy store (configuration/policies.py), the profile of the environment and
-- the current posture. The decision is recorded: as an edge of the governance graph, as an event of the
-- telemetry window, from which the reflexive loop computes the next posture, and as a row of a
-- hash-chained log (storage/jsonl.py, audit.py). Metasploit intents go through `MetasploitGovernor`
-- (mcp/metasploit.py) and are recorded the same way, with signed evidence. A capability is executed only
-- after such a decision and after its admission by the registry (capabilities/registry.py). A new
-- process loads its settings and restores its posture from the logs, with the configured posture as a
-- floor. The routes of api.py expose the runtime behind the guards of auth.py; runs are created for
-- callers whom Supabase identifies. A process comes up through startup.py, or runs one command of cli.py
-- on a runtime of its own, over the same data directory as the others. The evaluation of rif-evals drives
-- the runtime through sessions of gated turns, and reports on them.
--
-- The files, each with the code it stands for:
--   Prelude         shared tests, lists, results, ASCII texts and dicts
--   Schemas         schemas.py
--   Policy          policy.py: `Rules` is what a rule matches and the order of rules, the file itself
--                   `PolicyEngine.evaluate`; `Ranking`, `Egress`, `Verdict` and `Raises` hold proofs
--   PolicyStore     configuration/policies.py: `_ensure_required_first_party_rules` is
--                   `ensure_required`, `list`, `upsert` and `delete` have their own names
--   Governance      governance/posture.py, telemetry.py, reflexive.py and drift.py, whose regular
--                   expressions are the searches of `Drift.Patterns`
--   Values          security.py: Python values, normalisation, digests and redaction; `Secrets` is
--                   encryption and the hashing of secrets, with proofs in `Secrets.Recovery`
--   Audit           audit.py
--   Storage         storage/jsonl.py: plain logs, and `Chain` for `HashChainedJsonlStore`;
--                   `Chain.Window` reads the tail from the bytes; `Text` reads a file from its text, as
--                   `splitlines` cuts it, and `Chain.Separators` holds a proof on it;
--                   `Writers` is the processes that share a log, step by step under its locks: in
--                   `Exclusive` and `Serial` their invariant, in `Readers` and `Alone` what follows of it
--   Mcp             mcp/capabilities.py and mcp/metasploit.py (`Intent` for the records, `Governor` for
--                   `MetasploitGovernor`, whose `_finish` is `finish` and so on), and
--                   mcp/corpus.py in `Corpus`
--   Graph           graph/memory.py, over networkx as an interface with three laws
--   Capabilities    capabilities/registry.py, capabilities/models.py, execution/kernel.py, and
--                   capabilities/echo.py in `Echo`
--   Runtime         runtime.py: `State` is the state and its actions, `Governed` the execution of
--                   capabilities and Metasploit intents, `Restore` the start of a process, with
--                   replay.py, `Summaries` the counts, `Audits` the audit with the reads
--                   that it makes of the log, and `Audits.Snapshot` its proof; `Calls` is the
--                   sequences of calls, `Stable` what holds over them if it holds over each write,
--                   `Ratchet` and `Integrity` its instances; `Durable`, `DryRun`, `Recording` and
--                   `Execution` hold proofs
--   Replay          replay.py: the decisions and the graph that rows of the log stand for
--   Config          config.py: the sections and their validation, `Load` for the variables of the
--                   environment and `load_settings`, `Start` for `load_config` and
--                   `RIFRuntime.__init__`, `Version` for _version.py; `Overrides`,
--                   `Sections`, `Valid` and `Start.Floor` hold proofs
--   Startup         startup.py, the cached settings of config.py and the import of api.py; proofs are
--                   in `Settled`
--   CommandLine     cli.py, a command each function; `Logged` holds proofs
--   Auth            auth.py, with the guard described independently in `Guard`
--   Supabase        integrations/supabase.py, over the package as a parameter; `Clients` is its caches
--   Runs            runs/schemas.py
--   Api             api.py: `dispatch` is the routing table, a route of the same name each function;
--                   `State` and `Guards` are what the routes share, `Payloads` those that take a free
--                   dict, `Creation` is `create_run`; `Guarded` and `Approval` hold proofs
--   Agents          agents/template.py, deputy.py, orchestrator.py, manifest.py
--   Resources       resources: identity.py, scanner.py, builder.py and so on, with registry.py and
--                   descriptor.py in `Registry`
--   Explainability  explainability.py
--   Evals           rif-evals/code_refinement_mst/runners: run_session.py, with `write_report` in
--                   `Report`, `main` in `Main` and the name of a session's file in
--                   `SessionFile`, score.py in `Score` and sandbox_exec.py in `Sandbox`; proofs are
--                   in `Regression`, `Session`, `Report.Latest` and `Report.Ordered`
--   Tests           concrete data, and each theorem applied to it
--
-- Paths are from src/rif_runtime (rif-evals stands beside src) unless written out. A method that mutates
-- is a function from the state to a result and the state afterwards, also where it raises, so what was
-- written before a raise stays.
-- The runtime's lock makes each method one step, in which an append to a log is one step too; the steps
-- of an append are those of `Storage.Writers`. Clocks, `uuid4` and the random draws are arguments.
-- Digests, key derivation, Fernet, `json.dumps`, `isoformat`, base64 and `urlparse(...).hostname` are
-- parameters: nothing is assumed of the digests except, where a theorem says so, that an HMAC is not
-- empty and is ASCII, and that no collision was found. Recursion is structural, but for the search of
-- the tail of a log, which runs on fuel: one round more than the file has bytes is shown to be enough.
-- Floats, pydantic's conversions between types, and what FastAPI, Supabase and a run of
-- pytest do are parameters too.
-- Case folding, stripping and the tests on texts are those of ASCII texts; times are microseconds since
-- the epoch.
--
-- The file of a log ends in a newline, as every append leaves it: where a foreign writer left its last
-- line without one, the next row would be glued to it.
--
-- Not modelled: the death of a process in the middle of an append, what the command line parses and
-- prints, and the content of the files of the sessions of the evaluation.
pub mod Agents
pub mod Api
pub mod Audit
pub mod Auth
pub mod Capabilities
pub mod CommandLine
pub mod Config
pub mod Evals
pub mod Explainability
pub mod Governance
pub mod Graph
pub mod Mcp
pub mod Policy
pub mod PolicyStore
pub mod Prelude
pub mod Replay
pub mod Resources
pub mod Runs
pub mod Runtime
pub mod Schemas
pub mod Startup
pub mod Storage
pub mod Supabase
pub mod Tests
pub mod Values
