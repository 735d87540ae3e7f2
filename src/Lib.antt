-- ===== src/Lib.antt =====
-- Cortxt: a verification library for the core of agent-platform/ (Python).
--
-- Cortxt keeps the authority, state and evidence of AI work outside the runs that execute it. The
-- library models the parts that decide: each definition is a translation of a Python function or
-- class, and stateful methods take and return the state.
--
-- Shared modules
--   Prelude     numbers, tests, lists and texts that the components share.
--   Value       Python values as json.loads returns them, dictionaries as lists of fields with
--               d.get, membership and key sets. A dictionary is read at its first entry for a key.
--   Dict        a dictionary with text keys, in the order of insertion.
--   Platform    what the code uses of Python and of cryptography packages: floats, fromisoformat,
--               Ed25519, SHA-256. It is a parameter of the models, with no law assumed.
--
-- Mandate (agent-platform/cortxt_mcp/mandate.py, nonce_store.py, revocation_store.py)
--   Mandate/Check         decisions, reasons, and the chain of checks; an exception that leaves the
--                         function is a result of its own.
--   Mandate/Timestamp     _parse_utc and _parse_time.
--   Mandate/Envelope      what each check of verify_mandate reads of the envelope.
--   Mandate/Verify        verify_mandate over injected stores, which may raise. The function reads the
--                         clock twice, once for the revocation check and once for the expiry: both
--                         readings are fields of a call.
--   Mandate/Nonces        NonceStore, Mandate/Budgets BudgetStore, Mandate/Revocation
--                         KeyRevocationStore; Mandate/Disk puts the three behind verify_mandate.
--   A store's file is missing, unreadable or as the class wrote it. The locks make each call atomic,
--   so that threads are sequences of calls. Times are microseconds, and the two intervals of the
--   revocation store are whole microseconds. Issuing a mandate is not modelled.
--
-- Events (agent-platform/events/)
--   Events/Idempotency    IdempotencyStore.record and prune over the content of the file.
--   Events/Schema, Events/Validation   validate_data, by recursion on the value; a schema is data. Its
--                         Keys and Kinds describe the keys and the kinds apart from the code.
--   Events/Envelope       validate_envelope and its type pattern; Events/Signing verify_signature.
--   Events/Dispatch       dispatch_event, over the registry, the handlers and an optional store.
--   The texts of messages are left out, and an error is its kind.
--
-- Learning (agent-platform/learning/)
--   Learning/Gate         PromotionGate and AddonReviewGate; Learning/Gate/Verdicts says what passes.
--   Learning/Registry     CandidateRegistry over its two tables, rollback and submit_candidate; an
--                         SQL statement is a function on the rows, and the primary keys hold.
--
-- Supervisor/Budget (agent-platform/supervisor/budget.py and reasoning/recursive/bounds.py)
--   The division of the bounds of a run among its children, and the surplus of a child.
--
-- Inference/Provider (agent-platform/inference/provider_policy.py)
--   evaluate_provider, over evidence whose fields need not have their declared types.
--
-- Session (agent-platform/runtime/session_state.py)
--   The hash chain of a session: create, append, load and the validation of what is loaded. The
--   files are a dictionary by session id; the clock and the fresh id are arguments. Session/Log
--   is about what load reads afterwards, Session/Valid about the documents that pass; Session/Tamper
--   compares two chains, where the canonical text of an event shows the hash before it.
--
-- Daemon (agent-platform/daemon/)
--   Daemon/Gate           evaluate_gate; Daemon/Autonomy AutonomyTracker.
--   Daemon/Loop           DaemonLoop.run_once and the new start of __post_init__. What the injected
--                         functions return in one iteration is a World; the state has the files
--                         claimed.json and autonomy.json and the calls that the engines got.
--   Daemon/Loop/Selection the issue that a run takes, described apart from the code.
--   Daemon/Loop/Forever   run_forever and SessionBudget, over the answers of successive rounds.
--
-- Routing/Engine (agent-platform/routing/engine_manifest.py)
--   route, over manifests that their class accepts.
--
-- Routing/ChargePolicy (agent-platform/routing/charge_policy.py)
--   The construction of a ChargePolicy and zero_charge_eligible, with the channels that
--   completion_report.py declares.
--
-- Work (agent-platform/widget_contract/run_authority.py and next_action.py)
--   Work/Moments          the readers of texts and time stamps; strptime, timestamp and str are
--                         parameters.
--   Work/Summary          the summary of a dispatcher's record and of a session document.
--   Work/Correlate        correlate_run_summaries: agreement merges, disagreement is a conflict.
--   Work/Freshness        compute_run_freshness; Work/NextAction run_holds_issue and
--                         resolve_next_action.
--   The dispatcher's and the session store's records are JSON values, and an exception is none.
--
-- Reasoning (agent-platform/reasoning/recursive/)
--   Reasoning/Engine      decompose_state, integrate_results, challenge and RLMEngine over a clock and
--                         an inference port that are parameters. The recursion is on fuel: two more
--                         than max_depth, which Reasoning/Ends shows to be enough.
--
-- Inference/BudgetGate (agent-platform/adapters/inference/budget_gate.py)
--   BudgetGate over the rows of its spend table; each access to the database may fail.
--
-- Security/Broker (agent-platform/security/credential_broker.py)
--   CredentialBroker.store and inject over the records by the file that holds them and the audit log.
--   file_of, the file that the file system takes a record's name for, what encrypt returns, decrypt, the
--   clock and the failures of the disk are parameters. Two ids that differ only in case may share a file.
--
-- Lifecycle (agent-platform/cortxt_mcp/run_lifecycle.py and tools.py)
--   Lifecycle/Schema      the schemas of the tools and validate_schema; Lifecycle/Runs what is read of
--                         the sessions of runs; Lifecycle/Envelope the result envelopes.
--   Lifecycle/Turns       the events that are appended; Lifecycle/Service create_run.
--   Lifecycle/Resume      the worker's turn and resume_run; Lifecycle/Review submit_for_review. Its
--                         Engine and Status describe, apart from the code, what a history says.
--   Lifecycle/Context     status_of and build_call_context; Lifecycle/Gate call_tool for the tools of the
--                         run lifecycle, which joins them to the verifier of Mandate/Verify.
--   Lifecycle/Writes      what each of them may write; Lifecycle/History the steps and their sequences.
--   A World is what one call gets from outside: fresh ids, the clock, the registered engines, the writes
--   that succeed and the engine's result. Each call is one step, and the steps are one after the
--   other: session_state.append loads, checks and replaces a session's file without a lock, so of two
--   appends at one time one may be lost, which is not modelled. The sessions are scanned newest first,
--   where the glob gives no set order; that matters only for which of two sessions of one issue, or of
--   one run id, is found.
--
-- Not modelled: user interfaces, command lines and network and process input and output; the
-- activity, review and artifact projections of run_authority.py, the MCP protocol,
-- the stores of agent-platform/state/, the coordinator, the reasoning kernel and its pipelines, and
-- the repository's scripts.
pub mod Prelude
pub mod Value
pub mod Platform
pub mod Mandate
pub mod Dict
pub mod Events
pub mod Learning
pub mod Supervisor
pub mod Inference
pub mod Session
pub mod Routing
pub mod Daemon
pub mod Work
pub mod Reasoning
pub mod Security
pub mod Lifecycle
