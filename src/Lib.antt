-- ===== src/Lib.antt =====
-- career_agent_harness: a local-first workbench for job applications. This library models the core
-- logic of its Python backend (backend/career_harness) and proves what makes it correct.
--
-- Tasks: the durable task queue. Tasks/Model has the rows of the tables; Tasks/Enqueue,
-- Tasks/Lease and Tasks/Control have the methods of TaskRepository
-- (backend/career_harness/db/task_repository.py), each a transaction, named `…_tx`, followed by a
-- read; Tasks/Service and Tasks/Dispatch have TaskService
-- (backend/career_harness/services/task_service.py). A transaction is a function from the database
-- to a new one or an error; Tasks/Machine has the transactions of all workers and of the user as
-- one step relation, and the abstract state machine of a task. A claim, a cancellation and a
-- requeue are in two parts, the SELECT and what follows it for the row that was read
-- (`…_selected`): the default driver of backend/career_harness/db/session.py begins the
-- transaction in between. A step of Machine is one whose row is unchanged when it writes; Races is
-- about those whose row was changed, Overtaken about runs with both. Effects and Outcomes say what
-- a transaction writes, Refinement which move of the machine it is, Invariant what every run of
-- steps keeps, Fencing and Leases what a lease is good for.
--
-- Match: the match policy (backend/career_harness/core/match_gap/policy.py). Match/Validate has
-- `_validate_and_index`, Match/Assess `_assess_requirement`, Match/Manifest `_build_manifest`,
-- Match/Assessment `assess_match` with the validator of MatchAssessment. A Python set of scopes is
-- a record of five Booleans (Match/Scopes), and the dictionaries of the index are the lists they
-- are made of. Coverage and Verdict say scope by scope what an assessment decides, Support what
-- evidence and project states can change, Complete that validated input is always assessed.
--
-- Today: the Today queue (backend/career_harness/core/today/policy.py,
-- backend/career_harness/core/today/models.py). Today/Policy has the functions that make one item
-- each, Today/Queue `build_today_queue` and the validator of TodayQueue; the items' total order is
-- `by_key` of Today/Model, and the references and their dictionary are in Today/Refs. Of a reason
-- only its code is kept.
--
-- Context: the selection of context assets (backend/career_harness/core/context/compiler.py,
-- backend/career_harness/core/context/models.py). Context/Select has
-- DeterministicRelevanceSelector.select, Context/Boundary the validators of the request and of the
-- result, Context/Unordered what one candidate adds to the sorting. The compiler and its hash are
-- not modelled.
--
-- Commands: the command service (backend/career_harness/services/command_service.py).
-- Commands/Commit has `commit`, `_commit_in_session` (in two parts) and `get`; Commands/Model the
-- rows it writes. The tables of the domain are a type parameter, a transactional write is a
-- function on it, and the digest of a request is a function on what the code encodes. Machine has
-- the commits of all callers as one step relation and the log of an entity, Effects and Append say
-- what a commit writes, Refinement, Replay, Total and ReadBack what follows.
--
-- Tools: the tool registry (backend/career_harness/core/tools/registry.py). Tools/Schema has
-- `_validate_object` and `_coerce`, Tools/Model the definitions and `__post_init__`,
-- Tools/Registry ToolRegistry with the event of DatabaseToolAuditSink
-- (backend/career_harness/db/tool_audit.py). A handler is a function on a world, which may raise;
-- so is a deferred loader. Guard is about one call, History about registrations and calls in
-- sequence.
--
-- Radar: the policies of job sources. Radar/Policy has the methods of JobStagingRepository on them
-- (backend/career_harness/db/job_staging_repository.py), Radar/Search the first half of
-- OpportunityRadarService.collect (backend/career_harness/services/opportunity_radar_service.py),
-- the attempts to search a source; the rounds of its loop are a number that counts down, and every
-- one is an attempt of the code, so there is no fuel. The answer of a source in each attempt is an
-- argument. Ended, Rounds and Bounds are about the loop, Valid and History about the stored
-- policies.
--
-- Market: the broad market trend (backend/career_harness/core/market/trend.py). Market/Trend has
-- `build_broad_market_trend` with the validators of its result; a dictionary is a keyed table, and
-- a set the list of its texts, each once. Sets and Sorted are about sets, and tables sorted by
-- their keys, Groups about the dictionary, Canonical, Accepted and Total about the trend.
--
-- Base: lists, keyed tables, errors as values, text and JSON, three-way comparisons and the stable
-- sort by a key that stands for `sorted`, which the components share.
--
-- Times are microseconds since 1970 as natural numbers, up to the last one of Python's datetime
-- where the code adds to them, progress is in millionths, and identifiers drawn by uuid4 and
-- readings of the clock are arguments. A Python exception is an error value; a transaction that
-- raises leaves the database as it was.
--
-- Not modelled: the HTTP layer (backend/career_harness/api), the desktop application
-- (apps/desktop), migrations but for their constraints, importers, and what sits on network, model
-- or operating system interfaces.
pub mod Base
pub mod Commands
pub mod Context
pub mod Market
pub mod Match
pub mod Radar
pub mod Tasks
pub mod Today
pub mod Tools
