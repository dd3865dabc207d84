-- ===== src/Lib.antt =====
-- Charterion: a browser extension and a control plane that run a team of ChatGPT conversations as
-- agents. The extension keeps tasks, messages and a ledger of the prompts that it sent; it watches the
-- pages by content scripts, and it sends a prompt only when it can tell that it was not sent before.
-- This library models the core of the extension and proves what keeps it safe.
--
-- Prelude has what the modules share: texts as lists of UTF-16 code units (as JavaScript counts them),
-- dictionaries as association lists in order of insertion, `throw` as a result, and lemmas.
-- Contracts are the types of src/contracts.ts, with an optional field as an Option.
-- Attempts is src/attempts.ts (allowed for ALLOWED, can_advance_attempt, advance_attempt): the states of
-- a sent prompt. Ledger is src/attemptLedger.ts and src/attemptLedgerIndex.ts. Recovery is
-- src/recovery.ts and src/restartRecoveryPolicy.ts: what a restart makes of attempts under way, by the
-- pages' recovery states; it advances attempts by Attempts and trims them by Ledger.
-- Tasks is src/taskPolicy.ts, src/taskLifecycle.ts and src/reviewLoop.ts (Tasks/Policy, Tasks/Lifecycle,
-- Tasks/Remediation). Protocol is src/review.ts and shared/structuredResult.ts, the parsers of replies.
-- TaskGraph is src/taskGraph.ts: Validate the checks, Evaluate the meaning of a task's last attempt (by
-- the parsers), and Derive the status that each task is shown with.
-- Messages is src/messageBus.ts. Content is src/contentRuntimeFence.ts and src/replyCorrelation.ts.
-- Generation is src/stuckGenerationConvergence.ts. Dispatch is src/exactTaskDispatch.ts
-- and src/promptDispatchGovernor.ts (Governor, with Acquire for its inline waiting, and Waits for
-- what its waits ask of the state). Bindings is src/bindingStore.ts. Roles is shared/agentRole.ts, and
-- Supervisor is src/supervisor.ts: which ready task goes to which tab.
-- Control is the control plane, control/src: Rows the tables under a key, Promotion
-- control/src/promotionAuthority.ts (Operations its methods, Reachable
-- the authority as a system), Changes control/src/changeRequestAuthority.ts (Operations and Candidate its
-- methods, Kept what they keep), Requests control/src/requestAuthority.ts, and Fleet
-- control/src/elasticFleet.ts. Rows/History is what the rows of a table keep over time, Runs has the runs
-- that call git.
-- Runner is src/coalescingRunner.ts. Samples has concrete runs.
--
-- Functions keep their source's names, in snake case. A loop is a structural recursion. The two searches
-- along dependencies (`visit` in validateTaskGraph, `derive` in deriveManagedTasks) take fuel, one more
-- than there are tasks; that it is enough is among the results. A method that changes an object returns
-- it; the map of results that `derive` shares is passed from call to call. An asynchronous operation
-- that the source serializes is one step of a run. The clock's readings, the outcome of a write and
-- JSON.parse are parameters, of which nothing is assumed; so are toLowerCase and the order of localeCompare.
-- The inline waiting of the governor and the label of a role have fuel: one more than the milliseconds
-- that may be waited, and the ten thousand numbers that the source tries.
--
-- The tables of the control plane are lists of rows, and a statement of SQL is the function on rows that
-- it spells. Git is a function of the commands that ran before, of which nothing is assumed.
--
-- Not modelled: how the governor reads a stored value of unknown shape; the schema and the migrations of
-- the database, the transport of the control plane, and its other authorities; the browser's and the
-- page's interfaces; the texts of prompts, errors and reasons.
pub mod Prelude
pub mod Contracts
pub mod Attempts
pub mod Ledger
pub mod Recovery
pub mod Tasks
pub mod Protocol
pub mod TaskGraph
pub mod Messages
pub mod Dispatch
pub mod Content
pub mod Generation
pub mod Bindings
pub mod Roles
pub mod Supervisor
pub mod Control
pub mod Runner
pub mod Samples
