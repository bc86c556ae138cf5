-- ===== src/Lib.antt =====
-- The core of codemachine-pipeline: the planner that orders tasks, the task queue, the execution
-- engine that works through it, and the parts around them that keep state: the run directory's lock,
-- approvals, resuming, validation commands, write actions, rate limits, deployment.
--
-- The program drives a feature from a specification to merged code. The planner draws the dependencies
-- between the tasks of a specification, orders them, and checks the plan for cycles. The plan becomes
-- tasks of a queue that is kept in a run directory: a write-ahead log of operations, a file with the
-- last sequence number, and a snapshot. A process holds an index of the queue in memory. It changes
-- the queue by an append to the log followed by the same change of the index, compacts the log into a
-- snapshot when it grows, and rebuilds the index from snapshot and log when it starts. The execution
-- engine asks the queue which tasks are ready, and runs them in a bounded pool of workers. Before it
-- does, the resume coordinator decides whether a run can go on. Gates of the run wait for approvals;
-- what is to be written to GitHub waits in a queue of its own, which a drain works through unless the
-- ledger of rate limits asks for a pause. Commands that validate the work are tried, fixed and tried
-- again within limits that a ledger of attempts counts. In the end a deployment merges the pull
-- request, or asks GitHub to do so, if nothing blocks it. The queue, the approvals and the writes
-- change the run directory under one lock.
--
--   Prelude            names of the libraries, Boolean tests, lists, maps in insertion order, integers
--   Queue/Types        core/models/ExecutionTask.ts (types, canRetry, areDependenciesCompleted) and
--                      workflows/queue/queueTypes.ts; both paths stand below src/ of the repository
--   Queue/Index        workflows/queue/queueMemoryIndex.ts: applyOperation, updateTask, addTask,
--                      removeTask, counts, readiness
--   Queue/Log          workflows/queue/queueOperationsLog.ts: appendOperation, appendOperationsBatch,
--                      readOperationsWithStats, truncation, statistics; Queue/Values has its guards
--   Queue/Snapshot     workflows/queue/queueSnapshotManager.ts, and hydrateIndex
--   Queue/Compaction   workflows/queue/queueCompactionEngine.ts
--   Queue/Store        workflows/queue/queueCache.ts, queueTaskManager.ts, queueStore.ts, queueV2Api.ts;
--                      Queue/Choice has getNextTask and buildDependencyGraph
--   Queue/Integrity    workflows/queue/queueIntegrity.ts: verifyQueueIntegrity in both modes
--   Engine/Ready       workflows/executionDependencyResolver.ts
--   Engine/Task        workflows/cliExecutionEngine.ts (executeTask with its handlers, runTask,
--                      recordTaskOutcome); Engine/TaskId has validateTaskId of
--                      workflows/executionArtifactCapture.ts
--   Engine/Pool        workflows/cliExecutionEngine.ts (execute, fillTaskBatch)
--   Lock               persistence/lockManager.ts: acquireLock, releaseLock, isLocked; ProcessStatus of
--                      utils/processExists.ts
--   RateLimits         telemetry/rateLimitLedger.ts and workflows/writeActionRateLimiter.ts
--   WriteActions       workflows/writeActionStore.ts and writeActionQueue.ts (enqueue, updates, clearing);
--                      WriteActions/Execute has executeAction and drain
--   Approvals          workflows/approvalRegistry.ts and core/models/ApprovalRecord.ts
--   Resume             workflows/resumeCoordinator.ts; Resume/Types has resumeTypes.ts, Resume/Checks has
--                      runStateVerifier.ts, resumeIntegrityChecker.ts and checkQueueFiles, Resume/Tasks
--                      has getResumableTasks of resumeQueueRecovery.ts
--   Planner            workflows/taskPlannerGraph.ts: computeTopologicalOrder
--   Planner/Dag        core/models/PlanArtifact.ts: validateDAG
--   Planner/Graph      workflows/taskPlannerGraph.ts (buildDependencyGraph, the parallel paths and the
--                      summary) and workflows/plannerDAG.ts (the blockers of a task)
--   Validation         workflows/validationRegistry.ts and validationStore.ts, the configuration of
--                      core/validation/validationCommandConfig.ts; Validation/Retry and Validation/Suite
--                      have workflows/autoFixEngine.ts, one command and all of them
--   Deployment         workflows/deployment/context.ts, types.ts and the choice of a strategy;
--                      Deployment/Strategies has the rest of deployment/execution.ts,
--                      Deployment/Trigger deployment/trigger.ts
-- The modules below these files hold the proofs: Index/Invariant (counts), Index/Replay, Log/Read,
-- Log/Batch, Recovery (a restart after an append), Recovery/Compacted (after a compaction),
-- Recovery/Interrupted (after a stop between two writes), Store/Sync and Store/Enqueue (memory and
-- files agree), Store/Durable (an update is held), Integrity/Sound (what the verification accepts),
-- Compaction/Readiness (what pruning keeps), Ready/Order, Task/Effect (one attempt), Task/Bound (the
-- attempts at a task are bounded), and Engine/Agree (the queue's choice of a task against the
-- engine's). Lock/Exclusion and Lock/Race are about the order of the steps of processes,
-- RateLimits/Window and Cooldown about the ledger. Of the queue of writes, WriteActions/Lines says
-- what is loaded after a save, Counts, Entries, Runs (one execution) and Invariant what every step
-- keeps, Idempotent what a second enqueue does, Progress, Chosen and Finish how drains come to an end.
-- Of the registry, Approvals/Records has the records, Latest, Gates, Append, Asked and Agree the
-- lemmas, Life the specification and Validity the results. Resume/Says, Steps, Decision, Remembers,
-- Again, Tasks/Seen and Tasks/Filters are about resuming, Planner/Termination about the planner's
-- loop, Planner/Order about the order it gives. Of validateDAG, Dag/Visits and Checks have the
-- recursion, Errors, Sound and Acyclic the meaning of what it reports, Valid the results; of the
-- dependency graph, Graph/Edges, Effect, Types, Exact, Closed and Ranks say which dependencies it
-- adds. Pool/Flight, Bounded and Fresh are about the workers, Validation/Attempts, Commands, Calls and
-- Success about attempts, Deployment/Readiness and Trigger/Calls about what is asked of GitHub,
-- Trigger/History about what is written of it. Tests holds sample data and the theorems at them.
--
-- A Map and a Record of the source are association lists in insertion order, a status a data type, a
-- count an integer. The files of a run directory are a record, QueueDir; a function of the source that
-- writes them returns the new record. JSON text and SHA-256 belong to the platform: they are the
-- parameter Platform, with the law that parsing undoes writing. What a strategy's execution gives, and
-- the capture of its artifacts, are arguments of an attempt. Loops over arrays are recursion on lists.
-- The loop of the topological order and the recursion of validateDAG run on fuel: Planner/Termination
-- shows that the number of tasks and dependencies is enough for the one, Dag/Visits that one more than
-- the number of tasks is for the other. The retries of a validation are recursion on the attempts
-- left. The pool of workers is a step relation: workers start, go on and end in any order. What the
-- source runs under the directory's lock is one step, so that two processes never interleave inside
-- one, apart from Lock, where the steps of acquiring and releasing are taken one by one; only the two
-- writes of an append are taken apart, to say what a stop between them leaves. Numbers are not
-- bounded: the source's sequence numbers stay below 2 ^ 53 for any log that fits a disk.
--
-- Not modelled: logging and metrics; the mirror file queue.jsonl and the formats before V2, except
-- that they are refused; path validation; files that cannot be read or parsed outside the task queue,
-- and writes that fail outside the history of deployments; time, which is an argument; the queue of callers within one process of withLock; how the planner
-- makes the ids of its tasks, and its files; the report of branch protection, which is an argument of
-- a deployment; the waits between attempts, and what shell commands do, beyond how they end; cycle
-- coordination, adapters and the command line. What the hash manifest and the validation of the
-- queue's files find is an argument of the resume coordinator.
mod Prelude
pub mod Queue
pub mod Engine
pub mod Lock
pub mod RateLimits
pub mod WriteActions
pub mod Approvals
pub mod Resume
pub mod Planner
pub mod Validation
pub mod Deployment
