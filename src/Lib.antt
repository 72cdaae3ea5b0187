-- ===== src/Lib.antt =====
-- The verification library of the task executor, a Go service that starts a Kubernetes Job for a
-- task and uses a claim, which is a lease on a server, to let one cluster at a time run it.
--
-- Parts. A claim has a key (pkg/claim/key.go), derived from the task, which names the object that
-- is locked: a task, a repository or a pull request. The typed address of that object is a claim
-- target (pkg/claim/vault_api_client.go). The lease manager (pkg/claim/lease_manager.go) keeps the
-- claims this cluster holds, and creates, takes over and releases them by calls to the claim
-- client; its loop (pkg/claim/lease_manager_tick.go) renews them, and drops a claim near the end of
-- its lease after it has stopped the Job. The event handler and the Job watcher of pkg/ are the
-- callers. The event handler (pkg/handler) decides which task gets a Job: a task comes as an event
-- or in a reconcile pass, passes the gates, with the configuration that the resolver
-- (pkg/config_resolver.go) picks, and then the caps on redrives, on concurrent Jobs and on
-- triggers; a task that has to wait is parked in the queue of deferred respawns.
--
-- Files.
--   Common, Text          shared names, results, and texts as lists of Unicode code points
--   Claim/Target          ClaimTarget: NewTaskClaim, NewRepoClaim, NewPRClaim, path, renewPath
--   Claim/Key             DeriveClaimKey, DeriveClaimKeysWithBody, TargetFromKey, KeyFor, the number
--                         of a pull request in a body; Key/* are its theorems
--   Claim/Client          Claim and the errors of the claim client
--   Claim/Lease           the lease manager's fields, the monad of its operations, its calls
--   Claim/Lease/Store     heldClaim and the map of held claims
--   Claim/Lease/Clock     constants, fenceAt, fenceDue, renewDue, takeoverAllowed, requestDeadline
--   Claim/Lease/Create    claimPairLocked, createPrimary, storeClaim
--   Claim/Lease/Takeover  TakeoverPair, takeoverRefusal, acquireForTakeover, finishTakeoverPair
--   Claim/Lease/Release   Release, ReleaseAfterSuccess, releaseLocked, retryPendingReleases,
--                         releaseExpiredHolds
--   Claim/Lease/Fence     evaluateFence, fenceClaim, retryPendingDeletions, claimLost
--   Claim/Lease/Renew     renewDueClaims, renewClaim, renewReadBack
--   Claim/Lease/Tick      Tick, releaseJoblessClaims, recheckRunning
--   Claim/Lease/Recover   Recover and its helpers; Recovery, Adoption and Accounting are its
--                         theorems
--   Claim/Lease/View      HeldClaims, AuditMismatch (pkg/claim/audit.go); Audit is its theorem
--   Claim/Api             the claim client: Acquire, Renew, Release, Read, List, doPath, heldError,
--                         claimFromResponse; Answers are its theorems
--   Claim/Lease/Safety    claims and running Jobs: a relation between the state before, the trace and
--                         the state after, with a file for each group of operations
--   Claim/Lease/Fenced, Hold, Exclusion, Leak, Grant
--                         further theorems about the lease manager; Deletes has lemmas on traces
--   Handler/Task          the data: lib.Task, AgentConfiguration, the sets of phases, statuses and types
--   Handler/Int, Maps     integers below zero, maps from identifiers
--   Handler/TaskStore     pkg/task_store.go; Marks is its theorem
--   Handler/Resolver      pkg/config_resolver.go; Order and Choice are its theorems
--   Handler/Filter        the state of the handler, cleanupTerminalTask, resolveConfig,
--                         resolveConfigForReconcile; Gates has parseAndFilter and reconcileTask;
--                         Eligible and Agreement are the theorems
--   Handler/Deferred      the queue of deferred respawns; Eviction is its theorem
--   Handler/Redrive       task_event_handler_redrive.go; Classes and Bound are its theorems
--   Handler/Capacity      deferIfAtConcurrencyCap, effectiveConcurrencyCap, stampQueueEntry; Admission
--                         and Stamped are its theorems
--   Handler/Trigger       triggerScope, checkTriggerBudget, recordTriggerSpawn; Budget is its theorem
--   Handler/Success       recent_success.go and park_succeeded.go; Once is its theorem
--   Handler/CurrentJob    the guard on current_job, with the claim probe; Proceeds is its theorem
--   Handler/Spawn         the gates of spawnIfNeededClaimed, up to the claim; Passed is its theorem,
--                         Gates and Quiet have its lemmas
--   Handler/Acquire       acquireSpawnClaim in pkg/handler/claim_wiring.go; Allowed is its theorem
--   Tests                 the theorems at concrete inputs
--
-- Model. The manager's mutex makes each operation one step, a function of the state; the state is
-- the held claims and a world. The answers of the clock, of the claim client, of the Job control
-- and of the context are functions of that world, with no assumption about them, so each call may
-- get any answer, and a different one each time. An operation returns its value, the trace of its
-- calls with their answers and of the counts in `executor_claim_total`, and the new state. The map
-- `held` is the list of its values, which carry their own key; a write through a pointer to a value
-- is `update`. A helper named after a part of a Go function (`primary_read`, `second_created`) is
-- the rest of that function after one of its calls.
-- Instants are nanoseconds from a time 400 days before Go's zero time, so that the subtractions of
-- a minute or five from an instant that RFC 3339 can write never fall below 0; Go's zero time is
-- `zero_time`. The fuel of `itoa` is 10, which is enough for the at most ten digits it prints.
-- The case mappings beyond ASCII are a parameter, the record `Unicode`.
-- HTTP, JSON and the parser of instants are a parameter of the client, the record `Transport`.
-- The handler's maps are lists of pairs. Each critical section of `deferredMu` is one step, and other
-- threads act between two of them: as a list of steps in Handler/Deferred/Eviction, as any function
-- of the queue in Handler/Capacity. The epoch of a task is a 64-bit counter that wraps around. The
-- accessors of the agent library's Task are the fields of `Task`, the phases and statuses of the
-- domain library the parameter `Domain`; what Kubernetes, the publishers and the shared stores
-- answer is a parameter of the operation that asks. In Handler/Success instants are nanoseconds
-- from Go's zero time. A trigger count is a number from 0 on.
-- Not modelled: log lines and metrics, the loop `Run`, the start-up attempts of RecoverAtStartup, the
-- stores of redrives and successes behind their answers, and of pkg/handler the Job that
-- follows the gates and the claim of a spawn, the releases of that claim, the evaluation of
-- collected deferrals, the caches and the reconcile loop; pkg/spawner, the Job watcher and the result publisher. They follow, since they
-- call what is modelled. The text of a cancelled context or of an error is left out throughout.
pub mod Common
pub mod Text
pub mod Claim
pub mod Handler
pub mod Tests
