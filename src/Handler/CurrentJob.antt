-- ===== src/Handler/CurrentJob.antt =====
-- The guard on the Job that a task names (pkg/handler/task_event_handler_current_job.go,
-- job_lookup_denied.go, task_event_handler_claim_probe.go, ClaimMode of pkg/claim_mode.go). What
-- the clock, the Kubernetes API and the claim client answer is given by `JobReads`; instants are
-- those of Claim.Lease.Clock. The throttled log line for a denied read is left out.
pub mod Proceeds
use agent_task_executor.Common.{
  ℕ, ◌+◌, ◌-◌, Bool, true, false, not, ◌&&◌, ◌||◌, Option, none, some, List, [], ◌∷◌, if◌then◌else◌,
  ltb, ◌==◌, Result, ok, err,
}
use agent_task_executor.Text.{Text, is_empty, text_eq}
use agent_task_executor.Claim.Client.{Claim, Failure, claim_free}
use agent_task_executor.Claim.Lease.Clock.{takeover_grace}
use agent_task_executor.Handler.Task.{Task, Config}
use agent_task_executor.Handler.TaskStore.{delete_if_current_job}
use agent_task_executor.Handler.Deferred.{DeferredClaim, store_grace_window_deferral}
use agent_task_executor.Handler.Capacity.{resolve_job_namespace}
use agent_task_executor.Handler.Filter.{HandlerState, stored_current_job}
use agent_task_executor.Handler.Success.{default_respawn_grace_period}

pub data ClaimMode : Type 0 where
  claim_mode_off claim_mode_shadow claim_mode_on : ClaimMode

-- A failed lookup: the API refused the identity, or anything else.
pub data LookupError : Type 0 where
  denied other_error : Text → LookupError

-- `deferredRespawnInterval`.
abbrev pub deferred_respawn_interval : ℕ
deferred_respawn_interval = 30_000_000_000

-- `probe_error` is a failure before the read: no client, or no target.
pub record JobReads : Type 0 where
  pub executor_namespace : Text
  pub is_active : Result LookupError Bool
  pub job_exists : Result LookupError Bool
  pub grace_now : ℕ
  pub probe_now : ℕ
  pub defer_now : ℕ
  pub claim_mode : ClaimMode
  pub probe_error : Option Text
  pub current_claim : Result Failure Claim

pub data ClaimProbe : Type 0 where
  claim_probe_unavailable claim_probe_held claim_probe_free claim_probe_failed : ClaimProbe

unfoldable pub probe_of : ℕ → Claim → ClaimProbe
probe_of now current =
    if current.lease_unreadable
    then claim_probe_held
    else if ltb now (current.lease_until + takeover_grace)
    then claim_probe_held
    else claim_probe_free

abbrev pub probe_read : ℕ → Result Failure Claim → ClaimProbe
unfolding probe_of
probe_read now (ok current) = probe_of now current
probe_read now (err claim_free) = claim_probe_free
probe_read now (err _) = claim_probe_failed

-- `claimProbe`: its result, or that it failed.
unfoldable pub claim_probe : JobReads → ClaimProbe
unfolding probe_read
claim_probe r = elim r.claim_mode [
  | claim_mode_off ↦ claim_probe_unavailable
  | claim_mode_shadow ↦ claim_probe_unavailable
  | claim_mode_on ↦ elim r.probe_error [
    | some e ↦ claim_probe_failed
    | none ↦ probe_read r.probe_now r.current_claim
  ]
]

unfoldable pub current_job_finished_without_store_entry : JobReads → Bool
unfolding claim_probe
current_job_finished_without_store_entry r = elim (claim_probe r) [
  | claim_probe_failed ↦ false
  | claim_probe_held ↦ false
  | claim_probe_free ↦ true
  | claim_probe_unavailable ↦ true
]

abbrev pub Finished : Type 0
Finished = Result LookupError Bool × HandlerState

unfoldable pub job_provably_finished : JobReads → Task → Text → HandlerState → Finished
unfolding stored_current_job current_job_finished_without_store_entry
job_provably_finished r task current_job s =
    let stored = stored_current_job task s in
    if is_empty stored
    then (ok (current_job_finished_without_store_entry r), s)
    else if text_eq stored current_job
    then (ok true, s)
    else elim r.job_exists [
      | err e ↦ (err e, s)
      | ok true ↦ (ok false, s)
      | ok false ↦
          (ok true, record s { task_store = (delete_if_current_job task.id stored s.task_store).1 })
    ]

abbrev pub defer_until :
    Task → Option Config → ℕ → Option DeferredClaim → HandlerState → HandlerState
unfolding store_grace_window_deferral
defer_until task config at claim s = record s {
  queue = store_grace_window_deferral task config at claim s.queue;
}

-- `withinRespawnGraceWindow`: the end of the window, inside it.
unfoldable pub within_respawn_grace_window : JobReads → Task → Option ℕ
within_respawn_grace_window r task = elim task.job_started_at [
  | none ↦ none
  | some started_at ↦
      if ltb (r.grace_now - started_at) default_respawn_grace_period
      then some (started_at + default_respawn_grace_period)
      else none
]

abbrev pub namespace_of : Text → Option Config → Result Text Text
unfolding resolve_job_namespace
namespace_of executor_namespace none = ok executor_namespace
namespace_of executor_namespace (some config) =
    resolve_job_namespace executor_namespace config.job_namespace

unfoldable pub check_active_current_job :
    JobReads → Task → Text → Option Config → Option DeferredClaim → HandlerState → Finished
unfolding namespace_of within_respawn_grace_window job_provably_finished defer_until
check_active_current_job r task current_job config claim s =
    elim (namespace_of r.executor_namespace config) [
      | err e ↦ (err (other_error e), s)
      | ok namespace ↦ elim r.is_active [
        | err e ↦ (err e, s)
        | ok true ↦ (ok true, s)
        | ok false ↦ elim (within_respawn_grace_window r task) [
          | some end ↦ (ok true, defer_until task config end claim s)
          | none ↦
              let (finished, s') = job_provably_finished r task current_job s in
              elim finished [
                | err e ↦ (err e, s')
                | ok true ↦ (ok false, s')
                | ok false ↦ (
                  ok true,
                  defer_until task config (r.defer_now + deferred_respawn_interval) claim s',
                )
              ]
        ]
      ]
    ]

-- A denied read suppresses the spawn; any other error is returned.
unfoldable pub suppress_for_active_current_job :
    JobReads → Task → Option Config → Option DeferredClaim → HandlerState → Finished
unfolding check_active_current_job
suppress_for_active_current_job r task config claim s =
    if is_empty task.current_job
    then (ok false, s)
    else elim (check_active_current_job r task task.current_job config claim s).0 [
      | ok b ↦ check_active_current_job r task task.current_job config claim s
      | err (denied e) ↦
          (ok true, (check_active_current_job r task task.current_job config claim s).1)
      | err (other_error e) ↦ check_active_current_job r task task.current_job config claim s
    ]
