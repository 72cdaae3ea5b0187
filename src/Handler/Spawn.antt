-- ===== src/Handler/Spawn.antt =====
-- The funnel of every spawn: its gates (spawnIfNeededClaimed in pkg/handler/task_event_handler.go up
-- to the claim, finalSpawnRefusals, rejectInvalidJobNamespace, triggerBudgetRefusesSpawn). The
-- configuration is there: a task that qualifies by an event has one. What others answer is given
-- by `SpawnReads`; `others_late` is what other threads do to the queue before the last check.
pub mod Gates
pub mod Quiet
pub mod Passed
use agent_task_executor.Common.{
  ℕ, Bool, true, false, not, ◌&&◌, ◌||◌, Option, none, some, List, [], ◌∷◌, if◌then◌else◌, Result,
  ok, err,
}
use agent_task_executor.Text.{Text}
use agent_task_executor.Handler.Task.{Task, Config, accepts}
use agent_task_executor.Handler.Deferred.{Queue, DeferredClaim, claim_invalidated}
use agent_task_executor.Handler.Filter.{
  HandlerState, call, Call, publishes_abort, publishes_park, publishes_refusal,
}
use agent_task_executor.Handler.Redrive.{
  Reading, CapDecision, allowed, refused, redrive_streak_capped,
}
use agent_task_executor.Handler.Capacity.{
  Readings, defer_if_at_concurrency_cap, resolve_job_namespace,
}
use agent_task_executor.Handler.Trigger.{check_trigger_budget, record_trigger_refusal}
use agent_task_executor.Handler.Success.{Reads, Parked, suppress_or_park}
use agent_task_executor.Handler.CurrentJob.{
  JobReads, LookupError, denied, other_error, suppress_for_active_current_job,
}

pub data SpawnOutcome : Type 0 where
  suppressed spawned capped : SpawnOutcome

-- The errors that the callers tell apart.
pub data SpawnError : Type 0 where
  refusal_write_error spawn_job_error fatal : Text → SpawnError

pub record SpawnReads : Type 0 where
  pub accepted_vaults : List Text
  pub job : JobReads
  pub active : Result LookupError Bool
  pub first : Reads
  pub second : Reads
  pub view : Option (Option Task)
  pub park_error : Option Text
  pub redrive_now : ℕ
  pub stored_count : Reading ℕ
  pub stored_reasons : Reading (List Text)
  pub capacity : Readings
  pub is_denied : Text → Bool
  pub others : Queue → Queue
  pub refusal_error : Option Text
  pub others_late : Queue → Queue
  pub index_terminal : Bool

pub data Gated : Type 0 where
  stops : Result SpawnError SpawnOutcome → Gated
  goes : Gated

abbrev pub suppress : HandlerState → Gated × HandlerState
suppress s = (stops (ok suppressed), s)

-- `triggerBudgetRefusesSpawn`, where the budget refuses.
unfoldable pub refuse_trigger : SpawnReads → Task → HandlerState → Gated × HandlerState
unfolding record_trigger_refusal
refuse_trigger r task s = elim (record_trigger_refusal task) [
  | none ↦ suppress s
  | some refusal ↦ elim r.refusal_error [
    | none ↦ suppress (call (publishes_refusal task.id) s)
    | some e ↦ (stops (err (refusal_write_error e)), call (publishes_refusal task.id) s)
  ]
]

-- The trigger budget, and `finalSpawnRefusals`.
unfoldable pub last_gates :
    SpawnReads → Task → Option DeferredClaim → HandlerState → Gated × HandlerState
unfolding refuse_trigger claim_invalidated
last_gates r task claim s =
    let late : HandlerState = record s { queue = r.others_late s.queue } in
    if check_trigger_budget task
    then refuse_trigger r task s
    else if claim_invalidated claim late.queue
    then suppress late
    else if r.index_terminal
    then suppress late
    else (goes, late)

unfoldable pub capacity_gate :
    SpawnReads → Task → Config → Option DeferredClaim → HandlerState → Gated × HandlerState
unfolding last_gates
capacity_gate r task config claim s =
    let (answer, queue) =
      defer_if_at_concurrency_cap r.capacity r.others task (some config) claim s.queue in
    let next : HandlerState = record s { queue = queue } in
    elim answer [
      | err e ↦ if r.is_denied e then suppress next else (stops (err (fatal e)), next)
      | ok true ↦ suppress next
      | ok false ↦ last_gates r task claim next
    ]

unfoldable pub redrive_gate :
    SpawnReads → Task → Config → Option DeferredClaim → HandlerState → Gated × HandlerState
unfolding capacity_gate
redrive_gate r task config claim s =
    elim (redrive_streak_capped task r.redrive_now r.stored_count r.stored_reasons s.streaks) [
      | refused none ↦ (stops (ok capped), s)
      | refused (some abort) ↦ (stops (ok capped), call (publishes_abort task.id) s)
      | allowed ↦ capacity_gate r task config claim s
    ]

abbrev pub parked_state : Task → Parked → HandlerState → HandlerState
parked_state task p s =
    let next : HandlerState = record s { task_store = p.task_store } in
    if p.publishes then call (publishes_park task.id) next else next

module _ (normalise : Text → Text) where
  abbrev pub park_of : SpawnReads → Task → HandlerState → Parked
  park_of r task s =
      suppress_or_park normalise r.first r.second r.view r.park_error task s.task_store

  unfoldable pub success_gate :
      SpawnReads → Task → Config → Option DeferredClaim → HandlerState → Gated × HandlerState
  unfolding redrive_gate
  success_gate r task config claim s =
      let next = parked_state task (park_of r task s) s in
      if (park_of r task s).suppresses then suppress next else redrive_gate r task config claim next

  unfoldable pub active_gate :
      SpawnReads → Task → Config → Option DeferredClaim → HandlerState → Gated × HandlerState
  unfolding success_gate
  active_gate r task config claim s = elim r.active [
    | err (denied e) ↦ suppress s
    | err (other_error e) ↦ (stops (err (fatal e)), s)
    | ok true ↦ suppress s
    | ok false ↦ success_gate r task config claim s
  ]

  unfoldable pub job_gate :
      SpawnReads → Task → Config → Option DeferredClaim → HandlerState → Gated × HandlerState
  unfolding active_gate
  job_gate r task config claim s =
      let (answer, next) = suppress_for_active_current_job r.job task (some config) claim s in
      elim answer [
        | err (denied e) ↦ (stops (err (fatal e)), next)
        | err (other_error e) ↦ (stops (err (fatal e)), next)
        | ok true ↦ suppress next
        | ok false ↦ active_gate r task config claim next
      ]

  unfoldable pub spawn_gates :
      SpawnReads → Task → Config → Option DeferredClaim → HandlerState → Gated × HandlerState
  unfolding job_gate resolve_job_namespace accepts
  spawn_gates r task config claim s =
      if not (accepts r.accepted_vaults task.vault)
      then suppress s
      else elim (resolve_job_namespace r.job.executor_namespace config.job_namespace) [
        | err e ↦ suppress s
        | ok namespace ↦ job_gate r task config claim s
      ]
