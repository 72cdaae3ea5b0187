-- ===== src/Handler/Spawn/Passed.antt =====
-- What holds when all the gates of a spawn let it go on (spawnIfNeededClaimed in
-- pkg/handler/task_event_handler.go).
use agent_task_executor.Common.{◌≡◌, ◌⊎◌, Bool, true, false, Option, none, some, Result, ok, err}
use agent_task_executor.Text.{Text, is_empty}
use agent_task_executor.Handler.Task.{Task, Config}
use agent_task_executor.Handler.Deferred.{DeferredClaim, claim_invalidated}
use agent_task_executor.Handler.Filter.{HandlerState, stored_current_job}
use agent_task_executor.Handler.Redrive.{allowed, redrive_streak_capped}
use agent_task_executor.Handler.Capacity.{admission}
use agent_task_executor.Handler.Trigger.{check_trigger_budget}
use agent_task_executor.Handler.CurrentJob.{
  LookupError, denied, other_error, Finished, within_respawn_grace_window,
}
use agent_task_executor.Handler.CurrentJob.Proceeds.{IsOver}
use agent_task_executor.Handler.Spawn.{
  SpawnReads, fatal, Gated, stops, suppress, park_of, success_gate, active_gate,
}

-- What the redrive cap, the concurrency cap and the last checks ask for, and that nothing was
-- published on the way.
abbrev pub Passed :
    SpawnReads → Task → Config → Option DeferredClaim → HandlerState → HandlerState → Type 0
Passed r task config claim s final =
    (redrive_streak_capped task r.redrive_now r.stored_count r.stored_reasons final.streaks
      ≡ allowed)
    × (admission r.capacity (some config) ≡ ok true)
    × (check_trigger_budget task ≡ false)
    × (claim_invalidated claim final.queue ≡ false)
    × (r.index_terminal ≡ false)
    × (final.calls ≡ s.calls)

-- What the guard on the Job that the task names asks for.
abbrev pub JobPassed : SpawnReads → Task → HandlerState → Type 0
JobPassed r task s =
    (is_empty task.current_job ≡ true)
    ⊎ ((r.job.is_active ≡ ok false)
        × (within_respawn_grace_window r.job task ≡ none)
        × IsOver r.job task.current_job (stored_current_job task s))

module _ (normalise : Text → Text) where
  -- The task has no recent success at its phase, and it is not parked.
  abbrev pub Unparked : SpawnReads → Task → HandlerState → Type 0
  Unparked r task s = (park_of normalise r task s).suppresses ≡ false

  after_active :
      SpawnReads
      → Task
      → Config
      → Option DeferredClaim
      → HandlerState
      → Result LookupError Bool
      → Gated × HandlerState
  after_active r task config claim s a = elim a [
    | err (denied e) ↦ suppress s
    | err (other_error e) ↦ (stops (err (fatal e)), s)
    | ok true ↦ suppress s
    | ok false ↦ success_gate normalise r task config claim s
  ]

  after_job : SpawnReads → Task → Config → Option DeferredClaim → Finished → Gated × HandlerState
  after_job r task config claim x = elim x.0 [
    | err (denied e) ↦ (stops (err (fatal e)), x.1)
    | err (other_error e) ↦ (stops (err (fatal e)), x.1)
    | ok true ↦ suppress x.1
    | ok false ↦ active_gate normalise r task config claim x.1
  ]
