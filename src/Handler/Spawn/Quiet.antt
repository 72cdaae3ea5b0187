-- ===== src/Handler/Spawn/Quiet.antt =====
-- The guards that let a spawn go on publish nothing (suppressOrPark in pkg/handler/park_succeeded.go,
-- suppressForActiveCurrentJob in pkg/handler/job_lookup_denied.go).
use agent_task_executor.Common.{
  ℕ, ◌≡◌, refl, arith, Bool, true, false, Option, none, some, if◌then◌else◌,
}
use agent_task_executor.Text.{Text}
use agent_task_executor.Handler.Task.{Task, Config}
use agent_task_executor.Handler.Deferred.{DeferredClaim}
use agent_task_executor.Handler.Filter.{HandlerState}
use agent_task_executor.Handler.Redrive.{task_phase_string}
use agent_task_executor.Handler.TaskStore.{TaskStore, SucceededJob}
use agent_task_executor.Handler.Success.{
  Reads, Parked, passes, last_success, park_success, park_succeeded_without_phase_move,
  recently_succeeded, recurring_token, suppress_or_park,
}
use agent_task_executor.Handler.CurrentJob.{
  JobReads, check_active_current_job, job_provably_finished, suppress_for_active_current_job,
}
use agent_task_executor.Handler.Spawn.{parked_state}

-- A pass that lets the spawn go on publishes no park.
abbrev pub IsQuiet : Parked → Type 0
IsQuiet p = p.suppresses ≡ false → p.publishes ≡ false

park_success-IsQuiet :
    (id : Text) (now : ℕ) (e : Option Text) (job : SucceededJob) (t : TaskStore)
    → IsQuiet (park_success id now e job t)
unfolding park_success
park_success-IsQuiet id now e job t f = ground (arith, f)

after_success-IsQuiet :
    (id : Text) (now : ℕ) (e : Option Text) (x : Option SucceededJob × TaskStore)
    → IsQuiet
        (elim x.0 as (λ _. Parked) [ none ↦ passes x.1 | some job ↦ park_success id now e job x.1 ])
after_success-IsQuiet id now e (none, t) f = refl
after_success-IsQuiet id now e (some job, t) f = park_success-IsQuiet id now e job t f

park_succeeded-IsQuiet :
    (r : Reads) (view : Option (Option Task)) (e : Option Text) (task : Task) (t : TaskStore)
    → IsQuiet (park_succeeded_without_phase_move r view e task t)
unfolding park_succeeded_without_phase_move
park_succeeded-IsQuiet r none e task t = λ f. refl
park_succeeded-IsQuiet r (some none) e task t = λ f. refl
park_succeeded-IsQuiet r (some (some current)) e task t =
    let phase = task_phase_string current in
    after_success-IsQuiet task.id r.now e (last_success current phase (r.shared phase) t)

guarded-IsQuiet :
    (x : Bool × TaskStore) (cadence : Option (Text × ℕ)) (p : TaskStore → Parked)
    → ((t : TaskStore) → IsQuiet (p t))
    → IsQuiet (
        if x.0
        then record { suppresses = true; publishes = false; task_store = x.1 }
        else (elim cadence as (λ _. Parked) [ some c ↦ passes x.1 | none ↦ p x.1 ]))
guarded-IsQuiet (true, t) cadence p q f = refl
guarded-IsQuiet (false, t) (some c) p q f = refl
guarded-IsQuiet (false, t) none p q f = q t f

pub suppress_or_park-IsQuiet :
    (normalise : Text → Text) (a b : Reads) (view : Option (Option Task)) (e : Option Text)
    (task : Task) (t : TaskStore)
    → IsQuiet (suppress_or_park normalise a b view e task t)
unfolding suppress_or_park
suppress_or_park-IsQuiet normalise a b view e task t =
    guarded-IsQuiet (recently_succeeded normalise a task t) (recurring_token normalise task)
      (park_succeeded_without_phase_move b view e task) (park_succeeded-IsQuiet b view e task)

pub parked_state-calls :
    (task : Task) (p : Parked) (s : HandlerState)
    → p.publishes ≡ false
    → (parked_state task p s).calls ≡ s.calls
parked_state-calls task p s e = ground (arith, e)

-- The guard on the Job that the task names publishes nothing.
pub suppress_for_active_current_job-calls :
    (r : JobReads) (task : Task) (config : Option Config) (claim : Option DeferredClaim)
    (s : HandlerState)
    → (suppress_for_active_current_job r task config claim s).1.calls ≡ s.calls
unfolding suppress_for_active_current_job check_active_current_job job_provably_finished
suppress_for_active_current_job-calls r task config claim s = ground arith
