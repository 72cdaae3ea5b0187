-- ===== src/Handler/TaskStore.antt =====
-- pkg/task_store.go: the tasks with a Job, the latest success of each task, and the parks that were
-- published. The mutex makes each operation one step. Instants are nanoseconds.
pub mod Marks
use agent_task_executor.Common.{
  ℕ, Bool, true, false, not, Option, none, some, List, [], ◌∷◌, if◌then◌else◌, ltb, ◌==◌,
}
use agent_task_executor.Text.{Text, text_eq}
use agent_task_executor.Handler.Maps.{Map, lookup, put, erase}
use agent_task_executor.Handler.Task.{Task}

pub record SucceededJob : Type 0 where
  pub phase : Text
  pub completed_at : ℕ

pub record ParkRecord : Type 0 where
  pub completed_at : ℕ
  pub published_at : ℕ

pub record TaskStore : Type 0 where
  pub tasks : Map Task
  pub succeeded : Map SucceededJob
  pub parked : Map ParkRecord

abbrev pub new_task_store : TaskStore
new_task_store = record { tasks = []; succeeded = []; parked = [] }

-- Only a later completion replaces the record.
unfoldable pub mark_succeeded : Text → Text → ℕ → TaskStore → TaskStore
mark_succeeded id phase at s =
    let next : TaskStore = record s {
      succeeded = put id (record { phase = phase; completed_at = at }) s.succeeded;
    } in
    elim (lookup id s.succeeded) [
      | none ↦ next
      | some prev ↦ if not (ltb prev.completed_at at) then s else next
    ]

unfoldable pub last_succeeded : Text → TaskStore → Option SucceededJob
last_succeeded id s = lookup id s.succeeded

unfoldable pub mark_park_published : Text → ℕ → ℕ → TaskStore → TaskStore
mark_park_published id completed_at published_at s = record s {
  parked = put id (record { completed_at = completed_at; published_at = published_at }) s.parked;
}

unfoldable pub park_published_at : Text → ℕ → TaskStore → Option ℕ
park_published_at id completed_at s = elim (lookup id s.parked) [
  | none ↦ none
  | some r ↦ if not (r.completed_at == completed_at) then none else some r.published_at
]

abbrev pub completed_from : ℕ → Map SucceededJob → Map SucceededJob
completed_from cutoff [] = []
completed_from cutoff ((id, job) ∷ m) =
    let rest = completed_from cutoff m in
    if ltb job.completed_at cutoff then rest else (id, job) ∷ rest

unfoldable pub prune_succeeded_before : ℕ → TaskStore → TaskStore
prune_succeeded_before cutoff s = record s { succeeded = completed_from cutoff s.succeeded }

unfoldable pub store : Text → Task → TaskStore → TaskStore
store id task s = record s { tasks = put id task s.tasks }

unfoldable pub load : Text → TaskStore → Option Task
load id s = lookup id s.tasks

unfoldable pub delete_task : Text → TaskStore → TaskStore
delete_task id s = record s { tasks = erase id s.tasks }

unfoldable pub delete_if_current_job : Text → Text → TaskStore → Bool × TaskStore
delete_if_current_job id job_name s = elim (lookup id s.tasks) [
  | none ↦ (false, s)
  | some task ↦
      if not (text_eq task.current_job job_name)
      then (false, s)
      else (true, record s { tasks = erase id s.tasks })
]
