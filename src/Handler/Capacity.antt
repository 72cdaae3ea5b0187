-- ===== src/Handler/Capacity.antt =====
-- The admission of a Job by the number of Jobs that run (pkg/handler/concurrency_capacity.go and
-- concurrency_admission.go, stampQueueEntry in task_event_handler.go, pkg/job_namespace.go). What
-- the pod quota, the Kubernetes API, the task view and the clock answer is given by `Readings`.
pub mod Admission
pub mod Stamped
use agent_task_executor.Common.{
  ℕ, zero, suc, Bool, true, false, not, ◌&&◌, ◌||◌, Option, none, some, List, [], ◌∷◌,
  if◌then◌else◌, ltb, leb, ◌==◌, Result, ok, err,
}
use agent_task_executor.Text.{Text, is_empty, text_eq}
use agent_task_executor.Handler.Int.{ℤ, is_positive, max_zero}
use agent_task_executor.Handler.Maps.{has}
use agent_task_executor.Handler.Task.{Task, Config}
use agent_task_executor.Handler.Deferred.{
  Queue, DeferredClaim, claim_invalidated, park_at_cap, clear_queued_at_stamp_if_not_deferred,
  record_queued_at_stamp, queued_at_stamp,
}

-- `effectiveConcurrencyCap`: the bound, and whether a quota bounds it.
unfoldable pub effective_concurrency_cap : ℤ → ℤ → Bool → ℕ × Bool
effective_concurrency_cap max_concurrent_jobs pod_quota quota_bounded =
    if not quota_bounded
    then (max_zero max_concurrent_jobs, false)
    else if not (is_positive max_concurrent_jobs)
    then (max_zero pod_quota, true)
    else if ltb (max_zero pod_quota) (max_zero max_concurrent_jobs)
    then (max_zero pod_quota, true)
    else (max_zero max_concurrent_jobs, true)

pub data QuotaBound : Type 0 where
  quota_unbounded quota_bounded quota_read_failed : QuotaBound

unfoldable pub bounds : QuotaBound → Bool
bounds quota_unbounded = false
bounds quota_bounded = true
bounds quota_read_failed = false

-- `ResolveJobNamespace`.
unfoldable pub resolve_job_namespace : Text → Text → Result Text Text
resolve_job_namespace executor_namespace job_namespace =
    if is_empty job_namespace
    then ok executor_namespace
    else if text_eq job_namespace executor_namespace
    then err job_namespace
    else ok job_namespace

-- What others answer while a Job is admitted. There may be no pod quota limiter.
pub record Readings : Type 0 where
  pub executor_namespace : Text
  pub has_limiter : Bool
  pub pod_quota : Result Text (ℤ × Bool)
  pub running : Result Text ℕ
  pub view_queued_at : Text
  pub now_text : Text
  pub retry_after : ℕ

unfoldable pub pod_quota_for : Readings → Config → ℤ × QuotaBound
pod_quota_for r config =
    if not r.has_limiter || is_empty config.priority_class
    then (ℤ.pos 0, quota_unbounded)
    else elim r.pod_quota [
      | err e ↦ (ℤ.pos 0, quota_read_failed)
      | ok (quota, bounded) ↦
          (ℤ.pos (max_zero quota), if bounded then quota_bounded else quota_unbounded)
    ]

-- The capacity of `deferIfAtConcurrencyCap`: `none` where nothing bounds it.
unfoldable pub capacity_for : Readings → Config → Option ℕ
unfolding effective_concurrency_cap pod_quota_for bounds
capacity_for r config =
    let (quota, state) = pod_quota_for r config in
    let (capacity, bounded) =
      effective_concurrency_cap config.max_concurrent_jobs quota (bounds state) in
    if leb capacity 0 && not bounded then none else some capacity

-- Up to the first critical section: whether the Job is admitted.
unfoldable pub admission : Readings → Option Config → Result Text Bool
unfolding capacity_for resolve_job_namespace
admission r none = ok true
admission r (some config) =
    if not r.has_limiter && not (is_positive config.max_concurrent_jobs)
    then ok true
    else elim (resolve_job_namespace r.executor_namespace config.job_namespace) [
      | err e ↦ err e
      | ok namespace ↦ elim (capacity_for r config) [
        | none ↦ ok true
        | some capacity ↦ elim r.running [ err e ↦ err e | ok running ↦ ok (ltb running capacity) ]
      ]
    ]

abbrev pub with_queued_at : Task → Text → Task
with_queued_at task v = record task { queued_at = some v }

abbrev pub queued_at_of : Task → Text
queued_at_of task = elim task.queued_at [ none ↦ [] | some v ↦ v ]

-- `stampQueueEntry`: the task with its stamp, and the queue.
unfoldable pub stamp_queue_entry : Readings → Task → Queue → Task × Queue
unfolding queued_at_stamp record_queued_at_stamp
stamp_queue_entry r task q =
    if not (is_empty (queued_at_of task))
    then (task, q)
    else if not (is_empty r.view_queued_at)
    then (with_queued_at task r.view_queued_at, q)
    else if not (is_empty (queued_at_stamp task.id q))
    then (with_queued_at task (queued_at_stamp task.id q), q)
    else (with_queued_at task r.now_text, record_queued_at_stamp task.id r.now_text q)

-- Whether the last critical section leaves the queue to others.
abbrev pub parks_nothing : Text → Option DeferredClaim → Queue → Bool
unfolding claim_invalidated
parks_nothing id claim q =
    claim_invalidated claim q || (elim claim [ none ↦ false | some c ↦ has id q.respawns ])

-- From the first critical section on; `others` is what other threads do to the queue between the
-- stamp and the last critical section.
unfoldable pub defer_at_cap :
    Readings → (Queue → Queue) → Task → Config → Option DeferredClaim → Queue → Queue
unfolding claim_invalidated stamp_queue_entry park_at_cap clear_queued_at_stamp_if_not_deferred
    parks_nothing
defer_at_cap r others task config claim q =
    let (stamped, q1) = stamp_queue_entry r task q in
    if claim_invalidated claim q
    then q
    else if parks_nothing task.id claim (others q1)
    then clear_queued_at_stamp_if_not_deferred task.id (others q1)
    else park_at_cap stamped config r.retry_after claim (others q1)

-- `deferIfAtConcurrencyCap`: whether the spawn is off, and the queue.
unfoldable pub defer_if_at_concurrency_cap :
    Readings
    → (Queue → Queue)
    → Task
    → Option Config
    → Option DeferredClaim
    → Queue
    → Result Text Bool × Queue
unfolding admission defer_at_cap
defer_if_at_concurrency_cap r others task none claim q = (ok false, q)
defer_if_at_concurrency_cap r others task (some config) claim q = elim (admission r (some config)) [
  | err e ↦ (err e, q)
  | ok true ↦ (ok false, q)
  | ok false ↦ (ok true, defer_at_cap r others task config claim q)
]
