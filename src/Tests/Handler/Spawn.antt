-- ===== src/Tests/Handler/Spawn.antt =====
-- Which tasks are spawned (pkg/handler, pkg/config_resolver.go) at concrete inputs.
use mathlib.Core.List.{Permᴰ}
use agent_task_executor.Common.{◌≡◌, ◌+◌, refl, ◌↔◌, inl, true, none, some, [], ◌∷◌, ok}
use agent_task_executor.Text.{codes}
use agent_task_executor.Handler.Int.{ℤ}
use agent_task_executor.Handler.Maps.{lookup}
use agent_task_executor.Handler.Task.{Task}
use agent_task_executor.Handler.Resolver.{resolve_by_task_type}
use agent_task_executor.Handler.Resolver.Order.{resolve_by_task_type-Perm}
use agent_task_executor.Handler.Resolver.Choice.{IsResult, resolve_by_task_type-IsResult}
use agent_task_executor.Handler.Filter.{config_of, resolve_config_for_reconcile}
use agent_task_executor.Handler.Filter.Gates.{parse_and_filter, reconcile_task}
use agent_task_executor.Handler.Filter.Eligible.{accepted, Suits}
use agent_task_executor.Handler.Filter.Agreement.{
  parse_and_filter-reconcile_task, reconcile_task-Suits,
}
use agent_task_executor.Handler.Capacity.{
  Readings, admission, defer_if_at_concurrency_cap, resolve_job_namespace,
}
use agent_task_executor.Handler.Capacity.Admission.{IsWithin, admission-IsWithin}
use agent_task_executor.Handler.Capacity.Stamped.{
  IsStampedParked, defer_if_at_concurrency_cap-IsStampedParked,
}
use agent_task_executor.Handler.Trigger.{TriggerWrite, increments, sets_scope}
use agent_task_executor.Handler.Trigger.Budget.{spawns, budget, min, spawns-min}
use agent_task_executor.Tests.Handler.{
  domain, review, bot, other_bot, executor, listing, no_queue, fresh_state,
}

resolve_by_task_type-Perm_example :
    resolve_by_task_type (codes "dev") (codes "v") (codes "review") [] (ok (bot ∷ (other_bot ∷ [])))
    ≡ resolve_by_task_type
        (codes "dev")
        (codes "v")
        (codes "review")
        []
        (ok (other_bot ∷ (bot ∷ [])))
resolve_by_task_type-Perm_example =
    resolve_by_task_type-Perm (codes "dev") (codes "v") (codes "review") [] (bot ∷ (other_bot ∷ []))
      (other_bot ∷ (bot ∷ [])) (Permᴰ.swap refl refl)

resolve_by_task_type-IsResult_example :
    IsResult (codes "dev") (codes "review") (bot ∷ (other_bot ∷ [])) (
      resolve_by_task_type
        (codes "dev")
        (codes "v")
        (codes "review")
        []
        (ok (bot ∷ (other_bot ∷ []))))
resolve_by_task_type-IsResult_example =
    resolve_by_task_type-IsResult (codes "dev") (codes "v") (codes "review") []
      (bot ∷ (other_bot ∷ []))

parse_and_filter-reconcile_task_example :
    accepted (parse_and_filter domain executor listing none (ok review) fresh_state).0
    ≡ accepted (reconcile_task domain executor listing none review fresh_state).0
parse_and_filter-reconcile_task_example =
    parse_and_filter-reconcile_task domain executor listing none review fresh_state fresh_state refl

reconcile_task-Suits_example :
    (accepted (reconcile_task domain executor listing none review fresh_state).0
      ≡ some (review, some bot))
    ↔ ((resolve_config_for_reconcile executor listing review ≡ ok (config_of bot))
        × Suits domain executor review (some bot))
reconcile_task-Suits_example =
    reconcile_task-Suits domain executor listing none review bot fresh_state

abbrev pub readings : Readings
readings = record {
  executor_namespace = codes "executor";
  has_limiter = true;
  pod_quota = ok (ℤ.pos 5, true);
  running = ok 1;
  view_queued_at = [];
  now_text = codes "2026-01-01T00:00:00Z";
  retry_after = 60;
}

admission-IsWithin_example : (admission readings (some bot) ≡ ok true) ↔ IsWithin readings bot 1
unfolding resolve_job_namespace
admission-IsWithin_example = admission-IsWithin readings bot (codes "executor") 1 refl refl

defer_if_at_concurrency_cap-IsStampedParked_example :
    IsStampedParked
      (codes "t1")
      (defer_if_at_concurrency_cap readings (λ q. q) review (some bot) none no_queue).1
unfolding lookup
defer_if_at_concurrency_cap-IsStampedParked_example =
    defer_if_at_concurrency_cap-IsStampedParked readings (λ q. q) review (some bot) none no_queue
      (inl refl)

abbrev apply_write : TriggerWrite → Task → Task
apply_write increments task = record task { trigger_count = task.trigger_count + 1 }
apply_write (sets_scope scope count) task = record task {
  trigger_scope = some scope;
  trigger_count = count;
}

spawns-min_example : spawns apply_write 9 review ≡ min 9 (budget review)
spawns-min_example = spawns-min apply_write 9 review (λ task. refl, λ task scope count. refl) refl
