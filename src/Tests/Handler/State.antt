-- ===== src/Tests/Handler/State.antt =====
-- The state of the handler (pkg/handler, pkg/task_store.go) at concrete inputs.
use agent_task_executor.Common.{
  ℕ, ◌≡◌, ◌≤◌, refl, arith, ◌⊎◌, inr, true, not, some, List, [], ◌∷◌, ◌==◌, ◌++◌, length,
}
use agent_task_executor.Text.{Text, codes}
use agent_task_executor.Handler.Maps.{lookup}
use agent_task_executor.Handler.TaskStore.{new_task_store, last_succeeded}
use agent_task_executor.Handler.TaskStore.Marks.{Mark, mark_all, IsLatest, mark_all-IsLatest}
use agent_task_executor.Handler.Deferred.{
  pin, claim_invalidated, store_grace_window_deferral, park_at_cap,
}
use agent_task_executor.Handler.Deferred.Eviction.{
  Op, removes, stamps, removals, run, evicted_claim_parks_nothing,
}
use agent_task_executor.Handler.Redrive.{
  absent, failed, stored, effective_count, in_memory_redrive_count, task_phase_string,
  classify_redrive_reasons,
}
use agent_task_executor.Handler.Redrive.Classes.{IsClass, min, classify_redrive_reasons-IsClass}
use agent_task_executor.Handler.Redrive.Bound.{
  Attempt, attempts, spawned, limit, InWindow, spawned-limit,
}
use agent_task_executor.Tests.Handler.{review, bot, no_queue}

abbrev marks : List Mark
marks =
    record { task = codes "t1"; phase = codes "planning"; at = 5 }
    ∷ (record { task = codes "t1"; phase = codes "execution"; at = 3 } ∷ [])

mark_all-IsLatest_example :
    IsLatest (codes "t1") marks (last_succeeded (codes "t1") (mark_all marks new_task_store))
mark_all-IsLatest_example = mark_all-IsLatest (codes "t1") marks

abbrev ops : List Op
ops = stamps (codes "t1") (codes "now") ∷ (removes (codes "t1") ∷ [])

evicted_claim_parks_nothing_example :
    (claim_invalidated (some (pin (codes "t1") no_queue)) (run ops no_queue)
      ≡ not (removals (codes "t1") ops == 0))
    × ((removals (codes "t1") ops ≡ 0)
        ⊎ ((store_grace_window_deferral review
                (some bot)
                7
                (some (pin (codes "t1") no_queue))
                (run ops no_queue)
              ≡ run ops no_queue)
            × (park_at_cap review bot 7 (some (pin (codes "t1") no_queue)) (run ops no_queue)
                ≡ run ops no_queue)))
unfolding removals run lookup
evicted_claim_parks_nothing_example =
    evicted_claim_parks_nothing (codes "t1") ops no_queue review bot 7 (omega arith) (ground arith)

abbrev crashes : List Text
crashes =
    codes "unknown"
    ∷ (codes "pod_oom_killed" ∷ (codes "pod_oom_killed" ∷ (codes "pod_oom_killed" ∷ [])))

classify_redrive_reasons-IsClass_example :
    (older : List Text) × (recent : List Text) × (crashes ≡ older ++ recent)
    × (length recent ≡ min 3 (length crashes))
    × IsClass (classify_redrive_reasons crashes 3) recent
classify_redrive_reasons-IsClass_example = classify_redrive_reasons-IsClass crashes 3

abbrev count_now : ℕ
count_now =
    effective_count (in_memory_redrive_count review.id (task_phase_string review) 9 []) (stored 3)

abbrev attempt : Attempt
attempt = record {
  task = review;
  now = 10;
  spawned_at = 11;
  count = failed;
  reasons = absent;
  starts = true;
}

spawned-limit_example :
    spawned
      (codes "t1")
      (attempts attempt ∷ (attempts attempt ∷ (attempts attempt ∷ (attempts attempt ∷ []))))
      []
    ≤ limit true
unfolding task_phase_string
spawned-limit_example =
    let inside : InWindow true (codes "t1") (codes "execution") 10 (attempts attempt) =
      inr (refl, ground arith, ground arith, ground arith, tt, refl) in
    spawned-limit true (codes "t1") (codes "execution") 10
      (attempts attempt ∷ (attempts attempt ∷ (attempts attempt ∷ (attempts attempt ∷ [])))) []
      (inside, (inside, (inside, (inside, tt))))
