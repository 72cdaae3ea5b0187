-- ===== src/Handler/Deferred/Eviction.antt =====
-- Evictions from the queue of deferred respawns (pkg/handler/task_event_handler_deferred.go), with
-- any operations of other threads in between.
use agent_task_executor.Common.{
  ℕ, ◌≡◌, ◌<◌, ◌+◌, ◌%◌, ◌==◌, not, Option, none, some, List, [], ◌∷◌, arith, if◌then◌else◌,
  Bool-cases, ◌⊎◌, inl, inr,
}
use agent_task_executor.Text.{Text, text_eq}
use agent_task_executor.Text.Laws.{eq_of_text_eq}
use agent_task_executor.Handler.Maps.{lookup-put}
use agent_task_executor.Handler.Task.{Task, Config}
use agent_task_executor.Handler.Deferred.{
  Queue, DeferredClaim, uint64_count, epoch_of, pin, remove_deferred_entry,
  clear_queued_at_stamp_if_not_deferred, record_queued_at_stamp, claim_invalidated,
  store_grace_window_deferral, park_at_cap, collect_due,
}

-- A critical section of any thread.
pub data Op : Type 0 where
  removes clears : Text → Op
  stamps : Text → Text → Op
  defers : Task → Option Config → ℕ → Option DeferredClaim → Op
  parks : Task → Config → ℕ → Option DeferredClaim → Op
  collects : ℕ → Op

unfoldable pub step : Op → Queue → Queue
step (removes id) q = remove_deferred_entry id q
step (clears id) q = clear_queued_at_stamp_if_not_deferred id q
step (stamps id value) q = record_queued_at_stamp id value q
step (defers task config retry claim) q = store_grace_window_deferral task config retry claim q
step (parks task config retry claim) q = park_at_cap task config retry claim q
step (collects now) q = (collect_due now q).1

unfoldable pub run : List Op → Queue → Queue
run [] q = q
run (op ∷ ops) q = run ops (step op q)

-- How often the operations remove the entry of a task.
unfoldable pub removals : Text → List Op → ℕ
removals id [] = 0
removals id (removes j ∷ ops) = (if text_eq j id then 1 else 0) + removals id ops
removals id (op ∷ ops) = removals id ops

epoch-removes :
    (id j : Text) (q : Queue)
    → epoch_of id (remove_deferred_entry j q)
      ≡ (if text_eq j id then (epoch_of id q + 1) % uint64_count else epoch_of id q)
unfolding remove_deferred_entry
epoch-removes id j q =
    ground (arith, eq_of_text_eq j id, lookup-put id j ((epoch_of j q + 1) % uint64_count) q.epochs)

epoch-step :
    (id : Text) (op : Op) (q : Queue)
    → epoch_of id q < uint64_count
    → epoch_of id (step op q) ≡ (epoch_of id q + removals id (op ∷ [])) % uint64_count
unfolding step removals clear_queued_at_stamp_if_not_deferred record_queued_at_stamp
    store_grace_window_deferral park_at_cap collect_due
epoch-step id (removes j) q h = ground (arith, epoch-removes id j q)
epoch-step id (clears j) q h = ground arith
epoch-step id (stamps j value) q h = ground arith
epoch-step id (defers task none retry claim) q h = ground arith
epoch-step id (defers task (some config) retry claim) q h = ground arith
epoch-step id (parks task config retry none) q h = ground arith
epoch-step id (parks task config retry (some c)) q h = ground arith
epoch-step id (collects now) q h = ground arith

removals-cons :
    (id : Text) (op : Op) (ops : List Op)
    → removals id (op ∷ ops) ≡ removals id (op ∷ []) + removals id ops
unfolding removals
removals-cons id (removes j) ops = ground arith
removals-cons id (clears j) ops = omega arith
removals-cons id (stamps j value) ops = omega arith
removals-cons id (defers task config retry claim) ops = omega arith
removals-cons id (parks task config retry claim) ops = omega arith
removals-cons id (collects now) ops = omega arith

epoch-run :
    (id : Text) (ops : List Op) (q : Queue)
    → epoch_of id q < uint64_count
    → epoch_of id (run ops q) ≡ (epoch_of id q + removals id ops) % uint64_count
unfolding run removals
epoch-run id [] q h = omega arith
epoch-run id (op ∷ ops) q h =
    let one : epoch_of id (step op q) ≡ (epoch_of id q + removals id (op ∷ [])) % uint64_count =
      epoch-step id op q h in
    let small : epoch_of id (step op q) < uint64_count = omega arith in
    let rest : epoch_of id (run ops (step op q))
        ≡ (epoch_of id (step op q) + removals id ops) % uint64_count =
      epoch-run id ops (step op q) small in
    omega (arith, removals-cons id op ops)

-- A claim that is pinned is invalid after any operations in which its task is removed at least
-- once and fewer than 2^64 times, and valid after operations without a removal. While it is
-- invalid, neither kind of deferral with that claim changes the queue.
pub evicted_claim_parks_nothing :
    (id : Text) (ops : List Op) (q : Queue) (task : Task) (config : Config) (retry_after : ℕ)
    → epoch_of id q < uint64_count
    → removals id ops < uint64_count
    → let q' = run ops q in
      let claim = some (pin id q) in
      (claim_invalidated claim q' ≡ not (removals id ops == 0))
      × ((removals id ops ≡ 0)
          ⊎ ((store_grace_window_deferral task (some config) retry_after claim q' ≡ q')
              × (park_at_cap task config retry_after claim q' ≡ q')))
unfolding claim_invalidated store_grace_window_deferral park_at_cap
evicted_claim_parks_nothing id ops q task config retry_after h r =
    let e : epoch_of id (run ops q) ≡ (epoch_of id q + removals id ops) % uint64_count =
      epoch-run id ops q h in
    let invalid : claim_invalidated (some (pin id q)) (run ops q) ≡ not (removals id ops == 0) =
      ground (arith, e) in
    (
      invalid,
      elim (Bool-cases (removals id ops == 0)) [
        | inl z ↦ inl (ground (arith, z))
        | inr z ↦ inr (ground (arith, z, invalid), ground (arith, z, invalid))
      ],
    )
