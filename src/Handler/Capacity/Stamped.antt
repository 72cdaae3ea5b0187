-- ===== src/Handler/Capacity/Stamped.antt =====
-- Stamps of the queue entry and parked tasks (deferIfAtConcurrencyCap in
-- pkg/handler/concurrency_admission.go).
use agent_task_executor.Common.{
  ℕ, ◌≡◌, refl, ap, subst, ◌∙◌, ◌⊎◌, inl, inr, arith, Bool, true, false, not, Option, none, some,
  Result, ok, err, Bool-cases,
}
use agent_task_executor.Text.{Text, is_empty}
use agent_task_executor.Text.Laws.{text_eq_refl}
use agent_task_executor.Handler.Maps.{Map, has, put, lookup-put, lookup-erase}
use agent_task_executor.Handler.Task.{Task, Config}
use agent_task_executor.Handler.Deferred.{
  queued_at_stamp, Queue, DeferredClaim, claim_invalidated, park_at_cap,
  clear_queued_at_stamp_if_not_deferred,
}
use agent_task_executor.Handler.Capacity.{
  Readings, stamp_queue_entry, parks_nothing, defer_at_cap, defer_if_at_concurrency_cap, admission,
  queued_at_of,
}

-- A task with a stamp is parked.
abbrev pub IsStampedParked : Text → Queue → Type 0
IsStampedParked id q = (has id q.stamps ≡ false) ⊎ (has id q.respawns ≡ true)

clear-IsStampedParked :
    (id : Text) (q : Queue) → IsStampedParked id (clear_queued_at_stamp_if_not_deferred id q)
unfolding clear_queued_at_stamp_if_not_deferred
clear-IsStampedParked id q = elim (Bool-cases (has id q.respawns)) [
  | inl parked ↦ inr (ground (arith, parked))
  | inr gone ↦ inl (ground (arith, gone, lookup-erase id id q.stamps, text_eq_refl id))
]

has-put : {V : Type 0} (id : Text) (v : V) (m : Map V) → has id (put id v m) ≡ true
has-put id v m = ground (arith, lookup-put id id v m, text_eq_refl id)

parks :
    (task : Task) (config : Config) (retry_after : ℕ) (claim : Option DeferredClaim) (q : Queue)
    → parks_nothing task.id claim q ≡ false
    → has task.id (park_at_cap task config retry_after claim q).respawns ≡ true
unfolding park_at_cap parks_nothing
parks task config retry_after none q e = has-put task.id _ q.respawns
parks task config retry_after (some c) q e =
    let valid : claim_invalidated (some c) q ≡ false = ground (arith, e) in
    let gone : has task.id q.respawns ≡ false = ground (arith, e) in
    rw (valid, gone) (has-put task.id _ q.respawns)

stamp_queue_entry-id :
    (r : Readings) (task : Task) (q : Queue) → (stamp_queue_entry r task q).0.id ≡ task.id
unfolding stamp_queue_entry
stamp_queue_entry-id r task q = elim (Bool-cases (not (is_empty (queued_at_of task)))) [
  | inl a ↦ rw (a) refl
  | inr a ↦ elim (Bool-cases (not (is_empty r.view_queued_at))) [
    | inl b ↦ rw (a, b) refl
    | inr b ↦ elim (Bool-cases (not (is_empty (queued_at_stamp task.id q)))) [
      | inl c ↦ rw (a, b, c) refl
      | inr c ↦ rw (a, b, c) refl
    ]
  ]
]

defer_at_cap-IsStampedParked :
    (r : Readings) (others : Queue → Queue) (task : Task) (config : Config)
    (claim : Option DeferredClaim) (q : Queue)
    → IsStampedParked task.id q
    → IsStampedParked task.id (defer_at_cap r others task config claim q)
unfolding defer_at_cap
defer_at_cap-IsStampedParked r others task config claim q h =
    let q2 = others (stamp_queue_entry r task q).1 in
    let stamped = (stamp_queue_entry r task q).0 in
    let same : stamped.id ≡ task.id = stamp_queue_entry-id r task q in
    elim (Bool-cases (claim_invalidated claim q)) [
      | inl stale ↦ rw (defer_at_cap, stale) h
      | inr valid ↦ elim (Bool-cases (parks_nothing task.id claim q2)) [
        | inl nothing ↦ rw (defer_at_cap, valid, nothing) (clear-IsStampedParked task.id q2)
        | inr something ↦
            let e : parks_nothing stamped.id claim q2 ≡ false =
              ap (λ i. parks_nothing i claim q2) same ∙ something in
            let p : has stamped.id (park_at_cap stamped config r.retry_after claim q2).respawns
                ≡ true =
              parks stamped config r.retry_after claim q2 e in
            rw (defer_at_cap, valid, something)
              (inr (
                subst
                  (λ i. has i (park_at_cap stamped config r.retry_after claim q2).respawns ≡ true)
                  same p))
      ]
    ]

-- Whatever other threads do to the queue before the last critical section: where a stamp of the
-- task was kept only for a parked task, it is so afterwards.
pub defer_if_at_concurrency_cap-IsStampedParked :
    (r : Readings) (others : Queue → Queue) (task : Task) (config : Option Config)
    (claim : Option DeferredClaim) (q : Queue)
    → IsStampedParked task.id q
    → IsStampedParked task.id (defer_if_at_concurrency_cap r others task config claim q).1
unfolding defer_if_at_concurrency_cap
defer_if_at_concurrency_cap-IsStampedParked r others task none claim q h = h
defer_if_at_concurrency_cap-IsStampedParked r others task (some config) claim q h =
    elim (admission r (some config))
      as (λ a.
        IsStampedParked task.id
          (elim a as (λ _. Result Text Bool × Queue) [
            | err e ↦ (err e, q)
            | ok true ↦ (ok false, q)
            | ok false ↦ (ok true, defer_at_cap r others task config claim q)
          ]).1) [
            | err e ↦ h
            | ok true ↦ h
            | ok false ↦ defer_at_cap-IsStampedParked r others task config claim q h
          ]
