-- ===== src/Claim/Lease/Safety/Fence.antt =====
-- What the fence and a lost lease (pkg/claim/lease_manager_tick.go) do to the held claims.
use agent_task_executor.Common.{ℕ, ◌≡◌, refl, true, inl, inr, arith, Bool-cases, Result-cases, not}
use agent_task_executor.Text.Laws.{text_eq_refl}
use agent_task_executor.Claim.Lease.Store.{fence_path, lost_path, HeldClaim, held_keys}
use agent_task_executor.Claim.Lease.Clock.{fence_due}
use agent_task_executor.Claim.Lease.{caller, State, LeaseManager}
use agent_task_executor.Claim.Lease.Fence.{
  best_effort_release, fence_claim, evaluate_fence, fence_key, fence_step, retry_deletion_step,
  retry_deletion, retry_pending_deletions, lose_claim,
}
use agent_task_executor.Claim.Lease.Safety.{
  Does, if-Does, same, dropped, changed, Safe, Safe-for_each, Safe-step,
}

module _ {W : Type 0} (m : LeaseManager W) where
  pub best_effort_release-held :
      (h : HeldClaim) (s : State W) → (best_effort_release m h s).2.held ≡ s.held
  unfolding best_effort_release
  best_effort_release-held h s = ground arith

  -- The state after the answer to a Job deletion.
  abbrev pub asked_deletion : HeldClaim → State W → State W
  asked_deletion h s = record s { world = (m.delete_job caller h.task_id s.world).1 }

  fence_claim-Outcome : (h : HeldClaim) (s : State W) → Does h s (fence_claim m h.key h)
  unfolding fence_claim
  fence_claim-Outcome h s = elim (Bool-cases h.release_pending) [
    | inl p ↦ dropped (ground (arith, best_effort_release-held h s)) (inl p)
    | inr p ↦ elim (Result-cases (m.delete_job caller h.task_id s.world).0) [
      | inl (a, e) ↦
          dropped (ground (arith, p, e, best_effort_release-held h (asked_deletion h s)))
            (inr (ground (arith, p, e, text_eq_refl h.task_id)))
      | inr (x, e) ↦
          changed (record h { pending_job_deletion = true; pending_deletion_path = fence_path })
            (ground (arith, p, e)) refl refl (inl refl)
    ]
  ]

  pub lose_claim-Outcome : (h : HeldClaim) (s : State W) → Does h s (lose_claim m h.key h)
  unfolding lose_claim
  lose_claim-Outcome h s = elim (Result-cases (m.delete_job caller h.task_id s.world).0) [
    | inl (a, e) ↦ dropped (ground (arith, e)) (inr (ground (arith, e, text_eq_refl h.task_id)))
    | inr (x, e) ↦
        changed (record h { pending_job_deletion = true; pending_deletion_path = lost_path })
          (ground (arith, e)) refl refl (inl refl)
  ]

  pub fence_step-Outcome :
      (now : ℕ) (h : HeldClaim) (s : State W) → Does h s (fence_step m now h.key h)
  unfolding fence_step
  fence_step-Outcome now h s =
      if-Does h s h.pending_job_deletion _ _ (λ _. same refl)
        (λ _.
          if-Does h s (not (fence_due now h.lease_until)) _ _ (λ _. same refl)
            (λ _. fence_claim-Outcome h s))

  pub evaluate_fence-Safe : (now : ℕ) → Safe (evaluate_fence m now)
  unfolding evaluate_fence fence_key
  evaluate_fence-Safe now s =
      Safe-for_each (held_keys s.held) (fence_key m now)
        (Safe-step (fence_step m now) (fence_step-Outcome now)) s

  retry_deletion_step-Outcome :
      (h : HeldClaim) (s : State W) → Does h s (retry_deletion_step m h.key h)
  unfolding retry_deletion_step
  retry_deletion_step-Outcome h s = elim (Bool-cases h.pending_job_deletion) [
    | inr p ↦ same (ground (arith, p))
    | inl p ↦ elim (Result-cases (m.delete_job caller h.task_id s.world).0) [
      | inl (a, e) ↦
          dropped (ground (arith, p, e, best_effort_release-held h (asked_deletion h s)))
            (inr (ground (arith, p, e, text_eq_refl h.task_id)))
      | inr (x, e) ↦ same (ground (arith, p, e))
    ]
  ]

  pub retry_pending_deletions-Safe : Safe (retry_pending_deletions m)
  unfolding retry_pending_deletions retry_deletion
  retry_pending_deletions-Safe s =
      Safe-for_each (held_keys s.held) (retry_deletion m)
        (Safe-step (retry_deletion_step m) retry_deletion_step-Outcome) s
