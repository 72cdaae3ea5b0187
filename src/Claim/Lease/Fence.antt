-- ===== src/Claim/Lease/Fence.antt =====
-- The fence of pkg/claim/lease_manager_tick.go: a claim near the end of its lease is dropped, and
-- its Job is stopped first.
use agent_task_executor.Common.{ℕ, true, not, none, some, ok, err, if◌then◌else◌}
use agent_task_executor.Text.{Text, is_empty}
use agent_task_executor.Claim.Lease.Store.{
  HeldClaim, DeletionPath, fence_path, lost_path, find, update, delete, held_keys,
}
use agent_task_executor.Claim.Lease.Clock.{fence_due, request_deadline}
use agent_task_executor.Claim.Lease.{
  Ctx, until, LeaseManager, M, pure, ◌>>=◌, ◌>>◌, count, get_held, set_held, for_each, when,
  current_date_time, client_release, delete_job, error, fenced, claim_lost,
}

module _ {W : Type 0} (m : LeaseManager W) where
  -- `requestContext`: it reads the clock.
  unfoldable pub request_context : M W Ctx
  request_context = do
    now ← current_date_time m
    held ← get_held
    pure (until (request_deadline now held))

  unfoldable pub best_effort_release : HeldClaim → M W (Unit {0})
  unfolding request_context
  best_effort_release h = do
    ctx ← request_context
    r ← client_release m ctx h.target h.lease_token
    when (not (is_empty h.second_key))
        (do r' ← client_release m ctx h.second_target h.second_token; pure tt)

  abbrev pub remove_held : Text → M W (Unit {0})
  remove_held key = do hs ← get_held; set_held (delete key hs)

  abbrev pub write_held : HeldClaim → M W (Unit {0})
  write_held h = do hs ← get_held; set_held (update h hs)

  -- The Job could not be deleted: the claim stays, to be retried.
  abbrev pub keep_for_deletion : DeletionPath → HeldClaim → M W (Unit {0})
  keep_for_deletion path h =
      write_held (record h { pending_job_deletion = true; pending_deletion_path = path })

  unfoldable pub fence_claim : Text → HeldClaim → M W (Unit {0})
  fence_claim key h =
      if h.release_pending then (do best_effort_release h; remove_held key; count fenced) else (do
        r ← delete_job m h.task_id
        elim r [
          | err e ↦ (do count error; count fenced; keep_for_deletion fence_path h)
          | ok _ ↦ (do best_effort_release h; remove_held key; count fenced)
        ])

  -- One round of the loop of `evaluateFence`, for a claim that is held.
  unfoldable pub fence_step : ℕ → Text → HeldClaim → M W (Unit {0})
  fence_step now key h =
      if h.pending_job_deletion
      then pure tt
      else if not (fence_due now h.lease_until)
      then pure tt
      else fence_claim key h

  unfoldable pub fence_key : ℕ → Text → M W (Unit {0})
  fence_key now key = do
    hs ← get_held
    elim (find key hs) [ none ↦ pure tt | some h ↦ fence_step now key h ]

  unfoldable pub evaluate_fence : ℕ → M W (Unit {0})
  evaluate_fence now = do hs ← get_held; for_each (held_keys hs) (fence_key now)

  -- One round of the loop of `retryPendingDeletions`, for a claim that is held.
  unfoldable pub retry_deletion_step : Text → HeldClaim → M W (Unit {0})
  retry_deletion_step key h = if not h.pending_job_deletion then pure tt else (do
    r ← delete_job m h.task_id
    elim r [
      | err e ↦ count error
      | ok _ ↦ (do
        elim h.pending_deletion_path [ fence_path ↦ best_effort_release h | _ ↦ pure tt ]
        remove_held key)
    ])

  unfoldable pub retry_deletion : Text → M W (Unit {0})
  retry_deletion key = do
    hs ← get_held
    elim (find key hs) [ none ↦ pure tt | some h ↦ retry_deletion_step key h ]

  unfoldable pub retry_pending_deletions : M W (Unit {0})
  retry_pending_deletions = do hs ← get_held; for_each (held_keys hs) retry_deletion

  -- `claimLost`: the lease is gone, so nothing is released.
  unfoldable pub lose_claim : Text → HeldClaim → M W (Unit {0})
  lose_claim key h = do
    count claim_lost
    r ← delete_job m h.task_id
    elim r [ err e ↦ (do count error; keep_for_deletion lost_path h) | ok _ ↦ remove_held key ]
