-- ===== src/Claim/Lease/Release.antt =====
-- `Release`, `ReleaseAfterSuccess` and what they share (pkg/claim/lease_manager.go), and the retry
-- of pending releases (pkg/claim/lease_manager_tick.go).
use agent_task_executor.Common.{
  ℕ, ◌+◌, true, false, not, none, some, Result, ok, err, if◌then◌else◌, ltb,
}
use agent_task_executor.Text.{Text, is_empty}
use agent_task_executor.Claim.Target.{ClaimTarget}
use agent_task_executor.Claim.Client.{Failure, lease_lost}
use agent_task_executor.Claim.Lease.Store.{HeldClaim, find, find_held, held_keys}
use agent_task_executor.Claim.Lease.Clock.{success_grace_period, is_zero}
use agent_task_executor.Claim.Lease.{
  Ctx, caller, LeaseManager, M, pure, ◌>>=◌, ◌>>◌, count, get_held, for_each, current_date_time,
  client_release, is_job_running, Label, error, released, already_released, ManagerError,
  client_error,
}
use agent_task_executor.Claim.Lease.Fence.{request_context, remove_held, write_held}

-- A token that is no longer current means that the ref is gone already.
abbrev pub release_label : Result Failure (Unit {0}) → Result Failure Label
release_label (ok _) = ok released
release_label (err lease_lost) = ok already_released
release_label (err f) = err f

unfoldable pub pair_removal_result : Label → Label → Label
pair_removal_result already_released already_released = already_released
pair_removal_result _ _ = released

-- Both refs of a claim, one after the other; the first failure ends it. `releaseLocked`,
-- `retryPendingReleases` and `releaseAfterRunningCheck` have this in common.
unfoldable pub release_refs :
    {W : Type 0}
    → (ClaimTarget → Text → M W (Result Failure Label))
    → HeldClaim
    → M W (Result Failure Label)
unfolding pair_removal_result
release_refs release h = do
  primary ← release h.target h.lease_token
  elim primary [
    | err f ↦ pure (err f)
    | ok p ↦ if is_empty h.second_key then pure (ok p) else (do
      secondary ← release h.second_target h.second_token
      elim secondary [ err f ↦ pure (err f) | ok q ↦ pure (ok (pair_removal_result p q)) ])
  ]

module _ {W : Type 0} (m : LeaseManager W) where
  unfoldable pub release_ref : Ctx → ClaimTarget → Text → M W (Result Failure Label)
  release_ref ctx target token = do r ← client_release m ctx target token; pure (release_label r)

  unfoldable pub release_ref_with_deadline : ClaimTarget → Text → M W (Result Failure Label)
  unfolding release_ref request_context
  release_ref_with_deadline target token = do ctx ← request_context m; release_ref ctx target token

  unfoldable pub release_locked : Ctx → HeldClaim → M W (Result ManagerError (Unit {0}))
  release_locked ctx h = do
    running ← is_job_running m ctx h.task_id
    elim running [
      | err f ↦ (do count error; pure (err (client_error f)))
      | ok true ↦ pure (ok tt)
      | ok false ↦ (do
        result ← release_refs (release_ref ctx) h
        elim result [
          | err f ↦ (do
            write_held m (record h { release_pending = true })
            count error
            pure (err (client_error f)))
          | ok label ↦ (do remove_held m h.key; count label; pure (ok tt))
        ])
    ]

  -- `Release` of a claim that is held.
  unfoldable pub release_step : HeldClaim → M W (Result ManagerError (Unit {0}))
  release_step h = do
    now ← current_date_time m
    if ltb now h.hold_until then pure (ok tt) else release_locked caller h

  unfoldable pub release_claim : Text → M W (Result ManagerError (Unit {0}))
  release_claim key = do
    hs ← get_held
    elim (find_held key hs) [ none ↦ pure (ok tt) | some h ↦ release_step h ]

  -- The end of the hold: a completion in the future counts as one of now.
  abbrev pub hold_end : ℕ → ℕ → ℕ
  hold_end now completed_at =
      if ltb (now + success_grace_period) (completed_at + success_grace_period)
      then now + success_grace_period
      else completed_at + success_grace_period

  -- `ReleaseAfterSuccess` of a claim that is held.
  unfoldable pub success_step : ℕ → HeldClaim → M W (Result ManagerError (Unit {0}))
  success_step completed_at h = do
    now ← current_date_time m
    if ltb now (hold_end now completed_at)
        then (if ltb h.hold_until (hold_end now completed_at)
            then (do
              write_held m (record h { hold_until = hold_end now completed_at })
              pure (ok tt))
            else pure (ok tt))
        else if ltb now h.hold_until
        then pure (ok tt)
        else release_locked caller h

  unfoldable pub release_after_success : Text → ℕ → M W (Result ManagerError (Unit {0}))
  release_after_success key completed_at = do
    hs ← get_held
    elim (find_held key hs) [ none ↦ pure (ok tt) | some h ↦ success_step completed_at h ]

  -- One round of the loop of `retryPendingReleases`, for a claim that is held.
  unfoldable pub retry_release_step : Text → HeldClaim → M W (Unit {0})
  retry_release_step key h = if not h.release_pending then pure tt else (do
    result ← release_refs release_ref_with_deadline h
    elim result [ err f ↦ count error | ok label ↦ (do remove_held m key; count label) ])

  unfoldable pub retry_release : Text → M W (Unit {0})
  retry_release key = do
    hs ← get_held
    elim (find key hs) [ none ↦ pure tt | some h ↦ retry_release_step key h ]

  unfoldable pub retry_pending_releases : M W (Unit {0})
  retry_pending_releases = do hs ← get_held; for_each (held_keys hs) retry_release

  -- One round of the loop of `releaseExpiredHolds`, for a claim that is held.
  unfoldable pub expired_hold_step : ℕ → HeldClaim → M W (Unit {0})
  expired_hold_step now h =
      if is_zero h.hold_until
      then pure tt
      else if ltb now h.hold_until
      then pure tt
      else (do ctx ← request_context m; result ← release_locked ctx h; pure tt)

  unfoldable pub release_expired_hold : ℕ → Text → M W (Unit {0})
  release_expired_hold now key = do
    hs ← get_held
    elim (find key hs) [ none ↦ pure tt | some h ↦ expired_hold_step now h ]

  unfoldable pub release_expired_holds : M W (Unit {0})
  release_expired_holds = do
    now ← current_date_time m
    hs ← get_held
    for_each (held_keys hs) (release_expired_hold now)
