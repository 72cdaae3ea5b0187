-- ===== src/Claim/Lease/Renew.antt =====
-- The renewal of held claims (pkg/claim/lease_manager_tick.go).
use agent_task_executor.Common.{
  ℕ, true, false, not, ◌&&◌, ◌||◌, Option, none, some, Result, ok, err, if◌then◌else◌,
}
use agent_task_executor.Text.{Text, is_empty, text_eq}
use agent_task_executor.Claim.Client.{Claim, Failure, lease_lost}
use agent_task_executor.Claim.Lease.Store.{HeldClaim, find, held_keys}
use agent_task_executor.Claim.Lease.Clock.{renew_due, lease_seconds}
use agent_task_executor.Claim.Lease.{
  LeaseManager, M, pure, ◌>>=◌, ◌>>◌, count, get_held, for_each, current_date_time, client_renew,
  Label, recovered, renewed, renew_failed,
}
use agent_task_executor.Claim.Lease.Fence.{request_context, write_held, evaluate_fence, lose_claim}
use agent_task_executor.Claim.Lease.Create.{claimant_task_id, read_back, held_by_us}

abbrev pub renewed_by : Claim → HeldClaim → HeldClaim
renewed_by c h = record h { lease_token = c.lease_token; lease_until = c.lease_until }

module _ {W : Type 0} (m : LeaseManager W) where
  -- `renewReadBack` after its read; `none` says that the claim is no longer held by this pass.
  unfoldable pub read_back_answer :
      Text → HeldClaim → Result Failure (Option Claim) → M W (Option (Label × HeldClaim))
  read_back_answer key h (err f) = pure (some (renew_failed, h))
  read_back_answer key h (ok none) = do lose_claim m key h; pure none
  read_back_answer key h (ok (some c)) =
      if held_by_us m c && text_eq c.lease_token h.lease_token
      then pure (some (renew_failed, h))
      else if held_by_us m c
      then (do write_held m (renewed_by c h); pure (some (recovered, renewed_by c h)))
      else (do lose_claim m key h; pure none)

  unfoldable pub read_back_found : Text → Option HeldClaim → M W (Option (Label × HeldClaim))
  unfolding request_context read_back
  read_back_found key none = pure none
  read_back_found key (some h) = do
    ctx ← request_context m
    listed ← read_back m ctx h.target
    read_back_answer key h listed

  -- `renewReadBack`. The fence may write to the claim, so it is read from the map again.
  unfoldable pub renew_read_back : Text → M W (Option (Label × HeldClaim))
  renew_read_back key = do
    now ← current_date_time m
    evaluate_fence m now
    hs ← get_held
    read_back_found key (find key hs)

  unfoldable pub second_answer : Text → HeldClaim → Label → Result Failure Claim → M W (Unit {0})
  second_answer key h label (ok c) = do
    write_held m (record h { second_token = c.lease_token })
    count label
  second_answer key h label (err lease_lost) = lose_claim m key h
  second_answer key h label (err f) = do
    write_held m (record h { renew_next_tick = true })
    count renew_failed

  -- The second half of `renewClaim`: the secondary ref of a pair.
  unfoldable pub renew_second : Text → HeldClaim → Label → M W (Unit {0})
  unfolding request_context
  renew_second key h label = if is_empty h.second_key then count label else (do
    ctx ← request_context m
    answer ←
        client_renew m ctx h.second_target h.second_token
          (claimant_task_id h.second_target h.task_id) lease_seconds
    second_answer key h label answer)

  unfoldable pub after_read_back : Text → Option (Label × HeldClaim) → M W (Unit {0})
  after_read_back key none = pure tt
  after_read_back key (some (label, h)) = renew_second key h label

  -- `renewClaim` after the answer for the primary ref.
  unfoldable pub renew_answer : Text → HeldClaim → Result Failure Claim → M W (Unit {0})
  renew_answer key h (ok c) = do
    write_held m (renewed_by c h)
    renew_second key (renewed_by c h) renewed
  renew_answer key h (err lease_lost) = lose_claim m key h
  renew_answer key h (err f) = renew_read_back key >>= after_read_back key

  -- The claim as `renewClaim` marks it before the request.
  abbrev pub renewing : ℕ → HeldClaim → HeldClaim
  renewing now h = record h { last_renew_at = now; renew_next_tick = false }

  unfoldable pub renew_claim : Text → HeldClaim → ℕ → M W (Unit {0})
  unfolding request_context
  renew_claim key h now = do
    write_held m (renewing now h)
    ctx ← request_context m
    answer ←
        client_renew m ctx h.target h.lease_token (claimant_task_id h.target h.task_id)
          lease_seconds
    renew_answer key (renewing now h) answer

  -- One round of the loop of `renewDueClaims`, for a claim that is held.
  unfoldable pub renew_step : Text → HeldClaim → M W (Unit {0})
  renew_step key h = if h.pending_job_deletion || h.release_pending then pure tt else (do
    now ← current_date_time m
    if not h.renew_next_tick && not (renew_due now h.last_renew_at)
        then pure tt
        else (do renew_claim key h now; later ← current_date_time m; evaluate_fence m later))

  unfoldable pub renew_key : Text → M W (Unit {0})
  renew_key key = do
    hs ← get_held
    elim (find key hs) [ none ↦ pure tt | some h ↦ renew_step key h ]

  unfoldable pub renew_due_claims : M W (Unit {0})
  renew_due_claims = do hs ← get_held; for_each (held_keys hs) renew_key
