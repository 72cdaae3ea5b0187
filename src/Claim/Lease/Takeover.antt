-- ===== src/Claim/Lease/Takeover.antt =====
-- `Takeover`, `TakeoverPair` and their helpers (pkg/claim/lease_manager.go).
use agent_task_executor.Common.{
  ℕ, Bool, true, false, not, Option, none, some, Result, ok, err, if◌then◌else◌, [],
}
use agent_task_executor.Text.{Text, is_empty}
use agent_task_executor.Claim.Target.{ClaimTarget, no_target}
use agent_task_executor.Claim.Key.{target_from_key}
use agent_task_executor.Claim.Client.{Claim, Failure, claim_held}
use agent_task_executor.Claim.Lease.Clock.{lease_seconds, takeover_allowed}
use agent_task_executor.Claim.Lease.{
  caller, recovery, LeaseManager, M, pure, ◌>>=◌, ◌>>◌, count, get_held, current_date_time,
  client_acquire, client_release, error, conflict, recovered, taken_over, takeover_too_early,
  ManagerError, client_error, bad_key, lease_conflict, lease_not_expired,
}
use agent_task_executor.Claim.Lease.Create.{
  HeldClaimView, claimant_task_id, read_back, held_by_us, store_claim, claim_pair,
  second_target_from_key, is_taken,
}

pub record TakeoverResult : Type 0 where
  pub key : Text
  pub task_id : Text
  pub lease_token : Text
  pub lease_until : ℕ
  pub previous_task_id : Text

abbrev pub taken : Text → HeldClaimView → TakeoverResult
taken previous view = record {
  key = view.key;
  task_id = view.task_id;
  lease_token = view.lease_token;
  lease_until = view.lease_until;
  previous_task_id = previous;
}

-- `takeoverRefusal`: an unreadable lease, or one inside its grace, is refused.
unfoldable pub takeover_refused : ℕ → Claim → Bool
takeover_refused now listed =
    if listed.lease_unreadable then true else not (takeover_allowed now listed.lease_until)

module _ {W : Type 0} (m : LeaseManager W) where
  -- `acquireForTakeover` after the read-back of a failed write that was no conflict.
  unfoldable pub recovered_takeover :
      Failure → Result Failure (Option Claim) → M W (Result ManagerError (Claim × Bool))
  recovered_takeover f (err g) = do count error; pure (err (client_error f))
  recovered_takeover f (ok none) = do count error; pure (err (client_error f))
  recovered_takeover f (ok (some c)) =
      if held_by_us m c
      then (do count recovered; pure (ok (c, true)))
      else (do count error; pure (err (client_error f)))

  unfoldable pub takeover_answer :
      ClaimTarget → Result Failure Claim → M W (Result ManagerError (Claim × Bool))
  unfolding read_back
  takeover_answer target (ok c) = pure (ok (c, false))
  takeover_answer target (err claim_held) = do count conflict; pure (err lease_conflict)
  takeover_answer target (err f) = do
    listed ← read_back m recovery target
    recovered_takeover f listed

  unfoldable pub acquire_for_takeover :
      ClaimTarget → Text → M W (Result ManagerError (Claim × Bool))
  acquire_for_takeover target task_id = do
    answer ← client_acquire m caller target (claimant_task_id target task_id) lease_seconds
    takeover_answer target answer

  abbrev pub count_taken_over : Bool → M W (Unit {0})
  count_taken_over true = pure tt
  count_taken_over false = count taken_over

  -- `finishTakeoverPair` after the answer for the secondary: a failure gives the primary back.
  unfoldable pub second_taken :
      Text
      → ClaimTarget
      → Text
      → ClaimTarget
      → Text
      → ℕ
      → Text
      → Claim × Bool
      → Result Failure Claim
      → M W (Result ManagerError TakeoverResult)
  unfolding store_claim
  second_taken primary target secondary second_target task_id now previous (c, was_recovered)
        (ok d) =
      do
        view ← store_claim m primary target secondary second_target task_id c (some d) now
        count_taken_over was_recovered
        pure (ok (taken previous view))
  second_taken primary target secondary second_target task_id now previous (c, was_recovered)
        (err claim_held) =
      do
        r ← client_release m recovery target c.lease_token
        count conflict
        pure (err lease_conflict)
  second_taken primary target secondary second_target task_id now previous (c, was_recovered)
        (err f) =
      do
        r ← client_release m recovery target c.lease_token
        count error
        pure (err (client_error f))

  -- `TakeoverPair` after the primary is acquired; with a secondary it is `finishTakeoverPair`.
  unfoldable pub finish_takeover :
      Text
      → ClaimTarget
      → Text
      → ClaimTarget
      → Text
      → ℕ
      → Text
      → Claim × Bool
      → M W (Result ManagerError TakeoverResult)
  unfolding store_claim
  finish_takeover primary target secondary second_target task_id now previous (c, was_recovered) =
      if is_empty secondary
      then (do
        view ← store_claim m primary target [] no_target task_id c none now
        count_taken_over was_recovered
        pure (ok (taken previous view)))
      else (do
        answer ←
            client_acquire m caller second_target (claimant_task_id second_target task_id)
              lease_seconds
        second_taken primary target secondary second_target task_id now previous (c, was_recovered)
            answer)

  unfoldable pub finish_acquired :
      Text
      → ClaimTarget
      → Text
      → ClaimTarget
      → Text
      → ℕ
      → Text
      → Result ManagerError (Claim × Bool)
      → M W (Result ManagerError TakeoverResult)
  finish_acquired primary target secondary second_target task_id now previous (err e) = pure (err e)
  finish_acquired primary target secondary second_target task_id now previous (ok c) =
      finish_takeover primary target secondary second_target task_id now previous c

  abbrev pub taken_result : Result ManagerError HeldClaimView → Result ManagerError TakeoverResult
  taken_result (err e) = err e
  taken_result (ok view) = ok (taken [] view)

  -- `TakeoverPair` after its read of the primary: a free key is created, an expired lease replaced.
  unfoldable pub takeover_read :
      Text
      → ClaimTarget
      → Text
      → ClaimTarget
      → Text
      → ℕ
      → Result Failure (Option Claim)
      → M W (Result ManagerError TakeoverResult)
  takeover_read primary target secondary second_target task_id now (err f) = do
    count error
    pure (err (client_error f))
  takeover_read primary target secondary second_target task_id now (ok none) = do
    created ← claim_pair m primary secondary task_id
    pure (taken_result created)
  takeover_read primary target secondary second_target task_id now (ok (some listed)) =
      if takeover_refused now listed
      then (do count takeover_too_early; pure (err lease_not_expired))
      else (do
        acquired ← acquire_for_takeover target task_id
        finish_acquired primary target secondary second_target task_id now listed.task_id acquired)

  -- `TakeoverPair` after its checks.
  unfoldable pub takeover_targets :
      Text → ClaimTarget → Text → ClaimTarget → Text → M W (Result ManagerError TakeoverResult)
  unfolding read_back
  takeover_targets primary target secondary second_target task_id = do
    now ← current_date_time m
    listed ← read_back m caller target
    takeover_read primary target secondary second_target task_id now listed

  -- `TakeoverPair` on its parsed keys; the flag says that one of them is held.
  unfoldable pub takeover_checked :
      Text
      → Text
      → Text
      → Bool
      → Option ClaimTarget
      → Option ClaimTarget
      → M W (Result ManagerError TakeoverResult)
  takeover_checked primary secondary task_id held none p = do count error; pure (err bad_key)
  takeover_checked primary secondary task_id held (some target) none = do
    count error
    pure (err bad_key)
  takeover_checked primary secondary task_id true (some target) (some second_target) = do
    count conflict
    pure (err lease_conflict)
  takeover_checked primary secondary task_id false (some target) (some second_target) =
      takeover_targets primary target secondary second_target task_id

  unfoldable pub takeover_pair : Text → Text → Text → M W (Result ManagerError TakeoverResult)
  unfolding takeover_checked
  takeover_pair primary secondary task_id = do
    hs ← get_held
    takeover_checked primary secondary task_id (is_taken m primary secondary hs)
        (target_from_key primary) (second_target_from_key secondary)
