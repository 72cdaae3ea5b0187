-- ===== src/Claim/Lease/Create.antt =====
-- `Claim`, `ClaimPair` and what they share (pkg/claim/lease_manager.go).
use agent_task_executor.Common.{
  ℕ, Bool, true, false, not, ◌&&◌, ◌||◌, Option, none, some, Result, ok, err, if◌then◌else◌, List,
  [],
}
use agent_task_executor.Text.{Text, is_empty, text_eq}
use agent_task_executor.Claim.Target.{ClaimTarget, no_target}
use agent_task_executor.Claim.Key.{target_from_key}
use agent_task_executor.Claim.Client.{Claim, Failure, claim_held, claim_free}
use agent_task_executor.Claim.Lease.Store.{HeldClaim, no_path, find_held, insert, is_some}
use agent_task_executor.Claim.Lease.Clock.{lease_seconds, zero_time}
use agent_task_executor.Claim.Lease.{
  Ctx, caller, recovery, LeaseManager, M, pure, ◌>>=◌, ◌>>◌, count, get_held, set_held,
  current_date_time, client_acquire, client_release, client_read, Label, error, conflict, claimed,
  recovered, ManagerError, client_error, bad_key, lease_conflict,
}

-- The public `HeldClaim`.
pub record HeldClaimView : Type 0 where
  pub key : Text
  pub task_id : Text
  pub lease_token : Text
  pub lease_until : ℕ

unfoldable pub claimant_task_id : ClaimTarget → Text → Text
claimant_task_id target task_id = if not (is_empty target.task_id) then [] else task_id

-- `ErrClaimFree` is the ordinary idle state.
abbrev pub read_back_result : Result Failure Claim → Result Failure (Option Claim)
read_back_result (ok c) = ok (some c)
read_back_result (err claim_free) = ok none
read_back_result (err f) = err f

abbrev pub token_of : Option Claim → Text
token_of none = []
token_of (some c) = c.lease_token

-- The claim that `storeClaim` records.
abbrev pub new_held :
    Text → ClaimTarget → Text → ClaimTarget → Text → Claim → Option Claim → ℕ → HeldClaim
new_held key target second_key second_target task_id primary secondary now = record {
  key = key;
  target = target;
  task_id = task_id;
  lease_token = primary.lease_token;
  lease_until = primary.lease_until;
  second_key = second_key;
  second_target = second_target;
  second_token = token_of secondary;
  last_renew_at = now;
  renew_next_tick = false;
  pending_job_deletion = false;
  pending_deletion_path = no_path;
  release_pending = false;
  needs_running_check = false;
  hold_until = zero_time;
  jobless_since = zero_time;
  last_jobless_check_at = zero_time;
}

abbrev pub created_label : Bool → Label
created_label true = recovered
created_label false = claimed

-- The target of a secondary key, which may be left out.
abbrev pub second_target_from_key : Text → Option ClaimTarget
second_target_from_key secondary =
    if is_empty secondary then some no_target else target_from_key secondary

module _ {W : Type 0} (m : LeaseManager W) where
  unfoldable pub read_back : Ctx → ClaimTarget → M W (Result Failure (Option Claim))
  read_back ctx target = do r ← client_read m ctx target; pure (read_back_result r)

  unfoldable pub held_by_us : Claim → Bool
  held_by_us c = text_eq c.holder m.cluster

  -- `createPrimary` after the read-back of a failed write that was no conflict.
  unfoldable pub recovered_primary :
      Failure → Result Failure (Option Claim) → M W (Result ManagerError (Claim × Bool))
  recovered_primary f (err g) = do count error; pure (err (client_error g))
  recovered_primary f (ok none) = do count error; pure (err (client_error f))
  recovered_primary f (ok (some c)) =
      if held_by_us c then pure (ok (c, true)) else (do count error; pure (err (client_error f)))

  -- `createPrimary` after the answer to its acquire.
  unfoldable pub primary_answer :
      ClaimTarget → Result Failure Claim → M W (Result ManagerError (Claim × Bool))
  unfolding read_back
  primary_answer target (ok c) = pure (ok (c, false))
  primary_answer target (err claim_held) = do count conflict; pure (err lease_conflict)
  primary_answer target (err f) = do listed ← read_back recovery target; recovered_primary f listed

  -- `createPrimary` after its read: a claim that exists is never displaced.
  unfoldable pub primary_read :
      ClaimTarget → Text → Result Failure (Option Claim) → M W (Result ManagerError (Claim × Bool))
  primary_read target task_id (err f) = do count error; pure (err (client_error f))
  primary_read target task_id (ok (some c)) = do count conflict; pure (err lease_conflict)
  primary_read target task_id (ok none) = do
    answer ← client_acquire m caller target (claimant_task_id target task_id) lease_seconds
    primary_answer target answer

  unfoldable pub create_primary : ClaimTarget → Text → M W (Result ManagerError (Claim × Bool))
  unfolding read_back
  create_primary target task_id = do
    existing ← read_back caller target
    primary_read target task_id existing

  unfoldable pub store_claim :
      Text → ClaimTarget → Text → ClaimTarget → Text → Claim → Option Claim → ℕ → M W HeldClaimView
  store_claim key target second_key second_target task_id primary secondary now = do
    hs ← get_held
    set_held
        (insert (new_held key target second_key second_target task_id primary secondary now) hs)
    pure (record {
      key = key;
      task_id = task_id;
      lease_token = primary.lease_token;
      lease_until = primary.lease_until;
    })

  -- `claimPairLocked` after the answer for the secondary: a failure gives the primary back.
  unfoldable pub second_created :
      Text
      → ClaimTarget
      → Text
      → ClaimTarget
      → Text
      → ℕ
      → Claim × Bool
      → Result Failure Claim
      → M W (Result ManagerError HeldClaimView)
  unfolding store_claim
  second_created primary target secondary second_target task_id now (c, was_recovered) (ok d) = do
    view ← store_claim primary target secondary second_target task_id c (some d) now
    count (created_label was_recovered)
    pure (ok view)
  second_created primary target secondary second_target task_id now (c, was_recovered)
        (err claim_held) =
      do
        r ← client_release m recovery target c.lease_token
        count conflict
        pure (err lease_conflict)
  second_created primary target secondary second_target task_id now (c, was_recovered) (err f) = do
    r ← client_release m recovery target c.lease_token
    count error
    pure (err (client_error f))

  -- The second half of `claimPairLocked`, once the primary is acquired.
  unfoldable pub finish_claim_pair :
      Text
      → ClaimTarget
      → Text
      → ClaimTarget
      → Text
      → ℕ
      → Claim × Bool
      → M W (Result ManagerError HeldClaimView)
  unfolding store_claim
  finish_claim_pair primary target secondary second_target task_id now (c, was_recovered) =
      if is_empty secondary
      then (do
        view ← store_claim primary target [] no_target task_id c none now
        count (created_label was_recovered)
        pure (ok view))
      else (do
        answer ←
            client_acquire m caller second_target (claimant_task_id second_target task_id)
              lease_seconds
        second_created primary target secondary second_target task_id now (c, was_recovered) answer)

  unfoldable pub finish_created :
      Text
      → ClaimTarget
      → Text
      → ClaimTarget
      → Text
      → ℕ
      → Result ManagerError (Claim × Bool)
      → M W (Result ManagerError HeldClaimView)
  finish_created primary target secondary second_target task_id now (err e) = pure (err e)
  finish_created primary target secondary second_target task_id now (ok c) =
      finish_claim_pair primary target secondary second_target task_id now c

  -- `claimPairLocked` after its checks.
  unfoldable pub claim_targets :
      Text → ClaimTarget → Text → ClaimTarget → Text → M W (Result ManagerError HeldClaimView)
  claim_targets primary target secondary second_target task_id = do
    now ← current_date_time m
    created ← create_primary target task_id
    finish_created primary target secondary second_target task_id now created

  -- `findHeld` on the keys of a claim; the secondary may be left out.
  abbrev pub is_taken : Text → Text → List HeldClaim → Bool
  is_taken primary secondary hs =
      is_some (find_held primary hs)
      || (not (is_empty secondary) && is_some (find_held secondary hs))

  -- `claimPairLocked` on its parsed keys; the flag says that one of them is held.
  unfoldable pub claim_checked :
      Text
      → Text
      → Text
      → Bool
      → Option ClaimTarget
      → Option ClaimTarget
      → M W (Result ManagerError HeldClaimView)
  claim_checked primary secondary task_id held none p = do count error; pure (err bad_key)
  claim_checked primary secondary task_id held (some target) none = do
    count error
    pure (err bad_key)
  claim_checked primary secondary task_id true (some target) (some second_target) = do
    count conflict
    pure (err lease_conflict)
  claim_checked primary secondary task_id false (some target) (some second_target) =
      claim_targets primary target secondary second_target task_id

  unfoldable pub claim_pair : Text → Text → Text → M W (Result ManagerError HeldClaimView)
  unfolding claim_checked
  claim_pair primary secondary task_id = do
    hs ← get_held
    claim_checked primary secondary task_id (is_taken primary secondary hs)
        (target_from_key primary) (second_target_from_key secondary)
