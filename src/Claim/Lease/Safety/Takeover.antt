-- ===== src/Claim/Lease/Safety/Takeover.antt =====
-- What `TakeoverPair` (pkg/claim/lease_manager.go) does to the held claims.
use agent_task_executor.Common.{
  ℕ, ◌≡◌, refl, Bool, true, false, ◌⊎◌, inl, inr, List, [], ◌∷◌, Option, none, some, Result, ok,
  err, arith, if-intro,
}
use agent_task_executor.Text.{Text}
use agent_task_executor.Claim.Target.{ClaimTarget}
use agent_task_executor.Claim.Client.{
  Claim, Failure, lease_lost, claim_held, claim_free, target_invalid, other,
}
use agent_task_executor.Claim.Lease.Store.{HeldClaim}
use agent_task_executor.Claim.Lease.{caller, State, LeaseManager, M, Event, ManagerError}
use agent_task_executor.Claim.Lease.Safety.{Safe}
use agent_task_executor.Claim.Key.{target_from_key}
use agent_task_executor.Claim.Target.{no_target}
use agent_task_executor.Claim.Lease.{client_error, lease_conflict, lease_not_expired, bad_key}
use agent_task_executor.Claim.Lease.Clock.{lease_seconds}
use agent_task_executor.Claim.Lease.Create.{
  HeldClaimView, is_taken, second_target_from_key, claimant_task_id, read_back, read_back_result,
  claim_pair,
}
use agent_task_executor.Claim.Lease.Takeover.{
  TakeoverResult, takeover_refused, recovered_takeover, takeover_answer, acquire_for_takeover,
  count_taken_over, second_taken, finish_takeover, finish_acquired, taken_result, takeover_read,
  takeover_targets, takeover_checked, takeover_pair,
}
use agent_task_executor.Claim.Lease.Safety.Create.{
  Created, refused, stored, same_claims, claim_pair-Created, Created-Keeps,
}

-- The result of a takeover without the task that was displaced.
abbrev pub forget : Result ManagerError TakeoverResult → Result ManagerError HeldClaimView
forget (err e) = err e
forget (ok t) = ok (record {
  key = t.key;
  task_id = t.task_id;
  lease_token = t.lease_token;
  lease_until = t.lease_until;
})

module _ {W : Type 0} (m : LeaseManager W) where
  pub acquire_for_takeover-held :
      (target : ClaimTarget) (task_id : Text) (s : State W)
      → (acquire_for_takeover m target task_id s).2.held ≡ s.held
  unfolding acquire_for_takeover takeover_answer recovered_takeover
  acquire_for_takeover-held target task_id s = ground arith

  count_taken_over-held : (b : Bool) (s : State W) → (count_taken_over m b s).2.held ≡ s.held
  count_taken_over-held true s = refl
  count_taken_over-held false s = refl

  module _ (primary : Text) (target : ClaimTarget) (second_target : ClaimTarget) (task_id : Text)
      (now : ℕ) (previous : Text) where
    second_taken-Created :
        (secondary : Text) (c : Claim × Bool) (r : Result Failure Claim) (s : State W)
        → let run =
            second_taken m primary target secondary second_target task_id now previous c r s in
          Created primary secondary task_id s.held (forget run.0) run.2.held
    unfolding second_taken
    second_taken-Created secondary (c, b) (ok d) s =
        stored c (some d) target second_target now refl (count_taken_over-held b _)
    second_taken-Created secondary c (err claim_held) s = refused lease_conflict refl refl
    second_taken-Created secondary c (err claim_free) s =
        refused (client_error claim_free) refl refl
    second_taken-Created secondary c (err lease_lost) s =
        refused (client_error lease_lost) refl refl
    second_taken-Created secondary c (err target_invalid) s =
        refused (client_error target_invalid) refl refl
    second_taken-Created secondary c (err other) s = refused (client_error other) refl refl

    finish_takeover-Created :
        (secondary : Text) (c : Claim × Bool) (s : State W)
        → let run =
            finish_takeover m primary target secondary second_target task_id now previous c s in
          Created primary secondary task_id s.held (forget run.0) run.2.held
    unfolding finish_takeover
    finish_takeover-Created [] (c, b) s =
        stored c none target no_target now refl (count_taken_over-held b _)
    finish_takeover-Created (x ∷ secondary) c s =
        let answer =
          m.acquire caller second_target m.cluster (claimant_task_id second_target task_id)
            lease_seconds s.world in
        second_taken-Created (x ∷ secondary) c answer.0 (record s { world = answer.1 })

    finish_acquired-Created :
        (secondary : Text) (c : Result ManagerError (Claim × Bool)) (s : State W)
        → let run =
            finish_acquired m primary target secondary second_target task_id now previous c s in
          Created primary secondary task_id s.held (forget run.0) run.2.held
    unfolding finish_acquired
    finish_acquired-Created secondary (err e) s = refused e refl refl
    finish_acquired-Created secondary (ok c) s = finish_takeover-Created secondary c s

  forget-taken : (r : Result ManagerError HeldClaimView) → forget (taken_result m r) ≡ r
  forget-taken (err e) = refl
  forget-taken (ok v) = refl

  -- The outcome of a takeover: as of a create, without the displaced task.
  abbrev pub TakesOver :
      Text → Text → Text → State W → Result ManagerError TakeoverResult → List HeldClaim → Type 0
  TakesOver primary secondary task_id s r hs =
      Created primary secondary task_id s.held (forget r) hs
      × ((is_taken m primary secondary s.held ≡ false) ⊎ (hs ≡ s.held))

  takeover_read-Created :
      (primary : Text) (target : ClaimTarget) (secondary : Text) (second_target : ClaimTarget)
      (task_id : Text) (now : ℕ) (r : Result Failure (Option Claim)) (s : State W)
      → is_taken m primary secondary s.held ≡ false
      → let run = takeover_read m primary target secondary second_target task_id now r s in
        TakesOver primary secondary task_id s run.0 run.2.held
  unfolding takeover_read
  takeover_read-Created primary target secondary u task_id now (err f) s n =
      (refused (client_error f) refl refl, inl n)
  takeover_read-Created primary target secondary u task_id now (ok none) s n =
      let run = claim_pair m primary secondary task_id s in
      (rw (forget-taken run.0) (claim_pair-Created m primary secondary task_id s).0, inl n)
  takeover_read-Created primary target secondary u task_id now (ok (some listed)) s n =
      if-intro
        (λ (f : M W (Result ManagerError TakeoverResult)).
          TakesOver primary secondary task_id s (f s).0 (f s).2.held)
        (takeover_refused now listed) _ _ (refused lease_not_expired refl refl, inl n)
        (
          same_claims m primary secondary task_id s.held c.2.held run.2.held (forget run.0)
              (acquire_for_takeover-held target task_id s)
              (finish_acquired-Created primary target u task_id now listed.task_id secondary c.0
                c.2),
          inl n,
        )
    where
      c : Result ManagerError (Claim × Bool) × List Event × State W
      c = acquire_for_takeover m target task_id s

      run : Result ManagerError TakeoverResult × List Event × State W
      run = finish_acquired m primary target secondary u task_id now listed.task_id c.0 c.2

  takeover_checked-Created :
      (primary secondary task_id : Text) (b : Bool) (o p : Option ClaimTarget) (s : State W)
      → is_taken m primary secondary s.held ≡ b
      → let run = takeover_checked m primary secondary task_id b o p s in
        TakesOver primary secondary task_id s run.0 run.2.held
  unfolding takeover_checked takeover_targets read_back
  takeover_checked-Created primary secondary task_id b none p s e =
      (refused bad_key refl refl, inr refl)
  takeover_checked-Created primary secondary task_id b (some t) none s e =
      (refused bad_key refl refl, inr refl)
  takeover_checked-Created primary secondary task_id true (some t) (some u) s e =
      (refused lease_conflict refl refl, inr refl)
  takeover_checked-Created primary secondary task_id false (some t) (some u) s e =
      let listed = m.read caller t (m.now s.world).1 in
      takeover_read-Created primary t secondary u task_id (m.now s.world).0
        (read_back_result listed.0) (record s { world = listed.1 }) e

  -- `TakeoverPair`, like `ClaimPair`: it fails and leaves the held claims as they were, or it stores
  -- one claim under the primary key, which it returns; and it changes the held claims only if neither
  -- key was held.
  pub takeover_pair-Created :
      (primary secondary task_id : Text) (s : State W)
      → let run = takeover_pair m primary secondary task_id s in
        TakesOver primary secondary task_id s run.0 run.2.held
  unfolding takeover_pair
  takeover_pair-Created primary secondary task_id s =
      takeover_checked-Created primary secondary task_id (is_taken m primary secondary s.held)
        (target_from_key primary) (second_target_from_key secondary) s refl

  pub takeover_pair-Safe :
      (primary secondary task_id : Text) → Safe (takeover_pair m primary secondary task_id)
  takeover_pair-Safe primary secondary task_id s =
      let run = takeover_pair m primary secondary task_id s in
      let (created, free) = takeover_pair-Created primary secondary task_id s in
      Created-Keeps m primary secondary task_id (forget run.0) run.1 s run.2 created free
