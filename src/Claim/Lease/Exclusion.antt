-- ===== src/Claim/Lease/Exclusion.antt =====
-- What a create and a takeover refuse, and what they read before they write
-- (pkg/claim/lease_manager.go).
use agent_task_executor.Common.{
  ℕ, ◌≡◌, refl, Bool, true, false, not, ◌&&◌, ◌||◌, ◌⊎◌, inl, inr, List, [], ◌∷◌, Option, none,
  some, Result, ok, err, arith, ◌+◌, ◌++◌, Bool-cases, leb,
}
use agent_task_executor.Text.{Text}
use agent_task_executor.Claim.Target.{ClaimTarget}
use agent_task_executor.Claim.Client.{
  Claim, Failure, lease_lost, claim_held, claim_free, target_invalid, other,
}
use agent_task_executor.Claim.Key.{target_from_key}
use agent_task_executor.Claim.Lease.Store.{HeldClaim, find}
use agent_task_executor.Claim.Lease.{
  caller, State, LeaseManager, Event, acquire_call, renew_call, release_call, read_call,
}
use agent_task_executor.Claim.Lease.Clock.{takeover_grace, takeover_allowed}
use agent_task_executor.Claim.Lease.Create.{
  is_taken, second_target_from_key, claim_pair, claim_checked, claim_targets, create_primary,
  primary_read, read_back_result, finish_created,
}
use agent_task_executor.Claim.Lease.Takeover.{
  takeover_pair, takeover_checked, takeover_targets, takeover_read, takeover_refused,
}
use agent_task_executor.Claim.Lease.Leak.{same_target, same_target_refl}

-- The map has a claim with this key, as its first or as its second one.
abbrev pub IsHeld : Text → List HeldClaim → Type 0
IsHeld k hs = (h : HeldClaim) × (find h.key hs ≡ some h) × ((h.key ≡ k) ⊎ (h.second_key ≡ k))

-- The answer shows a free address.
abbrev pub shows_free : Result Failure Claim → Bool
shows_free (err claim_free) = true
shows_free (err _) = false
shows_free (ok c) = false

-- Or a claim whose lease can be read and is over by the grace.
abbrev pub shows_lapsed : ℕ → Result Failure Claim → Bool
shows_lapsed now (ok c) = not c.lease_unreadable && leb (c.lease_until + takeover_grace) now
shows_lapsed now (err f) = shows_free (err f)

-- Before the first write of the trace, a read at the address has such an answer.
abbrev pub reads_first : (Result Failure Claim → Bool) → ClaimTarget → List Event → Bool
reads_first shows target [] = true
reads_first shows target (acquire_call at claimant r ∷ es) = false
reads_first shows target (renew_call at token r ∷ es) = false
reads_first shows target (release_call at token r ∷ es) = false
reads_first shows target (read_call at r ∷ es) =
    (same_target at target && shows r) || reads_first shows target es
reads_first shows target (_ ∷ es) = reads_first shows target es

module _ {W : Type 0} (m : LeaseManager W) where
  primary_read-reads_first :
      (primary secondary task_id : Text) (target u : ClaimTarget) (now : ℕ)
      (r : Result Failure Claim) (s : State W)
      → let c = primary_read m target task_id (read_back_result r) s in
        let run = finish_created m primary target secondary u task_id now c.0 c.2 in
        reads_first shows_free target (read_call target r ∷ (c.1 ++ run.1)) ≡ true
  unfolding primary_read finish_created
  primary_read-reads_first primary secondary task_id target u now (ok c) s = ground arith
  primary_read-reads_first primary secondary task_id target u now (err claim_free) s =
      ground (arith, same_target_refl target)
  primary_read-reads_first primary secondary task_id target u now (err claim_held) s = ground arith
  primary_read-reads_first primary secondary task_id target u now (err lease_lost) s = ground arith
  primary_read-reads_first primary secondary task_id target u now (err target_invalid) s =
      ground arith
  primary_read-reads_first primary secondary task_id target u now (err other) s = ground arith

  claim_checked-reads_first :
      (primary secondary task_id : Text) (target : ClaimTarget) (taken : Bool)
      (p : Option ClaimTarget) (s : State W)
      → reads_first shows_free target
          (claim_checked m primary secondary task_id taken (some target) p s).1
        ≡ true
  unfolding claim_checked claim_targets create_primary
  claim_checked-reads_first primary secondary task_id target taken none s = refl
  claim_checked-reads_first primary secondary task_id target true (some u) s = refl
  claim_checked-reads_first primary secondary task_id target false (some u) s =
      let r = m.read caller target (m.now s.world).1 in
      primary_read-reads_first primary secondary task_id target u (m.now s.world).0 r.0
        (record s { world = r.1 })

  -- `ClaimPair` sends no acquire, renewal or release before a read at the primary's address has
  -- answered that it is free, so a create never displaces a claim of the primary that the server
  -- shows. The secondary is acquired without a read.
  pub claim_pair-reads_first :
      (primary secondary task_id : Text) (target : ClaimTarget) (s : State W)
      → target_from_key primary ≡ some target
      → reads_first shows_free target (claim_pair m primary secondary task_id s).1 ≡ true
  unfolding claim_pair
  claim_pair-reads_first primary secondary task_id target s parsed = rw parsed (
      claim_checked-reads_first primary secondary task_id target
        (is_taken m primary secondary s.held) (second_target_from_key secondary) s)

  takeover_read-reads_first :
      (primary secondary task_id : Text) (target u : ClaimTarget) (now : ℕ)
      (r : Result Failure Claim) (s : State W)
      → reads_first (shows_lapsed now) target (
          read_call target r
          ∷ (takeover_read m primary target secondary u task_id now (read_back_result r) s).1)
        ≡ true
  unfolding takeover_read takeover_refused takeover_allowed
  takeover_read-reads_first primary secondary task_id target u now (ok c) s =
      elim (Bool-cases (takeover_refused now c)) [
        | inl refused ↦ ground (arith, refused)
        | inr lapsed ↦ ground (arith, same_target_refl target, lapsed)
      ]
  takeover_read-reads_first primary secondary task_id target u now (err claim_free) s =
      ground (arith, same_target_refl target)
  takeover_read-reads_first primary secondary task_id target u now (err claim_held) s = ground arith
  takeover_read-reads_first primary secondary task_id target u now (err lease_lost) s = ground arith
  takeover_read-reads_first primary secondary task_id target u now (err target_invalid) s =
      ground arith
  takeover_read-reads_first primary secondary task_id target u now (err other) s = ground arith

  takeover_checked-reads_first :
      (primary secondary task_id : Text) (target : ClaimTarget) (taken : Bool)
      (p : Option ClaimTarget) (s : State W)
      → reads_first
          (shows_lapsed (m.now s.world).0)
          target
          (takeover_checked m primary secondary task_id taken (some target) p s).1
        ≡ true
  unfolding takeover_checked takeover_targets
  takeover_checked-reads_first primary secondary task_id target taken none s = refl
  takeover_checked-reads_first primary secondary task_id target true (some u) s = refl
  takeover_checked-reads_first primary secondary task_id target false (some u) s =
      let r = m.read caller target (m.now s.world).1 in
      takeover_read-reads_first primary secondary task_id target u (m.now s.world).0 r.0
        (record s { world = r.1 })

  -- `TakeoverPair` sends no acquire, renewal or release before a read at the primary's address has
  -- answered that it is free, or has shown a claim with a readable lease that is over by the grace
  -- or longer at the time of the call. The secondary is acquired without a read.
  pub takeover_pair-reads_first :
      (primary secondary task_id : Text) (target : ClaimTarget) (s : State W)
      → target_from_key primary ≡ some target
      → reads_first
          (shows_lapsed (m.now s.world).0)
          target
          (takeover_pair m primary secondary task_id s).1
        ≡ true
  unfolding takeover_pair
  takeover_pair-reads_first primary secondary task_id target s parsed = rw parsed (
      takeover_checked-reads_first primary secondary task_id target
        (is_taken m primary secondary s.held) (second_target_from_key secondary) s)
