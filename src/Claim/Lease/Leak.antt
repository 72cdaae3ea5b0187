-- ===== src/Claim/Lease/Leak.antt =====
-- The leases that a create takes and gives back (pkg/claim/lease_manager.go).
use agent_task_executor.Common.{
  ℕ, ◌≡◌, refl, ap, Bool, true, false, List, [], ◌∷◌, ◌++◌, Option, none, some, Result, ok, err,
  arith, ◌||◌, ◌&&◌,
}
use agent_task_executor.Text.{Text, text_eq}
use agent_task_executor.Text.Laws.{text_eq_refl}
use agent_task_executor.Claim.Target.{ClaimTarget}
use agent_task_executor.Claim.Client.{Claim, Failure, claim_held}
use agent_task_executor.Claim.Lease.{caller, State, LeaseManager, Event, ManagerError}
use mathlib.Core.List.{append-nil}
use agent_task_executor.Claim.Key.{target_from_key}
use agent_task_executor.Claim.Lease.{acquire_call, release_call}
use agent_task_executor.Claim.Lease.Clock.{lease_seconds}
use agent_task_executor.Claim.Lease.Create.{
  claimant_task_id, create_primary, primary_read, primary_answer, recovered_primary, finish_created,
  finish_claim_pair, second_created, claim_targets, claim_pair, claim_checked, is_taken,
  second_target_from_key,
}

abbrev pub same_target : ClaimTarget → ClaimTarget → Bool
same_target a b =
    text_eq a.task_id b.task_id
    && text_eq a.owner b.owner
    && text_eq a.repo b.repo
    && text_eq a.number b.number

pub same_target_refl : (a : ClaimTarget) → same_target a a ≡ true
same_target_refl a = ground (
  arith,
  text_eq_refl a.task_id,
  text_eq_refl a.owner,
  text_eq_refl a.repo,
  text_eq_refl a.number,
)

-- The trace asks the server to give back the lease at this address with this token.
abbrev gives_back : ClaimTarget → Text → List Event → Bool
gives_back target token [] = false
gives_back target token (release_call at t r ∷ es) =
    (same_target at target && text_eq t token) || gives_back target token es
gives_back target token (_ ∷ es) = gives_back target token es

-- Every lease that the trace acquires, it asks to give back later on.
abbrev pub balanced : List Event → Bool
balanced [] = true
balanced (acquire_call target claimant (ok c) ∷ es) =
    gives_back target c.lease_token es && balanced es
balanced (_ ∷ es) = balanced es

abbrev is_err : {E A : Type 0} → Result E A → Bool
is_err (ok a) = false
is_err (err e) = true

module _ {W : Type 0} (m : LeaseManager W) where
  -- The acquires of a create that are given to its caller.
  second_created-balanced :
      (primary : Text) (target : ClaimTarget) (secondary : Text) (second_target : ClaimTarget)
      (task_id : Text) (now : ℕ) (c : Claim × Bool) (r : Result Failure Claim) (s : State W)
      → let run = second_created m primary target secondary second_target task_id now c r s in
        is_err run.0 ≡ true
        → (gives_back target c.0.lease_token run.1 ≡ true) × (balanced run.1 ≡ true)
  unfolding second_created
  second_created-balanced primary target secondary second_target task_id now (c, b) (ok d) s h =
      absurd (ground (arith, h))
  second_created-balanced primary target secondary second_target task_id now (c, b) (err claim_held)
        s h =
      (ground (arith, same_target_refl target, text_eq_refl c.lease_token), refl)
  second_created-balanced primary target secondary second_target task_id now (c, b) (err f) s h =
      (ground (arith, same_target_refl target, text_eq_refl c.lease_token), ground arith)

  finish_claim_pair-balanced :
      (primary : Text) (target : ClaimTarget) (secondary : Text) (second_target : ClaimTarget)
      (task_id : Text) (now : ℕ) (c : Claim × Bool) (s : State W)
      → let run = finish_claim_pair m primary target secondary second_target task_id now c s in
        is_err run.0 ≡ true
        → (gives_back target c.0.lease_token run.1 ≡ true) × (balanced run.1 ≡ true)
  unfolding finish_claim_pair second_created
  finish_claim_pair-balanced primary target [] u task_id now c s h = absurd (ground (arith, h))
  finish_claim_pair-balanced primary target (x ∷ secondary) u task_id now c s h =
      with_answer
        (m.acquire caller u m.cluster (claimant_task_id u task_id) lease_seconds s.world).0
        (second_created-balanced primary target (x ∷ secondary) u task_id now c
          (m.acquire caller u m.cluster (claimant_task_id u task_id) lease_seconds s.world).0 s2 h)
        h
    where
      s2 : State W
      s2 = record s {
        world = (m.acquire caller u m.cluster (claimant_task_id u task_id) lease_seconds s.world).1;
      }

      with_answer :
          (r : Result Failure Claim)
          → (gives_back target c.0.lease_token
                (second_created m primary target (x ∷ secondary) u task_id now c r s2).1
              ≡ true)
            × (balanced (second_created m primary target (x ∷ secondary) u task_id now c r s2).1
                ≡ true)
          → is_err (second_created m primary target (x ∷ secondary) u task_id now c r s2).0 ≡ true
          → let t =
              acquire_call u (claimant_task_id u task_id) r
              ∷ (second_created m primary target (x ∷ secondary) u task_id now c r s2).1 in
            (gives_back target c.0.lease_token t ≡ true) × (balanced t ≡ true)
      with_answer (ok d) b e = absurd (ground (arith, e))
      with_answer (err f) b e = b

  create_primary-balanced :
      (target : ClaimTarget) (task_id : Text) (s : State W) (rest : List Event)
      → let run = create_primary m target task_id s in
        (is_err run.0 ≡ true → balanced run.1 ≡ true)
        × ((c : Claim × Bool)
            → run.0 ≡ ok c
            → gives_back target c.0.lease_token rest ≡ true
            → balanced rest ≡ true
            → balanced (run.1 ++ rest) ≡ true)
  unfolding create_primary primary_read primary_answer recovered_primary
  create_primary-balanced target task_id s rest = (λ h. ground arith, λ c e g b. ground arith)

  finish_created-balanced :
      (primary : Text) (target : ClaimTarget) (secondary : Text) (u : ClaimTarget) (task_id : Text)
      (now : ℕ) (s s' : State W) (r : Result ManagerError (Claim × Bool))
      → (create_primary m target task_id s).0 ≡ r
      → let run = finish_created m primary target secondary u task_id now r s' in
        is_err run.0 ≡ true → balanced ((create_primary m target task_id s).1 ++ run.1) ≡ true
  unfolding finish_created
  finish_created-balanced primary target secondary u task_id now s s' (err e) q h =
      rw append-nil ((create_primary-balanced target task_id s []).0 (ground (arith, q)))
  finish_created-balanced primary target secondary u task_id now s s' (ok c) q h =
      let rest = finish_claim_pair-balanced primary target secondary u task_id now c s' h in
      (create_primary-balanced target task_id s
          (finish_claim_pair m primary target secondary u task_id now c s').1).1
        c q rest.0 rest.1

  claim_checked-balanced :
      (primary secondary task_id : Text) (taken : Bool) (o p : Option ClaimTarget) (s : State W)
      → is_err (claim_checked m primary secondary task_id taken o p s).0 ≡ true
      → balanced (claim_checked m primary secondary task_id taken o p s).1 ≡ true
  unfolding claim_checked claim_targets
  claim_checked-balanced primary secondary task_id taken none p s h = refl
  claim_checked-balanced primary secondary task_id taken (some t) none s h = refl
  claim_checked-balanced primary secondary task_id true (some t) (some u) s h = refl
  claim_checked-balanced primary secondary task_id false (some t) (some u) s h =
      let s1 : State W = record s { world = (m.now s.world).1 } in
      finish_created-balanced primary t secondary u task_id (m.now s.world).0 s1
        (create_primary m t task_id s1).2 (create_primary m t task_id s1).0 refl h

  -- A create that fails asks the server, in the same call, to release every lease that it granted
  -- on the way, at the address and with the token of the grant, also the primary's when the
  -- secondary is refused. Whether the release succeeds is left open.
  pub claim_pair-balanced :
      (primary secondary task_id : Text) (s : State W) (e : ManagerError)
      → (claim_pair m primary secondary task_id s).0 ≡ err e
      → balanced (claim_pair m primary secondary task_id s).1 ≡ true
  unfolding claim_pair
  claim_pair-balanced primary secondary task_id s e h =
      claim_checked-balanced primary secondary task_id (is_taken m primary secondary s.held)
        (target_from_key primary) (second_target_from_key secondary) s (ap is_err h)
