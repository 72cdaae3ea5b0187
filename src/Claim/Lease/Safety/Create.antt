-- ===== src/Claim/Lease/Safety/Create.antt =====
-- What `ClaimPair` (pkg/claim/lease_manager.go) does to the held claims.
use agent_task_executor.Common.{
  ℕ, ◌≡◌, refl, ap, ◌∙◌, Bool, true, false, ◌⊎◌, inl, inr, List, [], ◌∷◌, Option, none, some,
  Result, ok, err, arith, Bool-cases,
}
use agent_task_executor.Text.{Text, text_eq}
use agent_task_executor.Text.Laws.{eq_of_text_eq}
use agent_task_executor.Claim.Target.{ClaimTarget}
use agent_task_executor.Claim.Client.{
  Claim, Failure, lease_lost, claim_held, claim_free, target_invalid, other,
}
use agent_task_executor.Claim.Lease.Store.{HeldClaim, find, find_held, insert, find-insert}
use agent_task_executor.Claim.Lease.{caller, State, LeaseManager, Event, ManagerError}
use agent_task_executor.Claim.Lease.Safety.{held, Keeps, Safe}
use agent_task_executor.Claim.Key.{target_from_key}
use agent_task_executor.Claim.Target.{no_target}
use agent_task_executor.Claim.Lease.{client_error, lease_conflict, bad_key}
use agent_task_executor.Claim.Lease.Clock.{lease_seconds}
use agent_task_executor.Claim.Lease.Create.{
  HeldClaimView, claimant_task_id, new_held, create_primary, primary_read, primary_answer,
  recovered_primary, finish_created, finish_claim_pair, second_created, claim_targets, claim_pair,
  claim_checked, is_taken, second_target_from_key,
}

-- What a create does to the map: nothing if it fails; else it stores the new claim, with no other
-- path pending, under its key.
pub data Created (key second_key task_id : Text) (hs : List HeldClaim)
    (r : Result ManagerError HeldClaimView) (hs' : List HeldClaim) : Type 0 where
  refused : (e : ManagerError) → r ≡ err e → hs' ≡ hs → Created key second_key task_id hs r hs'
  stored :
      (c : Claim) (d : Option Claim) (target second_target : ClaimTarget) (now : ℕ)
      → r
        ≡ ok (record {
          key = key;
          task_id = task_id;
          lease_token = c.lease_token;
          lease_until = c.lease_until;
        })
      → hs' ≡ insert (new_held key target second_key second_target task_id c d now) hs
      → Created key second_key task_id hs r hs'

module _ {W : Type 0} (m : LeaseManager W) where
  pub create_primary-held :
      (target : ClaimTarget) (task_id : Text) (s : State W)
      → (create_primary m target task_id s).2.held ≡ s.held
  unfolding create_primary primary_read primary_answer recovered_primary
  create_primary-held target task_id s = ground arith

  second_created-Created :
      (primary : Text) (target : ClaimTarget) (secondary : Text) (second_target : ClaimTarget)
      (task_id : Text) (now : ℕ) (c : Claim × Bool) (r : Result Failure Claim) (s : State W)
      → let run = second_created m primary target secondary second_target task_id now c r s in
        Created primary secondary task_id s.held run.0 run.2.held
  unfolding second_created
  second_created-Created primary target secondary second_target task_id now c (ok d) s =
      stored c.0 (some d) target second_target now refl refl
  second_created-Created primary target secondary second_target task_id now c (err claim_held) s =
      refused lease_conflict refl refl
  second_created-Created primary target secondary second_target task_id now c (err claim_free) s =
      refused (client_error claim_free) refl refl
  second_created-Created primary target secondary second_target task_id now c (err lease_lost) s =
      refused (client_error lease_lost) refl refl
  second_created-Created primary target secondary second_target task_id now c (err target_invalid)
        s =
      refused (client_error target_invalid) refl refl
  second_created-Created primary target secondary second_target task_id now c (err other) s =
      refused (client_error other) refl refl

  finish_claim_pair-Created :
      (primary : Text) (target : ClaimTarget) (secondary : Text) (second_target : ClaimTarget)
      (task_id : Text) (now : ℕ) (c : Claim × Bool) (s : State W)
      → let run = finish_claim_pair m primary target secondary second_target task_id now c s in
        Created primary secondary task_id s.held run.0 run.2.held
  unfolding finish_claim_pair
  finish_claim_pair-Created primary target [] second_target task_id now c s =
      stored c.0 none target no_target now refl refl
  finish_claim_pair-Created primary target (x ∷ secondary) second_target task_id now c s =
      let answer =
        m.acquire caller second_target m.cluster (claimant_task_id second_target task_id)
          lease_seconds s.world in
      second_created-Created primary target (x ∷ secondary) second_target task_id now c answer.0
        (record s { world = answer.1 })

  -- From a state with the same claims.
  pub same_claims :
      (key second_key task_id : Text) (hs hs' hs'' : List HeldClaim)
      (r : Result ManagerError HeldClaimView)
      → hs' ≡ hs
      → Created key second_key task_id hs' r hs''
      → Created key second_key task_id hs r hs''
  same_claims key second_key task_id hs hs' hs'' r e (refused f p q) = refused f p (q ∙ e)
  same_claims key second_key task_id hs hs' hs'' r e (stored c d t u now p q) =
      stored c d t u now p (q ∙ ap (insert (new_held key t second_key u task_id c d now)) e)

  finish_created-Created :
      (primary : Text) (target : ClaimTarget) (secondary : Text) (second_target : ClaimTarget)
      (task_id : Text) (now : ℕ) (c : Result ManagerError (Claim × Bool)) (s : State W)
      → let run = finish_created m primary target secondary second_target task_id now c s in
        Created primary secondary task_id s.held run.0 run.2.held
  unfolding finish_created
  finish_created-Created primary target secondary second_target task_id now (err e) s =
      refused e refl refl
  finish_created-Created primary target secondary second_target task_id now (ok c) s =
      finish_claim_pair-Created primary target secondary second_target task_id now c s

  pub claim_targets-Created :
      (primary : Text) (target : ClaimTarget) (secondary : Text) (second_target : ClaimTarget)
      (task_id : Text) (s : State W)
      → let run = claim_targets m primary target secondary second_target task_id s in
        Created primary secondary task_id s.held run.0 run.2.held
  unfolding claim_targets
  claim_targets-Created primary target secondary second_target task_id s =
      let s1 : State W = record s { world = (m.now s.world).1 } in
      let c = create_primary m target task_id s1 in
      let run =
        finish_created m primary target secondary second_target task_id (m.now s.world).0 c.0 c.2 in
      same_claims primary secondary task_id s.held c.2.held run.2.held run.0
        (create_primary-held target task_id s1)
        (finish_created-Created primary target secondary second_target task_id (m.now s.world).0 c.0
          c.2)

  claim_checked-Created :
      (primary secondary task_id : Text) (taken : Bool) (o p : Option ClaimTarget) (s : State W)
      → let run = claim_checked m primary secondary task_id taken o p s in
        Created primary secondary task_id s.held run.0 run.2.held
        × ((taken ≡ false) ⊎ (run.2.held ≡ s.held))
  unfolding claim_checked
  claim_checked-Created primary secondary task_id taken none p s =
      (refused bad_key refl refl, inr refl)
  claim_checked-Created primary secondary task_id taken (some target) none s =
      (refused bad_key refl refl, inr refl)
  claim_checked-Created primary secondary task_id true (some target) (some u) s =
      (refused lease_conflict refl refl, inr refl)
  claim_checked-Created primary secondary task_id false (some target) (some u) s =
      (claim_targets-Created primary target secondary u task_id s, inl refl)

  -- What `ClaimPair` returns and what it does to the held claims: either it fails and leaves them as
  -- they were, or it stores one claim under the primary key, with the secondary key, the task and
  -- the server's token and lease, which it returns. It changes the held claims only if neither key
  -- was held.
  pub claim_pair-Created :
      (primary secondary task_id : Text) (s : State W)
      → let run = claim_pair m primary secondary task_id s in
        Created primary secondary task_id s.held run.0 run.2.held
        × ((is_taken m primary secondary s.held ≡ false) ⊎ (run.2.held ≡ s.held))
  unfolding claim_pair
  claim_pair-Created primary secondary task_id s =
      claim_checked-Created primary secondary task_id (is_taken m primary secondary s.held)
        (target_from_key primary) (second_target_from_key secondary) s

  -- A store under a key that is not held keeps the other claims.
  insert-Keeps :
      (h : HeldClaim) (s s' : State W) (t : List Event)
      → find h.key s.held ≡ none
      → s'.held ≡ insert h s.held
      → Keeps s t s'
  insert-Keeps h s s' t free e k j f p = elim (Bool-cases (text_eq h.key k)) [
    | inl c ↦ absurd (ground (arith, eq_of_text_eq h.key k))
    | inr c ↦ held j (ground (arith, find-insert k h s.held)) refl p
  ]

  not_taken :
      (primary secondary : Text) (hs : List HeldClaim)
      → is_taken m primary secondary hs ≡ false
      → find primary hs ≡ none
  unfolding find_held
  not_taken primary secondary hs h = ground arith

  pub Created-Keeps :
      (primary secondary task_id : Text) (r : Result ManagerError HeldClaimView) (t : List Event)
      (s s' : State W)
      → Created primary secondary task_id s.held r s'.held
      → (is_taken m primary secondary s.held ≡ false) ⊎ (s'.held ≡ s.held)
      → Keeps s t s'
  Created-Keeps primary secondary task_id r t s s' c (inr e) = λ k h f p. held h (rw e f) refl p
  Created-Keeps primary secondary task_id r t s s' (refused e p q) (inl n) =
      λ k h f p'. held h (rw q f) refl p'
  Created-Keeps primary secondary task_id r t s s' (stored c d target u now p q) (inl n) =
      insert-Keeps (new_held primary target secondary u task_id c d now) s s' t
        (not_taken primary secondary s.held n) q

  pub claim_pair-Safe :
      (primary secondary task_id : Text) → Safe (claim_pair m primary secondary task_id)
  claim_pair-Safe primary secondary task_id s =
      let run = claim_pair m primary secondary task_id s in
      let (created, free) = claim_pair-Created primary secondary task_id s in
      Created-Keeps primary secondary task_id run.0 run.1 s run.2 created free
