-- ===== src/Claim/Lease/Grant.antt =====
-- Where the claim that `ClaimPair` (pkg/claim/lease_manager.go) stores comes from: its addresses
-- are those of its keys, its tokens and its lease those of the server's answers.
pub mod Outcome
use agent_task_executor.Common.{
  ℕ, ◌≡◌, refl, ap, subst, Bool, true, false, ◌⊎◌, inl, inr, List, [], ◌∷◌, ◌++◌, Option, none,
  some, Result, ok, err, arith, if◌then◌else◌, ◌∙◌, sym,
}
use agent_task_executor.Text.{Text, text_eq}
use agent_task_executor.Claim.Target.{ClaimTarget, no_target}
use agent_task_executor.Claim.Client.{
  Claim, Failure, lease_lost, claim_held, claim_free, target_invalid, other,
}
use agent_task_executor.Claim.Key.{target_from_key}
use agent_task_executor.Claim.Lease.Store.{HeldClaim, insert}
use agent_task_executor.Claim.Lease.Clock.{lease_seconds}
use agent_task_executor.Claim.Lease.{
  caller, recovery, State, LeaseManager, M, Event, acquire_call, read_call, ManagerError,
  client_error, lease_conflict, bad_key,
}
use agent_task_executor.Claim.Lease.Create.{
  HeldClaimView, claimant_task_id, new_held, read_back_result, create_primary, primary_read,
  primary_answer, recovered_primary, finish_created, finish_claim_pair, second_created,
  claim_targets, claim_pair, claim_checked, is_taken, held_by_us, second_target_from_key,
}
use agent_task_executor.Claim.Lease.Safety.Create.{create_primary-held}
use agent_task_executor.Claim.Lease.Grant.Outcome.{
  Some, Some-left, Some-right, Acquires, Answers, claim_or, Grants, fails, grants,
}

module _ {W : Type 0} (m : LeaseManager W) where
  -- What the read-back shows counts if it is this cluster's.
  shown-Some :
      (target : ClaimTarget) (d : Claim) (f : Failure) (b : Bool) (c : Claim × Bool)
      → text_eq d.holder m.cluster ≡ b
      → (if b then ok (d, true) else err (client_error f)) ≡ ok c
      → Some (Answers m.cluster target c.0) (read_call target (ok d) ∷ [])
  shown-Some target d f true c h e =
      subst (λ x. Some (Answers m.cluster target x) (read_call target (ok d) ∷ []))
        (ap (claim_or d) e) (inl (inr (refl, h)))
  shown-Some target d f false c h e = absurd (ground (arith, e))

  if-value :
      (b : Bool) (x y : M W (Result ManagerError (Claim × Bool))) (s : State W)
      → ((if b then x else y) s).0 ≡ (if b then (x s).0 else (y s).0)
  if-value true x y s = refl
  if-value false x y s = refl

  recovered_primary-Some :
      (target : ClaimTarget) (f : Failure) (r : Result Failure Claim) (c : Claim × Bool)
      (s : State W)
      → (recovered_primary m f (read_back_result r) s).0 ≡ ok c
      → Some (Answers m.cluster target c.0) (read_call target r ∷ [])
  unfolding recovered_primary held_by_us
  recovered_primary-Some target f (ok d) c s e =
      shown-Some target d f (text_eq d.holder m.cluster) c refl
        (sym (if-value (text_eq d.holder m.cluster) _ _ s) ∙ e)
  recovered_primary-Some target f (err claim_free) c s e = absurd (ground (arith, e))
  recovered_primary-Some target f (err claim_held) c s e = absurd (ground (arith, e))
  recovered_primary-Some target f (err lease_lost) c s e = absurd (ground (arith, e))
  recovered_primary-Some target f (err target_invalid) c s e = absurd (ground (arith, e))
  recovered_primary-Some target f (err other) c s e = absurd (ground (arith, e))

  after_failure-Some :
      (target : ClaimTarget) (f : Failure) (c : Claim × Bool) (s : State W)
      → let r = m.read recovery target s.world in
        (recovered_primary m f (read_back_result r.0) (record s { world = r.1 })).0 ≡ ok c
        → Some (Answers m.cluster target c.0) (
            read_call target r.0
            ∷ (recovered_primary m f (read_back_result r.0) (record s { world = r.1 })).1)
  after_failure-Some target f c s e =
      let r = m.read recovery target s.world in
      Some-left (Answers m.cluster target c.0) (read_call target r.0 ∷ []) _
        (recovered_primary-Some target f r.0 c (record s { world = r.1 }) e)

  primary_answer-Some :
      (target : ClaimTarget) (claimant : Text) (r : Result Failure Claim) (c : Claim × Bool)
      (s : State W)
      → (primary_answer m target r s).0 ≡ ok c
      → Some
          (Answers m.cluster target c.0)
          (acquire_call target claimant r ∷ (primary_answer m target r s).1)
  unfolding primary_answer
  primary_answer-Some target claimant (ok d) c s e =
      subst (λ x. Some (Answers m.cluster target x) (acquire_call target claimant (ok d) ∷ []))
        (ap (claim_or d) e) (inl (inl (claimant, refl)))
  primary_answer-Some target claimant (err claim_held) c s e = absurd (ground (arith, e))
  primary_answer-Some target claimant (err claim_free) c s e =
      inr (after_failure-Some target claim_free c s e)
  primary_answer-Some target claimant (err lease_lost) c s e =
      inr (after_failure-Some target lease_lost c s e)
  primary_answer-Some target claimant (err target_invalid) c s e =
      inr (after_failure-Some target target_invalid c s e)
  primary_answer-Some target claimant (err other) c s e =
      inr (after_failure-Some target other c s e)

  primary_read-Some :
      (target : ClaimTarget) (task_id : Text) (r : Result Failure (Option Claim)) (c : Claim × Bool)
      (s : State W)
      → (primary_read m target task_id r s).0 ≡ ok c
      → Some (Answers m.cluster target c.0) (primary_read m target task_id r s).1
  unfolding primary_read
  primary_read-Some target task_id (err f) c s e = absurd (ground (arith, e))
  primary_read-Some target task_id (ok (some d)) c s e = absurd (ground (arith, e))
  primary_read-Some target task_id (ok none) c s e =
      let claimant = claimant_task_id target task_id in
      let r = m.acquire caller target m.cluster claimant lease_seconds s.world in
      primary_answer-Some target claimant r.0 c (record s { world = r.1 }) e

  create_primary-Some :
      (target : ClaimTarget) (task_id : Text) (c : Claim × Bool) (s : State W)
      → (create_primary m target task_id s).0 ≡ ok c
      → Some (Answers m.cluster target c.0) (create_primary m target task_id s).1
  unfolding create_primary
  create_primary-Some target task_id c s e =
      let r = m.read caller target s.world in
      inr (primary_read-Some target task_id (read_back_result r.0) c (record s { world = r.1 }) e)

  module _ (primary : Text) (target : ClaimTarget) (task_id : Text) (now : ℕ)
      (address : target_from_key primary ≡ some target) where
    second_created-Grants :
        (x : ℕ) (secondary : Text) (u : ClaimTarget) (claimant : Text) (c : Claim × Bool)
        (t : List Event) (r : Result Failure Claim) (s : State W)
        → second_target_from_key (x ∷ secondary) ≡ some u
        → Some (Answers m.cluster target c.0) t
        → let run = second_created m primary target (x ∷ secondary) u task_id now c r s in
          Grants m.cluster primary
            (x ∷ secondary)
            task_id
            now
            s.held
            (t ++ (acquire_call u claimant r ∷ run.1))
            run.0
            run.2.held
    unfolding second_created
    second_created-Grants x secondary u claimant c t (ok d) s second a =
        let event : Event = acquire_call u claimant (ok d) in
        grants (new_held primary target (x ∷ secondary) u task_id c.0 (some d) now)
          (record {
            claim = c.0;
            answered = Some-left (Answers m.cluster target c.0) t _ a;
            keys = (refl, refl, refl);
            address = address;
            second_address = second;
            lease = (refl, refl);
            second = (d, refl, Some-right (Acquires u d) t _ (inl (claimant, refl)));
            renewed = refl;
            nothing_pending = (refl, refl);
            returned = refl;
          })
          refl
    second_created-Grants x secondary u claimant c t (err claim_held) s second a =
        fails lease_conflict refl refl
    second_created-Grants x secondary u claimant c t (err claim_free) s second a =
        fails (client_error claim_free) refl refl
    second_created-Grants x secondary u claimant c t (err lease_lost) s second a =
        fails (client_error lease_lost) refl refl
    second_created-Grants x secondary u claimant c t (err target_invalid) s second a =
        fails (client_error target_invalid) refl refl
    second_created-Grants x secondary u claimant c t (err other) s second a =
        fails (client_error other) refl refl

    finish_claim_pair-Grants :
        (secondary : Text) (u : ClaimTarget) (c : Claim × Bool) (t : List Event) (s : State W)
        → second_target_from_key secondary ≡ some u
        → Some (Answers m.cluster target c.0) t
        → let run = finish_claim_pair m primary target secondary u task_id now c s in
          Grants m.cluster primary secondary task_id now s.held (t ++ run.1) run.0 run.2.held
    unfolding finish_claim_pair
    finish_claim_pair-Grants [] u c t s second a =
        grants (new_held primary target [] no_target task_id c.0 none now)
          (record {
            claim = c.0;
            answered = Some-left (Answers m.cluster target c.0) t _ a;
            keys = (refl, refl, refl);
            address = address;
            second_address = refl;
            lease = (refl, refl);
            second = refl;
            renewed = refl;
            nothing_pending = (refl, refl);
            returned = refl;
          })
          refl
    finish_claim_pair-Grants (x ∷ secondary) u c t s second a =
        let claimant = claimant_task_id u task_id in
        let r = m.acquire caller u m.cluster claimant lease_seconds s.world in
        second_created-Grants x secondary u claimant c t r.0 (record s { world = r.1 }) second a

    finish_created-Grants :
        (secondary : Text) (u : ClaimTarget) (r : Result ManagerError (Claim × Bool))
        (t : List Event) (s : State W)
        → second_target_from_key secondary ≡ some u
        → ((c : Claim × Bool) → r ≡ ok c → Some (Answers m.cluster target c.0) t)
        → let run = finish_created m primary target secondary u task_id now r s in
          Grants m.cluster primary secondary task_id now s.held (t ++ run.1) run.0 run.2.held
    unfolding finish_created
    finish_created-Grants secondary u (err e) t s second a = fails e refl refl
    finish_created-Grants secondary u (ok c) t s second a =
        finish_claim_pair-Grants secondary u c t s second (a c refl)

  same-Grants :
      (key second_key task_id : Text) (now : ℕ) (hs hs' hs'' : List HeldClaim) (t : List Event)
      (r : Result ManagerError HeldClaimView)
      → hs' ≡ hs
      → Grants m.cluster key second_key task_id now hs' t r hs''
      → Grants m.cluster key second_key task_id now hs t r hs''
  same-Grants key second_key task_id now hs hs' hs'' t r e (fails f p q) = fails f p (q ∙ e)
  same-Grants key second_key task_id now hs hs' hs'' t r e (grants h g q) =
      grants h g (q ∙ ap (insert h) e)

  claim_checked-Grants :
      (primary secondary task_id : Text) (taken : Bool) (o p : Option ClaimTarget) (s : State W)
      → target_from_key primary ≡ o
      → second_target_from_key secondary ≡ p
      → let run = claim_checked m primary secondary task_id taken o p s in
        Grants m.cluster primary secondary task_id (m.now s.world).0 s.held run.1 run.0 run.2.held
        × ((taken ≡ false) ⊎ (run.2.held ≡ s.held))
  unfolding claim_checked claim_targets
  claim_checked-Grants primary secondary task_id taken none p s e f =
      (fails bad_key refl refl, inr refl)
  claim_checked-Grants primary secondary task_id taken (some target) none s e f =
      (fails bad_key refl refl, inr refl)
  claim_checked-Grants primary secondary task_id true (some target) (some u) s e f =
      (fails lease_conflict refl refl, inr refl)
  claim_checked-Grants primary secondary task_id false (some target) (some u) s e f =
      let now : ℕ = (m.now s.world).0 in
      let s1 : State W = record s { world = (m.now s.world).1 } in
      let c = create_primary m target task_id s1 in
      let run = finish_created m primary target secondary u task_id now c.0 c.2 in
      (
        same-Grants primary secondary task_id now s.held c.2.held run.2.held (c.1 ++ run.1) run.0
            (create_primary-held m target task_id s1)
            (finish_created-Grants primary target task_id now e secondary u c.0 c.1 c.2 f
              (λ d g. create_primary-Some target task_id d s1 g)),
        inl refl,
      )

  -- What `ClaimPair` returns and what it does to the held claims. Either it fails and leaves them as
  -- they were. Or it stores one claim under the primary key, with the secondary key, the task and
  -- the time of the call, nothing pending, and the addresses that the keys parse to; its token and
  -- lease, which are returned, are those of a claim that the server granted at the primary's address
  -- in this call, or showed there as this cluster's, and its second token is that of a claim
  -- granted at the secondary's address, or empty without a secondary. It changes the held claims
  -- only if neither key was held.
  pub claim_pair-Grants :
      (primary secondary task_id : Text) (s : State W)
      → let run = claim_pair m primary secondary task_id s in
        Grants m.cluster primary secondary task_id (m.now s.world).0 s.held run.1 run.0 run.2.held
        × ((is_taken m primary secondary s.held ≡ false) ⊎ (run.2.held ≡ s.held))
  unfolding claim_pair
  claim_pair-Grants primary secondary task_id s =
      claim_checked-Grants primary secondary task_id (is_taken m primary secondary s.held)
        (target_from_key primary) (second_target_from_key secondary) s refl refl
