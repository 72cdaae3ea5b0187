-- ===== src/Claim/Lease/Safety/Release.antt =====
-- What releases (pkg/claim/lease_manager.go, lease_manager_tick.go) do to the held claims.
use agent_task_executor.Common.{
  ℕ, ◌≡◌, refl, true, false, inl, inr, Option, none, some, Result, ok, arith, Bool-cases,
  Result-cases, ltb,
}
use agent_task_executor.Text.{Text}
use agent_task_executor.Text.Laws.{text_eq_refl}
use agent_task_executor.Claim.Target.{ClaimTarget}
use agent_task_executor.Claim.Client.{Failure}
use agent_task_executor.Claim.Lease.Store.{HeldClaim, find_held, find_held-find, held_keys}
use agent_task_executor.Claim.Lease.Clock.{is_zero}
use agent_task_executor.Claim.Lease.{Ctx, caller, State, LeaseManager, M, pure, Label, ManagerError}
use agent_task_executor.Claim.Lease.Safety.{
  Does, if-Does, same, dropped, changed, Outcome-Keeps, Keeps, Keeps-refl, Safe, Safe-for_each,
  Safe-step,
}
use mathlib.Core.List.{append-nil}
use agent_task_executor.Claim.Lease.Fence.{request_context}
use agent_task_executor.Claim.Lease.Release.{
  release_ref, release_ref_with_deadline, release_refs, release_locked, release_claim,
  release_after_success, hold_end, retry_release, retry_pending_releases, release_expired_hold,
  release_expired_holds, retry_release_step, expired_hold_step, release_step, success_step,
}

release_refs-held :
    {W : Type 0} (release : ClaimTarget → Text → M W (Result Failure Label))
    → ((target : ClaimTarget) (token : Text) (s : State W)
        → (release target token s).2.held ≡ s.held)
    → (h : HeldClaim) (s : State W) → (release_refs release h s).2.held ≡ s.held
unfolding release_refs
release_refs-held release same_held h s = elim (Result-cases (release h.target h.lease_token s).0) [
  | inr (f, e) ↦ ground (arith, e, same_held h.target h.lease_token s)
  | inl (p, e) ↦ ground (
    arith,
    e,
    same_held h.target h.lease_token s,
    same_held h.second_target h.second_token (release h.target h.lease_token s).2,
  )
]

module _ {W : Type 0} (m : LeaseManager W) where
  pub release_refs_plain-held :
      (ctx : Ctx) (h : HeldClaim) (s : State W)
      → (release_refs (release_ref m ctx) h s).2.held ≡ s.held
  unfolding release_ref
  release_refs_plain-held ctx = release_refs-held (release_ref m ctx) (λ target token s. refl)

  pub release_refs_deadline-held :
      (h : HeldClaim) (s : State W)
      → (release_refs (release_ref_with_deadline m) h s).2.held ≡ s.held
  unfolding release_ref_with_deadline
  release_refs_deadline-held =
      release_refs-held (release_ref_with_deadline m) (λ target token s. refl)

  -- The state after the answer to a question for the Job.
  abbrev pub asked : Ctx → HeldClaim → State W → State W
  asked ctx h s = record s { world = (m.is_job_running ctx h.task_id s.world).1 }

  pub release_locked-Outcome :
      (ctx : Ctx) (h : HeldClaim) (s : State W) → Does h s (release_locked m ctx h)
  unfolding release_locked
  release_locked-Outcome ctx h s = elim (Result-cases (m.is_job_running ctx h.task_id s.world).0) [
    | inr (f, e) ↦ same (ground (arith, e))
    | inl (true, e) ↦ same (ground (arith, e))
    | inl (false, e) ↦ elim (Result-cases (release_refs (release_ref m ctx) h (asked ctx h s)).0) [
      | inl (l, r) ↦
          dropped (ground (arith, e, r, release_refs_plain-held ctx h (asked ctx h s)))
            (inr (ground (arith, e, text_eq_refl h.task_id)))
      | inr (f, r) ↦
          changed (record h { release_pending = true })
            (ground (arith, e, r, release_refs_plain-held ctx h (asked ctx h s))) refl refl
            (inr (ground (arith, e, text_eq_refl h.task_id)))
    ]
  ]

  release_step-Outcome : (h : HeldClaim) (s : State W) → Does h s (release_step m h)
  unfolding release_step
  release_step-Outcome h s =
      if-Does h s1 (ltb (m.now s.world).0 h.hold_until) (pure (ok tt)) (release_locked m caller h)
        (λ _. same refl) (λ _. release_locked-Outcome caller h s1)
    where
      s1 : State W
      s1 = record s { world = (m.now s.world).1 }

  success_step-Outcome : (at : ℕ) (h : HeldClaim) (s : State W) → Does h s (success_step m at h)
  unfolding success_step
  success_step-Outcome at h s =
      if-Does h s1 (ltb now (hold_end m now at)) _ _
        (λ _.
          if-Does h s1 (ltb h.hold_until (hold_end m now at)) _ (pure (ok tt))
            (λ _. changed (record h { hold_until = hold_end m now at }) refl refl refl (inl refl))
            (λ _. same refl))
        (λ _.
          if-Does h s1 (ltb now h.hold_until) (pure (ok tt)) (release_locked m caller h)
            (λ _. same refl) (λ _. release_locked-Outcome caller h s1))
    where
      now : ℕ
      now = (m.now s.world).0

      s1 : State W
      s1 = record s { world = (m.now s.world).1 }

  -- A step on the claim that `findHeld` gives.
  found_held :
      (f : HeldClaim → M W (Result ManagerError (Unit {0})))
      → ((h : HeldClaim) (s : State W) → Does h s (f h))
      → (key : Text) (s : State W) (o : Option HeldClaim) → find_held key s.held ≡ o
      → Keeps s
          ((elim o as (λ _. M W (Result ManagerError (Unit {0}))) [
            | none ↦ pure (ok tt)
            | some h ↦ f h
          ])
            s).1
          ((elim o as (λ _. M W (Result ManagerError (Unit {0}))) [
            | none ↦ pure (ok tt)
            | some h ↦ f h
          ])
            s).2
  found_held f does key s none e = Keeps-refl s
  found_held f does key s (some h) e =
      Outcome-Keeps h s (f h s).1 (f h s).2 (find_held-find key s.held h e) (does h s)

  -- `Release` drops a claim only after the cluster said that its Job is gone.
  pub release_claim-Safe : (key : Text) → Safe (release_claim m key)
  unfolding release_claim
  release_claim-Safe key s =
      found_held (release_step m) release_step-Outcome key s (find_held key s.held) refl

  pub release_after_success-Safe : (key : Text) (at : ℕ) → Safe (release_after_success m key at)
  unfolding release_after_success
  release_after_success-Safe key at s =
      found_held (success_step m at) (success_step-Outcome at) key s (find_held key s.held) refl

  retry_release_step-Outcome :
      (h : HeldClaim) (s : State W) → Does h s (retry_release_step m h.key h)
  unfolding retry_release_step
  retry_release_step-Outcome h s = elim (Bool-cases h.release_pending) [
    | inr p ↦ same (ground (arith, p))
    | inl p ↦ elim (Result-cases (release_refs (release_ref_with_deadline m) h s).0) [
      | inl (l, e) ↦ dropped (ground (arith, p, e, release_refs_deadline-held h s)) (inl p)
      | inr (f, e) ↦ same (ground (arith, p, e, release_refs_deadline-held h s))
    ]
  ]

  pub retry_pending_releases-Safe : Safe (retry_pending_releases m)
  unfolding retry_pending_releases retry_release
  retry_pending_releases-Safe s =
      Safe-for_each (held_keys s.held) (retry_release m)
        (Safe-step (retry_release_step m) retry_release_step-Outcome) s

  expired_hold_step-Outcome :
      (now : ℕ) (h : HeldClaim) (s : State W) → Does h s (expired_hold_step m now h)
  unfolding expired_hold_step request_context
  expired_hold_step-Outcome now h s =
      if-Does h s (is_zero h.hold_until) _ _ (λ _. same refl)
        (λ _.
          if-Does h s (ltb now h.hold_until) _ _ (λ _. same refl)
            (λ _.
              simp append-nil
                (release_locked-Outcome _ h (record s { world = (m.now s.world).1 }))))

  pub release_expired_holds-Safe : Safe (release_expired_holds m)
  unfolding release_expired_holds release_expired_hold
  release_expired_holds-Safe s =
      Safe-for_each (held_keys s.held) (release_expired_hold m (m.now s.world).0)
        (Safe-step (λ key h. expired_hold_step m (m.now s.world).0 h)
          (expired_hold_step-Outcome (m.now s.world).0))
        (record s { world = (m.now s.world).1 })
