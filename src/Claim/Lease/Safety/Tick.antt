-- ===== src/Claim/Lease/Safety/Tick.antt =====
-- What a pass of the lease loop (pkg/claim/lease_manager_tick.go) does to the held claims.
use agent_task_executor.Common.{
  ℕ, ◌≡◌, refl, Bool, true, false, inl, inr, List, [], ◌∷◌, ◌++◌, Result, ok, err, arith,
  Result-cases, not, if◌then◌else◌, if-intro, ltb, ◌-◌, leb,
}
use agent_task_executor.Text.{Text}
use agent_task_executor.Text.Laws.{text_eq_refl}
use agent_task_executor.Claim.Client.{Failure}
use agent_task_executor.Claim.Lease.Store.{HeldClaim, update, held_keys}
use agent_task_executor.Claim.Lease.Clock.{jobless_grace, zero_time, jobless_pass_budget}
use agent_task_executor.Claim.Lease.{
  Ctx, caller, until, State, LeaseManager, M, Event, asked_running, ◌>>=◌, ◌>>◌, pure, ctx_done,
}
use agent_task_executor.Claim.Lease.Safety.{
  Outcome, Does, if-Does, write-Outcome, same, dropped, changed, Keeps, Keeps-refl, gone_in, Safe,
  Safe->>=, Safe-for_each, Safe-same, Safe-step,
}
use agent_task_executor.Claim.Lease.{counted, jobless_released}
use agent_task_executor.Claim.Lease.Clock.{request_deadline}
use agent_task_executor.Claim.Lease.Safety.{gone_in-append}
use agent_task_executor.Claim.Lease.Fence.{request_context, retry_pending_deletions, evaluate_fence}
use agent_task_executor.Claim.Lease.Release.{
  release_ref_with_deadline, release_refs, retry_pending_releases, release_expired_holds,
}
use agent_task_executor.Claim.Lease.Renew.{renew_due_claims}
use agent_task_executor.Claim.Lease.Tick.{
  release_after_running_check, check_jobless, without_job, check_jobless_key, check_jobless_keys,
  release_jobless_claims, recheck_claim, recheck_answer, jobless_answer, checked_at, recheck_key,
  recheck_running, tick_rest, tick_fence, tick, jobless_due_keys,
}
use agent_task_executor.Claim.Lease.Safety.Fence.{evaluate_fence-Safe, retry_pending_deletions-Safe}
use agent_task_executor.Claim.Lease.Safety.Release.{
  release_refs_deadline-held, asked, retry_pending_releases-Safe, release_expired_holds-Safe,
}
use agent_task_executor.Claim.Lease.Safety.Renew.{renew_due_claims-Safe}

module _ {W : Type 0} (m : LeaseManager W) where
  after_check-Outcome :
      (h : HeldClaim) (s : State W) (t : List Event)
      → gone_in h.task_id t ≡ true
      → Outcome h s.held
          (t ++ (release_after_running_check m h.key h s).1)
          (release_after_running_check m h.key h s).2.held
  unfolding release_after_running_check
  after_check-Outcome h s t g =
      elim (Result-cases (release_refs (release_ref_with_deadline m) h s).0) [
        | inl (l, e) ↦ dropped (ground (arith, e, release_refs_deadline-held m h s)) (
            inr (
              ground
                (arith, gone_in-append h.task_id t (release_after_running_check m h.key h s).1)))
        | inr (f, e) ↦
            changed (record h { release_pending = true })
              (ground (arith, e, release_refs_deadline-held m h s)) refl refl
              (inr (
                ground
                  (arith, gone_in-append h.task_id t (release_after_running_check m h.key h s).1)))
      ]

  recheck_answer-Outcome :
      (h : HeldClaim) (r : Result Failure Bool) (s : State W)
      → Outcome h s.held
          (asked_running h.task_id r ∷ (recheck_answer m h.key h r s).1)
          (recheck_answer m h.key h r s).2.held
  unfolding recheck_answer
  recheck_answer-Outcome h (err f) s = same refl
  recheck_answer-Outcome h (ok true) s =
      changed (record h { needs_running_check = false }) refl refl refl (inl refl)
  recheck_answer-Outcome h (ok false) s =
      after_check-Outcome h s (asked_running h.task_id (ok false) ∷ [])
        (ground (arith, text_eq_refl h.task_id))

  recheck_claim-Outcome : (h : HeldClaim) (s : State W) → Does h s (recheck_claim m h.key h)
  unfolding recheck_claim
  recheck_claim-Outcome h s =
      if-Does h s (not h.needs_running_check) _ _ (λ _. same refl)
        (λ _.
          recheck_answer-Outcome h (m.is_job_running caller h.task_id s.world).0
            (asked m caller h s))

  recheck_running-Safe : Safe (recheck_running m)
  unfolding recheck_running recheck_key
  recheck_running-Safe s =
      Safe-for_each (held_keys s.held) (recheck_key m)
        (Safe-step (recheck_claim m) recheck_claim-Outcome) s

  jobless_answer-Outcome :
      (now : ℕ) (h : HeldClaim) (r : Result Failure Bool) (s : State W)
      → Outcome h s.held
          (asked_running h.task_id r ∷ (jobless_answer m now h.key h r s).1)
          (jobless_answer m now h.key h r s).2.held
  unfolding jobless_answer
  jobless_answer-Outcome now h (err f) s = same refl
  jobless_answer-Outcome now h (ok true) s =
      changed (record h { last_jobless_check_at = now; jobless_since = zero_time }) refl refl refl
        (inl refl)
  jobless_answer-Outcome now h (ok false) s =
      write-Outcome h w s.held (update w s.held) _ _ refl refl refl refl (
        if-intro
          (λ (f : M W (Unit {0})).
            Outcome w (update w s.held) (asked_running h.task_id (ok false) ∷ (f s2).1)
              (f s2).2.held)
          (ltb (now - w.jobless_since) jobless_grace) _ _ (same refl)
          (after_check-Outcome w s2
            (asked_running h.task_id (ok false) ∷ counted jobless_released ∷ [])
            (ground (arith, text_eq_refl h.task_id))))
    where
      w : HeldClaim
      w = without_job now h

      s2 : State W
      s2 = record s { held = update w s.held }

  check_jobless-Outcome :
      (now : ℕ) (h : HeldClaim) (s : State W) → Does h s (check_jobless m now h.key h)
  unfolding check_jobless request_context
  check_jobless-Outcome now h s =
      let w : HeldClaim = checked_at m now h in
      let ctx : Ctx = until (request_deadline (m.now s.world).0 (update w s.held)) in
      let answer = m.is_job_running ctx h.task_id (m.now s.world).1 in
      let s2 : State W = record { held = update w s.held; world = answer.1 } in
      write-Outcome h w s.held s2.held (jobless_answer m now h.key w answer.0 s2).2.held
        (asked_running h.task_id answer.0 ∷ (jobless_answer m now h.key w answer.0 s2).1) refl refl
        refl refl (jobless_answer-Outcome now w answer.0 s2)

  check_jobless_key-Safe : (now : ℕ) (key : Text) → Safe (check_jobless_key m now key)
  unfolding check_jobless_key
  check_jobless_key-Safe now = Safe-step (check_jobless m now) (check_jobless-Outcome now)

  check_jobless_keys-Safe : (now : ℕ) (keys : List Text) → Safe (check_jobless_keys m now keys)
  unfolding check_jobless_keys
  check_jobless_keys-Safe now [] s = Keeps-refl s
  check_jobless_keys-Safe now (key ∷ keys) s =
      let s1 : State W = record s { world = (m.done s.world).1 } in
      let s2 : State W = record s1 { world = (m.now s1.world).1 } in
      if-intro (λ (f : M W (Unit {0})). Keeps s (f s1).1 (f s1).2) (m.done s.world).0 _ _
        (Keeps-refl s)
        (if-intro (λ (f : M W (Unit {0})). Keeps s (f s2).1 (f s2).2)
          (leb jobless_pass_budget ((m.now s1.world).0 - now)) _ _ (Keeps-refl s)
          (Safe->>= (check_jobless_key m now key) (λ _. check_jobless_keys m now keys)
            (check_jobless_key-Safe now key) (λ _. check_jobless_keys-Safe now keys) s2))

  release_jobless_claims-Safe : Safe (release_jobless_claims m)
  unfolding release_jobless_claims
  release_jobless_claims-Safe s =
      check_jobless_keys-Safe (m.now s.world).0 (jobless_due_keys (m.now s.world).0 s.held)
        (record s { world = (m.now s.world).1 })

  -- Asking whether the context is done leaves the claims alone.
  ask_done-Safe :
      (f : M W Bool) → Safe f → Safe (ctx_done m >>= λ done. if done then pure true else f)
  ask_done-Safe f safe s =
      let s1 : State W = record s { world = (m.done s.world).1 } in
      if-intro (λ (g : M W Bool). Keeps s (g s1).1 (g s1).2) (m.done s.world).0 (pure true) f
        (Keeps-refl s) (safe s1)

  tick_rest-Safe : Safe (tick_rest m)
  unfolding tick_rest
  tick_rest-Safe =
      Safe->>= (retry_pending_releases m) (λ _. after_releases) (retry_pending_releases-Safe m)
        λ _.
          Safe->>= (release_expired_holds m) (λ _. after_holds) (release_expired_holds-Safe m)
            λ _.
              Safe->>= (release_jobless_claims m) (λ _. after_jobless) release_jobless_claims-Safe
                λ _.
                  Safe->>= (recheck_running m) (λ _. renew_part) recheck_running-Safe
                    λ _. ask_done-Safe renew_all (
                      Safe->>= (renew_due_claims m) (λ _. ctx_done m) (renew_due_claims-Safe m)
                        (λ _. Safe-same (ctx_done m) (λ s. refl)))
    where
      renew_all : M W Bool
      renew_all = renew_due_claims m >> ctx_done m

      renew_part : M W Bool
      renew_part = ctx_done m >>= λ done. if done then pure true else renew_all

      after_jobless : M W Bool
      after_jobless = recheck_running m >> renew_part

      after_holds : M W Bool
      after_holds = release_jobless_claims m >> after_jobless

      after_releases : M W Bool
      after_releases = release_expired_holds m >> after_holds

  -- `Tick` keeps the claims: whatever the answers, it drops a claim with no release pending only if
  -- the cluster answered, in this very pass, that the task has no running Job or that its Job is
  -- deleted.
  pub tick-Safe : Safe (tick m)
  unfolding tick tick_fence
  tick-Safe =
      Safe->>= (retry_pending_deletions m) (λ _. fence_part) (retry_pending_deletions-Safe m)
        (λ _. ask_done-Safe (tick_fence m) fence-Safe)
    where
      rest_part : M W Bool
      rest_part = ctx_done m >>= λ done. if done then pure true else tick_rest m

      fence_part : M W Bool
      fence_part = ctx_done m >>= λ done. if done then pure true else tick_fence m

      fence-Safe : Safe (tick_fence m)
      fence-Safe s =
          Safe->>= (evaluate_fence m (m.now s.world).0) (λ _. rest_part)
            (evaluate_fence-Safe m (m.now s.world).0)
            (λ _. ask_done-Safe (tick_rest m) tick_rest-Safe)
            (record s { world = (m.now s.world).1 })
