-- ===== src/Claim/Lease/Tick.antt =====
-- One pass of the lease loop, `Tick`, with the jobless release and the check of adopted claims
-- (pkg/claim/lease_manager_tick.go).
use agent_task_executor.Common.{
  ℕ, ◌-◌, Bool, true, false, not, ◌&&◌, ◌||◌, none, some, Result, ok, err, if◌then◌else◌, List, [],
  ◌∷◌, ltb, leb, map,
}
use agent_task_executor.Text.{Text}
use agent_task_executor.Claim.Client.{Failure}
use agent_task_executor.Claim.Lease.Store.{HeldClaim, find, held_keys}
use agent_task_executor.Claim.Lease.Clock.{
  is_zero, zero_time, jobless_check_interval, jobless_pass_budget, jobless_grace,
}
use agent_task_executor.Claim.Lease.{
  LeaseManager, M, pure, ◌>>=◌, ◌>>◌, count, get_held, for_each, current_date_time, ctx_done,
  is_job_running, caller, error, adopted, jobless_released,
}
use agent_task_executor.Claim.Lease.Fence.{
  request_context, write_held, remove_held, evaluate_fence, retry_pending_deletions,
}
use agent_task_executor.Claim.Lease.Release.{
  release_refs, release_ref_with_deadline, retry_pending_releases, release_expired_holds,
}
use agent_task_executor.Claim.Lease.Renew.{renew_due_claims}

unfoldable pub jobless_eligible : HeldClaim → Bool
jobless_eligible h =
    not h.pending_job_deletion
    && not h.release_pending
    && not h.needs_running_check
    && is_zero h.hold_until

unfoldable pub jobless_due : ℕ → HeldClaim → Bool
unfolding jobless_eligible
jobless_due now h =
    jobless_eligible h
    && (is_zero h.last_jobless_check_at
        || not (ltb (now - h.last_jobless_check_at) jobless_check_interval))

-- The due claims of the given keys.
unfoldable pub due_claims : ℕ → List HeldClaim → List Text → List HeldClaim
unfolding jobless_due
due_claims now hs [] = []
due_claims now hs (k ∷ ks) =
    let rest = due_claims now hs ks in
    elim (find k hs) [ none ↦ rest | some h ↦ if jobless_due now h then h ∷ rest else rest ]

-- `sort.SliceStable` by the last check.
unfoldable pub insert_by_check : HeldClaim → List HeldClaim → List HeldClaim
insert_by_check h [] = h ∷ []
insert_by_check h (j ∷ js) =
    if ltb j.last_jobless_check_at h.last_jobless_check_at
    then j ∷ insert_by_check h js
    else h ∷ (j ∷ js)

unfoldable pub sort_by_check : List HeldClaim → List HeldClaim
unfolding insert_by_check
sort_by_check [] = []
sort_by_check (h ∷ hs) = insert_by_check h (sort_by_check hs)

unfoldable pub jobless_due_keys : ℕ → List HeldClaim → List Text
unfolding due_claims sort_by_check
jobless_due_keys now hs = map (λ h. h.key) (sort_by_check (due_claims now hs (held_keys hs)))

-- The claim after a check at `now` that found no Job: the first such instant is kept.
abbrev pub without_job : ℕ → HeldClaim → HeldClaim
without_job now h = record h {
  last_jobless_check_at = now;
  jobless_since = if is_zero h.jobless_since then now else h.jobless_since;
}

module _ {W : Type 0} (m : LeaseManager W) where
  unfoldable pub release_after_running_check : Text → HeldClaim → M W (Unit {0})
  release_after_running_check key h = do
    result ← release_refs (release_ref_with_deadline m) h
    elim result [
      | err f ↦ (do count error; write_held m (record h { release_pending = true }))
      | ok label ↦ (do remove_held m key; count label)
    ]

  -- `releaseJoblessClaims` after the answer to its question for the Job.
  unfoldable pub jobless_answer : ℕ → Text → HeldClaim → Result Failure Bool → M W (Unit {0})
  jobless_answer now key h (err f) = count error
  jobless_answer now key h (ok true) =
      write_held m (record h { last_jobless_check_at = now; jobless_since = zero_time })
  jobless_answer now key h (ok false) = do
    write_held m (without_job now h)
    if ltb (now - (without_job now h).jobless_since) jobless_grace
        then pure tt
        else (do count jobless_released; release_after_running_check key (without_job now h))

  -- The claim as a check at `now` marks it before the question.
  abbrev pub checked_at : ℕ → HeldClaim → HeldClaim
  checked_at now h = record h { last_jobless_check_at = now }

  -- One round of the loop of `releaseJoblessClaims`, for a claim that is still held.
  unfoldable pub check_jobless : ℕ → Text → HeldClaim → M W (Unit {0})
  unfolding request_context
  check_jobless now key h = do
    write_held m (checked_at now h)
    ctx ← request_context m
    running ← is_job_running m ctx h.task_id
    jobless_answer now key (checked_at now h) running

  unfoldable pub check_jobless_key : ℕ → Text → M W (Unit {0})
  check_jobless_key now key = do
    hs ← get_held
    elim (find key hs) [ none ↦ pure tt | some h ↦ check_jobless now key h ]

  -- The loop ends early once the context is done or the pass has used up its budget.
  unfoldable pub check_jobless_keys : ℕ → List Text → M W (Unit {0})
  check_jobless_keys now [] = pure tt
  check_jobless_keys now (key ∷ keys) = do
    done ← ctx_done m
    if done then pure tt else (do
      later ← current_date_time m
      if leb jobless_pass_budget (later - now)
          then pure tt
          else (do check_jobless_key now key; check_jobless_keys now keys))

  unfoldable pub release_jobless_claims : M W (Unit {0})
  release_jobless_claims = do
    now ← current_date_time m
    hs ← get_held
    check_jobless_keys now (jobless_due_keys now hs)

  unfoldable pub recheck_answer : Text → HeldClaim → Result Failure Bool → M W (Unit {0})
  recheck_answer key h (err f) = count error
  recheck_answer key h (ok true) = do
    write_held m (record h { needs_running_check = false })
    count adopted
  recheck_answer key h (ok false) = release_after_running_check key h

  -- One round of the loop of `recheckRunning`, for a claim that is held.
  unfoldable pub recheck_claim : Text → HeldClaim → M W (Unit {0})
  recheck_claim key h =
      if not h.needs_running_check
      then pure tt
      else (do running ← is_job_running m caller h.task_id; recheck_answer key h running)

  unfoldable pub recheck_key : Text → M W (Unit {0})
  recheck_key key = do
    hs ← get_held
    elim (find key hs) [ none ↦ pure tt | some h ↦ recheck_claim key h ]

  unfoldable pub recheck_running : M W (Unit {0})
  recheck_running = do hs ← get_held; for_each (held_keys hs) recheck_key

  -- `Tick`; the value says whether the context was done.
  unfoldable pub tick_rest : M W Bool
  tick_rest = do
    retry_pending_releases m
    release_expired_holds m
    release_jobless_claims
    recheck_running
    done ← ctx_done m
    if done then pure true else (do renew_due_claims m; ctx_done m)

  unfoldable pub tick_fence : M W Bool
  tick_fence = do
    now ← current_date_time m
    evaluate_fence m now
    done ← ctx_done m
    if done then pure true else tick_rest

  unfoldable pub tick : M W Bool
  tick = do retry_pending_deletions m; done ← ctx_done m; if done then pure true else tick_fence
