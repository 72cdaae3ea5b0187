-- ===== src/Handler/CurrentJob/Proceeds.antt =====
-- When the guard on current_job lets a spawn go on (suppressForActiveCurrentJob in
-- pkg/handler/job_lookup_denied.go).
use agent_task_executor.Common.{
  ℕ, ◌≡◌, ◌≤◌, ◌+◌, ◌⊎◌, Bool, true, false, Option, none, some, Result, ok, err,
}
use agent_task_executor.Text.{Text, is_empty}
use agent_task_executor.Claim.Client.{Claim, Failure, claim_free}
use agent_task_executor.Claim.Lease.Clock.{takeover_grace}
use agent_task_executor.Handler.Task.{Task}
use agent_task_executor.Handler.CurrentJob.{
  ClaimMode, claim_mode_off, claim_mode_shadow, claim_mode_on, LookupError, JobReads, ClaimProbe,
  claim_probe_unavailable, claim_probe_held, claim_probe_free, claim_probe_failed, probe_read,
}

-- What is known of the claim. In the modes `off` and `shadow` it is not read, so nothing is known;
-- in the mode `on` it is read to be absent or to have lapsed long enough to be taken over.
abbrev pub NoClaimSeen : ClaimMode → Option Text → ℕ → Result Failure Claim → Type 0
NoClaimSeen mode e now c =
    ((mode ≡ claim_mode_off) ⊎ (mode ≡ claim_mode_shadow))
    ⊎ ((mode ≡ claim_mode_on)
        × (e ≡ none)
        × ((c ≡ err claim_free)
            ⊎ ((current : Claim) × (c ≡ ok current)
                × (current.lease_unreadable ≡ false)
                × (current.lease_until + takeover_grace ≤ now))))

-- What the executor has recorded of the Job that the task names: this very Job, or another one
-- that no longer exists, or none, and then no claim on the task was seen.
abbrev pub IsOver : JobReads → Text → Text → Type 0
IsOver r current_job stored =
    (stored ≡ current_job)
    ⊎ ((r.job_exists ≡ ok false)
        ⊎ ((is_empty stored ≡ true)
            × NoClaimSeen r.claim_mode r.probe_error r.probe_now r.current_claim))

abbrev answered : Result LookupError Bool → Bool
answered (ok b) = b
answered (err e) = false

abbrev is_ok : Result LookupError Bool → Bool
is_ok (ok b) = true
is_ok (err e) = false

-- What follows a probe.
abbrev goes_on : ClaimProbe → Bool
goes_on probe = elim probe [
  | claim_probe_failed ↦ false
  | claim_probe_held ↦ false
  | claim_probe_free ↦ true
  | claim_probe_unavailable ↦ true
]

abbrev probe_by : ClaimMode → Option Text → ℕ → Result Failure Claim → ClaimProbe
unfolding probe_read
probe_by mode e now c = elim mode [
  | claim_mode_off ↦ claim_probe_unavailable
  | claim_mode_shadow ↦ claim_probe_unavailable
  | claim_mode_on ↦ elim e [ some e ↦ claim_probe_failed | none ↦ probe_read now c ]
]
