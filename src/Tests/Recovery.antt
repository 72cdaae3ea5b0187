-- ===== src/Tests/Recovery.antt =====
-- The recovery and the audit (pkg/claim/lease_manager.go, pkg/claim/audit.go) at concrete inputs.
use agent_task_executor.Common.{
  ℕ, refl, ◌≡◌, ◌↔◌, Bool, true, false, none, ◌+◌, ◌*◌, List, [], ◌∷◌, All, arith,
}
use agent_task_executor.Text.{Text, codes}
use agent_task_executor.Claim.Client.{Claim}
use agent_task_executor.Claim.Lease.{caller, LeaseManager}
use agent_task_executor.Claim.Lease.Clock.{second}
use agent_task_executor.Claim.Lease.View.{audit_mismatch, is_running}
use agent_task_executor.Claim.Lease.Audit.{holds_task, audit_mismatch-zero}
use agent_task_executor.Claim.Lease.Recover.{recover_group, recover_task_group, recover}
use agent_task_executor.Claim.Lease.Recovery.Outcome.{Recovered}
use agent_task_executor.Claim.Lease.Recovery.{recover_group-Recovered}
use agent_task_executor.Claim.Lease.Adoption.{takes_some_lease, AsListed, recover-takes_some_lease}
use agent_task_executor.Claim.Lease.Accounting.{Accounted, recover_task_group-Accounted}
use agent_task_executor.Tests.Lease.{start, granted, idle, empty, holding}

abbrev listed : Claim
listed = granted (codes "sun") (start + 300 * second)

recover_group-Recovered_example :
    Recovered listed none start []
      (recover_group idle listed none empty).1
      (recover_group idle listed none empty).2.held
recover_group-Recovered_example = recover_group-Recovered idle listed none empty (omega arith)

recover-takes_some_lease_example :
    (takes_some_lease (recover idle empty).1 ≡ false)
    × AsListed idle (idle.list caller idle.cluster start).0 empty
recover-takes_some_lease_example = recover-takes_some_lease idle empty

abbrev running_jobs : List (Text × Bool)
running_jobs = (codes "t", true) ∷ []

audit_mismatch-zero_example : (audit_mismatch running_jobs holding.held ≡ 0) ↔ (
    All (λ t. holds_task t.0 holding.held ≡ true) running_jobs
    × All (λ h. is_running h.task_id running_jobs ≡ true) holding.held)
audit_mismatch-zero_example = audit_mismatch-zero running_jobs holding.held

-- Its clock is never at the origin.
abbrev ticking : LeaseManager ℕ
ticking = record idle { now = λ w. (w + 1, w) }

abbrev pair : List Claim
pair =
    record listed { scope = codes "pr"; id = codes "o/r/7" }
    ∷ (record listed { scope = codes "repo"; id = codes "o/r" } ∷ [])

recover_task_group-Accounted_example :
    All
      (λ c.
        Accounted c
          (recover_task_group ticking pair empty).1
          (recover_task_group ticking pair empty).2.held)
      pair
recover_task_group-Accounted_example =
    recover_task_group-Accounted ticking (λ w. omega arith) (codes "t") pair empty
      (refl, (refl, tt))
