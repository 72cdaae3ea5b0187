-- ===== src/Claim/Lease/Safety/Run.antt =====
-- Any sequence of operations of the lease manager, in any order and with any answers.
use agent_task_executor.Common.{ℕ, ◌≡◌, false, List, some}
use agent_task_executor.Text.{Text}
use agent_task_executor.Claim.Lease.Store.{HeldClaim, find}
use agent_task_executor.Claim.Lease.{State, LeaseManager, M, ◌>>=◌, pure, for_each}
use agent_task_executor.Claim.Lease.Safety.{Kept, Keeps-refl, Safe, Safe->>=, Safe-for_each}
use agent_task_executor.Claim.Lease.Create.{claim_pair}
use agent_task_executor.Claim.Lease.Takeover.{takeover_pair}
use agent_task_executor.Claim.Lease.Release.{release_claim, release_after_success}
use agent_task_executor.Claim.Lease.Tick.{tick}
use agent_task_executor.Claim.Lease.Recover.{recover}
use agent_task_executor.Claim.Lease.Safety.Recover.{recover-Safe}
use agent_task_executor.Claim.Lease.Safety.Create.{claim_pair-Safe}
use agent_task_executor.Claim.Lease.Safety.Takeover.{takeover_pair-Safe}
use agent_task_executor.Claim.Lease.Safety.Release.{release_claim-Safe, release_after_success-Safe}
use agent_task_executor.Claim.Lease.Safety.Tick.{tick-Safe}

-- A call of the manager; the mutex makes each one a step. `Recover` runs beside the others.
pub data Op : Type 0 where
  claims : Text → Text → Text → Op
  takes_over : Text → Text → Text → Op
  releases : Text → Op
  succeeds : Text → ℕ → Op
  ticks recovers : Op

module _ {W : Type 0} (m : LeaseManager W) where
  unfoldable pub step : Op → M W (Unit {0})
  step (claims primary secondary task_id) = claim_pair m primary secondary task_id >>= λ _. pure tt
  step (takes_over primary secondary task_id) =
      takeover_pair m primary secondary task_id >>= λ _. pure tt
  step (releases key) = release_claim m key >>= λ _. pure tt
  step (succeeds key at) = release_after_success m key at >>= λ _. pure tt
  step ticks = tick m >>= λ _. pure tt
  step recovers = recover m >>= λ _. pure tt

  abbrev pub run : List Op → M W (Unit {0})
  run ops = for_each ops step

  finished : {A : Type 0} (f : M W A) → Safe f → Safe (f >>= λ _. pure tt)
  finished f safe = Safe->>= f (λ _. pure tt) safe (λ _ s. Keeps-refl s)

  step-Safe : (op : Op) → Safe (step op)
  unfolding step
  step-Safe (claims p q t) = finished (claim_pair m p q t) (claim_pair-Safe m p q t)
  step-Safe (takes_over p q t) = finished (takeover_pair m p q t) (takeover_pair-Safe m p q t)
  step-Safe (releases key) = finished (release_claim m key) (release_claim-Safe m key)
  step-Safe (succeeds key at) =
      finished (release_after_success m key at) (release_after_success-Safe m key at)
  step-Safe ticks = finished (tick m) (tick-Safe m)
  step-Safe recovers = finished (recover m) (recover-Safe m)

  -- Over any sequence of claims, takeovers, releases, reported successes, ticks and recoveries,
  -- whatever the clock, the claim server and the cluster answer: a claim that is held with no release pending is, at the
  -- end, still held under its key for the same task with no release pending; or the cluster
  -- answered on the way that the task has no running Job or that its Job is deleted; or the server
  -- answered a listing of a `Recover` with a claim of another task under that key.
  pub run-Keeps :
      (ops : List Op) (s : State W) (k : Text) (h : HeldClaim)
      → find k s.held ≡ some h
      → h.release_pending ≡ false
      → Kept h k (run ops s).1 (run ops s).2.held
  run-Keeps ops = Safe-for_each ops step step-Safe
