-- ===== src/Claim/Lease/Hold.antt =====
-- The success hold of a claim (pkg/claim/lease_manager.go).
use agent_task_executor.Common.{ℕ, ◌≡◌, Bool, true, false, List, [], ◌∷◌, if◌then◌else◌, ltb}
use agent_task_executor.Text.{Text}
use agent_task_executor.Claim.Lease.Store.{HeldClaim}
use agent_task_executor.Claim.Lease.{LeaseManager, Event, release_call}
use agent_task_executor.Claim.Lease.Safety.{gone_in}
use agent_task_executor.Common.{◌≤◌}
use agent_task_executor.Claim.Lease.Release.{hold_end}

-- The trace has a release request.
abbrev pub gives_back_some : List Event → Bool
gives_back_some [] = false
gives_back_some (release_call target token r ∷ t) = true
gives_back_some (_ ∷ t) = gives_back_some t

module _ {W : Type 0} (m : LeaseManager W) where
  -- The claim after a success reported at `now`: its hold is extended, never shortened.
  abbrev pub extended : ℕ → ℕ → HeldClaim → HeldClaim
  extended now at h = record h {
    hold_until = if ltb h.hold_until (hold_end m now at) then hold_end m now at else h.hold_until;
  }

  -- A trace that gives a claim back: the hold of the claim is over, and its Job is gone.
  abbrev IsDue : HeldClaim → ℕ → List Event → Type 0
  IsDue h now t = (h.hold_until ≤ now) × (gone_in h.task_id t ≡ true)
