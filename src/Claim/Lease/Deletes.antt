-- ===== src/Claim/Lease/Deletes.antt =====
-- Traces that ask for no deletion of a Job, and those that show a running one
-- (pkg/claim/lease_manager.go).
use agent_task_executor.Common.{
  ◌≡◌, refl, Bool, true, false, ◌||◌, List, [], ◌∷◌, ◌++◌, Result, ok, err, if◌then◌else◌, arith,
}
use agent_task_executor.Text.{Text, text_eq, is_empty}
use agent_task_executor.Claim.Target.{ClaimTarget}
use agent_task_executor.Claim.Client.{Claim, Failure}
use agent_task_executor.Common.{Option}
use agent_task_executor.Claim.Lease.Store.{HeldClaim}
use agent_task_executor.Claim.Lease.Clock.{zero_time}
use agent_task_executor.Claim.Lease.{
  caller, State, LeaseManager, M, ◌>>=◌, pure, count, Event, asked_running, deleted_job, Label,
  error,
}
use agent_task_executor.Claim.Lease.Release.{release_refs, release_ref, pair_removal_result}
use agent_task_executor.Claim.Lease.Recover.{listed_claim, release_recovered}

-- The trace asks for the deletion of a Job.
abbrev pub deletes : List Event → Bool
deletes [] = false
deletes (deleted_job task r ∷ t) = true
deletes (_ ∷ t) = deletes t

-- The trace has the cluster's answer that the task has a running Job.
abbrev pub runs_in : Text → List Event → Bool
runs_in task [] = false
runs_in task (asked_running u (ok true) ∷ t) = text_eq u task || runs_in task t
runs_in task (_ ∷ t) = runs_in task t

pub deletes-append : (t t' : List Event) → deletes (t ++ t') ≡ (deletes t || deletes t')
deletes-append [] t' = refl
deletes-append (e ∷ t) t' = ground (arith, deletes-append t t')

pub runs_in-append :
    (task : Text) (t t' : List Event) → runs_in task (t ++ t') ≡ (runs_in task t || runs_in task t')
runs_in-append task [] t' = refl
runs_in-append task (e ∷ t) t' = ground (arith, runs_in-append task t t')

abbrev Spares : {W A : Type 0} → M W A → Type 0
Spares {W} f = (s : State W) → deletes (f s).1 ≡ false

Spares->>= :
    {W A B : Type 0} (f : M W A) (g : A → M W B)
    → Spares f
    → ((a : A) → Spares (g a))
    → Spares (f >>= g)
Spares->>= f g p q s =
    ground (arith, deletes-append (f s).1 (g (f s).0 (f s).2).1, p s, q (f s).0 (f s).2)

module _ {W : Type 0} (m : LeaseManager W) where
  release_ref-Spares :
      (target : ClaimTarget) (token : Text) → Spares (release_ref m caller target token)
  unfolding release_ref
  release_ref-Spares target token s = refl

  -- `release_refs` after the answer for the first ref.
  abbrev after_first : HeldClaim → Result Failure Label → M W (Result Failure Label)
  after_first h primary = elim primary as (λ _. M W (Result Failure Label)) [
    | err f ↦ pure (err f)
    | ok p ↦ if is_empty h.second_key then pure (ok p) else (do
      secondary ← release_ref m caller h.second_target h.second_token
      elim secondary as (λ _. M W (Result Failure Label)) [
        | err f ↦ pure (err f)
        | ok q ↦ pure (ok (pair_removal_result p q))
      ])
  ]

  after_first-Spares : (h : HeldClaim) (r : Result Failure Label) → Spares (after_first h r)
  unfolding release_ref
  after_first-Spares h (err f) s = refl
  after_first-Spares h (ok p) s = ground arith

  release_refs-Spares : (h : HeldClaim) → Spares (release_refs (release_ref m caller) h)
  unfolding release_refs
  release_refs-Spares h =
      Spares->>= (release_ref m caller h.target h.lease_token) (after_first h)
        (release_ref-Spares h.target h.lease_token) (after_first-Spares h)

  abbrev count_result : Result Failure Label → M W (Unit {0})
  count_result result = elim result as (λ _. M W (Unit {0})) [
    | err f ↦ count error
    | ok l ↦ count l
  ]

  pub release_recovered-deletes :
      (primary : Claim) (secondary : Option Claim) (s : State W)
      → deletes (release_recovered m primary secondary s).1 ≡ false
  unfolding release_recovered
  release_recovered-deletes primary secondary =
      Spares->>= (release_refs (release_ref m caller) (listed_claim primary secondary zero_time))
        count_result (release_refs-Spares (listed_claim primary secondary zero_time))
        (λ result s. elim result as (λ r. deletes (count_result r s).1 ≡ false) [
          | err f ↦ refl
          | ok l ↦ refl
        ])
