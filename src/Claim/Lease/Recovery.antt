-- ===== src/Claim/Lease/Recovery.antt =====
-- What `Recover` (pkg/claim/lease_manager.go) does to the held claims.
pub mod Outcome
use agent_task_executor.Common.{
  ℕ, ◌≡◌, ◌<◌, ◌-◌, ◌++◌, ◌∙◌, ◌∷◌, ◌⊎◌, sym, subst, true, false, refl, inl, inr, arith, Bool-cases,
  Result-cases, List, [], Option, none, some, ok, err, if◌then◌else◌, ltb,
}
use agent_task_executor.Text.{Text, codes}
use agent_task_executor.Text.Laws.{text_eq_refl}
use agent_task_executor.Claim.Client.{Claim}
use agent_task_executor.Claim.Lease.Store.{HeldClaim, insert}
use agent_task_executor.Claim.Lease.Clock.{fence_due, lease_duration, zero_time}
use agent_task_executor.Claim.Lease.{
  caller, State, LeaseManager, Event, asked_running, counted, error,
}
use agent_task_executor.Claim.Lease.Safety.{gone_in, gone_in-append}
use agent_task_executor.Claim.Lease.Safety.Fence.{best_effort_release-held}
use agent_task_executor.Claim.Lease.Release.{release_refs, release_ref}
use agent_task_executor.Claim.Lease.Deletes.{
  deletes, deletes-append, runs_in, runs_in-append, release_recovered-deletes,
}
use agent_task_executor.Claim.Lease.Recover.{
  fenced_claim, adopted_claim, listed_claim, second_key_of, recovered_lease_until, group_lease,
  drop_fenced, stop_fenced, recover_fence_group, release_recovered, recover_adopt_group,
  recover_leased, recover_group,
}
use agent_task_executor.Claim.Lease.Recovery.Outcome.{
  Current, OtherCurrent, SomeDue, judged_group, listed_lease, listed_claim-IsListed,
  longer-Recovered, same-Recovered, judged-Current, judged_group-primary, judged_group-Other,
  judged_group-Due, judged_group-listed, Recovered, finished, stopping, adopting,
}

module _ {W : Type 0} (m : LeaseManager W) where
  group_lease-judged :
      (now : ℕ) (primary : Claim) (secondary : Option Claim) (s : State W)
      → (group_lease m now primary secondary s).0 ≡ judged_group now primary secondary
  unfolding group_lease recovered_lease_until
  group_lease-judged now primary none s = ground arith
  group_lease-judged now primary (some c) s = ground arith

  pub group_lease-state :
      (now : ℕ) (primary : Claim) (secondary : Option Claim) (s : State W)
      → (group_lease m now primary secondary s).2 ≡ s
  unfolding group_lease recovered_lease_until
  group_lease-state now primary none s = ground arith
  group_lease-state now primary (some c) s = ground arith

  pub drop_fenced-held :
      (primary : Claim) (secondary : Option Claim) (s : State W)
      → (drop_fenced m primary secondary s).2.held ≡ s.held
  unfolding drop_fenced
  drop_fenced-held primary secondary s =
      ground (arith, best_effort_release-held m (listed_claim primary secondary zero_time) s)

  pub release_recovered-held :
      (primary : Claim) (secondary : Option Claim) (s : State W)
      → (release_recovered m primary secondary s).2.held ≡ s.held
  unfolding release_recovered release_refs release_ref
  release_recovered-held primary secondary s = ground arith

  group_lease-deletes :
      (now : ℕ) (primary : Claim) (secondary : Option Claim) (s : State W)
      → deletes (group_lease m now primary secondary s).1 ≡ false
  unfolding group_lease recovered_lease_until
  group_lease-deletes now primary none s = ground arith
  group_lease-deletes now primary (some c) s = ground arith

  stop_fenced-Recovered :
      (primary : Claim) (secondary : Option Claim) (now lease_until : ℕ) (s : State W)
      → lease_until ≡ judged_group now primary secondary
      → SomeDue now primary secondary
      → Recovered primary secondary now s.held
          (stop_fenced m primary secondary lease_until s).1
          (stop_fenced m primary secondary lease_until s).2.held
  unfolding stop_fenced
  stop_fenced-Recovered primary secondary now lease_until s l due =
      elim (Result-cases (m.delete_job caller primary.task_id s.world).0) [
        | inl (a, e) ↦
            finished (ground (arith, e, text_eq_refl primary.task_id))
              (ground (
                arith,
                e,
                drop_fenced-held primary secondary
                    (record s { world = (m.delete_job caller primary.task_id s.world).1 }),
              ))
              (inr due)
        | inr (x, e) ↦
            stopping (fenced_claim primary secondary (judged_group now primary secondary)) due
              (listed_claim-IsListed primary secondary (judged_group now primary secondary))
              (refl, refl) (ground (arith, e, l))
      ]

  -- The state after the answer of the cluster about the Job of a task.
  abbrev asked : Claim → State W → State W
  asked c s = record s { world = (m.is_job_running caller c.task_id s.world).1 }

  recover_fence_group-Recovered :
      (primary : Claim) (secondary : Option Claim) (now lease_until : ℕ) (s : State W)
      → lease_until ≡ judged_group now primary secondary
      → SomeDue now primary secondary
      → Recovered primary secondary now s.held
          (recover_fence_group m primary secondary lease_until s).1
          (recover_fence_group m primary secondary lease_until s).2.held
  unfolding recover_fence_group
  recover_fence_group-Recovered primary secondary now lease_until s l due =
      elim (Result-cases (m.is_job_running caller primary.task_id s.world).0) [
        | inl (true, e) ↦
            same-Recovered primary secondary now s.held _ _ _ _
              (longer-Recovered primary secondary now s.held _
                (asked_running primary.task_id (ok true) ∷ []) _ refl
                (stop_fenced-Recovered primary secondary now lease_until (asked primary s) l due))
              (ground (arith, e)) (ground (arith, e))
        | inl (false, e) ↦
            finished (ground (arith, e, text_eq_refl primary.task_id))
              (ground (arith, e, drop_fenced-held primary secondary (asked primary s))) (inr due)
        | inr (x, e) ↦
            same-Recovered primary secondary now s.held _ _ _ _
              (longer-Recovered primary secondary now s.held _
                (asked_running primary.task_id (err x) ∷ (counted error ∷ [])) _ refl
                (stop_fenced-Recovered primary secondary now lease_until (asked primary s) l due))
              (ground (arith, e)) (ground (arith, e))
      ]

  recover_adopt_group-Recovered :
      (primary : Claim) (secondary : Option Claim) (now lease_until : ℕ) (s : State W)
      → lease_until ≡ judged_group now primary secondary
      → Current now primary
      → OtherCurrent now secondary
      → Recovered primary secondary now s.held
          (recover_adopt_group m primary secondary lease_until now s).1
          (recover_adopt_group m primary secondary lease_until now s).2.held
  unfolding recover_adopt_group
  recover_adopt_group-Recovered primary secondary now lease_until s q a b =
      let l : lease_until ≡ listed_lease primary secondary =
        q ∙ judged_group-listed now primary secondary a b in
      elim (Result-cases (m.is_job_running caller primary.task_id s.world).0) [
        | inl (true, e) ↦
            adopting (adopted_claim primary secondary (listed_lease primary secondary) now false) a
              b (ground (arith, e)) (inr (ground (arith, e, text_eq_refl primary.task_id)))
              (listed_claim-IsListed primary secondary (listed_lease primary secondary))
              (refl, refl, refl) (ground (arith, e, l))
        | inl (false, e) ↦
            finished (ground (arith, e, text_eq_refl primary.task_id))
              (ground (arith, e, release_recovered-held primary secondary (asked primary s)))
              (inl (
                ground (arith, e, release_recovered-deletes m primary secondary (asked primary s))))
        | inr (x, e) ↦
            adopting (adopted_claim primary secondary (listed_lease primary secondary) now true) a b
              (ground (arith, e)) (inl refl)
              (listed_claim-IsListed primary secondary (listed_lease primary secondary))
              (refl, refl, refl) (ground (arith, e, l))
      ]

  recover_leased-Recovered :
      (primary : Claim) (secondary : Option Claim) (now : ℕ) (s : State W)
      → 0 < now
      → let run = recover_leased m primary secondary now (judged_group now primary secondary) s in
        Recovered primary secondary now s.held run.1 run.2.held
  unfolding recover_leased
  recover_leased-Recovered primary secondary now s p =
      elim (Bool-cases (fence_due now (judged_group now primary secondary))) [
        | inl e ↦ rw e (
            recover_fence_group-Recovered primary secondary now (judged_group now primary secondary)
              s refl (judged_group-Due now primary secondary e))
        | inr e ↦ rw e (
            recover_adopt_group-Recovered primary secondary now (judged_group now primary secondary)
              s refl
              (judged-Current now (judged_group now primary secondary) primary p e
                (judged_group-primary now primary secondary))
              (judged_group-Other now primary secondary p e))
      ]

  -- The state after the clock is read.
  abbrev timed : State W → State W
  timed s = record s { world = (m.now s.world).1 }

  -- After a restart, at any time after the origin of the clock, a listed claim, or a repository's
  -- and a pull request's claim of one task together, is treated in one of three ways. Nothing is
  -- held for it: the cluster answers that the task has no running Job, or that its Job is deleted.
  -- It is held as listed, waiting for the deletion of its Job. Or it is held as listed, with the
  -- earlier listed lease, to be renewed at the next tick: then each of its leases can be read, its
  -- fence is not due, and the cluster answers that a Job runs or the claim is marked to ask again.
  -- The deletion of a Job is asked for, or left pending, only where a lease of the group cannot be
  -- read or its fence is due.
  pub recover_group-Recovered :
      (primary : Claim) (secondary : Option Claim) (s : State W)
      → 0 < (m.now s.world).0
      → Recovered primary secondary
          (m.now s.world).0
          s.held
          (recover_group m primary secondary s).1
          (recover_group m primary secondary s).2.held
  unfolding recover_group
  recover_group-Recovered primary secondary s p =
      let now : ℕ = (m.now s.world).0 in
      same-Recovered primary secondary now s.held _ _ _ _
        (longer-Recovered primary secondary now s.held _
          (group_lease m now primary secondary (timed s)).1 _
          (group_lease-deletes now primary secondary (timed s))
          (recover_leased-Recovered primary secondary now (timed s) p))
        (ground (
          arith,
          group_lease-judged now primary secondary (timed s),
          group_lease-state now primary secondary (timed s),
        ))
        (ground (
          arith,
          group_lease-judged now primary secondary (timed s),
          group_lease-state now primary secondary (timed s),
        ))
