-- ===== src/Claim/Lease/Adoption.antt =====
-- What `Recover` (pkg/claim/lease_manager.go) asks of the claim server.
use agent_task_executor.Common.{
  ℕ, Bool, ◌≡◌, refl, true, false, ◌||◌, List, [], ◌∷◌, ◌++◌, Option, none, some, Result, ok, err,
  arith, if◌then◌else◌, Result-cases, Option-cases, inl, inr,
}
use agent_task_executor.Text.{Text, is_empty}
use agent_task_executor.Claim.Target.{ClaimTarget}
use agent_task_executor.Claim.Client.{Claim, Failure}
use agent_task_executor.Claim.Lease.{
  caller, State, LeaseManager, M, Event, acquire_call, renew_call, for_each, ◌>>=◌, pure, count,
  error, client_error, Label,
}
use agent_task_executor.Claim.Lease.Store.{HeldClaim}
use agent_task_executor.Claim.Lease.Clock.{zero_time}
use agent_task_executor.Claim.Lease.Fence.{best_effort_release, request_context}
use agent_task_executor.Claim.Lease.Release.{release_refs, release_ref, pair_removal_result}
use agent_task_executor.Claim.Lease.Recover.{
  listed_claim, recovered_lease_until, group_lease, drop_fenced, stop_fenced, recover_fence_group,
  release_recovered, recover_adopt_group, recover_leased, recover_group, group_pair, sort_claims,
  recover_task_group, task_ids, by_task_id, recover_listed, recover,
}

-- A write that takes or extends a lease.
abbrev pub takes_lease : Event → Bool
takes_lease (acquire_call _ _ _) = true
takes_lease (renew_call _ _ _) = true
takes_lease _ = false

abbrev pub takes_some_lease : List Event → Bool
takes_some_lease [] = false
takes_some_lease (e ∷ t) = takes_lease e || takes_some_lease t

takes_some_lease-append :
    (t t' : List Event)
    → takes_some_lease t ≡ false
    → takes_some_lease t' ≡ false
    → takes_some_lease (t ++ t') ≡ false
takes_some_lease-append [] t' p q = q
takes_some_lease-append (e ∷ t) t' p q =
    ground (arith, takes_some_lease-append t t' (ground arith) q)

-- An operation takes no lease, from any state.
abbrev Passive : {W A : Type 0} → M W A → Type 0
Passive {W} f = (s : State W) → takes_some_lease (f s).1 ≡ false

Passive->>= :
    {W A B : Type 0} (f : M W A) (g : A → M W B)
    → Passive f
    → ((a : A) → Passive (g a))
    → Passive (f >>= g)
Passive->>= f g p q s =
    takes_some_lease-append (f s).1 (g (f s).0 (f s).2).1 (p s) (q (f s).0 (f s).2)

Passive-for_each :
    {W A : Type 0} (xs : List A) (f : A → M W (Unit {0}))
    → ((x : A) → Passive (f x))
    → Passive (for_each xs f)
unfolding for_each
Passive-for_each [] f p s = refl
Passive-for_each (x ∷ xs) f p s =
    Passive->>= (f x) (λ _. for_each xs f) (p x) (λ _. Passive-for_each xs f p) s

module _ {W : Type 0} (m : LeaseManager W) where
  group_lease-Passive :
      (now : ℕ) (primary : Claim) (secondary : Option Claim)
      → Passive (group_lease m now primary secondary)
  unfolding group_lease recovered_lease_until
  group_lease-Passive now primary none s = ground arith
  group_lease-Passive now primary (some c) s = ground arith

  drop_fenced-Passive :
      (primary : Claim) (secondary : Option Claim) → Passive (drop_fenced m primary secondary)
  unfolding drop_fenced best_effort_release request_context
  drop_fenced-Passive primary secondary s = ground arith

  stop_fenced-Passive :
      (primary : Claim) (secondary : Option Claim) (lease_until : ℕ)
      → Passive (stop_fenced m primary secondary lease_until)
  unfolding stop_fenced
  stop_fenced-Passive primary secondary lease_until s = ground (
    arith,
    drop_fenced-Passive primary secondary
        (record s { world = (m.delete_job caller primary.task_id s.world).1 }),
  )

  recover_fence_group-Passive :
      (primary : Claim) (secondary : Option Claim) (lease_until : ℕ)
      → Passive (recover_fence_group m primary secondary lease_until)
  unfolding recover_fence_group
  recover_fence_group-Passive primary secondary lease_until s =
      let s' : State W = record s { world = (m.is_job_running caller primary.task_id s.world).1 } in
      ground (
        arith,
        drop_fenced-Passive primary secondary s',
        stop_fenced-Passive primary secondary lease_until s',
      )

  release_ref-Passive :
      (target : ClaimTarget) (token : Text) → Passive (release_ref m caller target token)
  unfolding release_ref
  release_ref-Passive target token s = refl

  second_release-Passive :
      (h : HeldClaim) (p : Label)
      → Passive (
          if is_empty h.second_key then pure (ok p) else (do
            secondary ← release_ref m caller h.second_target h.second_token
            elim secondary as (λ _. M W (Result Failure Label)) [
              | err f ↦ pure (err f)
              | ok q ↦ pure (ok (pair_removal_result p q))
            ]))
  unfolding release_ref
  second_release-Passive h p s = ground arith

  -- `release_refs` after the answer for the first ref.
  abbrev after_first : HeldClaim → Result Failure Label → M W (Result Failure Label)
  after_first h primary = elim primary as (λ _. M W (Result Failure Label)) [
    | err f ↦ pure (err f)
    | ok p ↦ if is_empty h.second_key then pure (ok p) else (do
      secondary ← release_ref m caller h.second_target h.second_token
      elim secondary as (λ _. M W (Result Failure Label)) [
        | err f ↦ pure (err f)
        | ok q ↦ pure (ok (pair_removal_result p q))
      ])
  ]

  release_refs-Passive : (h : HeldClaim) → Passive (release_refs (release_ref m caller) h)
  unfolding release_refs
  release_refs-Passive h =
      Passive->>= (release_ref m caller h.target h.lease_token) (after_first h)
        (release_ref-Passive h.target h.lease_token)
        (λ primary s. elim primary as (λ r. takes_some_lease (after_first h r s).1 ≡ false) [
          | err f ↦ refl
          | ok p ↦ second_release-Passive h p s
        ])

  -- `recoverAdoptGroup` after the release of the refs.
  abbrev count_result : Result Failure Label → M W (Unit {0})
  count_result result = elim result as (λ _. M W (Unit {0})) [
    | err f ↦ count error
    | ok l ↦ count l
  ]

  release_recovered-Passive :
      (primary : Claim) (secondary : Option Claim) → Passive (release_recovered m primary secondary)
  unfolding release_recovered
  release_recovered-Passive primary secondary =
      Passive->>= (release_refs (release_ref m caller) (listed_claim primary secondary zero_time))
        count_result (release_refs-Passive (listed_claim primary secondary zero_time))
        (λ result s. elim result as (λ r. takes_some_lease (count_result r s).1 ≡ false) [
          | err f ↦ refl
          | ok l ↦ refl
        ])

  recover_adopt_group-Passive :
      (primary : Claim) (secondary : Option Claim) (lease_until now : ℕ)
      → Passive (recover_adopt_group m primary secondary lease_until now)
  unfolding recover_adopt_group
  recover_adopt_group-Passive primary secondary lease_until now s = ground (
    arith,
    release_recovered-Passive primary secondary
        (record s { world = (m.is_job_running caller primary.task_id s.world).1 }),
  )

  recover_leased-Passive :
      (primary : Claim) (secondary : Option Claim) (now lease_until : ℕ)
      → Passive (recover_leased m primary secondary now lease_until)
  unfolding recover_leased
  recover_leased-Passive primary secondary now lease_until s = ground (
    arith,
    recover_fence_group-Passive primary secondary lease_until s,
    recover_adopt_group-Passive primary secondary lease_until now s,
  )

  recover_group-Passive :
      (primary : Claim) (secondary : Option Claim) → Passive (recover_group m primary secondary)
  unfolding recover_group
  recover_group-Passive primary secondary s =
      let s' : State W = record s { world = (m.now s.world).1 } in
      Passive->>= (group_lease m (m.now s.world).0 primary secondary)
        (recover_leased m primary secondary (m.now s.world).0)
        (group_lease-Passive (m.now s.world).0 primary secondary)
        (recover_leased-Passive primary secondary (m.now s.world).0) s'

  recover_task_group-Passive : (claims : List Claim) → Passive (recover_task_group m claims)
  unfolding recover_task_group
  recover_task_group-Passive claims s = elim (Option-cases (group_pair claims)) [
    | inl e ↦
        rw (e, takes_some_lease)
          (Passive-for_each (sort_claims claims) (λ c. recover_group m c none)
            (λ c. recover_group-Passive c none) s)
    | inr ((a, b), e) ↦ rw (e, takes_some_lease) (recover_group-Passive a (some b) s)
  ]

  -- The result of `Recover` is that of its listing, its first call: where that fails, `Recover`
  -- fails and leaves the held claims as they were, and else it succeeds.
  abbrev pub AsListed : Result Failure (List Claim) → State W → Type 0
  AsListed (ok claims) s = (recover m s).0 ≡ ok tt
  AsListed (err f) s = ((recover m s).0 ≡ err (client_error f)) × ((recover m s).2.held ≡ s.held)

  -- `Recover` takes and extends no lease: its trace has no acquire and no renew. It fails exactly
  -- where its listing fails, and then leaves the held claims as they were.
  pub recover-takes_some_lease :
      (s : State W)
      → (takes_some_lease (recover m s).1 ≡ false) × AsListed (m.list caller m.cluster s.world).0 s
  unfolding recover recover_listed
  recover-takes_some_lease s = elim (Result-cases (m.list caller m.cluster s.world).0) [
    | inl (claims, e) ↦ (
      ground (
        arith,
        e,
        takes_some_lease-append
            (for_each (task_ids claims) (λ t. recover_task_group m (by_task_id t claims))
              (record s { world = (m.list caller m.cluster s.world).1 })).1
            []
            (Passive-for_each (task_ids claims) (λ t. recover_task_group m (by_task_id t claims))
              (λ t. recover_task_group-Passive (by_task_id t claims))
              (record s { world = (m.list caller m.cluster s.world).1 }))
            refl,
      ),
      rw e (ground (arith, e)),
    )
    | inr (f, e) ↦ (ground (arith, e), rw e (ground (arith, e), ground (arith, e)))
  ]
