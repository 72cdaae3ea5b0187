-- ===== src/Claim/Lease/Recover.antt =====
-- `Recover` (pkg/claim/lease_manager.go): the claims that this cluster held before a restart are
-- listed, and each is adopted, released or fenced. Claims with equal keys stay in the order of the
-- listing where they are sorted by key.
use agent_task_executor.Common.{
  ℕ, Bool, true, false, ◌&&◌, ◌-◌, Option, none, some, Result, ok, err, if◌then◌else◌, List, [],
  ◌∷◌, ◌++◌, ltb,
}
use agent_task_executor.Text.{Text, codes, text_eq, text_lt}
use agent_task_executor.Claim.Target.{ClaimTarget, no_target}
use agent_task_executor.Claim.Key.{target_from_key}
use agent_task_executor.Claim.Client.{Claim, Failure}
use agent_task_executor.Claim.Lease.Store.{HeldClaim, no_path, fence_path, insert}
use agent_task_executor.Claim.Lease.Clock.{lease_duration, zero_time, fence_due}
use agent_task_executor.Claim.Lease.{
  caller, LeaseManager, M, pure, ◌>>=◌, ◌>>◌, count, get_held, set_held, for_each,
  current_date_time, client_list, is_job_running, delete_job, ManagerError, client_error, error,
  fenced, adopted,
}
use agent_task_executor.Claim.Lease.Fence.{best_effort_release}
use agent_task_executor.Claim.Lease.Release.{release_refs, release_ref}

abbrev pub claim_key_of : Claim → Text
claim_key_of c = codes "claims/" ++ c.scope ++ codes "/" ++ c.id

abbrev pub or_no_target : Option ClaimTarget → ClaimTarget
or_no_target none = no_target
or_no_target (some target) = target

unfoldable pub target_for : Claim → ClaimTarget
target_for c = or_no_target (target_from_key (claim_key_of c))

abbrev pub second_key_of : Option Claim → Text
second_key_of none = []
second_key_of (some c) = claim_key_of c

abbrev pub second_target_of : Option Claim → ClaimTarget
second_target_of none = no_target
second_target_of (some c) = target_for c

abbrev pub second_token_of : Option Claim → Text
second_token_of none = []
second_token_of (some c) = c.lease_token

-- The fields that every recovered claim has, at their zero values where nothing is known.
abbrev pub listed_claim : Claim → Option Claim → ℕ → HeldClaim
listed_claim primary secondary lease_until = record {
  key = claim_key_of primary;
  target = target_for primary;
  task_id = primary.task_id;
  lease_token = primary.lease_token;
  lease_until = lease_until;
  second_key = second_key_of secondary;
  second_target = second_target_of secondary;
  second_token = second_token_of secondary;
  last_renew_at = zero_time;
  renew_next_tick = false;
  pending_job_deletion = false;
  pending_deletion_path = no_path;
  release_pending = false;
  needs_running_check = false;
  hold_until = zero_time;
  jobless_since = zero_time;
  last_jobless_check_at = zero_time;
}

-- The claim that `recoverFenceGroup` keeps when the Job cannot be deleted.
abbrev pub fenced_claim : Claim → Option Claim → ℕ → HeldClaim
fenced_claim primary secondary lease_until = record (listed_claim primary secondary lease_until) {
  pending_job_deletion = true;
  pending_deletion_path = fence_path;
}

-- The claim that `storeRecoveredPair` and `repairOrAdoptSingle` record.
abbrev pub adopted_claim : Claim → Option Claim → ℕ → ℕ → Bool → HeldClaim
adopted_claim primary secondary lease_until now needs_check =
    record (listed_claim primary secondary lease_until) {
      last_renew_at = now;
      renew_next_tick = true;
      needs_running_check = needs_check;
    }

-- The repository claim and the claim of a pull request, where a task has one of each.
unfoldable pub group_pair : List Claim → Option (Claim × Claim)
group_pair (a ∷ (b ∷ [])) =
    if text_eq a.scope (codes "repo") && text_eq b.scope (codes "pr")
    then some (a, b)
    else if text_eq a.scope (codes "pr") && text_eq b.scope (codes "repo")
    then some (b, a)
    else none
group_pair _ = none

unfoldable pub insert_claim : Claim → List Claim → List Claim
insert_claim c [] = c ∷ []
insert_claim c (d ∷ ds) =
    let rest = insert_claim c ds in
    if text_lt (claim_key_of d) (claim_key_of c) then d ∷ rest else c ∷ (d ∷ ds)

unfoldable pub sort_claims : List Claim → List Claim
unfolding insert_claim
sort_claims [] = []
sort_claims (c ∷ cs) = insert_claim c (sort_claims cs)

-- The keys of the map `byTask`, in order, each once.
unfoldable pub insert_task : Text → List Text → List Text
insert_task t [] = t ∷ []
insert_task t (u ∷ us) =
    let rest = insert_task t us in
    if text_eq t u then u ∷ us else if text_lt u t then u ∷ rest else t ∷ (u ∷ us)

unfoldable pub task_ids : List Claim → List Text
unfolding insert_task
task_ids [] = []
task_ids (c ∷ cs) = insert_task c.task_id (task_ids cs)

-- `byTask[taskID]`.
unfoldable pub by_task_id : Text → List Claim → List Claim
by_task_id t [] = []
by_task_id t (c ∷ cs) = let rest = by_task_id t cs in if text_eq c.task_id t then c ∷ rest else rest

module _ {W : Type 0} (m : LeaseManager W) where
  -- A lease that cannot be read is over.
  unfoldable pub recovered_lease_until : ℕ → Claim → M W ℕ
  recovered_lease_until now c =
      if c.lease_unreadable
      then (do count error; pure (now - lease_duration))
      else pure c.lease_until

  -- The earlier lease of a pair.
  unfoldable pub group_lease : ℕ → Claim → Option Claim → M W ℕ
  unfolding recovered_lease_until
  group_lease now primary none = recovered_lease_until now primary
  group_lease now primary (some c) = do
    first ← recovered_lease_until now primary
    other ← recovered_lease_until now c
    pure (if ltb other first then other else first)

  abbrev pub store_held : HeldClaim → M W (Unit {0})
  store_held h = do hs ← get_held; set_held (insert h hs)

  -- `recoverFenceGroup` where nothing runs any more.
  unfoldable pub drop_fenced : Claim → Option Claim → M W (Unit {0})
  drop_fenced primary secondary = do
    best_effort_release m (listed_claim primary secondary zero_time)
    count fenced

  -- `recoverFenceGroup` where the Job may run.
  unfoldable pub stop_fenced : Claim → Option Claim → ℕ → M W (Unit {0})
  unfolding drop_fenced
  stop_fenced primary secondary lease_until = do
    r ← delete_job m primary.task_id
    elim r [
      | err e ↦ (do
        count error
        count fenced
        store_held (fenced_claim primary secondary lease_until))
      | ok _ ↦ drop_fenced primary secondary
    ]

  unfoldable pub recover_fence_group : Claim → Option Claim → ℕ → M W (Unit {0})
  unfolding stop_fenced drop_fenced
  recover_fence_group primary secondary lease_until = do
    running ← is_job_running m caller primary.task_id
    elim running [
      | err e ↦ (do count error; stop_fenced primary secondary lease_until)
      | ok true ↦ stop_fenced primary secondary lease_until
      | ok false ↦ drop_fenced primary secondary
    ]

  -- `recoverAdoptGroup` where the Job is not running: the refs are released and not held.
  unfoldable pub release_recovered : Claim → Option Claim → M W (Unit {0})
  release_recovered primary secondary = do
    result ← release_refs (release_ref m caller) (listed_claim primary secondary zero_time)
    elim result [ err f ↦ count error | ok label ↦ count label ]

  unfoldable pub recover_adopt_group : Claim → Option Claim → ℕ → ℕ → M W (Unit {0})
  unfolding release_recovered
  recover_adopt_group primary secondary lease_until now = do
    running ← is_job_running m caller primary.task_id
    elim running [
      | err e ↦ (do count error; store_held (adopted_claim primary secondary lease_until now true))
      | ok true ↦ (do
        store_held (adopted_claim primary secondary lease_until now false)
        count adopted)
      | ok false ↦ release_recovered primary secondary
    ]

  -- `recoverGroup` once the lease is known.
  unfoldable pub recover_leased : Claim → Option Claim → ℕ → ℕ → M W (Unit {0})
  unfolding recover_fence_group recover_adopt_group
  recover_leased primary secondary now lease_until =
      if fence_due now lease_until
      then recover_fence_group primary secondary lease_until
      else recover_adopt_group primary secondary lease_until now

  unfoldable pub recover_group : Claim → Option Claim → M W (Unit {0})
  unfolding recover_leased group_lease
  recover_group primary secondary = do
    now ← current_date_time m
    lease_until ← group_lease now primary secondary
    recover_leased primary secondary now lease_until

  unfoldable pub recover_task_group : List Claim → M W (Unit {0})
  unfolding recover_group
  recover_task_group claims = elim (group_pair claims) [
    | some (a, b) ↦ recover_group a (some b)
    | none ↦ for_each (sort_claims claims) (λ c. recover_group c none)
  ]

  -- `Recover` after the answer to its listing.
  unfoldable pub recover_listed : Result Failure (List Claim) → M W (Result ManagerError (Unit {0}))
  unfolding recover_task_group
  recover_listed (err f) = do count error; pure (err (client_error f))
  recover_listed (ok claims) = do
    for_each (task_ids claims) (λ t. recover_task_group (by_task_id t claims))
    pure (ok tt)

  unfoldable pub recover : M W (Result ManagerError (Unit {0}))
  unfolding recover_listed
  recover = do listed ← client_list m; recover_listed listed
