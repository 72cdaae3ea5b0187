-- ===== src/Handler/Acquire.antt =====
-- The claim that a spawn takes right before its Job (acquireSpawnClaim, claimOwnerRepo,
-- parkAfterLostClaim, claimFailureDecision in pkg/handler/claim_wiring.go; LostClaimAction of
-- k8s/apis/agent.benjamin-borbe.de/v1/lost_claim.go). `AcquireReads` gives what the
-- lease manager, the scheme guard and the publisher answer; `trim_space` is `strings.TrimSpace`.
pub mod Allowed
use agent_task_executor.Common.{
  ℕ, zero, suc, Bool, true, false, Option, none, some, List, [], ◌∷◌, if◌then◌else◌, ◌==◌, ◌||◌,
  Result, ok, err,
}
use agent_task_executor.Text.{Text, codes, is_empty, text_eq, has_prefix, drop_text, contains}
use agent_task_executor.Claim.Key.{Unicode, KeyError, Keys, derive_claim_keys_with_body}
use agent_task_executor.Claim.Lease.{
  ManagerError, lease_conflict, bad_key, lease_not_expired, client_error,
}
use agent_task_executor.Handler.Task.{Task}
use agent_task_executor.Handler.CurrentJob.{
  ClaimMode, claim_mode_off, claim_mode_shadow, claim_mode_on,
}
use agent_task_executor.Handler.Filter.{HandlerState, call, publishes_lost_park}

-- The texts on the two sides of the first character `c`.
abbrev pub cut : ℕ → Text → Option (Text × Text)
cut c [] = none
cut c (x ∷ s) =
    let rest = cut c s in
    if x == c then some ([], s) else elim rest [ none ↦ none | some (l, r) ↦ some (x ∷ l, r) ]

-- What follows the first place of a separator.
abbrev pub after_text : Text → Text → Option Text
after_text sep [] = none
after_text sep (x ∷ s) =
    let rest = after_text sep s in
    if has_prefix (x ∷ s) sep then some (drop_text (x ∷ s) sep) else rest

-- `strings.TrimSuffix(s, suffix)`, for a suffix that is not empty.
abbrev pub trim_suffix : Text → Text → Text
trim_suffix [] suffix = []
trim_suffix (x ∷ s) suffix =
    let rest = trim_suffix s suffix in if text_eq (x ∷ s) suffix then [] else x ∷ rest

-- `splitOwnerRepo`: what has a slash, with something on both sides of the first one.
unfoldable pub split_owner_repo : Text → Option (Text × Text)
split_owner_repo raw = elim (cut b'/' raw) [
  | none ↦ none
  | some (owner, repo) ↦ if is_empty owner || is_empty repo then none else some (owner, repo)
]

abbrev pub without_user : Text → Text
without_user rest = elim (cut b'@' rest) [ none ↦ rest | some (user, host) ↦ host ]

abbrev pub path_of : Text → Option Text
path_of raw = elim (after_text (codes "://") raw) [
  | some rest ↦ elim (cut b'/' (without_user rest)) [ none ↦ none | some (host, path) ↦ some path ]
  | none ↦
      if has_prefix raw (codes "git@")
      then (elim (cut b':' raw) [ none ↦ none | some (host, path) ↦ some path ])
      else none
]

-- The keys of the frontmatter that name a repository, and the body of the task.
pub record ClaimSource : Type 0 where
  pub repo : Option Text
  pub clone_url : Option Text
  pub content : Text

module _ (trim_space : Text → Text) where
  unfoldable pub owner_repo_from_clone_url : Text → Option (Text × Text)
  unfolding split_owner_repo
  owner_repo_from_clone_url raw =
      elim (path_of (trim_suffix (trim_suffix (trim_space raw) (codes "/")) (codes ".git"))) [
        | none ↦ none
        | some path ↦ split_owner_repo path
      ]

  abbrev pub from_clone_url : Option Text → Text × Text
  unfolding owner_repo_from_clone_url
  from_clone_url none = ([], [])
  from_clone_url (some raw) = elim (owner_repo_from_clone_url raw) [ none ↦ ([], []) | some x ↦ x ]

  unfoldable pub claim_owner_repo : ClaimSource → Text × Text
  unfolding split_owner_repo from_clone_url
  claim_owner_repo source = elim source.repo [
    | none ↦ from_clone_url source.clone_url
    | some raw ↦ elim (split_owner_repo raw) [ some x ↦ x | none ↦ from_clone_url source.clone_url ]
  ]

pub data LostClaimAction : Type 0 where
  redispatch_after_lost_claim park_after_lost_claim : LostClaimAction

unfoldable pub lost_claim_action : Option Bool → LostClaimAction
lost_claim_action none = park_after_lost_claim
lost_claim_action (some true) = redispatch_after_lost_claim
lost_claim_action (some false) = park_after_lost_claim

-- The errors of the manager, of the guard, of `ClaimPair` and of `TakeoverPair` for the two keys;
-- the last two functions take how many attempts to write the park are left.
pub record AcquireReads : Type 0 where
  pub claim_mode : ClaimMode
  pub manager_error : Option Text
  pub scheme_error : Option Text
  pub claim_error : Text → Text → Option ManagerError
  pub takeover_error : Text → Text → Option ManagerError
  pub rerun_on_lost_claim : Option Bool
  pub park_error : ℕ → Option Text
  pub is_cancelled : ℕ → Bool

abbrev pub park_write_attempts : ℕ
park_write_attempts = 3

-- The writes of a park: another one only after a failure, where the context lives on.
unfoldable pub park_writes : AcquireReads → Text → ℕ → HandlerState → HandlerState
park_writes r id zero s = s
park_writes r id (suc left) s =
    let again = park_writes r id left (call (publishes_lost_park id) s) in
    elim (r.park_error left) [
      | none ↦ call (publishes_lost_park id) s
      | some e ↦ if r.is_cancelled left then call (publishes_lost_park id) s else again
    ]

unfoldable pub claim_failure_decision : ClaimMode → Bool
claim_failure_decision claim_mode_shadow = true
claim_failure_decision claim_mode_off = false
claim_failure_decision claim_mode_on = false

-- After a takeover: only `on` may park.
abbrev pub taken_over :
    ClaimMode → LostClaimAction → AcquireReads → Text → HandlerState → Bool × HandlerState
unfolding park_writes
taken_over claim_mode_off action r id s = (true, s)
taken_over claim_mode_shadow action r id s = (true, s)
taken_over claim_mode_on park_after_lost_claim r id s =
    (false, park_writes r id park_write_attempts s)
taken_over claim_mode_on redispatch_after_lost_claim r id s = (true, s)

-- What follows `TakeoverPair`, from its error on.
abbrev pub after_takeover :
    Option ManagerError → ClaimMode → AcquireReads → Text → HandlerState → Bool × HandlerState
unfolding taken_over lost_claim_action claim_failure_decision
after_takeover none mode r id s = taken_over mode (lost_claim_action r.rerun_on_lost_claim) r id s
after_takeover (some e) mode r id s = (claim_failure_decision mode, s)

-- What follows `ClaimPair`, from its error on.
abbrev pub after_claim :
    Option ManagerError
    → Option ManagerError
    → ClaimMode
    → AcquireReads
    → Text
    → HandlerState
    → Bool × HandlerState
unfolding after_takeover claim_failure_decision
after_claim none takeover mode r id s = (true, s)
after_claim (some lease_conflict) takeover mode r id s = after_takeover takeover mode r id s
after_claim (some bad_key) takeover mode r id s = (claim_failure_decision mode, s)
after_claim (some lease_not_expired) takeover mode r id s = (claim_failure_decision mode, s)
after_claim (some (client_error f)) takeover mode r id s = (claim_failure_decision mode, s)

-- What follows the lease manager, the scheme guard and the derivation of the keys.
unfoldable pub after_keys :
    Option Text
    → Option Text
    → Result KeyError Keys
    → ClaimMode
    → AcquireReads
    → Text
    → HandlerState
    → Bool × HandlerState
unfolding after_claim claim_failure_decision
after_keys (some e) scheme keys mode r id s = (claim_failure_decision mode, s)
after_keys none (some e) keys mode r id s = (claim_failure_decision mode, s)
after_keys none none (err e) mode r id s = (claim_failure_decision mode, s)
after_keys none none (ok keys) mode r id s =
    after_claim (r.claim_error keys.primary keys.secondary)
      (r.takeover_error keys.primary keys.secondary) mode r id s

abbrev pub by_mode :
    ClaimMode → Result KeyError Keys → AcquireReads → Text → HandlerState → Bool × HandlerState
unfolding after_keys
by_mode claim_mode_off keys r id s = (true, s)
by_mode claim_mode_shadow keys r id s =
    after_keys r.manager_error r.scheme_error keys claim_mode_shadow r id s
by_mode claim_mode_on keys r id s =
    after_keys r.manager_error r.scheme_error keys claim_mode_on r id s

module _ (u : Unicode) (trim_space : Text → Text) where
  abbrev pub derived : Task → ClaimSource → Result KeyError Keys
  unfolding derive_claim_keys_with_body claim_owner_repo
  derived task source =
      let (owner, repo) = claim_owner_repo trim_space source in
      derive_claim_keys_with_body u task.task_type task.id owner repo source.content

  unfoldable pub acquire_spawn_claim :
      AcquireReads → Task → ClaimSource → HandlerState → Bool × HandlerState
  unfolding by_mode derived
  acquire_spawn_claim r task source s = by_mode r.claim_mode (derived task source) r task.id s
