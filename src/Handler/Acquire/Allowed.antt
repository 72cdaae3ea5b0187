-- ===== src/Handler/Acquire/Allowed.antt =====
-- When the claim of a spawn lets it go on (acquireSpawnClaim in pkg/handler/claim_wiring.go).
use agent_task_executor.Common.{
  ◌≡◌, refl, sym, ap, subst, ◌↔◌, ◌⊎◌, inl, inr, arith, Bool, true, false, Option, none, some,
  Result, ok, err,
}
use agent_task_executor.Text.{Text}
use agent_task_executor.Claim.Key.{Unicode, KeyError, Keys}
use agent_task_executor.Claim.Lease.{
  ManagerError, lease_conflict, bad_key, lease_not_expired, client_error,
}
use agent_task_executor.Handler.Task.{Task}
use agent_task_executor.Handler.CurrentJob.{
  ClaimMode, claim_mode_off, claim_mode_shadow, claim_mode_on,
}
use agent_task_executor.Handler.Filter.{HandlerState}
use agent_task_executor.Handler.Acquire.{
  ClaimSource, lost_claim_action, AcquireReads, taken_over, after_takeover, after_claim, after_keys,
  by_mode, derived, acquire_spawn_claim,
}

-- The claim was free, or it had lapsed and was taken over, and the configuration lets such a task run
-- again.
abbrev pub IsTaken : Option ManagerError → Option ManagerError → Option Bool → Type 0
IsTaken claim takeover rerun =
    (claim ≡ none) ⊎ ((claim ≡ some lease_conflict) × (takeover ≡ none) × (rerun ≡ some true))

-- There is a lease manager, the scheme of the keys is that of the others, there are keys, and their
-- claim is taken.
abbrev pub IsAllowed : ClaimMode → Result KeyError Keys → AcquireReads → Type 0
IsAllowed claim_mode_off keys r = Unit
IsAllowed claim_mode_shadow keys r = Unit
IsAllowed claim_mode_on keys r =
    (r.manager_error ≡ none)
    × (r.scheme_error ≡ none)
    × ((k : Keys) × (keys ≡ ok k)
        × IsTaken (r.claim_error k.primary k.secondary) (r.takeover_error k.primary k.secondary)
            r.rerun_on_lost_claim)

takeover_shadow :
    (t : Option ManagerError) (r : AcquireReads) (id : Text) (s : HandlerState)
    → (after_takeover t claim_mode_shadow r id s).0 ≡ true
unfolding after_takeover
takeover_shadow none r id s = refl
takeover_shadow (some e) r id s = refl

claim_shadow :
    (c t : Option ManagerError) (r : AcquireReads) (id : Text) (s : HandlerState)
    → (after_claim c t claim_mode_shadow r id s).0 ≡ true
unfolding after_claim
claim_shadow none t r id s = refl
claim_shadow (some lease_conflict) t r id s = takeover_shadow t r id s
claim_shadow (some bad_key) t r id s = refl
claim_shadow (some lease_not_expired) t r id s = refl
claim_shadow (some (client_error f)) t r id s = refl

keys_shadow :
    (m g : Option Text) (keys : Result KeyError Keys) (r : AcquireReads) (id : Text)
    (s : HandlerState)
    → (after_keys m g keys claim_mode_shadow r id s).0 ≡ true
unfolding after_keys
keys_shadow (some e) g keys r id s = refl
keys_shadow none (some e) keys r id s = refl
keys_shadow none none (err e) r id s = refl
keys_shadow none none (ok k) r id s =
    claim_shadow (r.claim_error k.primary k.secondary) (r.takeover_error k.primary k.secondary) r id
      s

taken_over-rerun :
    (a : Option Bool) (r : AcquireReads) (id : Text) (s : HandlerState)
    → ((taken_over claim_mode_on (lost_claim_action a) r id s).0 ≡ true) ↔ (a ≡ some true)
unfolding taken_over lost_claim_action
taken_over-rerun none r id s = (λ f. absurd (ground (arith, f)), λ f. absurd (ground (arith, f)))
taken_over-rerun (some true) r id s = (λ f. refl, λ f. refl)
taken_over-rerun (some false) r id s =
    (λ f. absurd (ground (arith, f)), λ f. absurd (not_true (ap (any false) f)))
  where
    any : Bool → Option Bool → Bool
    any d none = d
    any d (some b) = b

    not_true : false ≡ true → ⊥
    not_true f = ground (arith, f)

after_claim-IsTaken :
    (c t : Option ManagerError) (r : AcquireReads) (id : Text) (s : HandlerState)
    → ((after_claim c t claim_mode_on r id s).0 ≡ true) ↔ IsTaken c t r.rerun_on_lost_claim
unfolding after_claim after_takeover
after_claim-IsTaken none t r id s = (λ f. inl refl, λ f. refl)
after_claim-IsTaken (some lease_conflict) none r id s =
    let back = taken_over-rerun r.rerun_on_lost_claim r id s in
    (
      λ f. inr (refl, refl, back.0 f),
      λ x. elim x [ inl e ↦ absurd (ground (arith, e)) | inr (e, f, a) ↦ back.1 a ],
    )
after_claim-IsTaken (some lease_conflict) (some e) r id s = (
  λ f. absurd (ground (arith, f)),
  λ x. elim x [ inl e ↦ absurd (ground (arith, e)) | inr (e, f, a) ↦ absurd (ground (arith, f)) ],
)
after_claim-IsTaken (some bad_key) t r id s = (
  λ f. absurd (ground (arith, f)),
  λ x. elim x [ inl e ↦ absurd (ground (arith, e)) | inr (e, f, a) ↦ absurd (ground (arith, e)) ],
)
after_claim-IsTaken (some lease_not_expired) t r id s = (
  λ f. absurd (ground (arith, f)),
  λ x. elim x [ inl e ↦ absurd (ground (arith, e)) | inr (e, f, a) ↦ absurd (ground (arith, e)) ],
)
after_claim-IsTaken (some (client_error c)) t r id s = (
  λ f. absurd (ground (arith, f)),
  λ x. elim x [ inl e ↦ absurd (ground (arith, e)) | inr (e, f, a) ↦ absurd (ground (arith, e)) ],
)

abbrev IsTakenFor : AcquireReads → Keys → Type 0
IsTakenFor r k =
    IsTaken (r.claim_error k.primary k.secondary) (r.takeover_error k.primary k.secondary)
      r.rerun_on_lost_claim

keys_or : Keys → Result KeyError Keys → Keys
keys_or d (ok k) = k
keys_or d (err e) = d

after_keys-IsAllowed :
    (m g : Option Text) (keys : Result KeyError Keys) (r : AcquireReads) (id : Text)
    (s : HandlerState)
    → ((after_keys m g keys claim_mode_on r id s).0 ≡ true)
      ↔ ((m ≡ none) × (g ≡ none) × ((k : Keys) × (keys ≡ ok k) × IsTakenFor r k))
unfolding after_keys keys_or
after_keys-IsAllowed (some e) g keys r id s =
    (λ f. absurd (ground (arith, f)), λ (x, y, z). absurd (ground (arith, x)))
after_keys-IsAllowed none (some e) keys r id s =
    (λ f. absurd (ground (arith, f)), λ (x, y, z). absurd (ground (arith, y)))
after_keys-IsAllowed none none (err e) r id s =
    (λ f. absurd (ground (arith, f)), λ (x, y, (k, z, w)). absurd (ground (arith, z)))
after_keys-IsAllowed none none (ok keys) r id s =
    let both =
      after_claim-IsTaken (r.claim_error keys.primary keys.secondary)
        (r.takeover_error keys.primary keys.secondary) r id s in
    (
      λ f. (refl, refl, (keys, refl, both.0 f)),
      λ (x, y, (k, z, w)). both.1 (subst (IsTakenFor r) (sym (ap (keys_or keys) z)) w),
    )

by_mode-IsAllowed :
    (mode : ClaimMode) (keys : Result KeyError Keys) (r : AcquireReads) (id : Text)
    (s : HandlerState)
    → ((by_mode mode keys r id s).0 ≡ true) ↔ IsAllowed mode keys r
unfolding by_mode
by_mode-IsAllowed claim_mode_off keys r id s = (λ f. tt, λ x. refl)
by_mode-IsAllowed claim_mode_shadow keys r id s =
    (λ f. tt, λ x. keys_shadow r.manager_error r.scheme_error keys r id s)
by_mode-IsAllowed claim_mode_on keys r id s =
    after_keys-IsAllowed r.manager_error r.scheme_error keys r id s

-- In the modes `off` and `shadow` `acquireSpawnClaim` always lets the spawn go on. In the mode `on`
-- it does exactly if there is a lease manager, the scheme guard does not object, the task has
-- keys, and either `ClaimPair` gets their claim, or it meets a conflict, `TakeoverPair` gets it,
-- and the configuration sets rerunOnLostClaim to true.
pub acquire_spawn_claim-IsAllowed :
    (u : Unicode) (trim_space : Text → Text) (r : AcquireReads) (task : Task) (source : ClaimSource)
    (s : HandlerState)
    → ((acquire_spawn_claim u trim_space r task source s).0 ≡ true)
      ↔ IsAllowed r.claim_mode (derived u trim_space task source) r
unfolding acquire_spawn_claim
acquire_spawn_claim-IsAllowed u trim_space r task source s =
    by_mode-IsAllowed r.claim_mode (derived u trim_space task source) r task.id s
