-- ===== src/Claim/Lease/Fenced.antt =====
-- The held claims after `evaluateFence` (pkg/claim/lease_manager_tick.go).
use agent_task_executor.Common.{
  ℕ, ◌≡◌, refl, sym, ap, Bool, true, false, ◌⊎◌, inl, inr, List, [], ◌∷◌, Option, none, some, arith,
  Bool-cases, Option-cases, Result-cases, not, ◌||◌, subst,
}
use agent_task_executor.Text.{Text, text_eq}
use agent_task_executor.Text.Laws.{eq_of_text_eq, text_eq_refl}
use agent_task_executor.Claim.Lease.Store.{
  fence_path, HeldClaim, find, update, delete, find_key, find-update, find-delete, held_keys,
}
use agent_task_executor.Claim.Lease.Clock.{fence_due}
use agent_task_executor.Claim.Lease.{caller, State, LeaseManager, Event, for_each}
use agent_task_executor.Claim.Lease.Safety.{Outcome, same, dropped, changed}
use agent_task_executor.Claim.Lease.Store.{insert_key, sort_keys}
use agent_task_executor.Claim.Lease.Fence.{fence_claim, fence_step, fence_key, evaluate_fence}
use agent_task_executor.Claim.Lease.Safety.Fence.{
  best_effort_release-held, fence_step-Outcome, asked_deletion,
}
use mathlib.Core.List.{map}

-- The key is in the list.
abbrev has_key : Text → List Text → Bool
has_key k [] = false
has_key k (j ∷ js) = text_eq j k || has_key k js

-- What stands under the key may stay: nothing, a claim whose Job is to be deleted, or one whose
-- fence is not due.
abbrev is_clear : ℕ → Option HeldClaim → Bool
is_clear now none = true
is_clear now (some h) = h.pending_job_deletion || not (fence_due now h.lease_until)

Outcome-find :
    (h : HeldClaim) (hs : List HeldClaim) (t : List Event) (hs' : List HeldClaim) (j : Text)
    → Outcome h hs t hs'
    → text_eq h.key j ≡ false
    → find j hs' ≡ find j hs
Outcome-find h hs t hs' j (same e) n = ap (find j) e
Outcome-find h hs t hs' j (dropped e p) n = ground (arith, find-delete j h.key hs)
Outcome-find h hs t hs' j (changed h' e k q p) n = ground (arith, find-update j h' hs)

module _ {W : Type 0} (m : LeaseManager W) (now : ℕ) where
  abbrev fence_pending : HeldClaim → HeldClaim
  fence_pending h = record h { pending_job_deletion = true; pending_deletion_path = fence_path }

  fence_claim-held :
      (h : HeldClaim) (s : State W)
      → ((fence_claim m h.key h s).2.held ≡ delete h.key s.held)
        ⊎ ((fence_claim m h.key h s).2.held ≡ update (fence_pending h) s.held)
  unfolding fence_claim
  fence_claim-held h s = elim (Bool-cases h.release_pending) [
    | inl p ↦ inl (ground (arith, best_effort_release-held m h s))
    | inr p ↦ elim (Result-cases (m.delete_job caller h.task_id s.world).0) [
      | inl (a, e) ↦ inl (ground (arith, p, e, best_effort_release-held m h (asked_deletion m h s)))
      | inr (x, e) ↦ inr (ground (arith, p, e))
    ]
  ]

  fence_claim_clears :
      (h : HeldClaim) (s : State W)
      → is_clear now (find h.key (fence_claim m h.key h s).2.held) ≡ true
  fence_claim_clears h s = elim (fence_claim-held h s) [
    | inl e ↦ ground (arith, e, find-delete h.key h.key s.held, text_eq_refl h.key)
    | inr e ↦ ground (arith, e, find-update h.key (fence_pending h) s.held, text_eq_refl h.key)
  ]

  fence_step_clears :
      (h : HeldClaim) (s : State W)
      → find h.key s.held ≡ some h
      → is_clear now (find h.key (fence_step m now h.key h s).2.held) ≡ true
  unfolding fence_step
  fence_step_clears h s e = elim (Bool-cases h.pending_job_deletion) [
    | inl p ↦ ground (arith, e, p)
    | inr p ↦ elim (Bool-cases (fence_due now h.lease_until)) [
      | inl q ↦ ground (arith, e, p, q, fence_claim_clears h s)
      | inr q ↦ ground (arith, e, p, q)
    ]
  ]

  fence_key_clears :
      (k : Text) (s : State W) → is_clear now (find k (fence_key m now k s).2.held) ≡ true
  unfolding fence_key
  fence_key_clears k s = elim (Option-cases (find k s.held)) [
    | inl e ↦ ground (arith, e)
    | inr (h, e) ↦
        let own : h.key ≡ k = find_key k s.held h e in
        ground (
          arith,
          e,
          own,
          subst (λ j. is_clear now (find j (fence_step m now j h s).2.held) ≡ true) own
              (fence_step_clears h s (subst (λ j. find j s.held ≡ some h) (sym own) e)),
        )
  ]

  fence_key-other :
      (k j : Text) (s : State W)
      → text_eq k j ≡ false
      → find j (fence_key m now k s).2.held ≡ find j s.held
  unfolding fence_key
  fence_key-other k j s n = elim (Option-cases (find k s.held)) [
    | inl e ↦ ground (arith, e)
    | inr (h, e) ↦
        let own : h.key ≡ k = find_key k s.held h e in
        ground (
          arith,
          e,
          own,
          subst (λ i. find j (fence_step m now i h s).2.held ≡ find j s.held) own
              (Outcome-find h s.held (fence_step m now h.key h s).1
                (fence_step m now h.key h s).2.held j (fence_step-Outcome m now h s)
                (subst (λ i. text_eq i j ≡ false) (sym own) n)),
        )
  ]

  keys_clear :
      (ks : List Text) (j : Text) (s : State W)
      → (has_key j ks || is_clear now (find j s.held)) ≡ true
      → is_clear now (find j (for_each ks (fence_key m now) s).2.held) ≡ true
  unfolding for_each
  keys_clear [] j s h = h
  keys_clear (k ∷ ks) j s h =
      keys_clear ks j (fence_key m now k s).2 (elim (Bool-cases (text_eq k j)) [
        | inl c ↦ ground (arith, eq_of_text_eq k j c, fence_key_clears k s)
        | inr c ↦ ground (arith, fence_key-other k j s)
      ])

has_key-insert_key :
    (j k : Text) (ks : List Text) → has_key j (insert_key k ks) ≡ (text_eq k j || has_key j ks)
unfolding insert_key
has_key-insert_key j k [] = refl
has_key-insert_key j k (i ∷ ks) = ground (arith, has_key-insert_key j k ks)

has_key-sort_keys : (j : Text) (ks : List Text) → has_key j (sort_keys ks) ≡ has_key j ks
unfolding sort_keys
has_key-sort_keys j [] = refl
has_key-sort_keys j (k ∷ ks) =
    ground (arith, has_key-insert_key j k (sort_keys ks), has_key-sort_keys j ks)

found_or_free :
    (now : ℕ) (j : Text) (hs : List HeldClaim)
    → (has_key j (map (λ h. h.key) hs) || is_clear now (find j hs)) ≡ true
unfolding find
found_or_free now j [] = refl
found_or_free now j (h ∷ hs) = ground (arith, found_or_free now j hs)

-- `heldKeys` has the key of every claim.
held_keys_cover :
    (now : ℕ) (j : Text) (hs : List HeldClaim)
    → (has_key j (held_keys hs) || is_clear now (find j hs)) ≡ true
unfolding held_keys
held_keys_cover now j hs = rw (has_key-sort_keys j (map (λ h. h.key) hs)) (found_or_free now j hs)

module _ {W : Type 0} (m : LeaseManager W) where
  -- After `evaluateFence` at an instant, every claim that is still held waits for the deletion of
  -- its Job or has a lease whose fence is not due at that instant.
  pub evaluate_fence_clears :
      (now : ℕ) (s : State W) (k : Text) (h : HeldClaim)
      → find k (evaluate_fence m now s).2.held ≡ some h
      → (h.pending_job_deletion ≡ true) ⊎ (fence_due now h.lease_until ≡ false)
  unfolding evaluate_fence
  evaluate_fence_clears now s k h e =
      let c = keys_clear m now (held_keys s.held) k s (held_keys_cover now k s.held) in
      elim (Bool-cases h.pending_job_deletion) [
        | inl p ↦ inl p
        | inr p ↦ inr (ground (arith, e, c, p))
      ]
