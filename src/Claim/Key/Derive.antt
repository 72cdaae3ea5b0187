-- ===== src/Claim/Key/Derive.antt =====
-- The keys that `DeriveClaimKey` and `DeriveClaimKeysWithBody` derive (pkg/claim/key.go).
use agent_task_executor.Common.{
  ◌↔◌, refl, ap, ◌≡◌, Bool, true, false, ◌∷◌, ◌++◌, arith, ◌⊎◌, inl, inr, Bool-cases, if◌then◌else◌,
  some, Result, ok, err,
}
use agent_task_executor.Text.{Text, is_empty}
use agent_task_executor.Claim.Target.{
  ClaimTarget, new_task_claim, new_repo_claim, new_pr_claim, all_digits, valid_pr_number,
}
use agent_task_executor.Claim.Key.{
  slash, task_prefix, repo_prefix, pr_prefix, target_from_key, key_for, Unicode, owner_field,
  repo_field, task_id_field, derive_claim_key, repo_keyed, to_lower,
}
use agent_task_executor.Claim.Key.Components.{IsComponent, validate_sound, IsComponent-Lacks}
use agent_task_executor.Claim.Key.RoundTrip.{
  target_from_key_task, target_from_key_repo, target_from_key_pr,
}

-- The key names a target, and the target spells the key: a restarted executor can address it.
pub record Addresses (k : Text) (t : ClaimTarget) : Type 0 where
  pub parses : target_from_key k ≡ some t
  pub spells : key_for t ≡ some k

task_Addresses :
    (id : Text) → is_empty id ≡ false → Addresses (task_prefix ++ id) (new_task_claim id)
unfolding key_for
task_Addresses id h = record { parses = target_from_key_task id h; spells = ground arith }

repo_Addresses :
    (o r : Text)
    → IsComponent o
    → IsComponent r
    → Addresses (repo_prefix ++ (o ++ (slash ∷ r))) (new_repo_claim o r)
unfolding key_for
repo_Addresses o r co cr = record {
  parses =
      target_from_key_repo o r co.nonempty cr.nonempty (IsComponent-Lacks co)
        (IsComponent-Lacks cr);
  spells = ground (arith, co.nonempty, cr.nonempty);
}

pub pr_Addresses :
    (o r n : Text)
    → IsComponent o
    → IsComponent r
    → IsComponent n
    → all_digits n ≡ true
    → Addresses (pr_prefix ++ (o ++ (slash ∷ (r ++ (slash ∷ n))))) (new_pr_claim o r n)
unfolding key_for valid_pr_number
pr_Addresses o r n co cr cn d = record {
  parses =
      target_from_key_pr o r n co.nonempty cr.nonempty cn.nonempty (IsComponent-Lacks co)
        (IsComponent-Lacks cr) (IsComponent-Lacks cn);
  spells = ground (arith, co.nonempty, cr.nonempty, cn.nonempty);
}

Result-cases : {E A : Type 0} (r : Result E A) → ((a : A) × (r ≡ ok a)) ⊎ ((e : E) × (r ≡ err e))
Result-cases (ok a) = inl (a, refl)
Result-cases (err e) = inr (e, refl)

Unit-ok : {E : Type 0} (r : Result E (Unit {0})) → (r ≡ ok tt) ⊎ ((e : E) × (r ≡ err e))
Unit-ok (ok a) = inl refl
Unit-ok (err e) = inr (e, refl)

module _ (u : Unicode) where
  -- The target of the key of a task.
  abbrev pub target_of : Text → Text → Text → Text → ClaimTarget
  target_of task_type task_id owner repo =
      if repo_keyed task_type
      then new_repo_claim (to_lower u owner) (to_lower u repo)
      else new_task_claim task_id

  -- A derived key is made of accepted components.
  abbrev pub Accepts : Text → Text → Text → Text → Type 0
  Accepts task_type task_id owner repo =
      (repo_keyed task_type ≡ true → IsComponent (to_lower u owner) × IsComponent (to_lower u repo))
      × (repo_keyed task_type ≡ false → IsComponent task_id)

  derive-Accepts : (ty id o r k : Text) → derive_claim_key u ty id o r ≡ ok k → Accepts ty id o r
  unfolding derive_claim_key
  derive-Accepts ty id o r k h = (
    λ keyed. (
      validate_sound owner_field (to_lower u o) (ground arith),
      validate_sound repo_field (to_lower u r) (ground arith),
    ),
    λ keyed. validate_sound task_id_field id (ground arith),
  )

  -- Every key that `DeriveClaimKey` gives is one that `TargetFromKey` reads and `KeyFor` spells.
  pub derive_claim_key-Addresses :
      (ty id o r k : Text) → derive_claim_key u ty id o r ≡ ok k → Addresses k (target_of ty id o r)
  unfolding derive_claim_key
  derive_claim_key-Addresses ty id o r k h = elim (Bool-cases (repo_keyed ty)) [
    | inl keyed ↦
        let (co, cr) = (derive-Accepts ty id o r k h).0 keyed in
        let e : k ≡ repo_prefix ++ (to_lower u o ++ (slash ∷ to_lower u r)) = ground arith in
        rw (keyed, e) (repo_Addresses (to_lower u o) (to_lower u r) co cr)
    | inr by_id ↦
        let c = (derive-Accepts ty id o r k h).1 by_id in
        let e : k ≡ task_prefix ++ id = ground arith in rw (by_id, e) (task_Addresses id c.nonempty)
  ]

  -- Two tasks that exclude one another.
  abbrev pub SameLock : Bool → Bool → Text × Text × Text → Text × Text × Text → Type 0
  SameLock true true (id, o, r) (id', o', r') =
      (to_lower u o ≡ to_lower u o') × (to_lower u r ≡ to_lower u r')
  SameLock false false (id, o, r) (id', o', r') = id ≡ id'
  SameLock _ _ _ _ = ⊥

  abbrev lock_target : Bool → Text × Text × Text → ClaimTarget
  lock_target b (id, o, r) =
      if b then new_repo_claim (to_lower u o) (to_lower u r) else new_task_claim id

  same_target :
      (b b' : Bool) (x y : Text × Text × Text)
      → (b ≡ false → is_empty x.0 ≡ false)
      → (b' ≡ false → is_empty y.0 ≡ false)
      → (lock_target b x ≡ lock_target b' y) ↔ SameLock b b' x y
  same_target true true x y n m = (
    λ e. (ap (λ (t : ClaimTarget). t.owner) e, ap (λ (t : ClaimTarget). t.repo) e),
    λ h. ground (arith, h.0, h.1),
  )
  same_target false false x y n m =
      (λ e. ap (λ (t : ClaimTarget). t.task_id) e, λ h. ground (arith, h))
  same_target true false x y n m =
      (λ e. ground (arith, m refl, ap (λ (t : ClaimTarget). t.task_id) e), λ h. absurd h)
  same_target false true x y n m =
      (λ e. ground (arith, n refl, ap (λ (t : ClaimTarget). t.task_id) e), λ h. absurd h)

  -- Where keys are derived for two tasks, the keys are equal exactly if both tasks are keyed by
  -- repository and name the same owner and the same repository in lower case, or both are keyed by
  -- task id and have the same id: no two locks of different things alias.
  pub derive_claim_key_injective :
      (ty id o r k ty' id' o' r' k' : Text)
      → derive_claim_key u ty id o r ≡ ok k
      → derive_claim_key u ty' id' o' r' ≡ ok k'
      → (k ≡ k') ↔ SameLock (repo_keyed ty) (repo_keyed ty') (id, o, r) (id', o', r')
  derive_claim_key_injective ty id o r k ty' id' o' r' k' h h' =
      let a = derive_claim_key-Addresses ty id o r k h in
      let a' = derive_claim_key-Addresses ty' id' o' r' k' h' in
      let same =
        same_target (repo_keyed ty) (repo_keyed ty') (id, o, r) (id', o', r')
          (λ b. ((derive-Accepts ty id o r k h).1 b).nonempty)
          (λ b. ((derive-Accepts ty' id' o' r' k' h').1 b).nonempty) in
      (
        λ e. same.0 (ground (arith, a.parses, a'.parses, e)),
        λ s. ground (arith, a.spells, a'.spells, same.1 s),
      )
