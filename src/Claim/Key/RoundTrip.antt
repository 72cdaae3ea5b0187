-- ===== src/Claim/Key/RoundTrip.antt =====
-- `KeyFor` and `TargetFromKey` (pkg/claim/key.go) as inverses of one another.
use agent_task_executor.Common.{
  ◌≡◌, refl, ap, true, false, ◌&&◌, List, [], ◌∷◌, ◌++◌, arith, inl, inr, Bool-cases, if◌then◌else◌,
  some, none, not,
}
use agent_task_executor.Text.{Text, is_empty, has_prefix, trim_prefix, Lacks, split}
use agent_task_executor.Text.Laws.{
  trim_prefix-append, trim_prefix-restore, split-Lacks, split-append, join, join-split,
  has_prefix-append,
}
use agent_task_executor.Claim.Target.{
  ClaimTarget, is_pr, new_task_claim, new_repo_claim, new_pr_claim, valid_pr_number,
}
use agent_task_executor.Claim.Key.{
  slash, task_prefix, repo_prefix, pr_prefix, repo_target, pr_target, target_from_key, key_for,
}
use agent_task_executor.Claim.Key.Components.{all_digits-Lacks}

pub target_from_key_task :
    (id : Text)
    → is_empty id ≡ false
    → target_from_key (task_prefix ++ id) ≡ some (new_task_claim id)
unfolding target_from_key
target_from_key_task id h =
    rw (has_prefix-append task_prefix id, trim_prefix-append task_prefix id, h)

split_pair :
    (o r : Text) → Lacks slash o → Lacks slash r → split slash (o ++ (slash ∷ r)) ≡ o ∷ (r ∷ [])
split_pair o r ho hr = rw (split-append slash o r ho) (ap (◌∷◌ o) (split-Lacks slash r hr))

pub target_from_key_repo :
    (o r : Text)
    → is_empty o ≡ false
    → is_empty r ≡ false
    → Lacks slash o
    → Lacks slash r
    → target_from_key (repo_prefix ++ (o ++ (slash ∷ r))) ≡ some (new_repo_claim o r)
unfolding target_from_key has_prefix
target_from_key_repo o r ho hr lo lr =
    rw (trim_prefix-append repo_prefix (o ++ (slash ∷ r)), split_pair o r lo lr, ho, hr)

pub target_from_key_pr :
    (o r n : Text)
    → is_empty o ≡ false
    → is_empty r ≡ false
    → is_empty n ≡ false
    → Lacks slash o
    → Lacks slash r
    → Lacks slash n
    → target_from_key (pr_prefix ++ (o ++ (slash ∷ (r ++ (slash ∷ n))))) ≡ some (new_pr_claim o r n)
unfolding target_from_key has_prefix
target_from_key_pr o r n ho hr hn lo lr ln = rw (
  trim_prefix-append pr_prefix (o ++ (slash ∷ (r ++ (slash ∷ n)))),
  split-append slash o (r ++ (slash ∷ n)) lo,
  split_pair r n lr ln,
  ho,
  hr,
  hn,
)

valid-Lacks : (n : Text) → valid_pr_number n ≡ true → Lacks slash n
unfolding valid_pr_number
valid-Lacks n h = all_digits-Lacks n (ground arith)

round_trip :
    (id o r n : Text) (k : Text)
    → Lacks slash o
    → Lacks slash r
    → key_for (record { task_id = id; owner = o; repo = r; number = n }) ≡ some k
    → target_from_key k ≡ some (record { task_id = id; owner = o; repo = r; number = n })
unfolding key_for
round_trip (c ∷ id) [] [] [] k lo lr h = cc (target_from_key_task (c ∷ id) refl)
round_trip [] (c ∷ o) (d ∷ r) [] k lo lr h =
    cc (target_from_key_repo (c ∷ o) (d ∷ r) refl refl lo lr)
round_trip [] (c ∷ o) (d ∷ r) (e ∷ n) k lo lr h = elim (Bool-cases (valid_pr_number (e ∷ n))) [
  | inl v ↦ ground (
    arith,
    target_from_key_pr (c ∷ o) (d ∷ r) (e ∷ n) refl refl refl lo lr (valid-Lacks (e ∷ n) v),
  )
  | inr v ↦ ground arith
]
round_trip _ _ _ _ k lo lr h = ground arith

-- A key that `KeyFor` gives for a target whose owner and repository have no slash parses back to
-- that target.
pub target_from_key-key_for :
    (t : ClaimTarget) (k : Text)
    → Lacks slash t.owner
    → Lacks slash t.repo
    → key_for t ≡ some k
    → target_from_key k ≡ some t
target_from_key-key_for t k lo lr h = round_trip t.task_id t.owner t.repo t.number k lo lr h

repo_parts :
    (ps : List Text) (t : ClaimTarget)
    → repo_target ps ≡ some t
    → (is_pr t ≡ false) × (key_for t ≡ some (repo_prefix ++ join slash ps))
unfolding key_for
repo_parts (o ∷ (r ∷ [])) t h = (ground arith, ground arith)
repo_parts _ t h = (ground arith, ground arith)

pr_parts :
    (ps : List Text) (t : ClaimTarget)
    → pr_target ps ≡ some t
    → (is_pr t ≡ true)
      × (key_for t ≡ (if valid_pr_number t.number then some (pr_prefix ++ join slash ps) else none))
unfolding key_for
pr_parts (o ∷ (r ∷ (n ∷ []))) t h = (ground arith, ground arith)
pr_parts _ t h = (ground arith, ground arith)

task_parts :
    (s : Text) (t : ClaimTarget)
    → (if is_empty s then none else some (new_task_claim s)) ≡ some t
    → (is_pr t ≡ false) × (key_for t ≡ some (task_prefix ++ s))
unfolding key_for
task_parts [] t h = (ground arith, ground arith)
task_parts (c ∷ s) t h = (ground arith, ground arith)

-- Every target that `TargetFromKey` reads is one that `KeyFor` spells as the same key, with one
-- exception: `TargetFromKey` takes any third part of a pull-request key for its number, and
-- `KeyFor` refuses the target where that part is not a text of digits.
pub key_for-target_from_key :
    (k : Text) (t : ClaimTarget)
    → target_from_key k ≡ some t
    → key_for t ≡ (if is_pr t && not (valid_pr_number t.number) then none else some k)
unfolding target_from_key
key_for-target_from_key k t h = elim (Bool-cases (has_prefix k task_prefix)) [
  | inl p ↦
      ground
        (arith, p, task_parts (trim_prefix k task_prefix) t, trim_prefix-restore task_prefix k p)
  | inr p ↦ elim (Bool-cases (has_prefix k repo_prefix)) [
    | inl q ↦ ground (
      arith,
      p,
      q,
      repo_parts (split slash (trim_prefix k repo_prefix)) t,
      join-split slash (trim_prefix k repo_prefix),
      trim_prefix-restore repo_prefix k q,
    )
    | inr q ↦ elim (Bool-cases (has_prefix k pr_prefix)) [
      | inl r ↦ ground (
        arith,
        p,
        q,
        r,
        pr_parts (split slash (trim_prefix k pr_prefix)) t,
        join-split slash (trim_prefix k pr_prefix),
        trim_prefix-restore pr_prefix k r,
      )
      | inr r ↦ ground (arith, p, q, r)
    ]
  ]
]
