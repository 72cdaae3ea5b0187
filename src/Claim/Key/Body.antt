-- ===== src/Claim/Key/Body.antt =====
-- `DeriveClaimKeysWithBody` (pkg/claim/key.go) and the keys it addresses.
use agent_task_executor.Common.{
  ◌≡◌, Bool, true, false, [], List, ◌∷◌, ◌++◌, arith, inl, inr, Bool-cases, Option-cases, some,
  none, ok, err, Result, Option, ◌&&◌, if◌then◌else◌, not,
}
use agent_task_executor.Text.{Text, codes, text_eq, split, trim_prefix}
use agent_task_executor.Claim.Target.{ClaimTarget, new_pr_claim, valid_pr_number}
use agent_task_executor.Claim.Key.{
  slash, pr_prefix, Unicode, Keys, KeyError, single_key, owner_field, repo_field, number_field,
  derive_claim_keys_with_body, derive_claim_key, pr_key, to_lower, number_of_parts,
  pull_request_number_from_line, trim_space, first_number, pull_request_number_from_body,
}
use agent_task_executor.Claim.Key.Components.{validate_sound}
use agent_task_executor.Claim.Key.Derive.{
  Addresses, pr_Addresses, target_of, derive_claim_key-Addresses,
}
use agent_task_executor.Claim.Key.Number.{number_of_canonical}

abbrev pub is_none {ℓ} : {A : Type ℓ} → Option A → Bool
is_none none = true
is_none (some a) = false

single_key_ok :
    (u : Unicode) (b : Bool) (r : Result KeyError Text) (ks : Keys)
    → single_key u b r ≡ ok ks
    → (r ≡ ok ks.primary) × (ks.secondary ≡ []) × (ks.by_task ≡ b)
single_key_ok u b (ok k) ks h = (ground arith, ground arith, ground arith)
single_key_ok u b (err e) ks h = (ground arith, ground arith, ground arith)

module _ (u : Unicode) where
  parts_valid :
      (owner repo : Text) (ps : List Text) (n : Text)
      → number_of_parts u owner repo ps ≡ some n
      → valid_pr_number n ≡ true
  parts_valid owner repo (o ∷ (r ∷ (p ∷ (raw ∷ [])))) n h =
      (number_of_canonical u raw n (ground arith)).0
  parts_valid owner repo _ n h = ground arith

  line_valid :
      (owner repo line n : Text)
      → pull_request_number_from_line u owner repo line ≡ some n
      → valid_pr_number n ≡ true
  unfolding pull_request_number_from_line
  line_valid owner repo line n h =
      parts_valid owner repo (split slash (trim_prefix line (codes "https://github.com/"))) n
        (ground arith)

  first_number_valid :
      (owner repo : Text) (lines : List Text) (n : Text)
      → first_number u owner repo lines ≡ some n
      → valid_pr_number n ≡ true
  unfolding first_number
  first_number_valid owner repo [] n h = ground arith
  first_number_valid owner repo (line ∷ lines) n h =
      elim (Option-cases (pull_request_number_from_line u owner repo (trim_space line))) [
        | inl e ↦ first_number_valid owner repo lines n (ground (arith, e))
        | inr (m, e) ↦ line_valid owner repo (trim_space line) n (ground (arith, e))
      ]

  body_valid :
      (owner repo body n : Text)
      → pull_request_number_from_body u owner repo body ≡ some n
      → valid_pr_number n ≡ true
  unfolding pull_request_number_from_body
  body_valid owner repo body n h = first_number_valid owner repo (split 10 body) n (ground arith)

  pr_key-Addresses :
      (o r n k : Text)
      → valid_pr_number n ≡ true
      → pr_key u o r n ≡ ok k
      → Addresses k (new_pr_claim o r n)
  unfolding pr_key valid_pr_number
  pr_key-Addresses o r n k v h =
      let e : k ≡ pr_prefix ++ (o ++ (slash ∷ (r ++ (slash ∷ n)))) = ground arith in
      rw e (
        pr_Addresses o r n (validate_sound owner_field o (ground arith))
          (validate_sound repo_field r (ground arith))
          (validate_sound number_field n (ground arith)) (ground arith))

  -- The target of the keys of a task.
  abbrev pub body_target : Text → Text → Text → Text → Text → ClaimTarget
  body_target ty id owner repo body =
      if not (text_eq ty (codes "pr-review"))
      then target_of u ty id owner repo
      else elim (pull_request_number_from_body u (to_lower u owner) (to_lower u repo) body) [
        | some number ↦ new_pr_claim (to_lower u owner) (to_lower u repo) number
        | none ↦ target_of u ty id (to_lower u owner) (to_lower u repo)
      ]

  -- A task has one key and never a second; the key is one that `TargetFromKey` reads and `KeyFor`
  -- spells, also where it is a pull request's. A pr-review without a pull-request URL, and no other
  -- task, is marked as keyed by its task.
  pub derive_claim_keys_with_body-Addresses :
      (ty id owner repo body : Text) (ks : Keys)
      → derive_claim_keys_with_body u ty id owner repo body ≡ ok ks
      → Addresses ks.primary (body_target ty id owner repo body)
        × (ks.secondary ≡ [])
        × (ks.by_task ≡ (
            text_eq ty (codes "pr-review")
            && is_none (pull_request_number_from_body u (to_lower u owner) (to_lower u repo) body)))
  unfolding derive_claim_keys_with_body
  derive_claim_keys_with_body-Addresses ty id owner repo body ks h =
      elim (Bool-cases (text_eq ty (codes "pr-review"))) [
        | inr other ↦
            let (p, q, r) =
              single_key_ok u false (derive_claim_key u ty id owner repo) ks
                (ground (arith, other)) in
            rw other (derive_claim_key-Addresses u ty id owner repo ks.primary p, q, r)
        | inl review ↦ elim (Option-cases found) [
          | inl e ↦
              let (p, q, r) =
                single_key_ok u true (derive_claim_key u ty id (to_lower u owner) (to_lower u repo))
                  ks (ground (arith, review, e)) in
              rw (review, e)
                (
                  derive_claim_key-Addresses u ty id (to_lower u owner) (to_lower u repo) ks.primary
                      p,
                  q,
                  r,
                )
          | inr (n, e) ↦
              let (p, q, r) =
                single_key_ok u false (pr_key u (to_lower u owner) (to_lower u repo) n) ks
                  (ground (arith, review, e)) in
              rw (review, e)
                (
                  pr_key-Addresses (to_lower u owner) (to_lower u repo) n ks.primary
                      (body_valid (to_lower u owner) (to_lower u repo) body n e) p,
                  q,
                  r,
                )
        ]
      ]
    where
      found : Option Text
      found = pull_request_number_from_body u (to_lower u owner) (to_lower u repo) body
