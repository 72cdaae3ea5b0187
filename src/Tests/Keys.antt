-- ===== src/Tests/Keys.antt =====
-- Claim keys (pkg/claim/key.go) at concrete inputs.
use agent_task_executor.Common.{◌≡◌, refl, ◌↔◌, true, false, ◌&&◌, [], some, none, ok, err, ◌≤◌}
use agent_task_executor.Text.{
  Text, codes, text_eq, has_prefix, contains, has_suffix, split, trim_prefix,
}
use agent_task_executor.Claim.Target.{new_pr_claim, new_repo_claim, valid_pr_number, all_digits}
use agent_task_executor.Claim.Key.{
  Unicode, owner_field, repo_keyed, validate_claim_component, derive_claim_key,
  derive_claim_keys_with_body, Keys, to_lower, number_of, atoi, atoi_from, itoa_fuel, key_for,
  target_from_key, equal_fold, first_number, pull_request_number_from_body, trim_left, trim_right,
  refused, has_slash,
}
use agent_task_executor.Claim.Key.Shape.{HasShape, validate_claim_component_iff}
use agent_task_executor.Claim.Key.RoundTrip.{target_from_key-key_for, key_for-target_from_key}
use agent_task_executor.Claim.Key.Derive.{SameLock, derive_claim_key_injective, Addresses}
use agent_task_executor.Claim.Key.Body.{body_target, is_none, derive_claim_keys_with_body-Addresses}
use agent_task_executor.Claim.Key.Number.{number_of_canonical}

-- No letter beyond ASCII has another case.
abbrev plain : Unicode
plain = record { lower = λ r. r; folds = λ a b. false }

abbrev owner : Text
owner = codes "Bborbe"

abbrev repo : Text
repo = codes "agent"

abbrev review_body : Text
review_body = codes "see\n https://github.com/bborbe/Agent/pull/007 \n"

update_key :
    derive_claim_key plain (codes "update-go") (codes "t-1") owner repo
    ≡ ok (codes "claims/repo/bborbe/agent")
unfolding derive_claim_key repo_keyed to_lower validate_claim_component text_eq contains has_prefix
    has_suffix
update_key = refl

slash_refused :
    derive_claim_key plain (codes "release") (codes "t-1") (codes "a/b") repo
    ≡ err (refused owner_field has_slash)
unfolding derive_claim_key repo_keyed to_lower validate_claim_component text_eq contains has_prefix
    has_suffix
slash_refused = refl

review_key :
    derive_claim_keys_with_body plain (codes "pr-review") (codes "t-1") owner repo review_body
    ≡ ok (record { primary = codes "claims/pr/bborbe/agent/7"; secondary = []; by_task = false })
unfolding derive_claim_keys_with_body to_lower validate_claim_component text_eq contains has_prefix
    has_suffix pull_request_number_from_body split first_number trim_left trim_right number_of
    all_digits atoi_from itoa_fuel equal_fold trim_prefix
review_key = refl

validate_claim_component_iff_example :
    (validate_claim_component owner_field (codes "a-b.c") ≡ ok tt) ↔ HasShape (codes "a-b.c")
validate_claim_component_iff_example = validate_claim_component_iff owner_field (codes "a-b.c")

target_from_key-key_for_example :
    target_from_key (codes "claims/repo/bborbe/agent")
    ≡ some (new_repo_claim (codes "bborbe") (codes "agent"))
unfolding key_for
target_from_key-key_for_example =
    target_from_key-key_for (new_repo_claim (codes "bborbe") (codes "agent"))
      (codes "claims/repo/bborbe/agent") (refl, (refl, (refl, (refl, (refl, (refl, tt))))))
      (refl, (refl, (refl, (refl, (refl, tt))))) refl

key_for-target_from_key_example : key_for (new_pr_claim (codes "a") (codes "b") (codes "..")) ≡ none
unfolding target_from_key has_prefix split valid_pr_number trim_prefix
key_for-target_from_key_example =
    key_for-target_from_key (codes "claims/pr/a/b/..")
      (new_pr_claim (codes "a") (codes "b") (codes "..")) refl

derive_claim_key_injective_example :
    (codes "claims/repo/bborbe/agent" ≡ codes "claims/task/t-2")
    ↔ SameLock plain
        (repo_keyed (codes "update-go"))
        (repo_keyed (codes "coding"))
        (codes "t-1", owner, repo)
        (codes "t-2", owner, repo)
unfolding derive_claim_key repo_keyed to_lower validate_claim_component text_eq contains has_prefix
    has_suffix
derive_claim_key_injective_example =
    derive_claim_key_injective plain (codes "update-go") (codes "t-1") owner repo
      (codes "claims/repo/bborbe/agent") (codes "coding") (codes "t-2") owner repo
      (codes "claims/task/t-2") refl refl

number_of_canonical_example :
    (valid_pr_number (codes "7") ≡ true)
    × (has_prefix (codes "7") (codes "0") ≡ false)
    × (1 ≤ atoi (codes "7"))
    × (atoi (codes "7") ≡ atoi (codes "007"))
    × (all_digits (codes "007") ≡ true)
unfolding number_of all_digits atoi_from itoa_fuel
number_of_canonical_example = number_of_canonical plain (codes "007") (codes "7") refl

abbrev review_keys : Keys
review_keys = record { primary = codes "claims/pr/bborbe/agent/7"; secondary = []; by_task = false }

derive_claim_keys_with_body-Addresses_example :
    Addresses review_keys.primary
      (body_target plain (codes "pr-review") (codes "t-1") owner repo review_body)
    × (review_keys.secondary ≡ [])
    × (review_keys.by_task ≡ (
        text_eq (codes "pr-review") (codes "pr-review")
        && is_none (
            pull_request_number_from_body plain
              (to_lower plain owner)
              (to_lower plain repo)
              review_body)))
derive_claim_keys_with_body-Addresses_example =
    derive_claim_keys_with_body-Addresses plain (codes "pr-review") (codes "t-1") owner repo
      review_body review_keys review_key
