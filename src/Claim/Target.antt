-- ===== src/Claim/Target.antt =====
-- pkg/claim/vault_api_client.go: `ClaimTarget`, what a claim is held on.
pub mod Addressing
use agent_task_executor.Common.{
  ℕ, Bool, true, false, not, ◌&&◌, ◌||◌, [], ◌∷◌, ◌++◌, leb, if◌then◌else◌,
}
use agent_task_executor.Text.{Text, codes, is_empty}

pub record ClaimTarget : Type 0 where
  pub task_id : Text
  pub owner : Text
  pub repo : Text
  pub number : Text

-- The zero value, which addresses nothing.
abbrev pub no_target : ClaimTarget
no_target = record { task_id = []; owner = []; repo = []; number = [] }

abbrev pub new_task_claim : Text → ClaimTarget
new_task_claim id = record { task_id = id; owner = []; repo = []; number = [] }

abbrev pub new_repo_claim : Text → Text → ClaimTarget
new_repo_claim o r = record { task_id = []; owner = o; repo = r; number = [] }

abbrev pub new_pr_claim : Text → Text → Text → ClaimTarget
new_pr_claim o r n = record { task_id = []; owner = o; repo = r; number = n }

abbrev pub is_repo : ClaimTarget → Bool
is_repo t = not (is_empty t.owner) || not (is_empty t.repo)

abbrev pub is_pr : ClaimTarget → Bool
is_pr t = not (is_empty t.number)

abbrev pub is_ambiguous : ClaimTarget → Bool
is_ambiguous t = not (is_empty t.task_id) && (is_repo t || is_pr t)

abbrev pub is_digit : ℕ → Bool
is_digit r = leb b'0' r && leb r b'9'

-- The loop of `validPRNumber`.
unfoldable pub all_digits : Text → Bool
all_digits [] = true
all_digits (r ∷ rs) = is_digit r && all_digits rs

unfoldable pub valid_pr_number : Text → Bool
unfolding all_digits
valid_pr_number number = if is_empty number then false else all_digits number

-- `path`, with `escape` for `url.PathEscape`; the empty text says "not addressable".
unfoldable pub path : (Text → Text) → ClaimTarget → Text
unfolding valid_pr_number
path escape t =
    if is_ambiguous t
    then []
    else if not (is_empty t.task_id)
    then codes "/api/v1/tasks/" ++ (escape t.task_id ++ codes "/claim")
    else if is_pr t && (is_empty t.owner || is_empty t.repo || not (valid_pr_number t.number))
    then []
    else if not (is_empty t.owner) && not (is_empty t.repo)
    then (if is_pr t
        then codes "/api/v1/repos/"
          ++ (escape t.owner
              ++ (codes "/"
                  ++ (escape t.repo ++ (codes "/pulls/" ++ (escape t.number ++ codes "/claim")))))
        else codes "/api/v1/repos/"
          ++ (escape t.owner ++ (codes "/" ++ (escape t.repo ++ codes "/claim"))))
    else []

-- The route exists or the target is refused locally: never "/renew" alone.
unfoldable pub renew_path : (Text → Text) → ClaimTarget → Text
renew_path escape t = if not (is_empty (path escape t)) then path escape t ++ codes "/renew" else []
