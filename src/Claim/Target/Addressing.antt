-- ===== src/Claim/Target/Addressing.antt =====
-- Which claim targets have a path (pkg/claim/vault_api_client.go).
use agent_task_executor.Common.{◌≡◌, Bool, not, ◌&&◌, ◌||◌, arith}
use agent_task_executor.Text.{Text, is_empty}
use agent_task_executor.Claim.Target.{ClaimTarget, path, renew_path, valid_pr_number}

-- Exactly one form is set: a task alone, or a full repository with no number or a valid one.
abbrev pub has_one_form : ClaimTarget → Bool
has_one_form t =
    (not (is_empty t.task_id) && is_empty t.owner && is_empty t.repo && is_empty t.number)
    || (is_empty t.task_id
        && not (is_empty t.owner)
        && not (is_empty t.repo)
        && (is_empty t.number || valid_pr_number t.number))

module _ (escape : Text → Text) where
  -- A target has a path, and a path for a renew, exactly if one form of address is set: a task
  -- alone, or an owner and a repository, with no number or with one of digits only.
  pub path-has_one_form :
      (t : ClaimTarget)
      → (is_empty (path escape t) ≡ not (has_one_form t))
        × (is_empty (renew_path escape t) ≡ not (has_one_form t))
  unfolding path renew_path
  path-has_one_form t = (ground arith, ground arith)
