-- ===== src/Tests/Api.antt =====
-- The claim client (pkg/claim/vault_api_client.go) at concrete inputs. The server answers every
-- request with the same status and a claim; the world counts the requests.
use agent_task_executor.Common.{ℕ, not, ◌+◌, ◌≡◌, refl, true, none, some, err, [], ◌∷◌}
use agent_task_executor.Text.{codes, is_empty}
use agent_task_executor.Claim.Target.{
  ClaimTarget, new_task_claim, new_pr_claim, path, renew_path, valid_pr_number, all_digits,
}
use agent_task_executor.Claim.Target.Addressing.{has_one_form, path-has_one_form}
use agent_task_executor.Claim.Client.{target_invalid}
use agent_task_executor.Claim.Lease.{caller}
use agent_task_executor.Claim.Api.{
  Transport, ClaimResponseBody, acquire, renew, release, read, list,
}
use agent_task_executor.Claim.Api.Answers.{
  usable, listed_tokens, claims_are_usable, unaddressable_refused,
}

abbrev item : ClaimResponseBody
item = record {
  scope = codes "task";
  id = codes "t";
  holder = codes "sun";
  task_id = codes "t";
  lease_until = codes "2026-01-01T00:00:00Z";
  renew_before = [];
  lease_token = codes "token";
}

abbrev server : ℕ → Transport ℕ
server status = record {
  path_escape = λ s. s;
  query_escape = λ s. s;
  exchange = λ ctx method address body w. (some (status, []), w + 1);
  decode_claim_body = λ raw. some item;
  decode_held_until = λ raw. none;
  decode_items = λ raw. some (item ∷ []);
  parse_date_time = λ s. some 5;
}

claims_are_usable_example :
    (usable (acquire (server 201) caller (new_task_claim (codes "t")) (codes "sun") [] 300 0).0
      ≡ true)
    × (usable
          (renew
            (server 201)
            caller
            (new_task_claim (codes "t"))
            (codes "sun")
            (codes "token")
            []
            300
            0).0
        ≡ true)
    × (usable (read (server 201) caller (new_task_claim (codes "t")) 0).0 ≡ true)
    × (listed_tokens (list (server 201) caller (codes "sun") 0).0 ≡ true)
claims_are_usable_example =
    claims_are_usable (server 201) caller (new_task_claim (codes "t")) (codes "sun") (codes "token")
      [] 300 0

-- The number of a pull request with a dot in it.
abbrev dotted : ClaimTarget
dotted = new_pr_claim (codes "owner") (codes "repo") (codes "..")

unaddressable_refused_example :
    (acquire (server 201) caller dotted (codes "sun") (codes "t") 300 0 ≡ (err target_invalid, 0))
    × (renew (server 201) caller dotted (codes "sun") (codes "token") (codes "t") 300 0
        ≡ (err target_invalid, 0))
    × (release (server 201) caller dotted (codes "token") 0 ≡ (err target_invalid, 0))
    × (read (server 201) caller dotted 0 ≡ (err target_invalid, 0))
unfolding path valid_pr_number all_digits
unaddressable_refused_example =
    unaddressable_refused (server 201) caller dotted (codes "sun") (codes "token") (codes "t") 300 0
      refl

path-has_one_form_example :
    (is_empty (path (λ s. s) dotted) ≡ not (has_one_form dotted))
    × (is_empty (renew_path (λ s. s) dotted) ≡ not (has_one_form dotted))
path-has_one_form_example = path-has_one_form (λ s. s) dotted
