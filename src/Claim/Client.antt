-- ===== src/Claim/Client.antt =====
-- pkg/claim/vault_api_client.go and job_control.go: what the lease manager is told by the claim
-- server and by the cluster.
use agent_task_executor.Common.{ℕ, Bool}
use agent_task_executor.Text.{Text}

-- `Claim`: the server's view of a held lease.
pub record Claim : Type 0 where
  pub scope : Text
  pub id : Text
  pub holder : Text
  pub task_id : Text
  pub lease_until : ℕ
  pub renew_before : ℕ
  pub lease_token : Text
  pub lease_unreadable : Bool

-- The errors that a caller tells apart by `errors.Is`, and all others.
pub data Failure : Type 0 where
  claim_held claim_free lease_lost target_invalid other : Failure
