-- ===== src/Claim/Lease/View.antt =====
-- `HeldClaims` (pkg/claim/lease_manager.go) and `AuditMismatch` (pkg/claim/audit.go). The set of
-- running tasks is a Go map from task ids to flags: a list of pairs. Rows of equal keys stay in the
-- order of the map where they are sorted by key.
use agent_task_executor.Common.{ℕ, ◌+◌, Bool, false, ◌||◌, List, [], ◌∷◌, if◌then◌else◌}
use agent_task_executor.Text.{Text, text_eq, text_lt, is_empty}
use agent_task_executor.Claim.Lease.Store.{HeldClaim}
use agent_task_executor.Claim.Lease.Create.{HeldClaimView}

abbrev pub primary_row : HeldClaim → HeldClaimView
primary_row h = record {
  key = h.key;
  task_id = h.task_id;
  lease_token = h.lease_token;
  lease_until = h.lease_until;
}

abbrev pub second_row : HeldClaim → HeldClaimView
second_row h = record {
  key = h.second_key;
  task_id = h.task_id;
  lease_token = h.second_token;
  lease_until = h.lease_until;
}

-- The loop of `HeldClaims`: a claim on two keys has two rows.
unfoldable pub rows : List HeldClaim → List HeldClaimView
rows [] = []
rows (h ∷ hs) =
    let rest = rows hs in
    primary_row h ∷ (if is_empty h.second_key then rest else second_row h ∷ rest)

unfoldable pub insert_row : HeldClaimView → List HeldClaimView → List HeldClaimView
insert_row r [] = r ∷ []
insert_row r (q ∷ qs) =
    let rest = insert_row r qs in if text_lt q.key r.key then q ∷ rest else r ∷ (q ∷ qs)

unfoldable pub sort_rows : List HeldClaimView → List HeldClaimView
unfolding insert_row
sort_rows [] = []
sort_rows (r ∷ rs) = insert_row r (sort_rows rs)

unfoldable pub held_claims : List HeldClaim → List HeldClaimView
unfolding rows sort_rows
held_claims hs = sort_rows (rows hs)

-- `heldTaskIDs[taskID]`.
unfoldable pub is_held_task : Text → List HeldClaimView → Bool
is_held_task t [] = false
is_held_task t (r ∷ rs) = text_eq r.task_id t || is_held_task t rs

-- `runningTaskIDs[taskID]`, which is false for a task that is not in the map.
unfoldable pub is_running : Text → List (Text × Bool) → Bool
is_running t [] = false
is_running t ((u, b) ∷ us) = if text_eq u t then b else is_running t us

-- `counted[taskID]`.
unfoldable pub is_counted : Text → List Text → Bool
is_counted t [] = false
is_counted t (u ∷ us) = text_eq u t || is_counted t us

-- The first loop of `AuditMismatch`: every task of the map, whatever its flag.
unfoldable pub jobs_without_claim : List HeldClaimView → List (Text × Bool) → ℕ
unfolding is_held_task
jobs_without_claim held [] = 0
jobs_without_claim held ((t, b) ∷ ts) =
    (if is_held_task t held then 0 else 1) + jobs_without_claim held ts

-- The second loop: every task of a held claim once.
unfoldable pub claims_without_job : List (Text × Bool) → List Text → List HeldClaimView → ℕ
unfolding is_running is_counted
claims_without_job running counted [] = 0
claims_without_job running counted (r ∷ rs) =
    let skipped = claims_without_job running counted rs in
    let rest = claims_without_job running (r.task_id ∷ counted) rs in
    if is_counted r.task_id counted
    then skipped
    else (if is_running r.task_id running then 0 else 1) + rest

-- By how much `AuditMismatch` raises its counter.
unfoldable pub audit_mismatch : List (Text × Bool) → List HeldClaim → ℕ
unfolding jobs_without_claim claims_without_job held_claims
audit_mismatch running hs =
    jobs_without_claim (held_claims hs) running + claims_without_job running [] (held_claims hs)
