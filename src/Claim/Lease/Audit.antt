-- ===== src/Claim/Lease/Audit.antt =====
-- The audit of the held claims against the running Jobs (pkg/claim/audit.go).
use agent_task_executor.Common.{
  ◌≡◌, ◌↔◌, refl, Bool, true, false, ◌||◌, inl, inr, arith, Bool-cases, All, All-map, List, [], ◌∷◌,
  sym, ◌∙◌,
}
use agent_task_executor.Text.{Text, text_eq, text_lt, is_empty}
use agent_task_executor.Text.Laws.{eq_of_text_eq}
use agent_task_executor.Claim.Lease.Store.{HeldClaim}
use agent_task_executor.Claim.Lease.Create.{HeldClaimView}
use agent_task_executor.Claim.Lease.View.{
  rows, insert_row, sort_rows, held_claims, is_held_task, is_running, is_counted,
  jobs_without_claim, claims_without_job, audit_mismatch,
}

-- Some held claim is the task's.
abbrev pub holds_task : Text → List HeldClaim → Bool
holds_task t [] = false
holds_task t (h ∷ hs) = text_eq h.task_id t || holds_task t hs

is_held_task-insert_row :
    (t : Text) (r : HeldClaimView) (rs : List HeldClaimView)
    → is_held_task t (insert_row r rs) ≡ (text_eq r.task_id t || is_held_task t rs)
unfolding is_held_task insert_row
is_held_task-insert_row t r [] = refl
is_held_task-insert_row t r (q ∷ qs) = ground (arith, is_held_task-insert_row t r qs)

is_held_task-sort_rows :
    (t : Text) (rs : List HeldClaimView) → is_held_task t (sort_rows rs) ≡ is_held_task t rs
unfolding is_held_task sort_rows
is_held_task-sort_rows t [] = refl
is_held_task-sort_rows t (r ∷ rs) =
    ground (arith, is_held_task-insert_row t r (sort_rows rs), is_held_task-sort_rows t rs)

is_held_task-rows : (t : Text) (hs : List HeldClaim) → is_held_task t (rows hs) ≡ holds_task t hs
unfolding is_held_task rows
is_held_task-rows t [] = refl
is_held_task-rows t (h ∷ hs) = ground (arith, is_held_task-rows t hs)

is_held_task-held_claims :
    (t : Text) (hs : List HeldClaim) → is_held_task t (held_claims hs) ≡ holds_task t hs
unfolding held_claims
is_held_task-held_claims t hs =
    ground (arith, is_held_task-sort_rows t (rows hs), is_held_task-rows t hs)

module _ (P : Text → Type 0) where
  abbrev OfRows : List HeldClaimView → Type 0
  OfRows rs = All (λ r. P r.task_id) rs

  OfRows-insert_row :
      (r : HeldClaimView) (rs : List HeldClaimView)
      → OfRows (insert_row r rs) ↔ (P r.task_id × OfRows rs)
  unfolding insert_row
  OfRows-insert_row r [] = (λ a. a, λ a. a)
  OfRows-insert_row r (q ∷ qs) =
      let (there, back) = OfRows-insert_row r qs in
      elim (Bool-cases (text_lt q.key r.key)) [
        | inl c ↦
            rw c (λ (a, b). let (x, y) = there b in (x, (a, y)), λ (x, (a, y)). (a, back (x, y)))
        | inr c ↦ rw c (λ a. a, λ a. a)
      ]

  OfRows-sort_rows : (rs : List HeldClaimView) → OfRows (sort_rows rs) ↔ OfRows rs
  unfolding sort_rows
  OfRows-sort_rows [] = (λ a. a, λ a. a)
  OfRows-sort_rows (r ∷ rs) =
      let (there, back) = OfRows-insert_row r (sort_rows rs) in
      let (on, off) = OfRows-sort_rows rs in
      (λ a. let (x, y) = there a in (x, on y), λ (x, y). back (x, off y))

  OfRows-rows : (hs : List HeldClaim) → OfRows (rows hs) ↔ All (λ h. P h.task_id) hs
  unfolding rows
  OfRows-rows [] = (λ a. a, λ a. a)
  OfRows-rows (h ∷ hs) =
      let (there, back) = OfRows-rows hs in
      elim (Bool-cases (is_empty h.second_key)) [
        | inl c ↦ rw c (λ (x, y). (x, there y), λ (x, y). (x, back y))
        | inr c ↦ rw c (λ (x, (z, y)). (x, there y), λ (x, y). (x, (x, back y)))
      ]

  OfRows-held_claims : (hs : List HeldClaim) → OfRows (held_claims hs) ↔ All (λ h. P h.task_id) hs
  unfolding held_claims
  OfRows-held_claims hs =
      let (there, back) = OfRows-sort_rows (rows hs) in
      let (on, off) = OfRows-rows hs in (λ a. on (there a), λ a. back (off a))

-- The first loop counts nothing exactly if every task of the map is held.
jobs_without_claim-zero :
    (held : List HeldClaimView) (running : List (Text × Bool))
    → (jobs_without_claim held running ≡ 0) ↔ All (λ t. is_held_task t.0 held ≡ true) running
unfolding jobs_without_claim
jobs_without_claim-zero held [] = (λ e. tt, λ a. refl)
jobs_without_claim-zero held ((t, b) ∷ ts) =
    let (there, back) = jobs_without_claim-zero held ts in
    (λ e. (ground arith, there (ground arith)), λ (x, y). ground (arith, back y))

-- A task that is counted already, or whose Job runs.
abbrev Settled : List (Text × Bool) → List Text → Text → Type 0
Settled running counted t = (is_counted t counted || is_running t running) ≡ true

Settled-less :
    (running : List (Text × Bool)) (counted : List Text) (u t : Text)
    → is_running u running ≡ true
    → Settled running (u ∷ counted) t
    → Settled running counted t
unfolding is_counted
Settled-less running counted u t p q = ground (arith, eq_of_text_eq u t)

Settled-more :
    (running : List (Text × Bool)) (counted : List Text) (u t : Text)
    → Settled running counted t
    → Settled running (u ∷ counted) t
unfolding is_counted
Settled-more running counted u t q = ground arith

-- The second loop counts nothing exactly if every row's task is counted already or runs.
claims_without_job-zero :
    (running : List (Text × Bool)) (counted : List Text) (rs : List HeldClaimView)
    → (claims_without_job running counted rs ≡ 0) ↔ OfRows (Settled running counted) rs
unfolding claims_without_job
claims_without_job-zero running counted [] = (λ e. tt, λ a. refl)
claims_without_job-zero running counted (r ∷ rs) =
    elim (Bool-cases (is_counted r.task_id counted)) [
      | inl c ↦
          let (there, back) = claims_without_job-zero running counted rs in
          (
            λ e. (ground (arith, c), there (ground (arith, c, e))),
            λ (x, y). ground (arith, c, back y),
          )
      | inr c ↦
          let (there, back) = claims_without_job-zero running (r.task_id ∷ counted) rs in
          (
            λ e.
                let runs : is_running r.task_id running ≡ true = ground (arith, c, e) in
                (
                  ground (arith, runs),
                  All-map rs (λ q. Settled-less running counted r.task_id q.task_id runs)
                      (there (ground (arith, c, e))),
                ),
            λ (x, y). ground (
              arith,
              c,
              x,
              back (All-map rs (λ q. Settled-more running counted r.task_id q.task_id) y),
            ),
          )
    ]

-- `AuditMismatch` raises its counter by nothing exactly if every task of the map of running tasks
-- has a held claim and every held claim's task is flagged as running there.
pub audit_mismatch-zero :
    (running : List (Text × Bool)) (hs : List HeldClaim)
    → (audit_mismatch running hs ≡ 0) ↔ (
        All (λ t. holds_task t.0 hs ≡ true) running
        × All (λ h. is_running h.task_id running ≡ true) hs)
unfolding audit_mismatch is_counted
audit_mismatch-zero running hs =
    let (there, back) = jobs_without_claim-zero (held_claims hs) running in
    let (on, off) = claims_without_job-zero running [] (held_claims hs) in
    let (rows_to, rows_from) = OfRows-held_claims (Settled running []) hs in
    (
      λ e. (
        All-map running (λ t p. sym (is_held_task-held_claims t.0 hs) ∙ p) (there (ground arith)),
        rows_to (on (ground arith)),
      ),
      λ (x, y). ground (
        arith,
        off (rows_from y),
        back (All-map running (λ t p. is_held_task-held_claims t.0 hs ∙ p) x),
      ),
    )
