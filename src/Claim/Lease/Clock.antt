-- ===== src/Claim/Lease/Clock.antt =====
-- The times of pkg/claim/lease_manager.go. An instant is a number of nanoseconds. Go's zero time is
-- the 1st of January of the year 1; the origin here lies 400 days before it, before any instant
-- that RFC 3339 can write, so that no subtraction of the program falls below 0.
use agent_task_executor.Common.{
  ℕ, ◌+◌, ◌-◌, ◌*◌, ◌/◌, Bool, not, List, [], ◌∷◌, Option, none, some, leb, ltb, ◌==◌,
  if◌then◌else◌,
}
use agent_task_executor.Claim.Lease.Store.{HeldClaim}

abbrev pub second : ℕ
second = 1_000_000_000

abbrev pub zero_time : ℕ
zero_time = 34_560_000 * second

abbrev pub lease_duration : ℕ
lease_duration = 300 * second

abbrev pub renew_interval : ℕ
renew_interval = 60 * second

abbrev pub fence_margin : ℕ
fence_margin = 60 * second

abbrev pub fence_lead : ℕ
fence_lead = 10 * second

abbrev pub takeover_grace : ℕ
takeover_grace = 30 * second

abbrev pub jobless_grace : ℕ
jobless_grace = 300 * second

abbrev pub jobless_check_interval : ℕ
jobless_check_interval = 60 * second

abbrev pub jobless_pass_budget : ℕ
jobless_pass_budget = 10 * second

abbrev pub success_grace_period : ℕ
success_grace_period = 300 * second

abbrev pub request_timeout : ℕ
request_timeout = 30 * second

abbrev pub lease_seconds : ℕ
lease_seconds = lease_duration / second

abbrev pub is_zero : ℕ → Bool
is_zero t = t == zero_time

abbrev pub fence_at : ℕ → ℕ
fence_at lease_until = lease_until - fence_margin

unfoldable pub fence_due : ℕ → ℕ → Bool
fence_due now lease_until = ltb (fence_at lease_until - fence_lead) now

unfoldable pub renew_due : ℕ → ℕ → Bool
renew_due now last_renew_at = leb renew_interval (now - last_renew_at)

unfoldable pub takeover_allowed : ℕ → ℕ → Bool
takeover_allowed now lease_until = not (ltb now (lease_until + takeover_grace))

-- The loop of `requestDeadline`: the earliest fence point of the claims that can be fenced.
unfoldable pub earliest_fence : List HeldClaim → Option ℕ → Option ℕ
earliest_fence [] earliest = earliest
earliest_fence (h ∷ hs) earliest = earliest_fence hs (
    if h.pending_job_deletion then earliest else elim earliest [
      | none ↦ some (fence_at h.lease_until)
      | some e ↦ some (if ltb (fence_at h.lease_until) e then fence_at h.lease_until else e)
    ])

unfoldable pub request_deadline : ℕ → List HeldClaim → ℕ
unfolding earliest_fence
request_deadline now hs = elim (earliest_fence hs none) [
  | none ↦ now + request_timeout
  | some e ↦ if ltb e (now + request_timeout) then e else now + request_timeout
]
