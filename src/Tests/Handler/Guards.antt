-- ===== src/Tests/Handler/Guards.antt =====
-- The guards of a spawn (pkg/handler) at concrete inputs: a task whose success of the phase
-- `execution` is five minutes old and more, and a task that goes through all gates.
use agent_task_executor.Common.{◌↔◌, ℕ, ◌≡◌, ◌≤◌, refl, true, false, none, some, [], ◌∷◌, ok, err}
use agent_task_executor.Text.{has_prefix, Text, codes, text_eq}
use agent_task_executor.Handler.Maps.{lookup, put}
use agent_task_executor.Handler.Task.{Task}
use agent_task_executor.Handler.TaskStore.{
  TaskStore, new_task_store, mark_succeeded, last_succeeded,
}
use agent_task_executor.Handler.Redrive.{absent, task_phase_string}
use agent_task_executor.Handler.Success.{Reads}
use agent_task_executor.Handler.Success.Once.{Pass, parks, parks-once}
use agent_task_executor.Claim.Client.{claim_free}
use agent_task_executor.Handler.CurrentJob.{JobReads, claim_mode_on}
use agent_task_executor.Handler.Spawn.{SpawnReads}
use agent_task_executor.Handler.Spawn.Passed.{Passed}
use agent_task_executor.Claim.Key.{Unicode}
use agent_task_executor.Claim.Lease.{lease_conflict}
use agent_task_executor.Handler.Acquire.{
  ClaimSource, AcquireReads, claim_owner_repo, derived, acquire_spawn_claim,
}
use agent_task_executor.Handler.Acquire.Allowed.{IsAllowed, acquire_spawn_claim-IsAllowed}
use agent_task_executor.Tests.Handler.{review, fresh_state}
use agent_task_executor.Tests.Handler.Spawn.{readings}

abbrev lower : Text → Text
lower t = t

abbrev done_at : ℕ
done_at = 1_000_000_000_000

abbrev succeeded : TaskStore
succeeded = mark_succeeded review.id (codes "execution") done_at new_task_store

abbrev reads_at : ℕ → Reads
reads_at now = record { now = now; shared = λ phase. none }

-- The view still has the task in `execution`.
abbrev pass_at : ℕ → Pass
pass_at now = record {
  task = review;
  first = reads_at now;
  second = reads_at now;
  view = some (some review);
  publish_error = none;
}

abbrev in_execution :
    (review.id ≡ review.id)
    × ((current : Task) × (some (some review) ≡ some (some current))
        × (current.id ≡ review.id)
        × (task_phase_string current ≡ codes "execution"))
    × ((q : Text) → Unit {0})
    × ((q : Text) → Unit {0})
unfolding task_phase_string
in_execution = (refl, (review, refl, refl, refl), λ q. tt, λ q. tt)

parks-once_example :
    parks lower
      (pass_at 1_400_000_000_000 ∷ (pass_at 1_500_000_000_000 ∷ (pass_at 2_500_000_000_000 ∷ [])))
      succeeded
    ≤ 1
unfolding last_succeeded lookup mark_succeeded put text_eq
parks-once_example =
    parks-once lower review.id (record { phase = codes "execution"; completed_at = done_at })
      (pass_at 1_400_000_000_000 ∷ (pass_at 1_500_000_000_000 ∷ (pass_at 2_500_000_000_000 ∷ [])))
      succeeded refl (in_execution, (in_execution, (in_execution, tt)))

-- No Job of the task is active; its claim is free.
abbrev job_reads : JobReads
job_reads = record {
  executor_namespace = codes "executor";
  is_active = ok false;
  job_exists = ok false;
  grace_now = 0;
  probe_now = 0;
  defer_now = 0;
  claim_mode = claim_mode_on;
  probe_error = none;
  current_claim = err claim_free;
}

abbrev with_job : Task
with_job = record review { current_job = codes "job" }

abbrev spawn_reads : SpawnReads
spawn_reads = record {
  accepted_vaults = codes "v" ∷ [];
  job = job_reads;
  active = ok false;
  first = reads_at 0;
  second = reads_at 0;
  view = none;
  park_error = none;
  redrive_now = 0;
  stored_count = absent;
  stored_reasons = absent;
  capacity = readings;
  is_denied = λ e. false;
  others = λ q. q;
  refusal_error = none;
  others_late = λ q. q;
  index_terminal = false;
}

abbrev ascii : Unicode
ascii = record { lower = λ r. r; folds = λ r q. false }

-- The claim of the task meets a conflict, is taken over, and its agent may run again.
abbrev acquire_reads : AcquireReads
acquire_reads = record {
  claim_mode = claim_mode_on;
  manager_error = none;
  scheme_error = none;
  claim_error = λ primary secondary. some lease_conflict;
  takeover_error = λ primary secondary. none;
  rerun_on_lost_claim = some true;
  park_error = λ left. none;
  is_cancelled = λ left. false;
}

abbrev claim_source : ClaimSource
claim_source = record {
  repo = none;
  clone_url = some (codes "https://user@github.com/bborbe/maintainer.git/");
  content = [];
}

clone_url_names_repo : claim_owner_repo lower claim_source ≡ (codes "bborbe", codes "maintainer")
unfolding claim_owner_repo has_prefix text_eq
clone_url_names_repo = refl

acquire_spawn_claim-IsAllowed_example :
    ((acquire_spawn_claim ascii lower acquire_reads review claim_source fresh_state).0 ≡ true)
    ↔ IsAllowed claim_mode_on (derived ascii lower review claim_source) acquire_reads
acquire_spawn_claim-IsAllowed_example =
    acquire_spawn_claim-IsAllowed ascii lower acquire_reads review claim_source fresh_state
