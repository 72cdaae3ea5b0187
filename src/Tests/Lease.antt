-- ===== src/Tests/Lease.antt =====
-- The lease manager (pkg/claim/lease_manager.go) at concrete inputs. The world is a clock in
-- nanoseconds; the server grants every acquire and renews for five minutes.
use agent_task_executor.Common.{
  ℕ, ◌+◌, ◌-◌, ◌*◌, ◌≡◌, refl, ◌⊎◌, true, false, [], ◌∷◌, Result, ok, err, if◌then◌else◌,
}
use agent_task_executor.Text.{Text, codes, text_eq, has_prefix, trim_prefix}
use agent_task_executor.Claim.Target.{new_task_claim, no_target}
use agent_task_executor.Claim.Key.{target_from_key}
use agent_task_executor.Claim.Client.{Claim, Failure, claim_free, claim_held}
use agent_task_executor.Claim.Lease.Store.{
  HeldClaim, no_path, find, find_held, find_second, held_keys,
}
use agent_task_executor.Claim.Lease.Clock.{second, zero_time, fence_due}
use agent_task_executor.Claim.Lease.{LeaseManager, State, lease_conflict, for_each}
use agent_task_executor.Claim.Lease.Fence.{evaluate_fence, fence_key, fence_step}
use agent_task_executor.Claim.Lease.Create.{
  claim_pair, claim_targets, is_taken, create_primary, primary_read, primary_answer, finish_created,
  finish_claim_pair, second_created, claimant_task_id,
}
use agent_task_executor.Claim.Lease.Takeover.{takeover_pair}
use agent_task_executor.Claim.Lease.Safety.{Kept}
use agent_task_executor.Claim.Lease.Safety.Run.{releases, ticks, recovers, run, run-Keeps}
use agent_task_executor.Claim.Lease.Grant.Outcome.{Grants}
use agent_task_executor.Claim.Lease.Grant.{claim_pair-Grants}
use agent_task_executor.Claim.Lease.Safety.Takeover.{TakesOver, takeover_pair-Created}
use agent_task_executor.Claim.Lease.Fenced.{evaluate_fence_clears}
use agent_task_executor.Claim.Lease.Exclusion.{
  shows_free, shows_lapsed, reads_first, claim_pair-reads_first, takeover_pair-reads_first,
}
use agent_task_executor.Claim.Lease.Leak.{balanced, claim_pair-balanced}

-- 2026-01-01, roughly.
abbrev pub start : ℕ
start = 63_900_000_000 * second

abbrev pub granted : Text → ℕ → Claim
granted holder until = record {
  scope = codes "task";
  id = codes "t";
  holder = holder;
  task_id = codes "t";
  lease_until = until;
  renew_before = zero_time;
  lease_token = codes "token";
  lease_unreadable = false;
}

-- Reads and secondary acquires answer as given; every other call succeeds.
abbrev world_with : Result Failure Claim → Result Failure Claim → LeaseManager ℕ
world_with reads second_acquires = record {
  cluster = codes "sun";
  now = λ w. (w, w);
  done = λ w. (false, w);
  acquire = λ ctx target holder claimant ttl w. (
    if text_eq target.task_id (codes "u")
        then second_acquires
        else ok (granted holder (w + 300 * second)),
    w,
  );
  renew = λ ctx target holder token claimant ttl w. (ok (granted holder (w + 300 * second)), w);
  release = λ ctx target token w. (ok tt, w);
  read = λ ctx target w. (reads, w);
  list = λ ctx holder w. (ok (granted holder (w + 300 * second) ∷ []), w);
  is_job_running = λ ctx task w. (ok true, w);
  delete_job = λ ctx task w. (ok tt, w);
}

-- The server has no claim.
abbrev pub idle : LeaseManager ℕ
idle = world_with (err claim_free) (err claim_held)

-- The server has a peer's claim, for which the lease is over for 20 seconds.
abbrev peer_claim : Claim
peer_claim = granted (codes "moon") (start - 20 * second)

abbrev contested : LeaseManager ℕ
contested = world_with (ok peer_claim) (err claim_held)

abbrev pub key : Text
key = codes "claims/task/t"

abbrev other_key : Text
other_key = codes "claims/task/u"

-- Held since `start`, in a success hold that ends 200 seconds later.
abbrev pub held_claim : HeldClaim
held_claim = record {
  key = key;
  target = new_task_claim (codes "t");
  task_id = codes "t";
  lease_token = codes "token";
  lease_until = start + 300 * second;
  second_key = [];
  second_target = no_target;
  second_token = [];
  last_renew_at = start;
  renew_next_tick = false;
  pending_job_deletion = false;
  pending_deletion_path = no_path;
  release_pending = false;
  needs_running_check = false;
  hold_until = start + 200 * second;
  jobless_since = zero_time;
  last_jobless_check_at = zero_time;
}

abbrev pub empty : State ℕ
empty = record { held = []; world = start }

abbrev pub holding : State ℕ
holding = record { held = held_claim ∷ []; world = start }

run-Keeps_example :
    Kept held_claim key
      (run idle (ticks ∷ releases key ∷ recovers ∷ []) holding).1
      (run idle (ticks ∷ releases key ∷ recovers ∷ []) holding).2.held
unfolding find text_eq
run-Keeps_example =
    run-Keeps idle (ticks ∷ releases key ∷ recovers ∷ []) holding key held_claim refl refl

evaluate_fence_clears_example : (false ≡ true) ⊎ (fence_due start held_claim.lease_until ≡ false)
unfolding evaluate_fence fence_key fence_step fence_due held_keys find text_eq for_each
evaluate_fence_clears_example = evaluate_fence_clears idle start holding key held_claim refl

-- The server grants both keys.
abbrev granting : LeaseManager ℕ
granting = world_with (err claim_free) (ok (granted (codes "sun") (start + 300 * second)))

claim_pair-Grants_example :
    Grants
      (codes "sun")
      key
      other_key
      (codes "t")
      start
      []
      (claim_pair granting key other_key (codes "t") empty).1
      (claim_pair granting key other_key (codes "t") empty).0
      (claim_pair granting key other_key (codes "t") empty).2.held
    × ((is_taken granting key other_key [] ≡ false)
        ⊎ ((claim_pair granting key other_key (codes "t") empty).2.held ≡ []))
claim_pair-Grants_example = claim_pair-Grants granting key other_key (codes "t") empty

takeover_pair-Created_example :
    TakesOver idle key []
      (codes "t")
      empty
      (takeover_pair idle key [] (codes "t") empty).0
      (takeover_pair idle key [] (codes "t") empty).2.held
takeover_pair-Created_example = takeover_pair-Created idle key [] (codes "t") empty

claim_pair-reads_first_example :
    reads_first shows_free
      (new_task_claim (codes "t"))
      (claim_pair contested key other_key (codes "t") empty).1
    ≡ true
unfolding target_from_key has_prefix trim_prefix
claim_pair-reads_first_example =
    claim_pair-reads_first contested key other_key (codes "t") (new_task_claim (codes "t")) empty
      refl

takeover_pair-reads_first_example :
    reads_first
      (shows_lapsed start)
      (new_task_claim (codes "t"))
      (takeover_pair contested key other_key (codes "t") empty).1
    ≡ true
unfolding target_from_key has_prefix trim_prefix
takeover_pair-reads_first_example =
    takeover_pair-reads_first contested key other_key (codes "t") (new_task_claim (codes "t")) empty
      refl

claim_pair-balanced_example : balanced (claim_pair idle key other_key (codes "t") empty).1 ≡ true
unfolding claim_pair claim_targets target_from_key has_prefix trim_prefix find_held find find_second
    create_primary primary_read primary_answer finish_created finish_claim_pair second_created
    text_eq claimant_task_id
claim_pair-balanced_example =
    claim_pair-balanced idle key other_key (codes "t") empty lease_conflict refl

-- The hold is over, and no Job runs.
abbrev stopped : LeaseManager ℕ
stopped = record idle {
  now = λ w. (w + 250 * second, w);
  is_job_running = λ ctx task w. (ok false, w);
}
