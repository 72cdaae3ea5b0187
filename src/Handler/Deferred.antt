-- ===== src/Handler/Deferred.antt =====
-- The queue of deferred respawns (pkg/handler/task_event_handler_deferred.go, and the parts of
-- task_event_handler.go and concurrency_admission.go that write to it). Each operation here is one
-- critical section of `deferredMu`, so threads interleave between operations and never within one.
-- An epoch is a 64-bit counter, which wraps around.
pub mod Eviction
use agent_task_executor.Common.{
  ℕ, Bool, true, false, not, ◌||◌, ◌&&◌, ◌+◌, ◌%◌, Option, none, some, List, [], ◌∷◌, if◌then◌else◌,
  ltb, ◌==◌,
}
use agent_task_executor.Text.{Text, text_eq, is_empty}
use agent_task_executor.Handler.Maps.{Map, lookup, put, erase, get_or, has}
use agent_task_executor.Handler.Task.{Task, Config}

pub record DeferredEntry : Type 0 where
  pub task : Task
  pub config : Config
  pub retry_after : ℕ

pub record DeferredClaim : Type 0 where
  pub id : Text
  pub epoch : ℕ

pub record DeferredReplay : Type 0 where
  pub entry : DeferredEntry
  pub claim : DeferredClaim

-- `deferredRespawns`, `deferredEpochs` and `queuedAtStamps`.
pub record Queue : Type 0 where
  pub respawns : Map DeferredEntry
  pub epochs : Map ℕ
  pub stamps : Map Text

abbrev pub uint64_count : ℕ
uint64_count = 18_446_744_073_709_551_616

abbrev pub epoch_of : Text → Queue → ℕ
epoch_of id q = get_or 0 id q.epochs

unfoldable pub remove_deferred_entry : Text → Queue → Queue
remove_deferred_entry id q = record {
  respawns = erase id q.respawns;
  epochs = put id ((epoch_of id q + 1) % uint64_count) q.epochs;
  stamps = erase id q.stamps;
}

unfoldable pub clear_queued_at_stamp_if_not_deferred : Text → Queue → Queue
clear_queued_at_stamp_if_not_deferred id q =
    if has id q.respawns then q else record q { stamps = erase id q.stamps }

unfoldable pub record_queued_at_stamp : Text → Text → Queue → Queue
record_queued_at_stamp id value q = record q { stamps = put id value q.stamps }

unfoldable pub queued_at_stamp : Text → Queue → Text
queued_at_stamp id q = get_or [] id q.stamps

unfoldable pub claim_invalidated : Option DeferredClaim → Queue → Bool
claim_invalidated none q = false
claim_invalidated (some c) q = not (epoch_of c.id q == c.epoch)

-- The claim pins the epoch at which a snapshot was taken.
abbrev pub pin : Text → Queue → DeferredClaim
pin id q = record { id = id; epoch = epoch_of id q }

abbrev pub park : Task → Config → ℕ → Queue → Queue
park task config retry_after q = record q {
  respawns =
      put task.id (record { task = task; config = config; retry_after = retry_after }) q.respawns;
}

unfoldable pub store_grace_window_deferral :
    Task → Option Config → ℕ → Option DeferredClaim → Queue → Queue
unfolding claim_invalidated
store_grace_window_deferral task none retry_after claim q = q
store_grace_window_deferral task (some config) retry_after claim q =
    if claim_invalidated claim q then q else park task config retry_after q

-- The last critical section of `deferIfAtConcurrencyCap`: an evicted claim parks nothing, and a
-- claimed replay parks only where nothing is parked.
unfoldable pub park_at_cap : Task → Config → ℕ → Option DeferredClaim → Queue → Queue
unfolding claim_invalidated
park_at_cap task config retry_after claim q = if claim_invalidated claim q then q else elim claim [
  | none ↦ park task config retry_after q
  | some c ↦ if has task.id q.respawns then q else park task config retry_after q
]

-- The first critical section of `evalDeferredRespawns`: the due entries, each with a claim, and the
-- entries that stay.
unfoldable pub due_replays : ℕ → Queue → Map DeferredEntry → List DeferredReplay
due_replays now q [] = []
due_replays now q ((id, entry) ∷ m) =
    let rest = due_replays now q m in
    if not (ltb now entry.retry_after)
    then record { entry = entry; claim = pin id q } ∷ rest
    else rest

unfoldable pub not_due : ℕ → Map DeferredEntry → Map DeferredEntry
not_due now [] = []
not_due now ((id, entry) ∷ m) =
    let rest = not_due now m in if not (ltb now entry.retry_after) then rest else (id, entry) ∷ rest

unfoldable pub collect_due : ℕ → Queue → List DeferredReplay × Queue
unfolding due_replays not_due
collect_due now q = (due_replays now q q.respawns, record q { respawns = not_due now q.respawns })
