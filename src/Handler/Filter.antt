-- ===== src/Handler/Filter.antt =====
-- Which tasks may be spawned (pkg/handler/task_event_handler.go: parseAndFilter, reconcileTask and
-- what they call; task_event_handler_reconcile_refusal.go). A listing is what the provider of
-- configurations answers, `publish_error` what publishing a type mismatch answers. What is asked of
-- the other components is recorded as calls. Metrics and logs are left out.
pub mod Gates
pub mod Eligible
pub mod Agreement
use agent_task_executor.Common.{
  ℕ, zero, suc, Bool, true, false, not, ◌&&◌, ◌||◌, List, [], ◌∷◌, ◌++◌, Option, none, some,
  if◌then◌else◌, Result, ok, err,
}
use agent_task_executor.Text.{Text, is_empty, text_eq}
use agent_task_executor.Handler.Maps.{Map, put, erase, lookup}
use agent_task_executor.Handler.Task.{
  Domain, Task, Config, type_mismatch, is_terminal, is_terminal_status, effective_trigger_phases,
  effective_trigger_statuses,
}
use agent_task_executor.Handler.TaskStore.{TaskStore, load, delete_task}
use agent_task_executor.Handler.Deferred.{Queue, remove_deferred_entry}
use agent_task_executor.Handler.Redrive.{RedriveStreak, clear_redrive_streak}
use agent_task_executor.Handler.Resolver.{
  ResolveError, config_not_found, config_ambiguous, list_failed, resolve, resolve_by_task_type,
  in_type_previous_assignee,
}

-- The settings of an executor.
pub record Executor : Type 0 where
  pub cluster : Text
  pub run_untagged : Bool
  pub stage_filter : Bool
  pub branch : Text
  pub vault_name : Text

pub data Gate : Type 0 where
  empty_message empty_identifier invalid_message : Gate
  foreign_cluster unresolved_config mismatched_type terminal_status status_not_triggered : Gate
  terminal_phase phase_not_triggered stage_mismatch pin_outside_pool no_routing : Gate

-- What the handler asks of other components.
pub data Call : Type 0 where
  releases_claim clears_stored_streak publishes_mismatch publishes_abort publishes_park :
      Text → Call
  publishes_refusal publishes_lost_park publishes_count acquires_claim : Text → Call
  creates_job publishes_spawn : Text → Call

pub record HandlerState : Type 0 where
  pub task_store : TaskStore
  pub queue : Queue
  pub streaks : Map RedriveStreak
  pub refused_gates : Map Gate
  pub calls : List Call

pub data Verdict : Type 0 where
  fails : ResolveError → Verdict
  fails_to_publish : Text → Verdict
  refuses : Gate → Verdict
  qualifies : Task → Option Config → Verdict

abbrev pub call : Call → HandlerState → HandlerState
call c s = record s { calls = s.calls ++ (c ∷ []) }

abbrev pub evict : Text → HandlerState → HandlerState
evict id s = record s { queue = remove_deferred_entry id s.queue }

unfoldable pub stored_current_job : Task → HandlerState → Text
stored_current_job task s = elim (load task.id s.task_store) [
  | none ↦ []
  | some stored ↦ stored.current_job
]

unfoldable pub stale_event_for_task : Task → HandlerState → Bool
unfolding stored_current_job
stale_event_for_task task s =
    let stored_job = stored_current_job task s in
    not (is_empty stored_job) && not (text_eq stored_job task.current_job)

-- The streak is cleared in memory; the stores are asked to clear theirs.
abbrev pub clear_streak : Text → HandlerState → HandlerState
clear_streak id s =
    call (clears_stored_streak id) (record s { streaks = clear_redrive_streak id s.streaks })

unfoldable pub cleanup_terminal_task : Domain → Task → HandlerState → HandlerState
unfolding stale_event_for_task
cleanup_terminal_task d task s =
    if not (is_terminal_status d task.status) || stale_event_for_task task s
    then s
    else let released = call (releases_claim task.id) s in
      let dropped : HandlerState = record released {
        task_store = delete_task task.id released.task_store;
      } in
      clear_streak task.id (evict task.id dropped)

unfoldable pub is_foreign_cluster : Executor → Task → Bool
is_foreign_cluster ex task =
    if is_empty task.cluster then not ex.run_untagged else not (text_eq task.cluster ex.cluster)

-- `pinOutsidePool`: the pin is not empty and names this executor.
unfoldable pub is_pin_outside_pool : Executor → Task → Text → Bool
is_pin_outside_pool ex task stage =
    not (is_empty task.cluster)
    && (text_eq task.cluster ex.cluster && not (text_eq stage ex.branch))

unfoldable pub stage_skip_result : Executor → Task → Text → Option Gate
unfolding is_pin_outside_pool
stage_skip_result ex task stage =
    if not ex.stage_filter || text_eq stage ex.branch
    then none
    else if is_pin_outside_pool ex task stage
    then some pin_outside_pool
    else some stage_mismatch

-- What both ways of resolving give: no configuration, one, or a skip.
pub data Resolution : Type 0 where
  no_config skip : Resolution
  config_of : Config → Resolution

abbrev pub skip_not_found : Result ResolveError Config → Result ResolveError Resolution
skip_not_found (ok config) = ok (config_of config)
skip_not_found (err config_not_found) = ok skip
skip_not_found (err config_ambiguous) = err config_ambiguous
skip_not_found (err (list_failed e)) = err (list_failed e)

abbrev pub Listing : Type 0
Listing = Result Text (List Config)

unfoldable pub resolve_config : Executor → Listing → Task → Result ResolveError Resolution
resolve_config ex items task =
    if is_empty task.assignee
    then ok no_config
    else skip_not_found (resolve ex.branch ex.vault_name task.assignee items)

abbrev pub resolve_by_type : Executor → Listing → Task → Result ResolveError Resolution
resolve_by_type ex items task =
    if is_empty task.task_type
    then ok no_config
    else elim (in_type_previous_assignee ex.branch ex.vault_name task.previous_assignee
        task.task_type items) [
          | err e ↦ err e
          | ok previous ↦
              skip_not_found
                (resolve_by_task_type ex.branch ex.vault_name task.task_type previous items)
        ]

unfoldable pub resolve_config_for_reconcile :
    Executor → Listing → Task → Result ResolveError Resolution
unfolding resolve_config
resolve_config_for_reconcile ex items task = elim (resolve_config ex items task) [
  | err e ↦ err e
  | ok skip ↦ ok skip
  | ok (config_of config) ↦ ok (config_of config)
  | ok no_config ↦ resolve_by_type ex items task
]
