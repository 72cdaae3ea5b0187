-- ===== src/Handler/Filter/Gates.antt =====
-- The gates of parseAndFilter and of reconcileTask in their order (pkg/handler/task_event_handler.go).
use agent_task_executor.Common.{
  Bool, true, false, not, ◌&&◌, Option, none, some, if◌then◌else◌, Result, ok, err,
}
use agent_task_executor.Text.{Text, is_empty, text_eq}
use agent_task_executor.Handler.Maps.{put, erase}
use agent_task_executor.Handler.Task.{
  Domain, Task, Config, type_mismatch, is_terminal, is_terminal_status, effective_trigger_phases,
  effective_trigger_statuses,
}
use agent_task_executor.Handler.Filter.{
  Executor, Gate, foreign_cluster, unresolved_config, mismatched_type, terminal_status,
  status_not_triggered, terminal_phase, phase_not_triggered, stage_mismatch, no_routing,
  releases_claim, publishes_mismatch, HandlerState, Verdict, fails, fails_to_publish, refuses,
  qualifies, call, evict, stale_event_for_task, cleanup_terminal_task, is_foreign_cluster,
  stage_skip_result, no_config, skip, config_of, Listing, resolve_config,
  resolve_config_for_reconcile,
}

abbrev pub phase_is_terminal : Domain → Option Text → Bool
phase_is_terminal d none = false
phase_is_terminal d (some p) = is_terminal d p

abbrev pub phase_triggered : Domain → Option Config → Option Text → Bool
phase_triggered d config none = false
phase_triggered d config (some p) = d.contains (effective_trigger_phases d config) p

abbrev pub skip_and_evict : Gate → Text → HandlerState → Verdict × HandlerState
skip_and_evict g id s = (refuses g, evict id s)

-- `parseAndFilter` from the status on.
unfoldable pub filter_task :
    Domain → Executor → Task → Option Config → HandlerState → Verdict × HandlerState
unfolding stale_event_for_task
filter_task d ex task config s =
    if is_terminal_status d task.status
    then skip_and_evict terminal_status task.id s
    else if not (d.contains (effective_trigger_statuses d config) task.status)
    then skip_and_evict status_not_triggered task.id s
    else if phase_is_terminal d task.phase
    then skip_and_evict terminal_phase task.id
        (if stale_event_for_task task s then s else call (releases_claim task.id) s)
    else if not (phase_triggered d config task.phase)
    then skip_and_evict phase_not_triggered task.id s
    else elim (stage_skip_result ex task task.stage) [
      | some g ↦ skip_and_evict g task.id s
      | none ↦
          if is_empty task.assignee
          then skip_and_evict no_routing task.id s
          else (qualifies task config, s)
    ]

-- After a type mismatch is published: the refusal, or the error of the publisher.
abbrev pub published_verdict :
    Option Text → Verdict × HandlerState → HandlerState → Verdict × HandlerState
published_verdict (some e) refusal published = (fails_to_publish e, published)
published_verdict none refusal published = refusal

-- The type filter before it. A mismatch is published, which may fail.
unfoldable pub filter_resolved :
    Domain → Executor → Option Text → Task → Option Config → HandlerState → Verdict × HandlerState
unfolding filter_task
filter_resolved d ex publish_error task config s =
    if type_mismatch task config
    then published_verdict publish_error
        (skip_and_evict mismatched_type task.id (call (publishes_mismatch task.id) s))
        (call (publishes_mismatch task.id) s)
    else filter_task d ex task config s

unfoldable pub parse_and_filter :
    Domain
    → Executor
    → Listing
    → Option Text
    → Result Gate Task
    → HandlerState
    → Verdict × HandlerState
unfolding cleanup_terminal_task is_foreign_cluster resolve_config filter_resolved
parse_and_filter d ex items publish_error (err g) s = (refuses g, s)
parse_and_filter d ex items publish_error (ok task) s =
    let s1 = cleanup_terminal_task d task s in
    if is_foreign_cluster ex task
    then skip_and_evict foreign_cluster task.id s1
    else elim (resolve_config ex items task) [
      | err e ↦ (fails e, s1)
      | ok skip ↦ skip_and_evict unresolved_config task.id s1
      | ok no_config ↦ filter_resolved d ex publish_error task none s1
      | ok (config_of config) ↦ filter_resolved d ex publish_error task (some config) s1
    ]

unfoldable pub refuse_reconcile : Gate → Task → HandlerState → Verdict × HandlerState
refuse_reconcile g task s = (refuses g, record s { refused_gates = put task.id g s.refused_gates })

unfoldable pub clear_reconcile_refusal : Text → HandlerState → HandlerState
clear_reconcile_refusal id s = record s { refused_gates = erase id s.refused_gates }

abbrev pub is_none : Option Config → Bool
is_none none = true
is_none (some config) = false

-- `reconcileTask` from the status on.
unfoldable pub reconcile_filtered :
    Domain → Executor → Task → Option Config → HandlerState → Verdict × HandlerState
unfolding refuse_reconcile clear_reconcile_refusal
reconcile_filtered d ex task config s =
    if is_terminal_status d task.status
    then refuse_reconcile terminal_status task s
    else if not (d.contains (effective_trigger_statuses d config) task.status)
    then refuse_reconcile status_not_triggered task s
    else if not (phase_triggered d config task.phase)
    then refuse_reconcile phase_not_triggered task s
    else if phase_is_terminal d task.phase
    then refuse_reconcile terminal_phase task s
    else if ex.stage_filter && not (text_eq task.stage ex.branch)
    then refuse_reconcile stage_mismatch task s
    else if is_empty task.assignee && is_none config
    then refuse_reconcile no_routing task s
    else (qualifies task config, clear_reconcile_refusal task.id s)

unfoldable pub reconcile_resolved :
    Domain → Executor → Option Text → Task → Option Config → HandlerState → Verdict × HandlerState
unfolding refuse_reconcile reconcile_filtered
reconcile_resolved d ex publish_error task config s =
    if type_mismatch task config
    then published_verdict publish_error
        (refuse_reconcile mismatched_type task (call (publishes_mismatch task.id) s))
        (call (publishes_mismatch task.id) s)
    else reconcile_filtered d ex task config s

unfoldable pub reconcile_task :
    Domain → Executor → Listing → Option Text → Task → HandlerState → Verdict × HandlerState
unfolding is_foreign_cluster resolve_config_for_reconcile reconcile_resolved refuse_reconcile
reconcile_task d ex items publish_error task s =
    if is_foreign_cluster ex task
    then refuse_reconcile foreign_cluster task (evict task.id s)
    else elim (resolve_config_for_reconcile ex items task) [
      | err e ↦ (fails e, s)
      | ok skip ↦ refuse_reconcile unresolved_config task s
      | ok no_config ↦ reconcile_resolved d ex publish_error task none s
      | ok (config_of config) ↦ reconcile_resolved d ex publish_error task (some config) s
    ]
