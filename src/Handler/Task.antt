-- ===== src/Handler/Task.antt =====
-- Tasks and agent configurations (pkg/handler/task_event_handler.go, task_event_handler_phases.go,
-- vault_matcher.go; pkg/agent_configuration.go, task_type_filter.go), and the tests on them that
-- ask nobody. The task type of the agent library is a parameter by its accessors: a field is what
-- an accessor returns. The phases and statuses of the domain library are the parameter `Domain`.
use agent_task_executor.Common.{
  ℕ, Bool, false, not, ◌||◌, Option, none, some, List, [], ◌∷◌, if◌then◌else◌,
}
use agent_task_executor.Text.{Text, is_empty, text_eq}
use agent_task_executor.Handler.Int.{ℤ}
use agent_task_executor.Handler.Maps.{mem}

-- `domain.TaskPhase` and `domain.TaskStatus`, and the test `Contains` of their lists.
pub record Domain : Type 0 where
  pub todo : Text
  pub phase_in_progress : Text
  pub human_review : Text
  pub phase_done : Text
  pub planning : Text
  pub execution : Text
  pub ai_review : Text
  pub in_progress : Text
  pub completed : Text
  pub aborted : Text
  pub contains : List Text → Text → Bool

-- `lib.Task`: its identifier, its vault, and its frontmatter by the accessors. A missing key that
-- is told apart from an empty one is `none`.
pub record Task : Type 0 where
  pub id : Text
  pub vault : Text
  pub status : Text
  pub phase : Option Text
  pub stage : Text
  pub assignee : Text
  pub task_type : Text
  pub cluster : Text
  pub previous_assignee : Text
  pub current_job : Text
  pub job_started_at : Option ℕ
  pub queued_at : Option Text
  pub recurring : Option Text
  pub ref : Option Text
  pub trigger_scope : Option Text
  pub trigger_count : ℕ
  pub has_max_triggers : Bool
  pub max_triggers : ℕ
  pub trigger_refusal : Option (Text × ℕ × ℕ)

-- `Config.Trigger`, and the fields of `AgentConfiguration` that decide whether a task runs.
pub record Trigger : Type 0 where
  pub phases : List Text
  pub statuses : List Text

pub record Config : Type 0 where
  pub assignee : Text
  pub task_type : Text
  pub task_types : List Text
  pub default_for_task_types : List Text
  pub trigger : Option Trigger
  pub image : Text
  pub max_concurrent_jobs : ℤ
  pub priority_class : Text
  pub job_namespace : Text

-- `EffectiveTaskTypes`: each type once, the singular one first.
unfoldable pub unseen : List Text → List Text → List Text
unseen seen [] = []
unseen seen (t ∷ ts) =
    let skipped = unseen seen ts in
    let kept = unseen (t ∷ seen) ts in if mem t seen then skipped else t ∷ kept

unfoldable pub effective_task_types : Text → List Text → List Text
unfolding unseen
effective_task_types task_type task_types =
    if is_empty task_type
    then unseen [] task_types
    else task_type ∷ unseen (task_type ∷ []) task_types

-- `TaskTypeInSet`: the empty type never matches.
unfoldable pub task_type_in_set : Text → List Text → Bool
task_type_in_set task_type types = if is_empty task_type then false else mem task_type types

-- Whether `taskTypeMismatchReason` gives a reason.
unfoldable pub type_mismatch : Task → Option Config → Bool
unfolding effective_task_types task_type_in_set
type_mismatch task none = false
type_mismatch task (some cfg) =
    let types = effective_task_types cfg.task_type cfg.task_types in
    elim types as (λ _. Bool) [
      | [] ↦ false
      | t ∷ ts ↦ not (task_type_in_set task.task_type (t ∷ ts))
    ]

module _ (d : Domain) where
  unfoldable pub is_terminal : Text → Bool
  is_terminal phase = text_eq phase d.human_review || text_eq phase d.phase_done

  unfoldable pub is_terminal_status : Text → Bool
  is_terminal_status status = text_eq status d.completed || text_eq status d.aborted

  abbrev pub default_trigger_phases : List Text
  default_trigger_phases = d.planning ∷ (d.execution ∷ (d.ai_review ∷ []))

  abbrev pub default_trigger_statuses : List Text
  default_trigger_statuses = d.in_progress ∷ []

  abbrev pub or_default : List Text → List Text → List Text
  or_default default [] = default
  or_default default (t ∷ ts) = t ∷ ts

  unfoldable pub effective_trigger_phases : Option Config → List Text
  effective_trigger_phases none = default_trigger_phases
  effective_trigger_phases (some cfg) = elim cfg.trigger [
    | none ↦ default_trigger_phases
    | some t ↦ or_default default_trigger_phases t.phases
  ]

  unfoldable pub effective_trigger_statuses : Option Config → List Text
  effective_trigger_statuses none = default_trigger_statuses
  effective_trigger_statuses (some cfg) = elim cfg.trigger [
    | none ↦ default_trigger_statuses
    | some t ↦ or_default default_trigger_statuses t.statuses
  ]

-- `NewVaultMatcher` and `Accepts`.
abbrev pub non_empty : List Text → List Text
non_empty [] = []
non_empty (t ∷ ts) = let rest = non_empty ts in if is_empty t then rest else t ∷ rest

unfoldable pub new_vault_matcher : Text → List Text → List Text
new_vault_matcher vault aliases = non_empty (vault ∷ aliases)

unfoldable pub accepts : List Text → Text → Bool
accepts accepted stamp = if is_empty stamp then false else mem stamp accepted
