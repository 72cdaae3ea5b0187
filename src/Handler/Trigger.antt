-- ===== src/Handler/Trigger.antt =====
-- The scoped budget of triggers (triggerScope, checkTriggerBudget, recordTriggerSpawn and
-- triggerBudgetWrite in pkg/handler/task_event_handler.go and task_event_handler_trigger_refusal.go).
-- Texts are code points here, while the ref is cut by bytes: they agree on a commit hash.
pub mod Budget
use agent_task_executor.Common.{
  ℕ, zero, suc, ◌+◌, Bool, true, false, not, ◌&&◌, ◌||◌, Option, none, some, List, [], ◌∷◌, ◌++◌,
  if◌then◌else◌, leb, ◌==◌,
}
use agent_task_executor.Text.{Text, codes, text_eq}
use agent_task_executor.Handler.Task.{Task}
use agent_task_executor.Handler.Redrive.{task_phase_string}

abbrev pub trigger_scope_ref_len : ℕ
trigger_scope_ref_len = 8

abbrev pub take_text : ℕ → Text → Text
take_text zero s = []
take_text (suc n) [] = []
take_text (suc n) (x ∷ s) = x ∷ take_text n s

abbrev pub colon : Text
colon = codes ":"

-- The text of a key, or the empty one.
abbrev pub text_or_empty : Option Text → Text
text_or_empty none = []
text_or_empty (some s) = s

unfoldable pub trigger_scope : Task → Text
unfolding task_phase_string
trigger_scope task =
    task_phase_string task ++ (colon ++ take_text trigger_scope_ref_len (text_or_empty task.ref))

abbrev pub is_present : Option Text → Bool
is_present none = false
is_present (some s) = true

-- An absent scope has not changed.
abbrev pub scope_changed : Option Text → Text → Bool
scope_changed none current = false
scope_changed (some stored) current = not (text_eq stored current)

unfoldable pub trigger_refusal_recorded : Task → Text → ℕ → ℕ → Bool
trigger_refusal_recorded task scope count max_triggers = elim task.trigger_refusal [
  | none ↦ false
  | some (recorded_scope, recorded_count, recorded_max) ↦
      recorded_count == count && (recorded_max == max_triggers && text_eq recorded_scope scope)
]

-- `checkTriggerBudget`: whether the spawn is refused.
unfoldable pub check_trigger_budget : Task → Bool
unfolding trigger_scope
check_trigger_budget task =
    (task.has_max_triggers || is_present task.ref)
    && (not (scope_changed task.trigger_scope (trigger_scope task))
        && leb task.max_triggers task.trigger_count)

-- `recordTriggerRefusal`: what a refusal publishes.
unfoldable pub record_trigger_refusal : Task → Option (Text × ℕ × ℕ)
unfolding trigger_scope trigger_refusal_recorded
record_trigger_refusal task =
    let scope = trigger_scope task in
    if trigger_refusal_recorded task scope task.trigger_count task.max_triggers
    then none
    else some (scope, task.trigger_count, task.max_triggers)

-- The write that counts a spawn: `PublishIncrementTriggerCount` or `PublishSetTriggerScope`.
pub data TriggerWrite : Type 0 where
  increments : TriggerWrite
  sets_scope : Text → ℕ → TriggerWrite

unfoldable pub trigger_budget_write : Task → Bool → Bool → Option ℕ
trigger_budget_write task changed has_scope =
    if changed then some 1 else if not has_scope then some (task.trigger_count + 1) else none

unfoldable pub record_trigger_spawn : Task → TriggerWrite
unfolding trigger_scope trigger_budget_write
record_trigger_spawn task =
    let current = trigger_scope task in
    elim (trigger_budget_write task (scope_changed task.trigger_scope current)
      (is_present task.trigger_scope)) [ none ↦ increments | some count ↦ sets_scope current count ]
