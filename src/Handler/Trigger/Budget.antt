-- ===== src/Handler/Trigger/Budget.antt =====
-- How many spawns the budget of triggers lets through (checkTriggerBudget and recordTriggerSpawn).
use agent_task_executor.Common.{
  ℕ, zero, suc, ◌≡◌, refl, sym, ap, ◌∙◌, ◌+◌, ◌-◌, arith, Bool, true, false, not, ◌&&◌, ◌||◌,
  Option, none, some, if◌then◌else◌, Bool-cases, Option-cases, inl, inr, ltb, leb,
}
use agent_task_executor.Text.{Text, text_eq}
use agent_task_executor.Text.Laws.{text_eq_refl, eq_of_text_eq}
use agent_task_executor.Handler.Task.{Task}
use agent_task_executor.Handler.Trigger.{
  TriggerWrite, increments, sets_scope, trigger_scope, check_trigger_budget, record_trigger_spawn,
  scope_changed, is_present, trigger_budget_write,
}

-- The published write reaches the record of the task, and changes nothing else of it.
abbrev pub IsApplied : (TriggerWrite → Task → Task) → Type 0
IsApplied apply =
    ((task : Task) → apply increments task ≡ record task { trigger_count = task.trigger_count + 1 })
    × ((task : Task) (scope : Text) (count : ℕ)
        → apply (sets_scope scope count) task
          ≡ record task { trigger_scope = some scope; trigger_count = count })

-- The spawns of so many attempts, each on the record as the one before left it.
unfoldable pub spawns : (TriggerWrite → Task → Task) → ℕ → Task → ℕ
spawns apply zero task = 0
spawns apply (suc n) task =
    let rest = spawns apply n (apply (record_trigger_spawn task) task) in
    if check_trigger_budget task then 0 else 1 + rest

abbrev pub changed : Task → Bool
changed task = scope_changed task.trigger_scope (trigger_scope task)

-- The spawns that are left in the scope.
abbrev pub budget : Task → ℕ
budget task =
    if changed task then 1 + (task.max_triggers - 1) else task.max_triggers - task.trigger_count

abbrev pub min : ℕ → ℕ → ℕ
min a b = if ltb b a then b else a

abbrev written : Task → Option Text → ℕ → Task
written task scope count = record task { trigger_scope = scope; trigger_count = count }

spawn-none :
    (task : Task)
    → task.trigger_scope ≡ none
    → record_trigger_spawn task ≡ sets_scope (trigger_scope task) (task.trigger_count + 1)
unfolding record_trigger_spawn trigger_budget_write
spawn-none task e = rw (record_trigger_spawn, e) refl

spawn-some :
    (task : Task) (stored : Text) (same : Bool)
    → task.trigger_scope ≡ some stored
    → text_eq stored (trigger_scope task) ≡ same
    → record_trigger_spawn task ≡ (if same then increments else sets_scope (trigger_scope task) 1)
unfolding record_trigger_spawn trigger_budget_write
spawn-some task stored true e t = rw (record_trigger_spawn, e, t) refl
spawn-some task stored false e t = rw (record_trigger_spawn, e, t) refl

count_down :
    (c change : Bool) (n max count rest : ℕ)
    → c ≡ true
    → rest ≡ min n (max - (if change then 1 else count + 1))
    → (if c && (not change && leb max count) then 0 else 1 + rest)
      ≡ min (suc n) (if change then 1 + (max - 1) else max - count)
count_down c true n max count rest e r = ground (arith, e, r)
count_down c false n max count rest e r = ground (arith, e, r)

module _ (apply : TriggerWrite → Task → Task) (applied : IsApplied apply) where
  next : Task → Task
  next task = apply (record_trigger_spawn task) task

  next-none :
      (task : Task)
      → task.trigger_scope ≡ none
      → next task ≡ written task (some (trigger_scope task)) (task.trigger_count + 1)
  unfolding next
  next-none task e = ap (λ w. apply w task) (spawn-none task e) ∙ applied.1 task _ _

  next-changed :
      (task : Task) (stored : Text)
      → task.trigger_scope ≡ some stored
      → text_eq stored (trigger_scope task) ≡ false
      → next task ≡ written task (some (trigger_scope task)) 1
  unfolding next
  next-changed task stored e f =
      ap (λ w. apply w task) (spawn-some task stored false e f) ∙ applied.1 task _ _

  next-same :
      (task : Task) (stored : Text)
      → task.trigger_scope ≡ some stored
      → text_eq stored (trigger_scope task) ≡ true
      → next task ≡ written task (some (trigger_scope task)) (task.trigger_count + 1)
  unfolding next
  next-same task stored e t =
      ap (λ w. apply w task) (spawn-some task stored true e t)
      ∙ (applied.0 task
          ∙ ap (λ o. written task o (task.trigger_count + 1))
              (e ∙ ap some (eq_of_text_eq stored (trigger_scope task) t)))

  by_change :
      (task : Task) (b : Bool)
      → changed task ≡ b
      → next task
        ≡ written task (some (trigger_scope task)) (if b then 1 else task.trigger_count + 1)
      → next task
        ≡ written task
            (some (trigger_scope task))
            (if changed task then 1 else task.trigger_count + 1)
  by_change task b e h =
      h
      ∙ ap (λ c. written task (some (trigger_scope task)) (if c then 1 else task.trigger_count + 1))
          (sym e)

  -- The record after a spawn.
  next-written :
      (task : Task)
      → next task
        ≡ written task
            (some (trigger_scope task))
            (if changed task then 1 else task.trigger_count + 1)
  next-written task = elim (Option-cases task.trigger_scope) [
    | inl e ↦
        by_change task false (ap (λ o. scope_changed o (trigger_scope task)) e) (next-none task e)
    | inr (stored, e) ↦
        let c : changed task ≡ not (text_eq stored (trigger_scope task)) =
          ap (λ o. scope_changed o (trigger_scope task)) e in
        elim (Bool-cases (text_eq stored (trigger_scope task))) [
          | inl t ↦ by_change task false (c ∙ ap not t) (next-same task stored e t)
          | inr f ↦ by_change task true (c ∙ ap not f) (next-changed task stored e f)
        ]
  ]

  abbrev is_capped : Task → Bool
  is_capped task = task.has_max_triggers || is_present task.ref

  next-budget :
      (task : Task)
      → (is_capped (next task) ≡ is_capped task)
        × (budget (next task)
            ≡ task.max_triggers - (if changed task then 1 else task.trigger_count + 1))
  unfolding trigger_scope
  next-budget task = rw (next-written task) (
    refl,
    ap
        (λ b.
          if not b
          then 1 + (task.max_triggers - 1)
          else task.max_triggers - (if changed task then 1 else task.trigger_count + 1))
        (text_eq_refl (trigger_scope task)),
  )

  spawns-budget :
      (n : ℕ) (task : Task) → is_capped task ≡ true → spawns apply n task ≡ min n (budget task)
  unfolding spawns check_trigger_budget next
  spawns-budget zero task c = ground arith
  spawns-budget (suc n) task c =
      let (same, left) = next-budget task in
      let rest : spawns apply n (next task) ≡ min n (budget (next task)) =
        spawns-budget n (next task) (same ∙ c) in
      count_down (is_capped task) (changed task) n task.max_triggers task.trigger_count
        (spawns apply n (next task)) c (rest ∙ ap (min n) left)

-- Where the record takes the published writes, a task that is bound to a maximum of triggers, by
-- itself or by its repository, is spawned by any number of attempts at one phase and one commit as
-- often as there are attempts, but at most by what its budget has left: the maximum less the
-- count, and the whole maximum, yet at least one, in a scope that has changed.
pub spawns-min :
    (apply : TriggerWrite → Task → Task) (n : ℕ) (task : Task)
    → IsApplied apply
    → (task.has_max_triggers || is_present task.ref) ≡ true
    → spawns apply n task ≡ min n (budget task)
spawns-min apply n task applied c = spawns-budget apply applied n task c
