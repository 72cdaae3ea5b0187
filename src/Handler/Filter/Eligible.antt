-- ===== src/Handler/Filter/Eligible.antt =====
-- Which tasks qualify, on the way of an event (parseAndFilter) and on that of a reconcile pass
-- (reconcileTask), both in pkg/handler/task_event_handler.go.
use agent_task_executor.Common.{
  ◌≡◌, refl, ap, ◌∙◌, ◌↔◌, ◌⊎◌, arith, Bool, true, false, not, ◌&&◌, ◌||◌, [], ◌∷◌, Option, none,
  some, if◌then◌else◌,
}
use agent_task_executor.Text.{Text, is_empty, text_eq}
use agent_task_executor.Text.Laws.{text_eq_iff}
use agent_task_executor.Handler.Task.{
  Domain, Task, Config, type_mismatch, is_terminal, is_terminal_status, effective_trigger_phases,
  effective_trigger_statuses,
}
use agent_task_executor.Handler.Filter.{
  Executor, Gate, HandlerState, Verdict, fails, fails_to_publish, refuses, qualifies,
  is_foreign_cluster, stage_skip_result, pin_outside_pool, stage_mismatch, is_pin_outside_pool,
}
use agent_task_executor.Handler.Filter.Gates.{
  filter_task, filter_resolved, reconcile_filtered, reconcile_resolved, phase_triggered,
  phase_is_terminal, refuse_reconcile, is_none, published_verdict,
}

-- What a verdict hands on to the spawn.
abbrev pub accepted : Verdict → Option (Task × Option Config)
accepted (fails e) = none
accepted (fails_to_publish e) = none
accepted (refuses g) = none
accepted (qualifies task config) = some (task, config)

-- The task belongs to the cluster and to the stage of the executor, and it is of a type, at a
-- status and at a phase for which the configuration runs tasks, neither of which is terminal.
abbrev pub Suits : Domain → Executor → Task → Option Config → Type 0
Suits d ex task config =
    (((task.cluster ≡ []) × (ex.run_untagged ≡ true))
      ⊎ ((is_empty task.cluster ≡ false) × (task.cluster ≡ ex.cluster)))
    × (type_mismatch task config ≡ false)
    × (is_terminal_status d task.status ≡ false)
    × (d.contains (effective_trigger_statuses d config) task.status ≡ true)
    × ((p : Text) × (task.phase ≡ some p)
        × (is_terminal d p ≡ false)
        × (d.contains (effective_trigger_phases d config) p ≡ true))
    × ((ex.stage_filter ≡ false) ⊎ (task.stage ≡ ex.branch))

abbrev pub suits : Domain → Executor → Task → Option Config → Bool
suits d ex task config =
    not (is_foreign_cluster ex task)
    && (not (type_mismatch task config)
        && (not (is_terminal_status d task.status)
            && (d.contains (effective_trigger_statuses d config) task.status
                && (not (phase_is_terminal d task.phase)
                    && (phase_triggered d config task.phase
                        && (not ex.stage_filter || text_eq task.stage ex.branch))))))

phase-Suits :
    (d : Domain) (config : Option Config) (phase : Option Text)
    → ((not (phase_is_terminal d phase) && phase_triggered d config phase) ≡ true) ↔ (
        (p : Text) × (phase ≡ some p)
        × (is_terminal d p ≡ false)
        × (d.contains (effective_trigger_phases d config) p ≡ true))
phase-Suits d config none = (λ e. absurd (ground (arith, e)), λ k. absurd (ground (arith, k.1)))
phase-Suits d config (some q) = (
  λ e. (q, refl, ground (arith, e), ground (arith, e)),
  λ k. let (p, same, t, c) = k in let e : q ≡ p = ground (arith, same) in rw (e, t, c) refl,
)

text-Suits :
    (cluster own : Text) (untagged : Bool)
    → ((if is_empty cluster then not untagged else not (text_eq cluster own)) ≡ false)
      ↔ (((cluster ≡ []) × (untagged ≡ true)) ⊎ ((is_empty cluster ≡ false) × (cluster ≡ own)))
text-Suits [] own untagged = ground arith
text-Suits (c ∷ cluster) own untagged = ground (arith, text_eq_iff (c ∷ cluster) own)

stage-Suits :
    (stage own : Text) (f : Bool)
    → ((not f || text_eq stage own) ≡ true) ↔ ((f ≡ false) ⊎ (stage ≡ own))
stage-Suits stage own f = ground (arith, text_eq_iff stage own)

pub suits-Suits :
    (d : Domain) (ex : Executor) (task : Task) (config : Option Config)
    → (suits d ex task config ≡ true) ↔ Suits d ex task config
unfolding is_foreign_cluster
suits-Suits d ex task config =
    let (c, c') = text-Suits task.cluster ex.cluster ex.run_untagged in
    let (p, p') = phase-Suits d config task.phase in
    let (g, g') = stage-Suits task.stage ex.branch ex.stage_filter in
    (
      λ e. (
        c (ground (arith, e)),
        ground (arith, e),
        ground (arith, e),
        ground (arith, e),
        p (ground (arith, e)),
        g (ground (arith, e)),
      ),
      λ k.
          let (a, m, t, s, b, f) = k in
          let a' = c' a in let b' = p' b in let f' = g' f in ground (arith, a', m, t, s, b', f'),
    )

-- One gate of a chain: it refuses, or the next one decides.
refuse-step :
    (b : Bool) (x y : Verdict × HandlerState) (c : Bool) (v : Option (Task × Option Config))
    → accepted x.0 ≡ none
    → accepted y.0 ≡ (if c then v else none)
    → accepted (if b then x else y).0 ≡ (if not b && c then v else none)
refuse-step true x y c v e f = e
refuse-step false x y c v e f = f

refuse-unless :
    (b : Bool) (x y : Verdict × HandlerState) (c : Bool) (v : Option (Task × Option Config))
    → accepted x.0 ≡ none
    → accepted y.0 ≡ (if c then v else none)
    → accepted (if not b then x else y).0 ≡ (if b && c then v else none)
refuse-unless true x y c v e f = f
refuse-unless false x y c v e f = e

accepted-published :
    (publish_error : Option Text) (x : Verdict × HandlerState) (s : HandlerState)
    → accepted x.0 ≡ none
    → accepted (published_verdict publish_error x s).0 ≡ none
accepted-published none x s e = e
accepted-published (some error) x s e = refl

stage-step :
    (f own pin empty : Bool) (x : Gate → Verdict × HandlerState) (y z : Verdict × HandlerState)
    (v : Option (Task × Option Config))
    → ((g : Gate) → accepted (x g).0 ≡ none)
    → accepted z.0 ≡ none
    → accepted y.0 ≡ v
    → accepted
        (elim (if not f || own
            then none
            else if pin
            then some pin_outside_pool
            else some stage_mismatch)
          as (λ _. Verdict × HandlerState) [ some g ↦ x g | none ↦ if empty then z else y ]).0
      ≡ (if (not f || own) && not empty then v else none)
stage-step true true pin true x y z v e h k = h
stage-step true true pin false x y z v e h k = k
stage-step true false true empty x y z v e h k = e pin_outside_pool
stage-step true false false empty x y z v e h k = e stage_mismatch
stage-step false own pin true x y z v e h k = h
stage-step false own pin false x y z v e h k = k

same-test :
    {A : Type 0} (o v : Option A) (c c' : Bool)
    → o ≡ (if c then v else none)
    → c ≡ c'
    → o ≡ (if c' then v else none)
same-test o v c c' e f = e ∙ ap (λ b. if b then v else none) f

abbrev filter_test : Domain → Executor → Task → Option Config → Bool
filter_test d ex task config =
    not (type_mismatch task config)
    && (not (is_terminal_status d task.status)
        && (d.contains (effective_trigger_statuses d config) task.status
            && (not (phase_is_terminal d task.phase)
                && (phase_triggered d config task.phase
                    && ((not ex.stage_filter || text_eq task.stage ex.branch)
                        && not (is_empty task.assignee))))))

abbrev reconcile_test : Domain → Executor → Task → Option Config → Bool
reconcile_test d ex task config =
    not (type_mismatch task config)
    && (not (is_terminal_status d task.status)
        && (d.contains (effective_trigger_statuses d config) task.status
            && (phase_triggered d config task.phase
                && (not (phase_is_terminal d task.phase)
                    && (not (ex.stage_filter && not (text_eq task.stage ex.branch))
                        && (not (is_empty task.assignee && is_none config) && true))))))

module _ (d : Domain) (ex : Executor) (publish_error : Option Text) (task : Task) where
  pub accepted-filter :
      (config : Option Config) (s : HandlerState)
      → is_foreign_cluster ex task ≡ false
      → accepted (filter_resolved d ex publish_error task config s).0 ≡ (
          if suits d ex task config && not (is_empty task.assignee)
          then some (task, config)
          else none)
  unfolding filter_resolved filter_task stage_skip_result is_pin_outside_pool
  accepted-filter config s f =
      same-test _ (some (task, config)) (filter_test d ex task config) _
        (refuse-step (type_mismatch task config) _ _ _ _ (accepted-published publish_error _ _ refl)
          (refuse-step (is_terminal_status d task.status) _ _ _ _ refl (
            refuse-unless (d.contains (effective_trigger_statuses d config) task.status) _ _ _ _
              refl
              (refuse-step (phase_is_terminal d task.phase) _ _ _ _ refl (
                refuse-unless (phase_triggered d config task.phase) _ _ _ _ refl (
                  stage-step ex.stage_filter (text_eq task.stage ex.branch) _
                    (is_empty task.assignee) _ _ _ _ (λ g. refl) refl refl))))))
        (ground (arith, f))

  pub accepted-reconcile :
      (config : Option Config) (s : HandlerState)
      → is_foreign_cluster ex task ≡ false
      → accepted (reconcile_resolved d ex publish_error task config s).0 ≡ (
          if suits d ex task config && not (is_empty task.assignee && is_none config)
          then some (task, config)
          else none)
  unfolding reconcile_resolved reconcile_filtered refuse_reconcile
  accepted-reconcile config s f =
      same-test _ (some (task, config)) (reconcile_test d ex task config) _
        (refuse-step (type_mismatch task config) _ _ _ _ (accepted-published publish_error _ _ refl)
          (refuse-step (is_terminal_status d task.status) _ _ _ _ refl (
            refuse-unless (d.contains (effective_trigger_statuses d config) task.status) _ _ _ _
              refl
              (refuse-unless (phase_triggered d config task.phase) _ _ _ _ refl (
                refuse-step (phase_is_terminal d task.phase) _ _ _ _ refl (
                  refuse-step (ex.stage_filter && not (text_eq task.stage ex.branch)) _ _ _ _ refl (
                    refuse-step (is_empty task.assignee && is_none config) _ _ true _ refl
                      refl)))))))
        (ground (arith, f))
