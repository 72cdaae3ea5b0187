-- ===== src/Handler/Filter/Agreement.antt =====
-- The two ways on which a task qualifies, compared (parseAndFilter and reconcileTask in
-- pkg/handler/task_event_handler.go).
use agent_task_executor.Common.{
  ◌≡◌, refl, sym, ap, ◌∙◌, ◌↔◌, inl, inr, arith, Bool, true, false, not, ◌&&◌, Option, none, some,
  if◌then◌else◌, Result, ok, err, Bool-cases,
}
use agent_task_executor.Text.{Text, is_empty}
use agent_task_executor.Handler.Task.{Domain, Task, Config}
use agent_task_executor.Handler.Resolver.{
  ResolveError, config_not_found, config_ambiguous, list_failed,
}
use agent_task_executor.Handler.Filter.{
  Executor, HandlerState, is_foreign_cluster, Resolution, no_config, skip, config_of, Listing,
  resolve_config, resolve_config_for_reconcile, cleanup_terminal_task, skip_not_found,
}
use agent_task_executor.Handler.Filter.Gates.{
  filter_resolved, parse_and_filter, reconcile_resolved, reconcile_task,
}
use agent_task_executor.Handler.Filter.Eligible.{
  accepted, Suits, suits, suits-Suits, accepted-filter, accepted-reconcile,
}

and-true : (b : Bool) → (b && not false) ≡ b
and-true b = ground arith

and-false : (b : Bool) → (b && not (true && true)) ≡ false
and-false b = ground arith

and-not-false : (b c : Bool) → (b && not (c && false)) ≡ b
and-not-false b c = ground arith

not-and : (b c : Bool) → (not b && c) ≡ true → b ≡ false
not-and b c e = ground (arith, e)

none≢some : {A : Type 0} {x : A} → none ≡ some x → ⊥
none≢some e = ground (arith, e)

if-none : {A : Type 0} (x y : A) (b : Bool) → b ≡ false → (if b then some x else none) ≡ some y → ⊥
if-none x y b f e = ground (arith, f, e)

if-some :
    {A : Type 0} (x y : A) (b : Bool) → b ≡ true → (if b then some x else none) ≡ some y → x ≡ y
if-some x y b t e = ground (arith, t, e)

some-same : (c config : Config) → some c ≡ some config → c ≡ config
some-same c config e = ground (arith, e)

module _ (d : Domain) (ex : Executor) (items : Listing) (publish_error : Option Text)
    (task : Task) where
  parse-foreign :
      (s : HandlerState)
      → is_foreign_cluster ex task ≡ true
      → accepted (parse_and_filter d ex items publish_error (ok task) s).0 ≡ none
  unfolding parse_and_filter
  parse-foreign s f = rw (parse_and_filter, f) refl

  reconcile-foreign :
      (s : HandlerState)
      → is_foreign_cluster ex task ≡ true
      → accepted (reconcile_task d ex items publish_error task s).0 ≡ none
  unfolding reconcile_task
  reconcile-foreign s f = rw (reconcile_task, f) refl

  abbrev accepted_of : Result ResolveError Resolution → Option (Task × Option Config)
  accepted_of (err e) = none
  accepted_of (ok skip) = none
  accepted_of (ok no_config) = none
  accepted_of (ok (config_of config)) =
      if suits d ex task (some config) then some (task, some config) else none

  some-config :
      (r : Result ResolveError Config) (empty : Bool)
      → empty ≡ false
      → (if empty then ok no_config else skip_not_found r) ≡ ok no_config
      → ⊥
  some-config (ok config) empty a e = ground (arith, a, e)
  some-config (err config_not_found) empty a e = ground (arith, a, e)
  some-config (err config_ambiguous) empty a e = ground (arith, a, e)
  some-config (err (list_failed f)) empty a e = ground (arith, a, e)

  resolve-same :
      is_empty task.assignee ≡ false
      → (r : Result ResolveError Resolution) → resolve_config ex items task ≡ r
      → resolve_config_for_reconcile ex items task ≡ r
  unfolding resolve_config_for_reconcile resolve_config
  resolve-same a (err e) q = rw (resolve_config_for_reconcile, q) refl
  resolve-same a (ok skip) q = rw (resolve_config_for_reconcile, q) refl
  resolve-same a (ok (config_of config)) q = rw (resolve_config_for_reconcile, q) refl
  resolve-same a (ok no_config) q = absurd (some-config _ (is_empty task.assignee) a q)

  parse-accepted :
      (s : HandlerState) (r : Result ResolveError Resolution)
      → is_foreign_cluster ex task ≡ false
      → is_empty task.assignee ≡ false
      → resolve_config ex items task ≡ r
      → accepted (parse_and_filter d ex items publish_error (ok task) s).0 ≡ accepted_of r
  unfolding parse_and_filter resolve_config
  parse-accepted s (err e) f a q = rw (parse_and_filter, f, q) refl
  parse-accepted s (ok skip) f a q = rw (parse_and_filter, f, q) refl
  parse-accepted s (ok no_config) f a q = absurd (some-config _ (is_empty task.assignee) a q)
  parse-accepted s (ok (config_of config)) f a q =
      let s1 = cleanup_terminal_task d task s in
      let e : accepted (parse_and_filter d ex items publish_error (ok task) s).0
          ≡ accepted (filter_resolved d ex publish_error task (some config) s1).0 =
        rw (parse_and_filter, f, q) refl in
      e
      ∙ (accepted-filter d ex publish_error task (some config) s1 f
          ∙ ap (λ b. if b then some (task, some config) else none)
              (rw (a) (and-true (suits d ex task (some config)))))

  unrouted :
      resolve_config_for_reconcile ex items task ≡ ok no_config → is_empty task.assignee ≡ true
  unfolding resolve_config
  unrouted q = elim (Bool-cases (is_empty task.assignee)) [
    | inl t ↦ t
    | inr a ↦ absurd (
        some-config _ (is_empty task.assignee) a
          (sym (resolve-same a (resolve_config ex items task) refl) ∙ q))
  ]

  reconcile-accepted :
      (s : HandlerState) (r : Result ResolveError Resolution)
      → is_foreign_cluster ex task ≡ false
      → resolve_config_for_reconcile ex items task ≡ r
      → accepted (reconcile_task d ex items publish_error task s).0 ≡ accepted_of r
  unfolding reconcile_task
  reconcile-accepted s (err e) f q = rw (reconcile_task, f, q) refl
  reconcile-accepted s (ok skip) f q = rw (reconcile_task, f, q) refl
  reconcile-accepted s (ok no_config) f q =
      let e : accepted (reconcile_task d ex items publish_error task s).0
          ≡ accepted (reconcile_resolved d ex publish_error task none s).0 =
        rw (reconcile_task, f, q) refl in
      let empty : is_empty task.assignee ≡ true = unrouted q in
      let closed : (suits d ex task none && not (is_empty task.assignee && true)) ≡ false =
        rw (empty) (and-false (suits d ex task none)) in
      e
      ∙ (accepted-reconcile d ex publish_error task none s f
          ∙ ap (λ b. if b then some (task, none) else none) closed)
  reconcile-accepted s (ok (config_of config)) f q =
      let e : accepted (reconcile_task d ex items publish_error task s).0
          ≡ accepted (reconcile_resolved d ex publish_error task (some config) s).0 =
        rw (reconcile_task, f, q) refl in
      e
      ∙ (accepted-reconcile d ex publish_error task (some config) s f
          ∙ ap (λ b. if b then some (task, some config) else none)
              (and-not-false (suits d ex task (some config)) (is_empty task.assignee)))

  picks :
      (config : Config) (r : Result ResolveError Resolution)
      → accepted_of r ≡ some (task, some config)
      → (r ≡ ok (config_of config)) × (suits d ex task (some config) ≡ true)
  picks config (err e) q = absurd (ground (arith, q))
  picks config (ok skip) q = absurd (ground (arith, q))
  picks config (ok no_config) q = absurd (ground (arith, q))
  picks config (ok (config_of c)) q = elim (Bool-cases (suits d ex task (some c))) [
    | inl t ↦
        let e : c ≡ config = some-same c config (ap (λ k. k.1) (if-some _ _ _ t q)) in
        (ap (λ x. ok (config_of x)) e, rw (sym e) t)
    | inr f ↦ absurd (if-none _ _ _ f q)
  ]

-- A task with an assignee qualifies by an event and by a reconcile pass alike: both hand on the
-- same task with the same configuration to the spawn, or neither hands on any, in whatever states
-- they start.
pub parse_and_filter-reconcile_task :
    (d : Domain) (ex : Executor) (items : Listing) (publish_error : Option Text) (task : Task)
    (s s' : HandlerState)
    → is_empty task.assignee ≡ false
    → accepted (parse_and_filter d ex items publish_error (ok task) s).0
      ≡ accepted (reconcile_task d ex items publish_error task s').0
parse_and_filter-reconcile_task d ex items publish_error task s s' a =
    elim (Bool-cases (is_foreign_cluster ex task)) [
      | inl f ↦
          parse-foreign d ex items publish_error task s f
          ∙ sym (reconcile-foreign d ex items publish_error task s' f)
      | inr f ↦
          parse-accepted d ex items publish_error task s _ f a refl
          ∙ sym (
              reconcile-accepted d ex items publish_error task s' _ f
                (resolve-same d ex items publish_error task a _ refl))
    ]

-- By a reconcile pass a task qualifies exactly where a configuration is resolved for it, by its
-- assignee or by its type, and the task suits this configuration and the executor.
pub reconcile_task-Suits :
    (d : Domain) (ex : Executor) (items : Listing) (publish_error : Option Text) (task : Task)
    (config : Config) (s : HandlerState)
    → (accepted (reconcile_task d ex items publish_error task s).0 ≡ some (task, some config)) ↔ (
        (resolve_config_for_reconcile ex items task ≡ ok (config_of config))
        × Suits d ex task (some config))
reconcile_task-Suits d ex items publish_error task config s =
    let (suit, test) = suits-Suits d ex task (some config) in
    (
      λ q. elim (Bool-cases (is_foreign_cluster ex task)) [
        | inl f ↦ absurd (none≢some (sym (reconcile-foreign d ex items publish_error task s f) ∙ q))
        | inr f ↦
            let (r, t) =
              picks d ex items publish_error task config _
                (sym (reconcile-accepted d ex items publish_error task s _ f refl) ∙ q) in
            (r, suit t)
      ],
      λ (r, k).
          let t : suits d ex task (some config) ≡ true = test k in
          let f : is_foreign_cluster ex task ≡ false = not-and (is_foreign_cluster ex task) _ t in
          reconcile-accepted d ex items publish_error task s _ f r
          ∙ ap (λ b. if b then some (task, some config) else none) t,
    )
