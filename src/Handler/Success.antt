-- ===== src/Handler/Success.antt =====
-- Recent successes and the parking of a succeeded task (pkg/handler/recent_success.go and
-- park_succeeded.go). Instants are nanoseconds after Go's zero time, a Monday, in UTC. What the
-- clock and the shared success record answer is given by `Reads`, once for each of the two guards;
-- `normalise` is what `strings.ToLower` and `strings.TrimSpace` make of a token.
pub mod Once
use agent_task_executor.Common.{
  ℕ, zero, suc, ◌+◌, ◌-◌, ◌*◌, ◌/◌, ◌%◌, Bool, true, false, not, ◌&&◌, ◌||◌, Option, none, some,
  List, [], ◌∷◌, if◌then◌else◌, ltb, leb, ◌==◌,
}
use agent_task_executor.Text.{Text, codes, is_empty, text_eq}
use agent_task_executor.Handler.Maps.{Map, lookup}
use agent_task_executor.Handler.Task.{Task}
use agent_task_executor.Handler.Redrive.{task_phase_string}
use agent_task_executor.Handler.TaskStore.{
  TaskStore, SucceededJob, last_succeeded, mark_succeeded, park_published_at, mark_park_published,
}

abbrev pub day : ℕ
day = 86_400_000_000_000

abbrev pub default_respawn_grace_period : ℕ
default_respawn_grace_period = 300_000_000_000

abbrev pub weekdays : Text
weekdays = codes "weekdays"

abbrev pub recurring_cadences : Map ℕ
recurring_cadences =
    (codes "daily", day)
    ∷ ((weekdays, day)
        ∷ ((codes "weekly", 7 * day)
            ∷ ((codes "monthly", 30 * day) ∷ ((codes "quarterly", 90 * day) ∷ []))))

-- The day of an instant, and whether it is a Saturday or a Sunday.
abbrev pub is_weekend : ℕ → Bool
is_weekend t = leb 5 ((t / day) % 7)

-- The loop of `recurringNextRun`: a weekend has two days, so two steps are enough.
abbrev pub after_weekend : ℕ → ℕ → ℕ
after_weekend zero t = t
after_weekend (suc fuel) t =
    let later = after_weekend fuel (t + day) in if is_weekend t then later else t

-- What is read for one guard.
pub record Reads : Type 0 where
  pub now : ℕ
  pub shared : Text → Option ℕ

abbrev pub marked : Text → Text → ℕ → TaskStore → Option SucceededJob × TaskStore
unfolding mark_succeeded
marked id phase at s =
    (some (record { phase = phase; completed_at = at }), mark_succeeded id phase at s)

abbrev pub at_phase : Text → Option SucceededJob → Option SucceededJob
at_phase phase none = none
at_phase phase (some job) = if text_eq job.phase phase then some job else none

-- `lastSuccess`: the later one of the success in memory and the shared one.
unfoldable pub last_success : Task → Text → Option ℕ → TaskStore → Option SucceededJob × TaskStore
unfolding last_succeeded marked
last_success task phase shared s = elim (at_phase phase (last_succeeded task.id s)) [
  | none ↦ elim shared [ none ↦ (none, s) | some at ↦ marked task.id phase at s ]
  | some memory ↦ elim shared [
    | none ↦ (some memory, s)
    | some at ↦ if ltb memory.completed_at at then marked task.id phase at s else (some memory, s)
  ]
]

-- What a pass comes to: it lets the spawn go on, or not, and may publish a park.
pub record Parked : Type 0 where
  pub suppresses : Bool
  pub publishes : Bool
  pub task_store : TaskStore

abbrev pub passes : TaskStore → Parked
passes s = record { suppresses = false; publishes = false; task_store = s }

unfoldable pub park_success : Text → ℕ → Option Text → SucceededJob → TaskStore → Parked
unfolding park_published_at mark_park_published
park_success id now publish_error job s =
    if ltb (now - job.completed_at) default_respawn_grace_period
    then passes s
    else elim (park_published_at id job.completed_at s) [
      | some published_at ↦ record {
        suppresses = ltb (now - published_at) default_respawn_grace_period;
        publishes = false;
        task_store = s;
      }
      | none ↦ elim publish_error [
        | some e ↦ record { suppresses = true; publishes = false; task_store = s }
        | none ↦ record {
          suppresses = true;
          publishes = true;
          task_store = mark_park_published id job.completed_at now s;
        }
      ]
    ]

-- `view` is none for a handler without a view; else what the view has of the task.
unfoldable pub park_succeeded_without_phase_move :
    Reads → Option (Option Task) → Option Text → Task → TaskStore → Parked
unfolding last_success park_success task_phase_string
park_succeeded_without_phase_move r none publish_error task s = passes s
park_succeeded_without_phase_move r (some none) publish_error task s = passes s
park_succeeded_without_phase_move r (some (some current)) publish_error task s =
    let phase = task_phase_string current in
    let (job, s') = last_success current phase (r.shared phase) s in
    elim job [ none ↦ passes s' | some job ↦ park_success task.id r.now publish_error job s' ]

module _ (normalise : Text → Text) where
  -- `recurringToken`, with its cadence.
  unfoldable pub recurring_token : Task → Option (Text × ℕ)
  recurring_token task = elim task.recurring [
    | none ↦ none
    | some token ↦
        let trimmed = normalise token in
        if is_empty trimmed || text_eq trimmed (codes "<nil>")
        then none
        else elim (lookup trimmed recurring_cadences) [
          | none ↦ none
          | some period ↦ some (trimmed, period)
        ]
  ]

  unfoldable pub recurring_next_run : Task → ℕ → Option ℕ
  unfolding recurring_token
  recurring_next_run task completed_at = elim (recurring_token task) [
    | none ↦ none
    | some (token, period) ↦ some (
        if text_eq token weekdays
        then after_weekend 2 (completed_at + period)
        else completed_at + period)
  ]

  -- An instant before the success counts as the success: subtraction stops at 0.
  abbrev pub is_recent : Task → ℕ → Option SucceededJob → Bool
  unfolding recurring_next_run
  is_recent task now none = false
  is_recent task now (some job) = elim (recurring_next_run task job.completed_at) [
    | some next ↦ ltb now next
    | none ↦ ltb (now - job.completed_at) default_respawn_grace_period
  ]

  unfoldable pub recently_succeeded : Reads → Task → TaskStore → Bool × TaskStore
  unfolding last_success is_recent task_phase_string
  recently_succeeded r task s =
      let phase = task_phase_string task in
      let (job, s') = last_success task phase (r.shared phase) s in (is_recent task r.now job, s')

  unfoldable pub suppress_or_park :
      Reads → Reads → Option (Option Task) → Option Text → Task → TaskStore → Parked
  unfolding recently_succeeded recurring_token park_succeeded_without_phase_move
  suppress_or_park first second view publish_error task s =
      let (recent, s') = recently_succeeded first task s in
      if recent
      then record { suppresses = true; publishes = false; task_store = s' }
      else elim (recurring_token task) [
        | some cadence ↦ passes s'
        | none ↦ park_succeeded_without_phase_move second view publish_error task s'
      ]
