-- ===== src/Handler/Redrive.antt =====
-- The cap on consecutive spawns (pkg/handler/task_event_handler_redrive.go). Times are nanoseconds
-- after Go's zero time. What the shared stores answer is a parameter of each decision.
pub mod Classes
pub mod Bound
use agent_task_executor.Common.{
  ℕ, zero, suc, Bool, true, false, not, ◌&&◌, ◌||◌, ◌+◌, ◌-◌, Option, none, some, List, [], ◌∷◌,
  length, if◌then◌else◌, ltb, leb, ◌==◌,
}
use agent_task_executor.Text.{Text, codes, text_eq}
use agent_task_executor.Handler.Maps.{Map, lookup, put, erase, mem}
use agent_task_executor.Handler.Task.{Task}

abbrev pub max_consecutive_redrives : ℕ
max_consecutive_redrives = 3

abbrev pub transient_redrive_budget : ℕ
transient_redrive_budget = 3

abbrev pub redrive_streak_lease_duration : ℕ
redrive_streak_lease_duration = 21_600_000_000_000

abbrev pub redrive_reason_unknown : Text
redrive_reason_unknown = codes "unknown"

abbrev pub broken_redrive_reasons : List Text
broken_redrive_reasons =
    codes "pod_crash_no_stdout" ∷ (codes "pod_oom_killed" ∷ (codes "type_mismatch" ∷ []))

pub data RedriveClass : Type 0 where
  unknown broken transient : RedriveClass

pub record RedriveStreak : Type 0 where
  pub count : ℕ
  pub phase : Text
  pub since : ℕ

-- What asking a shared store gives: there is no store, the reading failed, or a value.
pub data Reading (A : Type 0) : Type 0 where
  absent failed : Reading A
  stored : A → Reading A

-- `redriveStreakExpired`.
unfoldable pub redrive_streak_expired : RedriveStreak → ℕ → Bool
redrive_streak_expired streak now =
    if streak.since == 0
    then false
    else not (ltb now (streak.since + redrive_streak_lease_duration))

-- `taskPhaseString`.
unfoldable pub task_phase_string : Task → Text
task_phase_string task = elim task.phase [ none ↦ [] | some p ↦ p ]

unfoldable pub in_memory_redrive_count : Text → Text → ℕ → Map RedriveStreak → ℕ
unfolding redrive_streak_expired
in_memory_redrive_count id phase now streaks = elim (lookup id streaks) [
  | none ↦ 0
  | some streak ↦
      if not (text_eq streak.phase phase)
      then 0
      else if redrive_streak_expired streak now
      then 0
      else streak.count
]

-- `allSameRedriveReason`: every entry of the rest is the first.
unfoldable pub all_same : Text → List Text → Bool
all_same first [] = true
all_same first (r ∷ rs) = text_eq r first && all_same first rs

abbrev pub skip : ℕ → List Text → List Text
skip zero rs = rs
skip (suc n) [] = []
skip (suc n) (r ∷ rs) = skip n rs

-- `reasons[len(reasons)-window:]`.
abbrev pub recent_reasons : List Text → ℕ → List Text
recent_reasons reasons count =
    let window = if ltb (length reasons) count then length reasons else count in
    skip (length reasons - window) reasons

unfoldable pub classify_recent : List Text → RedriveClass
unfolding all_same
classify_recent [] = unknown
classify_recent (first ∷ rest) =
    if all_same redrive_reason_unknown (first ∷ rest)
    then unknown
    else if leb max_consecutive_redrives (length (first ∷ rest))
        && (all_same first rest && mem first broken_redrive_reasons)
    then broken
    else transient

unfoldable pub classify_redrive_reasons : List Text → ℕ → RedriveClass
classify_redrive_reasons reasons count =
    if ltb count 1 || length reasons == 0
    then unknown
    else classify_recent (recent_reasons reasons count)

-- The reason with which the task's record is closed.
pub data AbortReason : Type 0 where
  broken_signature transient_exhausted : AbortReason

unfoldable pub abort_reason_for_class : RedriveClass → AbortReason
abort_reason_for_class broken = broken_signature
abort_reason_for_class unknown = transient_exhausted
abort_reason_for_class transient = transient_exhausted

-- `redriveStreakCapped`: whether the spawn is refused, and what `PublishAbort` is given.
pub data CapDecision : Type 0 where
  allowed : CapDecision
  refused : Option (AbortReason × ℕ) → CapDecision

abbrev pub is_refused : CapDecision → Bool
is_refused allowed = false
is_refused (refused abort) = true

abbrev pub effective_count : ℕ → Reading ℕ → ℕ
effective_count count absent = count
effective_count count failed = count
effective_count count (stored n) = n

abbrev pub readable_reasons : Reading (List Text) → List Text
readable_reasons absent = []
readable_reasons failed = []
readable_reasons (stored reasons) = reasons

abbrev pub abort_for : RedriveClass → ℕ → Option (AbortReason × ℕ)
unfolding abort_reason_for_class
abort_for unknown count = none
abort_for broken count = some (abort_reason_for_class broken, count)
abort_for transient count = some (abort_reason_for_class transient, count)

abbrev pub in_extension : RedriveClass → ℕ → Bool
in_extension unknown count = false
in_extension broken count = false
in_extension transient count = ltb count (max_consecutive_redrives + transient_redrive_budget)

unfoldable pub redrive_streak_capped :
    Task → ℕ → Reading ℕ → Reading (List Text) → Map RedriveStreak → CapDecision
unfolding task_phase_string in_memory_redrive_count classify_redrive_reasons
redrive_streak_capped task now stored_count reasons streaks =
    let memory = in_memory_redrive_count task.id (task_phase_string task) now streaks in
    let count = effective_count memory stored_count in
    let class = classify_redrive_reasons (readable_reasons reasons) count in
    if ltb count max_consecutive_redrives
    then allowed
    else if in_extension class count
    then allowed
    else refused (abort_for class count)

unfoldable pub record_redrive_spawn : Task → ℕ → Map RedriveStreak → Map RedriveStreak
unfolding task_phase_string redrive_streak_expired
record_redrive_spawn task now streaks =
    let phase = task_phase_string task in
    let fresh : RedriveStreak = record { count = 1; phase = phase; since = now } in
    put task.id
      (elim (lookup task.id streaks) [
        | none ↦ fresh
        | some prev ↦
            if not (text_eq prev.phase phase) || redrive_streak_expired prev now
            then fresh
            else record { count = prev.count + 1; phase = phase; since = now }
      ])
      streaks

-- The streak of `clearRedriveStreak` in memory; the stores are cleared besides.
unfoldable pub clear_redrive_streak : Text → Map RedriveStreak → Map RedriveStreak
clear_redrive_streak id streaks = erase id streaks
