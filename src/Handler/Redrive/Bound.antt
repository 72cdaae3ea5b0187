-- ===== src/Handler/Redrive/Bound.antt =====
-- How many spawns the cap lets through while the shared store cannot be read
-- (redriveStreakCapped, recordRedriveSpawn and clearRedriveStreak), with other tasks in between.
use agent_task_executor.Common.{
  ℕ, ◌≡◌, refl, sym, subst, ◌∙◌, ◌≤◌, ◌<◌, ◌+◌, ◌-◌, ◌⊎◌, inl, inr, Bool, true, false, not, ◌&&◌,
  ◌||◌, List, [], ◌∷◌, length, arith, leb, ltb, if◌then◌else◌, Option, some, none, All, Bool-cases,
  if-intro,
}
use agent_task_executor.Text.{Text, text_eq}
use agent_task_executor.Text.Laws.{eq_of_text_eq, text_eq_refl}
use agent_task_executor.Handler.Maps.{Map, lookup, lookup-put, lookup-erase}
use agent_task_executor.Handler.Task.{Task}
use agent_task_executor.Handler.Redrive.{
  RedriveStreak, Reading, absent, failed, stored, CapDecision, allowed, refused, is_refused,
  redrive_streak_capped, record_redrive_spawn, clear_redrive_streak, in_memory_redrive_count,
  redrive_streak_expired, task_phase_string, redrive_streak_lease_duration, readable_reasons,
  classify_redrive_reasons, unknown, broken, transient, RedriveClass, in_extension, abort_for,
}

-- A spawn that is asked for: when, when its Job is there, what the stores answer, and whether nothing else refuses it.
pub record Attempt : Type 0 where
  pub task : Task
  pub now : ℕ
  pub spawned_at : ℕ
  pub count : Reading ℕ
  pub reasons : Reading (List Text)
  pub starts : Bool

pub data Op : Type 0 where
  attempts : Attempt → Op
  clears : Text → Op

unfoldable pub spawns : Attempt → Map RedriveStreak → Bool
spawns a streaks =
    not (is_refused (redrive_streak_capped a.task a.now a.count a.reasons streaks)) && a.starts

unfoldable pub step : Op → Map RedriveStreak → Map RedriveStreak
unfolding spawns
step (attempts a) streaks =
    if spawns a streaks then record_redrive_spawn a.task a.spawned_at streaks else streaks
step (clears id) streaks = clear_redrive_streak id streaks

-- How many spawns of a task the operations contain.
unfoldable pub spawned : Text → List Op → Map RedriveStreak → ℕ
unfolding step spawns
spawned id [] streaks = 0
spawned id (attempts a ∷ ops) streaks =
    (if text_eq a.task.id id && spawns a streaks then 1 else 0)
    + spawned id ops (step (attempts a) streaks)
spawned id (clears j ∷ ops) streaks = spawned id ops (step (clears j) streaks)

abbrev pub IsUnread : Reading ℕ → Type 0
IsUnread absent = Unit
IsUnread failed = Unit
IsUnread (stored n) = ⊥

-- An operation on another task, or an attempt at the phase, in the six hours from a time on, at
-- which the count cannot be read, nor, with `reasonless`, any reason.
abbrev pub InWindow : Bool → Text → Text → ℕ → Op → Type 0
InWindow reasonless id phase t (clears j) = text_eq j id ≡ false
InWindow reasonless id phase t (attempts a) =
    (text_eq a.task.id id ≡ false)
    ⊎ ((task_phase_string a.task ≡ phase)
        × (t ≤ a.now)
        × (a.now ≤ a.spawned_at)
        × (a.spawned_at < t + redrive_streak_lease_duration)
        × IsUnread a.count
        × ((if reasonless then length (readable_reasons a.reasons) else 0) ≡ 0))

abbrev pub limit : Bool → ℕ
limit reasonless = if reasonless then 3 else 6

abbrev decision : ℕ → RedriveClass → CapDecision
decision n class =
    if ltb n 3
    then allowed
    else if in_extension class n
    then allowed
    else refused (abort_for class n)

decision-six : (n : ℕ) (class : RedriveClass) → is_refused (decision n class) ≡ false → n < 6
decision-six n unknown e = ground (arith, e)
decision-six n broken e = ground (arith, e)
decision-six n transient e = ground (arith, e)

classify_nothing :
    (reasons : List Text) (n : ℕ)
    → length reasons ≡ 0
    → classify_redrive_reasons reasons n ≡ unknown
unfolding classify_redrive_reasons
classify_nothing reasons n e = ground (arith, e)

allowed-limit :
    (reasonless : Bool) (reasons : List Text) (n : ℕ)
    → (if reasonless then length reasons else 0) ≡ 0
    → is_refused (decision n (classify_redrive_reasons reasons n)) ≡ false
    → n < limit reasonless
allowed-limit true reasons n r e = ground (arith, e, classify_nothing reasons n r)
allowed-limit false reasons n r e = decision-six n (classify_redrive_reasons reasons n) e

module _ (reasonless : Bool) (id phase : Text) (t : ℕ) where
  -- How many spawns are left.
  abbrev left_at : Option RedriveStreak → ℕ
  left_at none = limit reasonless
  left_at (some s) =
      if text_eq s.phase phase && leb t s.since
      then limit reasonless - s.count
      else limit reasonless

  memory-limit :
      (task : Task) (now : ℕ) (count : Reading ℕ) (reasons : Reading (List Text))
      (streaks : Map RedriveStreak)
      → IsUnread count
      → (if reasonless then length (readable_reasons reasons) else 0) ≡ 0
      → is_refused (redrive_streak_capped task now count reasons streaks) ≡ false
      → in_memory_redrive_count task.id (task_phase_string task) now streaks < limit reasonless
  unfolding redrive_streak_capped
  memory-limit task now absent reasons streaks u r e =
      allowed-limit reasonless (readable_reasons reasons) _ r e
  memory-limit task now failed reasons streaks u r e =
      allowed-limit reasonless (readable_reasons reasons) _ r e
  memory-limit task now (stored n) reasons streaks u r e = absurd u

  abbrev memory_of : ℕ → Option RedriveStreak → ℕ
  memory_of now none = 0
  memory_of now (some s) =
      if not (text_eq s.phase phase) then 0 else if redrive_streak_expired s now then 0 else s.count

  abbrev next : ℕ → Option RedriveStreak → RedriveStreak
  next now none = record { count = 1; phase = phase; since = now }
  next now (some s) =
      if not (text_eq s.phase phase) || redrive_streak_expired s now
      then record { count = 1; phase = phase; since = now }
      else record { count = s.count + 1; phase = phase; since = now }

  next-left :
      (now later : ℕ) (o : Option RedriveStreak)
      → t ≤ now
      → now ≤ later
      → later < t + redrive_streak_lease_duration
      → memory_of now o < limit reasonless
      → 1 + left_at (some (next later o)) ≤ left_at o
  unfolding redrive_streak_expired
  next-left now later none a l b m =
      ground (arith, text_eq_refl phase, if-intro (λ n. 3 ≤ n) reasonless 3 6)
  next-left now later (some s) a l b m = elim (Bool-cases (text_eq s.phase phase)) [
    | inl same ↦ elim (Bool-cases (redrive_streak_expired s later)) [
      | inl expired ↦
          ground (arith, same, expired, text_eq_refl phase, if-intro (λ n. 3 ≤ n) reasonless 3 6)
      | inr live ↦
          let few : s.count < limit reasonless = ground (arith, same, live, l, m) in
          ground (arith, same, live, few, text_eq_refl phase)
    ]
    | inr other ↦ ground (arith, other, text_eq_refl phase, if-intro (λ n. 3 ≤ n) reasonless 3 6)
  ]

  lookup-record :
      (task : Task) (now : ℕ) (streaks : Map RedriveStreak) (o : Option RedriveStreak)
      → task_phase_string task ≡ phase
      → lookup task.id streaks ≡ o
      → lookup task.id (record_redrive_spawn task now streaks) ≡ some (next now o)
  unfolding record_redrive_spawn
  lookup-record task now streaks none p e =
      lookup-put task.id task.id _ streaks ∙ rw (e, p, text_eq_refl task.id) refl
  lookup-record task now streaks (some s) p e =
      lookup-put task.id task.id _ streaks ∙ rw (e, p, text_eq_refl task.id) refl

  memory-lookup :
      (task : Task) (now : ℕ) (streaks : Map RedriveStreak) (o : Option RedriveStreak)
      → task_phase_string task ≡ phase
      → lookup task.id streaks ≡ o
      → in_memory_redrive_count task.id (task_phase_string task) now streaks ≡ memory_of now o
  unfolding in_memory_redrive_count
  memory-lookup task now streaks none p e = rw (in_memory_redrive_count, e) refl
  memory-lookup task now streaks (some s) p e = rw (in_memory_redrive_count, e, p) refl

  record-left :
      (task : Task) (now later : ℕ) (streaks : Map RedriveStreak)
      → task_phase_string task ≡ phase
      → t ≤ now
      → now ≤ later
      → later < t + redrive_streak_lease_duration
      → in_memory_redrive_count task.id (task_phase_string task) now streaks < limit reasonless
      → 1 + left_at (lookup task.id (record_redrive_spawn task later streaks))
        ≤ left_at (lookup task.id streaks)
  record-left task now later streaks p a l b m =
      let o = lookup task.id streaks in
      let small : memory_of now o < limit reasonless =
        subst (λ n. n < limit reasonless) (memory-lookup task now streaks o p refl) m in
      rw (lookup-record task later streaks o p refl) (next-left now later o a l b small)

  lookup-other :
      (task : Task) (now : ℕ) (streaks : Map RedriveStreak)
      → text_eq task.id id ≡ false
      → lookup id (record_redrive_spawn task now streaks) ≡ lookup id streaks
  unfolding record_redrive_spawn
  lookup-other task now streaks e = lookup-put id task.id _ streaks ∙ rw (e) refl

  -- What one operation spawns of the task, it takes from what is left.
  spawned_now : Op → Map RedriveStreak → ℕ
  spawned_now (attempts a) streaks = if text_eq a.task.id id && spawns a streaks then 1 else 0
  spawned_now (clears j) streaks = 0

  other-left :
      (a : Attempt) (streaks : Map RedriveStreak)
      → text_eq a.task.id id ≡ false
      → spawned_now (attempts a) streaks + left_at (lookup id (step (attempts a) streaks))
        ≤ left_at (lookup id streaks)
  unfolding step spawned_now
  other-left a streaks other =
      let same = lookup-other a.task a.spawned_at streaks other in
      elim (Bool-cases (spawns a streaks)) [
        | inl starts ↦ rw (other, starts, same) (ground arith)
        | inr stays ↦ rw (other, stays) (ground arith)
      ]

  same-left :
      (a : Attempt) (streaks : Map RedriveStreak)
      → a.task.id ≡ id
      → spawned_now (attempts a) streaks ≡ 1
      → 1 + left_at (lookup a.task.id (record_redrive_spawn a.task a.spawned_at streaks))
        ≤ left_at (lookup a.task.id streaks)
      → spawned_now (attempts a) streaks + left_at (lookup id (step (attempts a) streaks))
        ≤ left_at (lookup id streaks)
  unfolding step spawned_now
  same-left a streaks e one h =
      let starts : spawns a streaks ≡ true = ground (arith, one) in
      rw (sym e, text_eq_refl a.task.id, starts) h

  step-left :
      (op : Op) (streaks : Map RedriveStreak)
      → InWindow reasonless id phase t op
      → spawned_now op streaks + left_at (lookup id (step op streaks)) ≤ left_at (lookup id streaks)
  unfolding step spawned_now clear_redrive_streak spawns
  step-left (clears j) streaks w = ground (arith, lookup-erase id j streaks)
  step-left (attempts a) streaks (inl other) = other-left a streaks other
  step-left (attempts a) streaks (inr (p, b, l, c, u, r)) =
      elim (Bool-cases (text_eq a.task.id id)) [
        | inr other ↦ other-left a streaks other
        | inl same ↦ elim (Bool-cases (spawns a streaks)) [
          | inl starts ↦
              let few =
                memory-limit a.task a.now a.count a.reasons streaks u r (ground (arith, starts)) in
              same-left a streaks (eq_of_text_eq a.task.id id same) (rw (same, starts) refl)
                (record-left a.task a.now a.spawned_at streaks p b l c few)
          | inr stays ↦ rw (stays) (ground arith)
        ]
      ]

  spawned-left :
      (ops : List Op) (streaks : Map RedriveStreak)
      → All (InWindow reasonless id phase t) ops
      → spawned id ops streaks ≤ left_at (lookup id streaks)
  unfolding spawned spawned_now
  spawned-left [] streaks w = ground arith
  spawned-left (attempts a ∷ ops) streaks (w, ws) =
      let now = step-left (attempts a) streaks w in
      let later = spawned-left ops (step (attempts a) streaks) ws in omega (arith, now, later)
  spawned-left (clears j ∷ ops) streaks (w, ws) =
      let now = step-left (clears j) streaks w in
      let later = spawned-left ops (step (clears j) streaks) ws in omega (arith, now, later)

  left_at-limit : (o : Option RedriveStreak) → left_at o ≤ limit reasonless
  left_at-limit none = omega arith
  left_at-limit (some s) = ground arith

-- From any state, however operations on other tasks come in between: within six hours, at one
-- phase, at most six attempts on a task are let through while its count cannot be read, and at
-- most three while no reason is known either, provided that the task is not cleared and is not
-- attempted at another phase.
pub spawned-limit :
    (reasonless : Bool) (id phase : Text) (t : ℕ) (ops : List Op) (streaks : Map RedriveStreak)
    → All (InWindow reasonless id phase t) ops
    → spawned id ops streaks ≤ limit reasonless
spawned-limit reasonless id phase t ops streaks w =
    let most = left_at-limit reasonless id phase t (lookup id streaks) in
    let left = spawned-left reasonless id phase t ops streaks w in omega (arith, most, left)
