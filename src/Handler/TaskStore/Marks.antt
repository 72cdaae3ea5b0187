-- ===== src/Handler/TaskStore/Marks.antt =====
-- The record of successes and parks of pkg/task_store.go over time.
use agent_task_executor.Common.{
  ℕ, ◌≡◌, ◌≤◌, refl, Bool, true, false, ◌⊎◌, inl, inr, Option, none, some, List, [], ◌∷◌, arith,
  Bool-cases, if◌then◌else◌, ltb, ◌==◌, ◌&&◌, ◌||◌,
}
use agent_task_executor.Text.{Text, text_eq}
use agent_task_executor.Text.Laws.{eq_of_text_eq, text_eq_refl}
use agent_task_executor.Handler.Maps.{lookup, lookup-put}
use agent_task_executor.Handler.TaskStore.{
  TaskStore, new_task_store, SucceededJob, mark_succeeded, last_succeeded,
}

-- A success that is reported: the task, the phase and the completion.
pub record Mark : Type 0 where
  pub task : Text
  pub phase : Text
  pub at : ℕ

unfoldable pub mark_all : List Mark → TaskStore → TaskStore
mark_all [] s = s
mark_all (m ∷ ms) s = mark_all ms (mark_succeeded m.task m.phase m.at s)

-- Some mark of the task is later than an instant.
unfoldable pub is_later : Text → ℕ → List Mark → Bool
is_later id at [] = false
is_later id at (m ∷ ms) = (text_eq m.task id && ltb at m.at) || is_later id at ms

-- Some mark of the task has this phase and this completion.
unfoldable pub is_marked : Text → SucceededJob → List Mark → Bool
is_marked id job [] = false
is_marked id job (m ∷ ms) =
    (text_eq m.task id && text_eq m.phase job.phase && m.at == job.completed_at)
    || is_marked id job ms

-- Some mark is the task's.
unfoldable pub has_mark : Text → List Mark → Bool
has_mark id [] = false
has_mark id (m ∷ ms) = text_eq m.task id || has_mark id ms

-- A record that some mark left, and that no mark is later than; or no record and no mark.
abbrev pub IsLatest : Text → List Mark → Option SucceededJob → Type 0
IsLatest id ms none = has_mark id ms ≡ false
IsLatest id ms (some job) = (is_later id job.completed_at ms ≡ false) × (is_marked id job ms ≡ true)

-- The record after marks, where there is one before.
abbrev latest_from : Text → SucceededJob → List Mark → SucceededJob
latest_from id b [] = b
latest_from id b (m ∷ ms) =
    latest_from id
      (if text_eq m.task id && ltb b.completed_at m.at
        then record { phase = m.phase; completed_at = m.at }
        else b)
      ms

last-mark_succeeded :
    (id : Text) (m : Mark) (s : TaskStore) (b : SucceededJob)
    → last_succeeded id s ≡ some b
    → last_succeeded id (mark_succeeded m.task m.phase m.at s)
      ≡ some (
          if text_eq m.task id && ltb b.completed_at m.at
          then record { phase = m.phase; completed_at = m.at }
          else b)
unfolding mark_succeeded last_succeeded
last-mark_succeeded id m s b e = ground (
  arith,
  eq_of_text_eq m.task id,
  e,
  lookup-put id m.task (record { phase = m.phase; completed_at = m.at }) s.succeeded,
)

first-mark_succeeded :
    (id : Text) (m : Mark) (s : TaskStore)
    → last_succeeded id s ≡ none
    → last_succeeded id (mark_succeeded m.task m.phase m.at s)
      ≡ (if text_eq m.task id then some (record { phase = m.phase; completed_at = m.at }) else none)
unfolding mark_succeeded last_succeeded
first-mark_succeeded id m s e = ground (
  arith,
  eq_of_text_eq m.task id,
  e,
  lookup-put id m.task (record { phase = m.phase; completed_at = m.at }) s.succeeded,
)

last-mark_all :
    (id : Text) (ms : List Mark) (s : TaskStore) (b : SucceededJob)
    → last_succeeded id s ≡ some b
    → last_succeeded id (mark_all ms s) ≡ some (latest_from id b ms)
unfolding mark_all
last-mark_all id [] s b e = e
last-mark_all id (m ∷ ms) s b e =
    last-mark_all id ms (mark_succeeded m.task m.phase m.at s) _ (last-mark_succeeded id m s b e)

latest_from-later :
    (id : Text) (b : SucceededJob) (ms : List Mark)
    → (b.completed_at ≤ (latest_from id b ms).completed_at)
      × (is_later id (latest_from id b ms).completed_at ms ≡ false)
unfolding is_later
latest_from-later id b [] = (omega arith, refl)
latest_from-later id b (m ∷ ms) = elim (Bool-cases (text_eq m.task id && ltb b.completed_at m.at)) [
  | inl c ↦
      let next : SucceededJob = record { phase = m.phase; completed_at = m.at } in
      ground (arith, c, latest_from-later id next ms)
  | inr c ↦ ground (arith, c, latest_from-later id b ms)
]

latest_from-marked :
    (id : Text) (b : SucceededJob) (ms : List Mark)
    → (is_marked id (latest_from id b ms) ms ≡ true) ⊎ (latest_from id b ms ≡ b)
unfolding is_marked
latest_from-marked id b [] = inr refl
latest_from-marked id b (m ∷ ms) =
    elim (Bool-cases (text_eq m.task id && ltb b.completed_at m.at)) [
      | inl c ↦
          let next : SucceededJob = record { phase = m.phase; completed_at = m.at } in
          elim (latest_from-marked id next ms) [
            | inl p ↦ inl (ground (arith, c, p))
            | inr p ↦ inl (ground (arith, c, p, text_eq_refl m.phase))
          ]
      | inr c ↦ elim (latest_from-marked id b ms) [
        | inl p ↦ inl (ground (arith, c, p))
        | inr p ↦ inr (ground (arith, c, p))
      ]
    ]

mark_all-IsLatest_from :
    (id : Text) (ms : List Mark) (s : TaskStore)
    → last_succeeded id s ≡ none
    → IsLatest id ms (last_succeeded id (mark_all ms s))
unfolding mark_all has_mark is_later is_marked
mark_all-IsLatest_from id [] s e = rw e refl
mark_all-IsLatest_from id (m ∷ ms) s e = elim (Bool-cases (text_eq m.task id)) [
  | inl c ↦
      let b : SucceededJob = record { phase = m.phase; completed_at = m.at } in
      let s' : TaskStore = mark_succeeded m.task m.phase m.at s in
      let start : last_succeeded id s' ≡ some b =
        ground (arith, c, first-mark_succeeded id m s e) in
      rw (last-mark_all id ms s' b start) (
        ground (arith, c, latest_from-later id b ms),
        elim (latest_from-marked id b ms) [
          | inl p ↦ ground (arith, c, p)
          | inr p ↦ ground (arith, c, p, text_eq_refl m.phase)
        ],
      )
  | inr c ↦
      let s' : TaskStore = mark_succeeded m.task m.phase m.at s in
      let start : last_succeeded id s' ≡ none = ground (arith, c, first-mark_succeeded id m s e) in
      more (last_succeeded id (mark_all ms s')) c (mark_all-IsLatest_from id ms s' start)
]
  where
    more :
        (o : Option SucceededJob)
        → text_eq m.task id ≡ false
        → IsLatest id ms o
        → IsLatest id (m ∷ ms) o
    more none c p = ground (arith, c, p)
    more (some job) c (p, q) = (ground (arith, c, p), ground (arith, c, q))

-- Whatever successes are reported, in any order and again and again, the store then records of
-- each task one of its reported successes that none is later than, and nothing of a task without.
pub mark_all-IsLatest :
    (id : Text) (ms : List Mark) → IsLatest id ms (last_succeeded id (mark_all ms new_task_store))
unfolding last_succeeded lookup
mark_all-IsLatest id ms = mark_all-IsLatest_from id ms new_task_store refl
