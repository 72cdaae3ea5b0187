-- ===== src/Handler/Success/Once.antt =====
-- Parks over time (pkg/handler/park_succeeded.go and recent_success.go).
use agent_task_executor.Common.{
  ℕ, ◌≡◌, refl, sym, ap, subst, ◌∙◌, ◌≤◌, ◌+◌, ◌-◌, arith, Bool, true, false, not, Option, none,
  some, List, [], ◌∷◌, if◌then◌else◌, Bool-cases, ◌⊎◌, inl, inr, ltb, All,
}
use agent_task_executor.Text.{Text, text_eq}
use agent_task_executor.Text.Laws.{text_eq_refl}
use agent_task_executor.Handler.Maps.{lookup-put}
use agent_task_executor.Handler.Task.{Task}
use agent_task_executor.Handler.Redrive.{task_phase_string}
use agent_task_executor.Handler.TaskStore.{
  TaskStore, SucceededJob, last_succeeded, mark_succeeded, park_published_at, mark_park_published,
}
use agent_task_executor.Handler.Success.{
  Reads, Parked, last_success, at_phase, marked, park_success, park_succeeded_without_phase_move,
  default_respawn_grace_period, recently_succeeded, suppress_or_park, is_recent, recurring_token,
  passes,
}

-- One pass over a task: the two readings, what the view has, and what a publishing answers.
pub record Pass : Type 0 where
  pub task : Task
  pub first : Reads
  pub second : Reads
  pub view : Option (Option Task)
  pub publish_error : Option Text

module _ (normalise : Text → Text) where
  unfoldable pub pass : Pass → TaskStore → Parked
  pass p s = suppress_or_park normalise p.first p.second p.view p.publish_error p.task s

  -- How often the passes publish a park.
  unfoldable pub parks : List Pass → TaskStore → ℕ
  unfolding pass
  parks [] s = 0
  parks (p ∷ ps) s = (if (pass p s).publishes then 1 else 0) + parks ps (pass p s).task_store

abbrev pub IsUpTo : ℕ → Option ℕ → Type 0
IsUpTo c none = Unit
IsUpTo c (some at) = at ≤ c

-- The pass is over this task, which the view has at this phase, and reads no later success.
abbrev pub IsOver : Text → Text → ℕ → Pass → Type 0
IsOver id phase c p =
    (p.task.id ≡ id)
    × ((current : Task) × (p.view ≡ some (some current))
        × (current.id ≡ id)
        × (task_phase_string current ≡ phase))
    × ((q : Text) → IsUpTo c (p.first.shared q))
    × ((q : Text) → IsUpTo c (p.second.shared q))

mark_succeeded-same :
    (id phase : Text) (at : ℕ) (job : SucceededJob) (s : TaskStore)
    → last_succeeded id s ≡ some job
    → at ≤ job.completed_at
    → mark_succeeded id phase at s ≡ s
unfolding mark_succeeded last_succeeded
mark_succeeded-same id phase at job s e h =
    let b : not (ltb job.completed_at at) ≡ true = ground (arith, h) in
    rw (mark_succeeded, e, b) refl

found :
    (id q : Text) (job : SucceededJob) (s : TaskStore) (b : Bool)
    → last_succeeded id s ≡ some job
    → text_eq job.phase q ≡ b
    → at_phase q (last_succeeded id s) ≡ (if b then some job else none)
found id q job s b e f = ap (at_phase q) e ∙ ap (λ c. if c then some job else none) f

last_success-phase :
    (task : Task) (q : Text) (shared : Option ℕ) (job : SucceededJob) (s : TaskStore)
    → last_succeeded task.id s ≡ some job
    → IsUpTo job.completed_at shared
    → text_eq job.phase q ≡ true
    → last_success task q shared s ≡ (some job, s)
unfolding last_success
last_success-phase task q none job s e h t = rw (last_success, found task.id q job s true e t) refl
last_success-phase task q (some at) job s e h t =
    let late : ltb job.completed_at at ≡ false = ground (arith, h) in
    rw (last_success, found task.id q job s true e t, late) refl

last_success-same :
    (task : Task) (q : Text) (shared : Option ℕ) (job : SucceededJob) (s : TaskStore)
    → last_succeeded task.id s ≡ some job
    → IsUpTo job.completed_at shared
    → (last_success task q shared s).1 ≡ s
unfolding last_success marked
last_success-same task q shared job s e h = elim (Bool-cases (text_eq job.phase q)) [
  | inl t ↦ ap (λ r. r.1) (last_success-phase task q shared job s e h t)
  | inr f ↦ missing shared h (found task.id q job s false e f)
]
  where
    missing :
        (o : Option ℕ)
        → IsUpTo job.completed_at o
        → at_phase q (last_succeeded task.id s) ≡ none
        → (last_success task q o s).1 ≡ s
    missing none h a = rw (last_success, a) refl
    missing (some at) h a = rw (last_success, a) (mark_succeeded-same task.id q at job s e h)

-- What a pass does to the record: nothing, or it publishes the first park of the success.
abbrev IsStep : Text → ℕ → TaskStore → Parked → Type 0
IsStep id c s r =
    ((r.publishes ≡ false) × (r.task_store ≡ s))
    ⊎ ((r.publishes ≡ true)
        × (park_published_at id c s ≡ none)
        × ((now : ℕ) × (r.task_store ≡ mark_park_published id c now s)))

park_success-IsStep :
    (id : Text) (now : ℕ) (error : Option Text) (job : SucceededJob) (s : TaskStore) (o : Option ℕ)
    → park_published_at id job.completed_at s ≡ o
    → IsStep id job.completed_at s (park_success id now error job s)
unfolding park_success
park_success-IsStep id now error job s (some at) e =
    elim (Bool-cases (ltb (now - job.completed_at) default_respawn_grace_period)) [
      | inl early ↦ inl (rw (park_success, early) (refl, refl))
      | inr late ↦ inl (rw (park_success, late, e) (refl, refl))
    ]
park_success-IsStep id now (some error) job s none e =
    elim (Bool-cases (ltb (now - job.completed_at) default_respawn_grace_period)) [
      | inl early ↦ inl (rw (park_success, early) (refl, refl))
      | inr late ↦ inl (rw (park_success, late, e) (refl, refl))
    ]
park_success-IsStep id now none job s none e =
    elim (Bool-cases (ltb (now - job.completed_at) default_respawn_grace_period)) [
      | inl early ↦ inl (rw (park_success, early) (refl, refl))
      | inr late ↦ inr (rw (park_success, late, e) (refl, refl, (now, refl)))
    ]

abbrev after : Text → ℕ → Option Text → Option SucceededJob × TaskStore → Parked
unfolding park_success
after id now error (none, s) = passes s
after id now error (some job, s) = park_success id now error job s

park-after :
    (r : Reads) (current : Task) (error : Option Text) (task : Task) (s : TaskStore)
    (view : Option (Option Task))
    → view ≡ some (some current)
    → park_succeeded_without_phase_move r view error task s
      ≡ after task.id r.now error (
          last_success current (task_phase_string current) (r.shared (task_phase_string current)) s)
unfolding park_succeeded_without_phase_move
park-after r current error task s view v = rw (v) (
    after-elim
      (last_success current (task_phase_string current) (r.shared (task_phase_string current)) s))
  where
    after-elim :
        (x : Option SucceededJob × TaskStore)
        → (elim x.0 as (λ _. Parked) [
          | none ↦ passes x.1
          | some job ↦ park_success task.id r.now error job x.1
        ])
          ≡ after task.id r.now error x
    after-elim (none, s') = refl
    after-elim (some job, s') = refl

park-IsStep :
    (r : Reads) (view : Option (Option Task)) (error : Option Text) (task current : Task)
    (job : SucceededJob) (s : TaskStore)
    → last_succeeded task.id s ≡ some job
    → view ≡ some (some current)
    → current.id ≡ task.id
    → task_phase_string current ≡ job.phase
    → ((q : Text) → IsUpTo job.completed_at (r.shared q))
    → IsStep task.id job.completed_at s (park_succeeded_without_phase_move r view error task s)
unfolding after park_success
park-IsStep r view error task current job s e v i q h =
    let phase = task_phase_string current in
    let t : text_eq job.phase phase ≡ true = rw (q) (text_eq_refl job.phase) in
    let l : last_success current phase (r.shared phase) s ≡ (some job, s) =
      last_success-phase current phase (r.shared phase) job s (rw (i) e) (h phase) t in
    rw (park-after r current error task s view v ∙ ap (after task.id r.now error) l)
      (park_success-IsStep task.id r.now error job s _ refl)

choose-IsStep :
    (id : Text) (c : ℕ) (s s' : TaskStore) (recent : Bool) (token : Option (Text × ℕ)) (r : Parked)
    → s' ≡ s
    → IsStep id c s r
    → IsStep id c s (
        if recent
        then record { suppresses = true; publishes = false; task_store = s' }
        else elim token as (λ _. Parked) [ some cadence ↦ passes s' | none ↦ r ])
choose-IsStep id c s s' true token r e k = inl (refl, e)
choose-IsStep id c s s' false (some cadence) r e k = inl (refl, e)
choose-IsStep id c s s' false none r e k = k

module _ (normalise : Text → Text) where
  pass-IsStep :
      (p : Pass) (job : SucceededJob) (s : TaskStore)
      → last_succeeded p.task.id s ≡ some job
      → IsOver p.task.id job.phase job.completed_at p
      → IsStep p.task.id job.completed_at s (pass normalise p s)
  unfolding pass suppress_or_park recently_succeeded is_recent
  pass-IsStep p job s e (same, (current, v, i, q), h, k) =
      let phase = task_phase_string p.task in
      let kept : (recently_succeeded normalise p.first p.task s).1 ≡ s =
        last_success-same p.task phase (p.first.shared phase) job s e (h phase) in
      choose-IsStep p.task.id job.completed_at s (recently_succeeded normalise p.first p.task s).1 _
        (recurring_token normalise p.task) _ kept
        (subst
          (λ x.
            IsStep p.task.id job.completed_at s
              (park_succeeded_without_phase_move p.second p.view p.publish_error p.task x))
          (sym kept) (park-IsStep p.second p.view p.publish_error p.task current job s e v i q k))

  after-step :
      (id : Text) (job : SucceededJob) (s : TaskStore) (r : Parked)
      → last_succeeded id s ≡ some job
      → IsStep id job.completed_at s r
      → last_succeeded id r.task_store ≡ some job
  unfolding last_succeeded mark_park_published
  after-step id job s r e (inl (p, same)) = rw (same) e
  after-step id job s r e (inr (p, n, (now, same))) = rw (same) e

  pass-IsStep_of :
      (id : Text) (p : Pass) (job : SucceededJob) (s : TaskStore)
      → last_succeeded id s ≡ some job
      → IsOver id job.phase job.completed_at p
      → IsStep id job.completed_at s (pass normalise p s)
  pass-IsStep_of id p job s e (same, (current, v, i, q), h, k) =
      subst (λ j. IsStep j job.completed_at s (pass normalise p s)) same
        (pass-IsStep p job s (rw (same) e) (refl, (current, v, i ∙ sym same, q), h, k))

  abbrev left : Option ℕ → ℕ
  left none = 1
  left (some at) = 0

  left-one : (o : Option ℕ) → left o ≤ 1
  left-one none = ground arith
  left-one (some at) = ground arith

  published :
      (id : Text) (c now : ℕ) (s : TaskStore)
      → park_published_at id c (mark_park_published id c now s) ≡ some now
  unfolding park_published_at mark_park_published
  published id c now s = ground (
    arith,
    text_eq_refl id,
    lookup-put id id (record { completed_at = c; published_at = now }) s.parked,
  )

  step_ends :
      (b : Bool) (o before : Option ℕ) (now : ℕ)
      → b ≡ true
      → o ≡ some now
      → before ≡ none
      → (if b then 1 else 0) + left o ≤ left before
  step_ends b o before now p m n = rw (p, m, n) (ground arith)

  step-left :
      (id : Text) (c : ℕ) (s : TaskStore) (r : Parked)
      → IsStep id c s r
      → (if r.publishes then 1 else 0) + left (park_published_at id c r.task_store)
        ≤ left (park_published_at id c s)
  unfolding park_published_at mark_park_published
  step-left id c s r (inl (p, same)) = rw (p, same) (ground arith)
  step-left id c s r (inr (p, n, (now, same))) =
      let m : park_published_at id c r.task_store ≡ some now =
        ap (park_published_at id c) same ∙ published id c now s in
      step_ends r.publishes _ _ now p m n

  parks-left :
      (id : Text) (job : SucceededJob) (ps : List Pass) (s : TaskStore)
      → last_succeeded id s ≡ some job
      → All (IsOver id job.phase job.completed_at) ps
      → parks normalise ps s ≤ left (park_published_at id job.completed_at s)
  unfolding parks
  parks-left id job [] s e a = ground arith
  parks-left id job (p ∷ ps) s e (over, a) =
      let step : IsStep id job.completed_at s (pass normalise p s) =
        pass-IsStep_of id p job s e over in
      let now = step-left id job.completed_at s (pass normalise p s) step in
      let later =
        parks-left id job ps (pass normalise p s).task_store
          (after-step id job s (pass normalise p s) e step) a in
      omega (arith, now, later)

-- However many passes run over a task that stays at the phase of its last success, at whatever
-- times, and whatever fails in between: as long as no later success is read, its park is published
-- at most once, even where the publishing fails at first.
pub parks-once :
    (normalise : Text → Text) (id : Text) (job : SucceededJob) (ps : List Pass) (s : TaskStore)
    → last_succeeded id s ≡ some job
    → All (IsOver id job.phase job.completed_at) ps
    → parks normalise ps s ≤ 1
parks-once normalise id job ps s e a =
    let most = parks-left normalise id job ps s e a in
    let one = left-one normalise (park_published_at id job.completed_at s) in
    omega (arith, most, one)
