-- ===== src/Claim/Lease/Safety.antt =====
-- Claims and running Jobs in pkg/claim/lease_manager.go and lease_manager_tick.go: a relation
-- between the states before and after an operation and its trace.
pub mod Fence
pub mod Release
pub mod Renew
pub mod Tick
pub mod Create
pub mod Takeover
pub mod Recover
pub mod Run
use agent_task_executor.Common.{
  ◌≡◌, refl, sym, ap, subst, ◌∙◌, false, true, Bool, if◌then◌else◌, not, ◌&&◌, ◌||◌, ◌⊎◌, inl, inr,
  Bool-cases, arith, inl, inr, List, [], ◌∷◌, ◌++◌, Option, none, some, Result, ok, err,
}
use agent_task_executor.Text.{Text, text_eq}
use agent_task_executor.Text.Laws.{eq_of_text_eq, text_eq_refl}
use agent_task_executor.Claim.Client.{Claim}
use agent_task_executor.Claim.Lease.Recover.{claim_key_of}
use agent_task_executor.Claim.Lease.Store.{
  HeldClaim, find, update, delete, find_key, find-update, find-delete, delete-update, update-update,
}
use agent_task_executor.Claim.Lease.{
  State, M, Event, asked_running, deleted_job, list_call, ◌>>=◌, ◌>>◌, pure, for_each, get_held,
}

-- The cluster's answer that the task has no running Job: it was found stopped, or deleted.
abbrev pub is_gone : Text → Event → Bool
is_gone task (asked_running t (ok false)) = text_eq t task
is_gone task (deleted_job t (ok _)) = text_eq t task
is_gone task _ = false

-- The trace has such an answer.
abbrev pub gone_in : Text → List Event → Bool
gone_in task [] = false
gone_in task (e ∷ t) = is_gone task e || gone_in task t

pub gone_in-append :
    (task : Text) (t t' : List Event) → gone_in task (t ++ t') ≡ (gone_in task t || gone_in task t')
gone_in-append task [] t' = refl
gone_in-append task (e ∷ t) t' = ground (arith, gone_in-append task t t')

-- The listing has a claim with this key, of another task.
abbrev pub displaces : Text → Text → List Claim → Bool
displaces k task [] = false
displaces k task (c ∷ cs) =
    (text_eq (claim_key_of c) k && not (text_eq c.task_id task)) || displaces k task cs

-- The server answered a listing with such a claim.
abbrev pub displaced_in : Text → Text → List Event → Bool
displaced_in k task [] = false
displaced_in k task (list_call (ok cs) ∷ t) = displaces k task cs || displaced_in k task t
displaced_in k task (_ ∷ t) = displaced_in k task t

pub displaced_in-append :
    (k task : Text) (t t' : List Event)
    → displaced_in k task (t ++ t') ≡ (displaced_in k task t || displaced_in k task t')
displaced_in-append k task [] t' = refl
displaced_in-append k task (e ∷ t) t' = ground (arith, displaced_in-append k task t t')

-- What became of a claim with no release pending: its Job is gone, or it is still held for the
-- same task, with no release pending, or the server listed a claim of another task under its key.
pub data Kept (h : HeldClaim) (k : Text) (t : List Event) (hs : List HeldClaim) : Type 0 where
  gone : gone_in h.task_id t ≡ true → Kept h k t hs
  held :
      (h' : HeldClaim)
      → find k hs ≡ some h'
      → h'.task_id ≡ h.task_id
      → h'.release_pending ≡ false
      → Kept h k t hs
  displaced : displaced_in k h.task_id t ≡ true → Kept h k t hs

abbrev pub Keeps : {W : Type 0} → State W → List Event → State W → Type 0
Keeps s t s' =
    (k : Text) (h : HeldClaim)
    → find k s.held ≡ some h
    → h.release_pending ≡ false
    → Kept h k t s'.held

-- An operation keeps the claims, from every state.
abbrev pub Safe : {W A : Type 0} → M W A → Type 0
Safe {W} m = (s : State W) → Keeps s (m s).1 (m s).2

pub Keeps-refl : {W : Type 0} (s : State W) → Keeps s [] s
Keeps-refl s k h e p = held h e refl p

later :
    (h h' : HeldClaim) (k : Text) (t t' : List Event) (hs : List HeldClaim)
    → h'.task_id ≡ h.task_id
    → Kept h' k t' hs
    → Kept h k (t ++ t') hs
later h h' k t t' hs e (gone a) = gone (ground (arith, gone_in-append h.task_id t t'))
later h h' k t t' hs e (held h'' f e' p) = held h'' f (e' ∙ e) p
later h h' k t t' hs e (displaced a) =
    displaced (ground (arith, displaced_in-append k h.task_id t t'))

pub Keeps-trans :
    {W : Type 0} (s s' s'' : State W) (t t' : List Event)
    → Keeps s t s'
    → Keeps s' t' s''
    → Keeps s (t ++ t') s''
Keeps-trans s s' s'' t t' a b k h e p = go (a k h e p)
  where
    go : Kept h k t s'.held → Kept h k (t ++ t') s''.held
    go (gone g) = gone (ground (arith, g, gone_in-append h.task_id t t'))
    go (displaced g) = displaced (ground (arith, g, displaced_in-append k h.task_id t t'))
    go (held h' f q r) = later h h' k t t' s''.held q (b k h' f r)

module _ {W A B : Type 0} where
  pub Safe->>= : (m : M W A) (f : A → M W B) → Safe m → ((a : A) → Safe (f a)) → Safe (m >>= f)
  Safe->>= m f a b s =
      Keeps-trans s (m s).2 (f (m s).0 (m s).2).2 (m s).1 (f (m s).0 (m s).2).1 (a s)
        (b (m s).0 (m s).2)

pub Safe-for_each :
    {W A : Type 0} (xs : List A) (f : A → M W (Unit {0}))
    → ((x : A) → Safe (f x))
    → Safe (for_each xs f)
unfolding for_each
Safe-for_each [] f h s = Keeps-refl s
Safe-for_each (x ∷ xs) f h s =
    Safe->>= (f x) (λ _. for_each xs f) (h x) (λ _. Safe-for_each xs f h) s

-- An operation that leaves the claims alone keeps them.
pub Safe-same : {W A : Type 0} (m : M W A) → ((s : State W) → (m s).2.held ≡ s.held) → Safe m
Safe-same m same s k h e p = held h (rw (same s) e) refl p

-- What a step on one claim does to the map: nothing, or it drops the claim, or it changes the
-- claim. It drops a claim only where a release was pending before or the trace shows that the Job
-- is gone, and it marks a claim for release only where the trace shows that.
pub data Outcome (h : HeldClaim) (hs : List HeldClaim) (t : List Event) (hs' : List HeldClaim)
    : Type 0 where
  same : hs' ≡ hs → Outcome h hs t hs'
  dropped :
      hs' ≡ delete h.key hs
      → (h.release_pending ≡ true) ⊎ (gone_in h.task_id t ≡ true)
      → Outcome h hs t hs'
  changed :
      (h' : HeldClaim)
      → hs' ≡ update h' hs
      → h'.key ≡ h.key
      → h'.task_id ≡ h.task_id
      → (h'.release_pending ≡ h.release_pending) ⊎ (gone_in h.task_id t ≡ true)
      → Outcome h hs t hs'

-- A step on a claim, run from a state, has such an outcome.
abbrev pub Does : {W A : Type 0} → HeldClaim → State W → M W A → Type 0
Does h s f = Outcome h s.held (f s).1 (f s).2.held

pub if-Does :
    {W A : Type 0} (h : HeldClaim) (s : State W) (b : Bool) (f g : M W A)
    → (b ≡ true → Does h s f)
    → (b ≡ false → Does h s g)
    → Does h s (if b then f else g)
if-Does h s true f g p q = p refl
if-Does h s false f g p q = q refl

-- What a claim's step does to the map keeps the claims.
pub Outcome-Keeps :
    {W : Type 0} (h : HeldClaim) (s : State W) (t : List Event) (s' : State W)
    → find h.key s.held ≡ some h
    → Outcome h s.held t s'.held
    → Keeps s t s'
Outcome-Keeps h s t s' at_key (same e) k j f p = held j (rw e f) refl p
Outcome-Keeps h s t s' at_key (dropped e (inl q)) k j f p = elim (Bool-cases (text_eq h.key k)) [
  | inl c ↦ absurd (ground (arith, eq_of_text_eq h.key k, at_key))
  | inr c ↦ held j (rw e (ground (arith, find-delete k h.key s.held))) refl p
]
Outcome-Keeps h s t s' at_key (dropped e (inr q)) k j f p = elim (Bool-cases (text_eq h.key k)) [
  | inl c ↦ gone (ground (arith, eq_of_text_eq h.key k, at_key))
  | inr c ↦ held j (rw e (ground (arith, find-delete k h.key s.held))) refl p
]
Outcome-Keeps h s t s' at_key (changed h' e a b (inl q)) k j f p =
    elim (Bool-cases (text_eq h.key k)) [
      | inl c ↦
          held h' (rw e (ground (arith, find-update k h' s.held)))
            (ground (arith, eq_of_text_eq h.key k, at_key))
            (ground (arith, eq_of_text_eq h.key k, at_key))
      | inr c ↦ held j (rw e (ground (arith, find-update k h' s.held))) refl p
    ]
Outcome-Keeps h s t s' at_key (changed h' e a b (inr q)) k j f p =
    elim (Bool-cases (text_eq h.key k)) [
      | inl c ↦ gone (ground (arith, eq_of_text_eq h.key k, at_key))
      | inr c ↦ held j (rw e (ground (arith, find-update k h' s.held))) refl p
    ]

-- A write to the claim first, and then a step on the claim as written.
pub write-Outcome :
    (h h' : HeldClaim) (hs hs' hs'' : List HeldClaim) (t : List Event)
    → hs' ≡ update h' hs
    → h'.key ≡ h.key
    → h'.task_id ≡ h.task_id
    → h'.release_pending ≡ h.release_pending
    → Outcome h' hs' t hs''
    → Outcome h hs t hs''
write-Outcome h h' hs hs' hs'' t e k j p (same q) = changed h' (q ∙ e) k j (inl p)
write-Outcome h h' hs hs' hs'' t e k j p (dropped q (inl r)) =
    dropped (ground (arith, delete-update h' h'.key hs refl)) (inl (sym p ∙ r))
write-Outcome h h' hs hs' hs'' t e k j p (dropped q (inr r)) =
    dropped (ground (arith, delete-update h' h'.key hs refl)) (inr (ground arith))
write-Outcome h h' hs hs' hs'' t e k j p (changed i q a b (inl c)) =
    changed i (ground (arith, update-update h' i hs)) (a ∙ k) (b ∙ j) (inl (c ∙ p))
write-Outcome h h' hs hs' hs'' t e k j p (changed i q a b (inr c)) =
    changed i (ground (arith, update-update h' i hs)) (a ∙ k) (b ∙ j) (inr (ground arith))

-- More events before the step.
pub longer-Outcome :
    (h : HeldClaim) (hs hs' : List HeldClaim) (t t' : List Event)
    → Outcome h hs t' hs'
    → Outcome h hs (t ++ t') hs'
longer-Outcome h hs hs' t t' (same e) = same e
longer-Outcome h hs hs' t t' (dropped e (inl p)) = dropped e (inl p)
longer-Outcome h hs hs' t t' (dropped e (inr p)) =
    dropped e (inr (ground (arith, gone_in-append h.task_id t t')))
longer-Outcome h hs hs' t t' (changed i e k j (inl p)) = changed i e k j (inl p)
longer-Outcome h hs hs' t t' (changed i e k j (inr p)) =
    changed i e k j (inr (ground (arith, gone_in-append h.task_id t t')))

pub find_after_write :
    (h h' : HeldClaim) (hs : List HeldClaim)
    → h'.key ≡ h.key
    → find h.key hs ≡ some h
    → find h'.key (update h' hs) ≡ some h'
find_after_write h h' hs k f =
    ground (arith, find-update h'.key h' hs, text_eq_refl h'.key, ap (λ j. find j hs) k)

module _ {W : Type 0} (f : Text → HeldClaim → M W (Unit {0})) where
  -- `held, ok := m.held[key]; if !ok { continue }`, and then a step on the claim.
  abbrev pub at_key : Text → M W (Unit {0})
  at_key key = get_held >>= λ hs. elim (find key hs) [ none ↦ pure tt | some h ↦ f key h ]

module _ {W : Type 0} (f : Text → HeldClaim → M W (Unit {0})) where
  found-Keeps :
      ((h : HeldClaim) (s : State W)
        → find h.key s.held ≡ some h
        → Keeps s (f h.key h s).1 (f h.key h s).2)
      → (key : Text) (s : State W) (o : Option HeldClaim) → find key s.held ≡ o
      → Keeps s
          ((elim o as (λ _. M W (Unit {0})) [ none ↦ pure tt | some h ↦ f key h ]) s).1
          ((elim o as (λ _. M W (Unit {0})) [ none ↦ pure tt | some h ↦ f key h ]) s).2
  found-Keeps keeps key s none e = Keeps-refl s
  found-Keeps keeps key s (some h) e =
      let k : h.key ≡ key = find_key key s.held h e in
      subst (λ j. Keeps s (f j h s).1 (f j h s).2) k
        (keeps h s (subst (λ j. find j s.held ≡ some h) (sym k) e))

  pub Safe-at_key :
      ((h : HeldClaim) (s : State W)
        → find h.key s.held ≡ some h
        → Keeps s (f h.key h s).1 (f h.key h s).2)
      → (key : Text) → Safe (at_key f key)
  Safe-at_key keeps key s = found-Keeps keeps key s (find key s.held) refl

  pub Safe-step :
      ((h : HeldClaim) (s : State W) → Does h s (f h.key h)) → (key : Text) → Safe (at_key f key)
  Safe-step does =
      Safe-at_key (λ h s e. Outcome-Keeps h s (f h.key h s).1 (f h.key h s).2 e (does h s))
