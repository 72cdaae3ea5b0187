-- ===== src/Handler/Spawn/Gates.antt =====
-- What holds when the gates of a spawn let it go on (spawnIfNeededClaimed in
-- pkg/handler/task_event_handler.go).
use agent_task_executor.Common.{
  ℕ, ◌≡◌, refl, arith, Bool, true, false, Option, none, some, if◌then◌else◌, Result, ok, err,
}
use agent_task_executor.Text.{Text}
use agent_task_executor.Handler.Task.{Task, Config}
use agent_task_executor.Handler.Deferred.{Queue, DeferredClaim, claim_invalidated}
use agent_task_executor.Handler.Filter.{HandlerState}
use agent_task_executor.Handler.Redrive.{CapDecision, allowed, refused, redrive_streak_capped}
use agent_task_executor.Handler.Capacity.{admission, defer_if_at_concurrency_cap}
use agent_task_executor.Handler.Trigger.{check_trigger_budget, record_trigger_refusal}
use agent_task_executor.Handler.Spawn.{
  SpawnReads, fatal, Gated, stops, goes, suppress, refuse_trigger, last_gates, capacity_gate,
  redrive_gate,
}

abbrev pub is_goes : Gated → Bool
is_goes goes = true
is_goes (stops x) = false

-- What holds of the state of a gate that lets go on holds past a refusal before it.
pub if-gate :
    (P : HandlerState → Type 0) (b : Bool) (x y : Gated × HandlerState)
    → is_goes x.0 ≡ false
    → (b ≡ false → is_goes y.0 ≡ true → P y.1)
    → is_goes (if b then x else y).0 ≡ true
    → P (if b then x else y).1
if-gate P true x y n k f = absurd (ground (arith, n, f))
if-gate P false x y n k f = k refl f

refuse-stops :
    (o : Option (Text × ℕ × ℕ)) (e : Option Text) (x : Gated × HandlerState)
    (y : Text → Gated × HandlerState) (z : Gated × HandlerState)
    → is_goes x.0 ≡ false
    → ((t : Text) → is_goes (y t).0 ≡ false)
    → is_goes z.0 ≡ false
    → is_goes
        (elim o as (λ _. Gated × HandlerState) [
          | none ↦ z
          | some refusal ↦ elim e as (λ _. Gated × HandlerState) [ none ↦ x | some t ↦ y t ]
        ]).0
      ≡ false
refuse-stops none e x y z h k l = l
refuse-stops (some refusal) none x y z h k l = h
refuse-stops (some refusal) (some t) x y z h k l = k t

-- What the state has to show once a gate lets go on, from the trigger budget on.
abbrev LastPassed : SpawnReads → Task → Option DeferredClaim → HandlerState → HandlerState → Type 0
LastPassed r task claim s final =
    (check_trigger_budget task ≡ false)
    × (claim_invalidated claim final.queue ≡ false)
    × (r.index_terminal ≡ false)
    × (final.streaks ≡ s.streaks)
    × (final.calls ≡ s.calls)

last_gates-Passed :
    (r : SpawnReads) (task : Task) (claim : Option DeferredClaim) (s : HandlerState)
    → is_goes (last_gates r task claim s).0 ≡ true
    → LastPassed r task claim s (last_gates r task claim s).1
unfolding last_gates refuse_trigger
last_gates-Passed r task claim s =
    if-gate (LastPassed r task claim s) (check_trigger_budget task) (refuse_trigger r task s) _
      (refuse-stops (record_trigger_refusal task) r.refusal_error _ _ _ refl (λ t. refl) refl)
      (λ budget.
        if-gate (LastPassed r task claim s) (claim_invalidated claim (r.others_late s.queue)) _ _
          refl
          (λ valid.
            if-gate (LastPassed r task claim s) r.index_terminal _ _ refl
              (λ index f. (budget, valid, index, refl, refl))))

-- From the concurrency cap on.
abbrev CapacityPassed :
    SpawnReads → Task → Config → Option DeferredClaim → HandlerState → HandlerState → Type 0
CapacityPassed r task config claim s final =
    (admission r.capacity (some config) ≡ ok true) × LastPassed r task claim s final

after_capacity :
    SpawnReads
    → Task
    → Option DeferredClaim
    → HandlerState
    → Result Text Bool × Queue
    → Gated × HandlerState
after_capacity r task claim s x = elim x.0 [
  | err e ↦
      if r.is_denied e
      then suppress (record s { queue = x.1 })
      else (stops (err (fatal e)), record s { queue = x.1 })
  | ok true ↦ suppress (record s { queue = x.1 })
  | ok false ↦ last_gates r task claim (record s { queue = x.1 })
]

after_capacity-Passed :
    (r : SpawnReads) (task : Task) (claim : Option DeferredClaim) (s : HandlerState)
    (x : Result Text Bool × Queue)
    → is_goes (after_capacity r task claim s x).0 ≡ true
    → (x.0 ≡ ok false) × LastPassed r task claim s (after_capacity r task claim s x).1
unfolding after_capacity
after_capacity-Passed r task claim s (ok true, q) f = absurd (ground (arith, f))
after_capacity-Passed r task claim s (ok false, q) f =
    (refl, last_gates-Passed r task claim (record s { queue = q }) f)
after_capacity-Passed r task claim s (err e, q) f = absurd (denied-stops (r.is_denied e) f)
  where
    denied-stops :
        (b : Bool)
        → is_goes
            (if b
              then suppress (record s { queue = q })
              else (stops (err (fatal e)), record s { queue = q })).0
          ≡ true
        → ⊥
    denied-stops true f = ground (arith, f)
    denied-stops false f = ground (arith, f)

admitted :
    (a : Result Text Bool) (q q' : Queue)
    → (elim a as (λ _. Result Text Bool × Queue) [
      | err e ↦ (err e, q)
      | ok true ↦ (ok false, q)
      | ok false ↦ (ok true, q')
    ]).0
      ≡ ok false
    → a ≡ ok true
admitted (err e) q q' f = absurd (ground (arith, f))
admitted (ok true) q q' f = refl
admitted (ok false) q q' f = absurd (ground (arith, f))

capacity_gate-Passed :
    (r : SpawnReads) (task : Task) (config : Config) (claim : Option DeferredClaim)
    (s : HandlerState)
    → is_goes (capacity_gate r task config claim s).0 ≡ true
    → CapacityPassed r task config claim s (capacity_gate r task config claim s).1
unfolding capacity_gate defer_if_at_concurrency_cap after_capacity
capacity_gate-Passed r task config claim s f =
    let x = defer_if_at_concurrency_cap r.capacity r.others task (some config) claim s.queue in
    let (a, last) = after_capacity-Passed r task claim s x f in
    (admitted (admission r.capacity (some config)) _ _ a, last)

-- From the cap on redrives on.
abbrev pub RedrivePassed :
    SpawnReads → Task → Config → Option DeferredClaim → HandlerState → HandlerState → Type 0
RedrivePassed r task config claim s final =
    (redrive_streak_capped task r.redrive_now r.stored_count r.stored_reasons s.streaks ≡ allowed)
    × CapacityPassed r task config claim s final

after-redrive :
    (r : SpawnReads) (task : Task) (config : Config) (claim : Option DeferredClaim)
    (s : HandlerState) (d : CapDecision) (x y : Gated × HandlerState)
    → is_goes x.0 ≡ false
    → is_goes y.0 ≡ false
    → is_goes
        (elim d as (λ _. Gated × HandlerState) [
          | refused none ↦ x
          | refused (some abort) ↦ y
          | allowed ↦ capacity_gate r task config claim s
        ]).0
      ≡ true
    → (d ≡ allowed)
      × CapacityPassed r task config claim s
          (elim d as (λ _. Gated × HandlerState) [
            | refused none ↦ x
            | refused (some abort) ↦ y
            | allowed ↦ capacity_gate r task config claim s
          ]).1
after-redrive r task config claim s (refused none) x y h k f = absurd (ground (arith, h, f))
after-redrive r task config claim s (refused (some abort)) x y h k f = absurd (ground (arith, k, f))
after-redrive r task config claim s allowed x y h k f =
    (refl, capacity_gate-Passed r task config claim s f)

pub redrive_gate-Passed :
    (r : SpawnReads) (task : Task) (config : Config) (claim : Option DeferredClaim)
    (s : HandlerState)
    → is_goes (redrive_gate r task config claim s).0 ≡ true
    → RedrivePassed r task config claim s (redrive_gate r task config claim s).1
unfolding redrive_gate
redrive_gate-Passed r task config claim s f =
    after-redrive r task config claim s
      (redrive_streak_capped task r.redrive_now r.stored_count r.stored_reasons s.streaks) _ _ refl
      refl f
