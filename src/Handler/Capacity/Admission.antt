-- ===== src/Handler/Capacity/Admission.antt =====
-- The bounds on the number of Jobs (deferIfAtConcurrencyCap in pkg/handler/concurrency_admission.go,
-- and pkg/handler/concurrency_capacity.go).
use agent_task_executor.Common.{
  ℕ, zero, suc, ◌≡◌, refl, sym, ap, ◌∙◌, ◌↔◌, ◌<◌, ◌⊎◌, inl, inr, arith, Bool, true, false, not,
  ◌&&◌, ◌||◌, [], ◌∷◌, Option, none, some, if◌then◌else◌, Result, ok, err, Bool-cases, ltb, leb,
}
use agent_task_executor.Text.{Text, is_empty}
use agent_task_executor.Handler.Int.{ℤ, is_positive, max_zero}
use agent_task_executor.Handler.Task.{Config}
use agent_task_executor.Handler.Capacity.{
  Readings, QuotaBound, effective_concurrency_cap, bounds, resolve_job_namespace, pod_quota_for,
  capacity_for, admission, quota_unbounded, quota_bounded, quota_read_failed,
}

-- No quota bounds the Jobs of the configuration, as far as the executor can read.
abbrev pub NoQuota : Readings → Config → Type 0
NoQuota r config =
    (r.has_limiter ≡ false)
    ⊎ ((config.priority_class ≡ [])
        ⊎ (((e : Text) × (r.pod_quota ≡ err e))
            ⊎ ((quota : ℤ) × (r.pod_quota ≡ ok (quota, false)))))

-- One more Job stays within each bound that there is.
abbrev pub IsWithin : Readings → Config → ℕ → Type 0
IsWithin r config n =
    ((is_positive config.max_concurrent_jobs ≡ false) ⊎ (n < max_zero config.max_concurrent_jobs))
    × (NoQuota r config ⊎ ((quota : ℤ) × (r.pod_quota ≡ ok (quota, true)) × (n < max_zero quota)))

is_positive-max_zero : (z : ℤ) → (is_positive z ≡ true) ↔ (0 < max_zero z)
is_positive-max_zero (ℤ.pos zero) = ground arith
is_positive-max_zero (ℤ.pos (suc n)) = ground arith
is_positive-max_zero (ℤ.negsuc n) = ground arith

-- The test that the capacity amounts to.
abbrev fits : Option ℕ → ℕ → Bool
fits none n = true
fits (some capacity) n = ltb n capacity

abbrev cap_test : ℤ → ℤ → Bool → ℕ → Bool
cap_test max quota bounded n =
    (not (is_positive max) || ltb n (max_zero max)) && (not bounded || ltb n (max_zero quota))

effective_concurrency_cap-fits :
    (max quota : ℤ) (bounded : Bool) (n : ℕ)
    → fits
        (let (capacity, b) = effective_concurrency_cap max quota bounded in
          if leb capacity 0 && not b then none else some capacity)
        n
      ≡ cap_test max quota bounded n
unfolding effective_concurrency_cap
effective_concurrency_cap-fits (ℤ.pos zero) quota true n = ground arith
effective_concurrency_cap-fits (ℤ.pos (suc m)) quota true n =
    elim (Bool-cases (ltb (max_zero quota) (suc m))) [
      | inl small ↦ rw (small) (ground (arith, small))
      | inr large ↦ rw (large) (ground (arith, large))
    ]
effective_concurrency_cap-fits (ℤ.negsuc m) quota true n = ground arith
effective_concurrency_cap-fits (ℤ.pos zero) quota false n = ground arith
effective_concurrency_cap-fits (ℤ.pos (suc m)) quota false n = ground arith
effective_concurrency_cap-fits (ℤ.negsuc m) quota false n = ground arith

abbrev quota_read : Bool → Text → Result Text (ℤ × Bool) → ℤ × QuotaBound
quota_read limiter class pod_quota =
    if not limiter || is_empty class then (ℤ.pos 0, quota_unbounded) else elim pod_quota [
      | err e ↦ (ℤ.pos 0, quota_read_failed)
      | ok (quota, bounded) ↦
          (ℤ.pos (max_zero quota), if bounded then quota_bounded else quota_unbounded)
    ]

abbrev reading : Result Text (ℤ × Bool) → ℤ × Bool
reading (ok x) = x
reading (err e) = (ℤ.pos 0, false)

unread :
    (p : Result Text (ℤ × Bool)) (class : Text)
    → (reading p).1 ≡ true
    → is_empty class ≡ false
    → ¬ (
        (true ≡ false)
        ⊎ ((class ≡ []) ⊎ (((e : Text) × (p ≡ err e)) ⊎ ((q : ℤ) × (p ≡ ok (q, false))))))
unread p class t c (inl f) = absurd (ground (arith, f))
unread p class t c (inr (inl f)) = absurd (ground (arith, c, ap is_empty f))
unread p class t c (inr (inr (inl (e, f)))) = absurd (ground (arith, t, ap (λ x. (reading x).1) f))
unread p class t c (inr (inr (inr (q, f)))) = absurd (ground (arith, t, ap (λ x. (reading x).1) f))

bounded-test :
    (p : Result Text (ℤ × Bool)) (class : Text) (n : ℕ)
    → (reading p).1 ≡ true
    → is_empty class ≡ false
    → ((true ≡ false)
        ⊎ ((class ≡ []) ⊎ (((e : Text) × (p ≡ err e)) ⊎ ((q : ℤ) × (p ≡ ok (q, false))))))
      ⊎ ((q : ℤ) × (p ≡ ok (q, true)) × (n < max_zero q))
    → n < max_zero (reading p).0
bounded-test p class n t c (inl k) = absurd (unread p class t c k)
bounded-test p class n t c (inr (q, e, h)) = rw (e) h

quota_read-test :
    (limiter : Bool) (class : Text) (p : Result Text (ℤ × Bool)) (n : ℕ)
    → ((not (bounds (quota_read limiter class p).1)
          || ltb n (max_zero (quota_read limiter class p).0))
        ≡ true)
      ↔ (((limiter ≡ false)
            ⊎ ((class ≡ [])
                ⊎ (((e : Text) × (p ≡ err e)) ⊎ ((quota : ℤ) × (p ≡ ok (quota, false))))))
          ⊎ ((quota : ℤ) × (p ≡ ok (quota, true)) × (n < max_zero quota)))
unfolding bounds
quota_read-test false class p n = (λ e. inl (inl refl), λ k. refl)
quota_read-test true [] p n = (λ e. inl (inr (inl refl)), λ k. refl)
quota_read-test true (c ∷ class) (err e) n = (λ t. inl (inr (inr (inl (e, refl)))), λ k. refl)
quota_read-test true (c ∷ class) (ok (quota, false)) n =
    (λ t. inl (inr (inr (inr (quota, refl)))), λ k. refl)
quota_read-test true (c ∷ class) (ok (quota, true)) n = (
  λ t. inr (quota, refl, ground (arith, t)),
  λ k.
      let h : n < max_zero quota = bounded-test (ok (quota, true)) (c ∷ class) n refl refl k in
      ground (arith, h),
)

abbrev answer : Result Text Bool → Bool
answer (ok b) = b
answer (err e) = false

max-test :
    (max : ℤ) (n : ℕ)
    → (not (is_positive max) || ltb n (max_zero max)) ≡ true
    → (is_positive max ≡ false) ⊎ (n < max_zero max)
max-test max n t = elim (Bool-cases (is_positive max)) [
  | inl p ↦ inr (ground (arith, p, t))
  | inr p ↦ inl p
]

max-test' :
    (max : ℤ) (n : ℕ)
    → (is_positive max ≡ false) ⊎ (n < max_zero max)
    → (not (is_positive max) || ltb n (max_zero max)) ≡ true
max-test' max n (inl p) = ground (arith, p)
max-test' max n (inr p) = ground (arith, p)

module _ (r : Readings) (config : Config) (n : ℕ) where
  abbrev quota_of : ℤ
  quota_of = (pod_quota_for r config).0

  abbrev bounded_by : Bool
  bounded_by = bounds (pod_quota_for r config).1

  capacity-fits :
      fits (capacity_for r config) n ≡ cap_test config.max_concurrent_jobs quota_of bounded_by n
  unfolding capacity_for
  capacity-fits = effective_concurrency_cap-fits config.max_concurrent_jobs quota_of bounded_by n

  unlimited : r.has_limiter ≡ false → bounded_by ≡ false
  unfolding pod_quota_for bounds
  unlimited e = rw (pod_quota_for, e) refl

  fits-elim :
      (o : Option ℕ) (running : Result Text ℕ)
      → running ≡ ok n
      → (elim o as (λ _. Result Text Bool) [
        | none ↦ ok true
        | some capacity ↦ elim running as (λ _. Result Text Bool) [
          | err e ↦ err e
          | ok k ↦ ok (ltb k capacity)
        ]
      ])
        ≡ ok (fits o n)
  fits-elim none running e = refl
  fits-elim (some capacity) running e = rw (e) refl

  admission-test :
      (namespace : Text)
      → resolve_job_namespace r.executor_namespace config.job_namespace ≡ ok namespace
      → r.running ≡ ok n
      → admission r (some config) ≡ ok (cap_test config.max_concurrent_jobs quota_of bounded_by n)
  unfolding admission
  admission-test namespace ns running =
      elim (Bool-cases (not r.has_limiter && not (is_positive config.max_concurrent_jobs))) [
        | inl free ↦
            let none' : bounded_by ≡ false = unlimited (ground (arith, free)) in
            rw (admission, free) (ap ok (ground (arith, free, none')))
        | inr bound ↦
            rw (admission, bound, ns)
              (fits-elim (capacity_for r config) r.running running ∙ ap ok capacity-fits)
      ]

  quota-test :
      ((not bounded_by || ltb n (max_zero quota_of)) ≡ true)
      ↔ (NoQuota r config ⊎ ((quota : ℤ) × (r.pod_quota ≡ ok (quota, true)) × (n < max_zero quota)))
  unfolding pod_quota_for bounds
  quota-test = quota_read-test r.has_limiter config.priority_class r.pod_quota n

-- Where the namespace of the Jobs is valid and so many Jobs run, one more Job is admitted exactly
-- where it stays below the maximum of the configuration, if that is positive, and below the pod
-- quota, if one is read that applies.
pub admission-IsWithin :
    (r : Readings) (config : Config) (namespace : Text) (n : ℕ)
    → resolve_job_namespace r.executor_namespace config.job_namespace ≡ ok namespace
    → r.running ≡ ok n
    → (admission r (some config) ≡ ok true) ↔ IsWithin r config n
admission-IsWithin r config namespace n ns running =
    let e = admission-test r config n namespace ns running in
    let (q, q') = quota-test r config n in
    (
      λ a.
          let t : cap_test config.max_concurrent_jobs (quota_of r config n) (bounded_by r config n)
                n
              ≡ true =
            ap answer (sym e ∙ a) in
          (max-test config.max_concurrent_jobs n (ground (arith, t)), q (ground (arith, t))),
      λ (m, k).
          let t = q' k in
          let s = max-test' config.max_concurrent_jobs n m in e ∙ ap ok (ground (arith, t, s)),
    )
