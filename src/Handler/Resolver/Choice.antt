-- ===== src/Handler/Resolver/Choice.antt =====
-- Which configuration the resolver picks by a task type (pkg/config_resolver.go).
use agent_task_executor.Common.{
  ◌≡◌, refl, ap, ◌∙◌, ◌≤◌, ◌⊎◌, inl, inr, Bool, true, false, Option, none, some, List, [], ◌∷◌,
  arith, if◌then◌else◌, Result, ok, err, Bool-cases, All, length,
}
use agent_task_executor.Text.{Text}
use agent_task_executor.Handler.Task.{Config}
use agent_task_executor.Handler.Resolver.{
  keep, sole, declares, defaults_for, has_assignee, narrow_by_default, narrow_by_assignee,
  resolve_by_task_type, composed, convert, config_not_found, config_ambiguous, list_failed,
  ResolveError,
}

abbrev pub Listed : Config → List Config → Type 0
Listed it [] = ⊥
Listed it (x ∷ xs) = (it ≡ x) ⊎ Listed it xs

-- What the result says of the items.
abbrev pub IsResult : Text → Text → List Config → Result ResolveError Config → Type 0
IsResult branch task_type items (ok config) =
    (it : Config) × Listed it items × (declares task_type it ≡ true) × (config ≡ convert branch it)
IsResult branch task_type items (err config_not_found) =
    All (λ it. declares task_type it ≡ false) items
IsResult branch task_type items (err config_ambiguous) =
    2 ≤ length (keep (declares task_type) items)
IsResult branch task_type items (err (list_failed e)) = ⊥

pick-Listed :
    (p : Config → Bool) (it x : Config) (xs rest : List Config) (b : Bool)
    → p x ≡ b
    → (Listed it rest → Listed it xs × (p it ≡ true))
    → Listed it (if b then x ∷ rest else rest)
    → Listed it (x ∷ xs) × (p it ≡ true)
pick-Listed p it x xs rest true e f (inl same) = (inl same, ap p same ∙ e)
pick-Listed p it x xs rest true e f (inr l) = (inr (f l).0, (f l).1)
pick-Listed p it x xs rest false e f l = (inr (f l).0, (f l).1)

keep-Listed :
    (p : Config → Bool) (it : Config) (xs : List Config)
    → Listed it (keep p xs)
    → Listed it xs × (p it ≡ true)
unfolding keep
keep-Listed p it [] l = absurd l
keep-Listed p it (x ∷ xs) l = pick-Listed p it x xs (keep p xs) (p x) refl (keep-Listed p it xs) l

keep-nothing :
    (p : Config → Bool) (xs : List Config) → length (keep p xs) ≡ 0 → All (λ it. p it ≡ false) xs
unfolding keep
keep-nothing p [] e = tt
keep-nothing p (x ∷ xs) e = elim (Bool-cases (p x)) [
  | inl yes' ↦ absurd (ground (arith, yes', e))
  | inr no' ↦ (no', keep-nothing p xs (ground (arith, no', e)))
]

sole-Listed : (it : Config) (xs : List Config) → sole xs ≡ some it → Listed it xs
sole-Listed it [] e = absurd (ground (arith, e))
sole-Listed it (x ∷ []) e = inl (ground (arith, e))
sole-Listed it (x ∷ (y ∷ xs)) e = absurd (ground (arith, e))

narrow_by_default-Listed :
    (task_type : Text) (it : Config) (matches : List Config)
    → narrow_by_default matches task_type ≡ some it
    → Listed it matches
unfolding narrow_by_default
narrow_by_default-Listed task_type it matches e =
    (keep-Listed (defaults_for task_type) it matches
      (sole-Listed it (keep (defaults_for task_type) matches) e)).0

first-Listed :
    (it : Config) (matches : List Config) (p q : Config → Bool) (hits : List Config)
    → keep p matches ≡ hits
    → (elim hits as (λ _. Option Config) [ [] ↦ sole (keep q matches) | x ∷ xs ↦ sole (x ∷ xs) ])
      ≡ some it
    → Listed it matches
first-Listed it matches p q [] e s =
    (keep-Listed q it matches (sole-Listed it (keep q matches) s)).0
first-Listed it matches p q (x ∷ xs) e s =
    (keep-Listed p it matches (rw (e) (sole-Listed it (x ∷ xs) s))).0

narrow_by_assignee-Listed :
    (vault_name assignee : Text) (it : Config) (matches : List Config)
    → narrow_by_assignee vault_name matches assignee ≡ some it
    → Listed it matches
unfolding narrow_by_assignee
narrow_by_assignee-Listed vault_name [] it matches e = absurd (ground (arith, e))
narrow_by_assignee-Listed vault_name (c ∷ assignee) it matches e =
    first-Listed it matches (has_assignee (composed vault_name (c ∷ assignee)))
      (has_assignee (c ∷ assignee)) _ refl e

module _ (branch vault_name task_type prefer : Text) (items : List Config) where
  picked-IsResult :
      (it : Config) (matches : List Config)
      → keep (declares task_type) items ≡ matches
      → Listed it matches
      → IsResult branch task_type items (ok (convert branch it))
  picked-IsResult it matches e l =
      let (listed, d) = keep-Listed (declares task_type) it items (rw (e) l) in
      (it, listed, d, refl)

  tie_break-IsResult :
      (x y : Config) (xs : List Config) (preferred designated : Option Config)
      → keep (declares task_type) items ≡ x ∷ (y ∷ xs)
      → narrow_by_assignee vault_name (x ∷ (y ∷ xs)) prefer ≡ preferred
      → narrow_by_default (x ∷ (y ∷ xs)) task_type ≡ designated
      → IsResult branch task_type items (elim preferred as (λ _. Result ResolveError Config) [
        | some it ↦ ok (convert branch it)
        | none ↦ elim designated as (λ _. Result ResolveError Config) [
          | some it ↦ ok (convert branch it)
          | none ↦ err config_ambiguous
        ]
      ])
  tie_break-IsResult x y xs (some it) d e n m =
      picked-IsResult it (x ∷ (y ∷ xs)) e
        (narrow_by_assignee-Listed vault_name prefer it (x ∷ (y ∷ xs)) n)
  tie_break-IsResult x y xs none (some it) e n m =
      picked-IsResult it (x ∷ (y ∷ xs)) e (narrow_by_default-Listed task_type it (x ∷ (y ∷ xs)) m)
  tie_break-IsResult x y xs none none e n m = rw (e) (omega arith)

  matches-IsResult :
      (matches : List Config)
      → keep (declares task_type) items ≡ matches
      → IsResult branch task_type items
          (resolve_by_task_type branch vault_name task_type prefer (ok items))
  unfolding resolve_by_task_type
  matches-IsResult [] e =
      rw (resolve_by_task_type, e) (keep-nothing (declares task_type) items (ap length e))
  matches-IsResult (x ∷ []) e =
      rw (resolve_by_task_type, e) (picked-IsResult x (x ∷ []) e (inl refl))
  matches-IsResult (x ∷ (y ∷ xs)) e =
      rw (resolve_by_task_type, e) (tie_break-IsResult x y xs _ _ e refl refl)

-- A configuration that is resolved by a task type is the converted one of a listed item that
-- declares this type, whatever the tie-break. The type is not found only where no item declares
-- it, and the refusal as ambiguous is given only where two or more do.
pub resolve_by_task_type-IsResult :
    (branch vault_name task_type prefer : Text) (items : List Config)
    → IsResult branch task_type items
        (resolve_by_task_type branch vault_name task_type prefer (ok items))
resolve_by_task_type-IsResult branch vault_name task_type prefer items =
    matches-IsResult branch vault_name task_type prefer items _ refl
