-- ===== src/Handler/Resolver/Order.antt =====
-- The resolver and the order in which the provider lists its items (pkg/config_resolver.go).
use mathlib.Core.List.{Permᴰ}
use agent_task_executor.Common.{
  ◌≡◌, refl, sym, ap, ◌∙◌, Bool, true, false, Option, none, some, List, [], ◌∷◌, if◌then◌else◌,
  Result, ok, err,
}
use agent_task_executor.Text.{Text, is_empty}
use agent_task_executor.Handler.Task.{Config}
use agent_task_executor.Handler.Resolver.{
  keep, sole, declares, defaults_for, has_assignee, narrow_by_default, narrow_by_assignee,
  resolve_by_task_type, composed, convert, config_not_found, config_ambiguous, ResolveError,
}

-- How many items a list has, as far as it matters, and the only one.
data Census : Type 0 where
  nobody many : Census
  only : Config → Census

abbrev census : List Config → Census
census [] = nobody
census (x ∷ []) = only x
census (x ∷ (y ∷ xs)) = many

abbrev add : Config → Census → Census
add x nobody = only x
add x (only y) = many
add x many = many

census-cons : (x : Config) (xs : List Config) → census (x ∷ xs) ≡ add x (census xs)
census-cons x [] = refl
census-cons x (y ∷ []) = refl
census-cons x (y ∷ (z ∷ xs)) = refl

census-swap : (x y : Config) (xs : List Config) → census (x ∷ (y ∷ xs)) ≡ census (y ∷ (x ∷ xs))
census-swap x y xs = refl

census-Perm : {xs ys : List Config} → Permᴰ xs ys → census xs ≡ census ys
census-Perm Permᴰ.nil = refl
census-Perm (Permᴰ.cons {a} {b} {l₁} {l₂} e p) =
    census-cons a l₁ ∙ (rw (e, census-Perm p) (sym (census-cons b l₂)))
census-Perm (Permᴰ.swap e f) = refl
census-Perm (Permᴰ.trans p q) = census-Perm p ∙ census-Perm q

abbrev pick : Bool → Config → List Config → List Config
pick b x rest = if b then x ∷ rest else rest

pick-Perm :
    (b : Bool) (x : Config) {xs ys : List Config} → Permᴰ xs ys → Permᴰ (pick b x xs) (pick b x ys)
pick-Perm true x q = Permᴰ.cons refl q
pick-Perm false x q = q

perm_refl : (xs : List Config) → Permᴰ xs xs
perm_refl [] = Permᴰ.nil
perm_refl (x ∷ xs) = Permᴰ.cons refl (perm_refl xs)

pick-swap :
    (b c : Bool) (x y : Config) (xs : List Config)
    → Permᴰ (pick b x (pick c y xs)) (pick c y (pick b x xs))
pick-swap true true x y xs = Permᴰ.swap refl refl
pick-swap true false x y xs = perm_refl _
pick-swap false c x y xs = perm_refl _

keep-Perm : (p : Config → Bool) {xs ys : List Config} → Permᴰ xs ys → Permᴰ (keep p xs) (keep p ys)
unfolding keep
keep-Perm p Permᴰ.nil = Permᴰ.nil
keep-Perm p (Permᴰ.cons {a} {b} {l₁} {l₂} e q) = rw (e) (pick-Perm (p b) b (keep-Perm p q))
keep-Perm p (Permᴰ.swap {a} {b} {a'} {b'} {l} e f) =
    rw (e, f) (pick-swap (p b') (p a') b' a' (keep p l))
keep-Perm p (Permᴰ.trans q r) = Permᴰ.trans (keep-Perm p q) (keep-Perm p r)

-- The results are a function of three censuses.
abbrev sole_of : Census → Option Config
sole_of nobody = none
sole_of (only x) = some x
sole_of many = none

sole-census : (xs : List Config) → sole xs ≡ sole_of (census xs)
sole-census [] = refl
sole-census (x ∷ []) = refl
sole-census (x ∷ (y ∷ xs)) = refl

narrow_by_default-Perm :
    (task_type : Text) {xs ys : List Config}
    → Permᴰ xs ys
    → narrow_by_default xs task_type ≡ narrow_by_default ys task_type
unfolding narrow_by_default
narrow_by_default-Perm task_type {xs} {ys} q =
    sole-census (keep (defaults_for task_type) xs)
    ∙ (ap sole_of (census-Perm (keep-Perm (defaults_for task_type) q))
        ∙ sym (sole-census (keep (defaults_for task_type) ys)))

abbrev first_choice : Census → Census → Option Config
first_choice nobody plain = sole_of plain
first_choice (only x) plain = some x
first_choice many plain = none

first_choice-census :
    (xs ys : List Config)
    → (elim xs as (λ _. Option Config) [ [] ↦ sole ys | z ∷ zs ↦ sole (z ∷ zs) ])
      ≡ first_choice (census xs) (census ys)
first_choice-census [] ys = sole-census ys
first_choice-census (x ∷ []) ys = refl
first_choice-census (x ∷ (y ∷ xs)) ys = refl

module _ (branch vault_name : Text) where
  narrow_by_assignee-census :
      (xs : List Config) (assignee : Text)
      → narrow_by_assignee vault_name xs assignee ≡ (
          if is_empty assignee
          then none
          else first_choice
              (census (keep (has_assignee (composed vault_name assignee)) xs))
              (census (keep (has_assignee assignee) xs)))
  unfolding narrow_by_assignee
  narrow_by_assignee-census xs assignee =
      ap (λ o. if is_empty assignee then none else o) (first_choice-census _ _)

  narrow_by_assignee-Perm :
      (assignee : Text) {xs ys : List Config}
      → Permᴰ xs ys
      → narrow_by_assignee vault_name xs assignee ≡ narrow_by_assignee vault_name ys assignee
  narrow_by_assignee-Perm assignee {xs} {ys} q =
      let c = census-Perm (keep-Perm (has_assignee (composed vault_name assignee)) q) in
      let p = census-Perm (keep-Perm (has_assignee assignee) q) in
      narrow_by_assignee-census xs assignee
      ∙ (rw (c, p) (sym (narrow_by_assignee-census ys assignee)))

  abbrev tie_break : Option Config → Option Config → Result ResolveError Config
  tie_break (some it) designated = ok (convert branch it)
  tie_break none (some it) = ok (convert branch it)
  tie_break none none = err config_ambiguous

  abbrev result_of : Census → Option Config → Option Config → Result ResolveError Config
  result_of nobody preferred designated = err config_not_found
  result_of (only x) preferred designated = ok (convert branch x)
  result_of many preferred designated = tie_break preferred designated

  abbrev result_of_matches : Text → Text → List Config → Result ResolveError Config
  result_of_matches task_type prefer matches =
      result_of (census matches) (narrow_by_assignee vault_name matches prefer)
        (narrow_by_default matches task_type)

  tie_break-elim :
      (p d : Option Config)
      → (elim p as (λ _. Result ResolveError Config) [
        | some it ↦ ok (convert branch it)
        | none ↦ elim d as (λ _. Result ResolveError Config) [
          | some it ↦ ok (convert branch it)
          | none ↦ err config_ambiguous
        ]
      ])
        ≡ tie_break p d
  tie_break-elim (some it) d = refl
  tie_break-elim none (some it) = refl
  tie_break-elim none none = refl

  matches-result :
      (task_type prefer : Text) (items matches : List Config)
      → keep (declares task_type) items ≡ matches
      → resolve_by_task_type branch vault_name task_type prefer (ok items)
        ≡ result_of_matches task_type prefer matches
  unfolding resolve_by_task_type
  matches-result task_type prefer items [] e = rw (resolve_by_task_type, e) refl
  matches-result task_type prefer items (x ∷ []) e = rw (resolve_by_task_type, e) refl
  matches-result task_type prefer items (x ∷ (y ∷ xs)) e =
      rw (resolve_by_task_type, e) (tie_break-elim _ _)

  result_of_matches-Perm :
      (task_type prefer : Text) {xs ys : List Config}
      → Permᴰ xs ys
      → result_of_matches task_type prefer xs ≡ result_of_matches task_type prefer ys
  result_of_matches-Perm task_type prefer q =
      rw (census-Perm q, narrow_by_assignee-Perm prefer q, narrow_by_default-Perm task_type q) refl

-- The configuration resolved by a task type, or the refusal, does not depend on the order in
-- which the provider lists the items.
pub resolve_by_task_type-Perm :
    (branch vault_name task_type prefer : Text) (xs ys : List Config)
    → Permᴰ xs ys
    → resolve_by_task_type branch vault_name task_type prefer (ok xs)
      ≡ resolve_by_task_type branch vault_name task_type prefer (ok ys)
resolve_by_task_type-Perm branch vault_name task_type prefer xs ys q =
    matches-result branch vault_name task_type prefer xs _ refl
    ∙ (result_of_matches-Perm branch vault_name task_type prefer (keep-Perm (declares task_type) q)
        ∙ sym (matches-result branch vault_name task_type prefer ys _ refl))
