-- ===== src/Handler/Resolver.antt =====
-- The agent configuration of an assignee or of a task type (pkg/config_resolver.go, the image tag of
-- pkg/agent_configuration.go, and previous_assignee in pkg/handler). The items are what the provider
-- of the Kubernetes library lists; a context that is cancelled meanwhile is not modelled.
pub mod Order
pub mod Choice
use agent_task_executor.Common.{
  ℕ, zero, suc, ◌+◌, Bool, true, false, not, ◌&&◌, ◌||◌, List, [], ◌∷◌, ◌++◌, Option, none, some,
  ltb, ◌==◌, if◌then◌else◌, Result, ok, err, ◌>>=◌,
}
use agent_task_executor.Text.{Text, codes, is_empty, text_eq}
use agent_task_executor.Handler.Task.{Config, effective_task_types, task_type_in_set}

pub data ResolveError : Type 0 where
  config_not_found config_ambiguous : ResolveError
  list_failed : Text → ResolveError

-- `strings.LastIndex(s, c)` for one character: `none` stands for -1.
abbrev pub later_index : Bool → Option ℕ → Option ℕ
later_index here (some i) = some (i + 1)
later_index true none = some 0
later_index false none = none

unfoldable pub last_index : ℕ → Text → Option ℕ
last_index c [] = none
last_index c (x ∷ s) = later_index (x == c) (last_index c s)

abbrev pub is_after : Option ℕ → Option ℕ → Bool
is_after none j = false
is_after (some i) none = true
is_after (some i) (some j) = ltb j i

abbrev pub colon : ℕ
colon = 58

abbrev pub slash : ℕ
slash = 47

abbrev pub dash : Text
dash = codes "-"

unfoldable pub append_branch_tag : Text → Text → Text
unfolding last_index
append_branch_tag image branch =
    if is_after (last_index colon image) (last_index slash image)
    then image
    else image ++ (colon ∷ branch)

-- Each item of the list that passes, in order.
unfoldable pub keep {ℓ} : {A : Type ℓ} → (A → Bool) → List A → List A
keep p [] = []
keep p (x ∷ xs) = let rest = keep p xs in if p x then x ∷ rest else rest

abbrev pub first_with : (Config → Bool) → List Config → Option Config
first_with p [] = none
first_with p (x ∷ xs) = if p x then some x else first_with p xs

-- The only item of a list.
abbrev pub sole : List Config → Option Config
sole [] = none
sole (x ∷ []) = some x
sole (x ∷ (y ∷ xs)) = none

abbrev pub has_assignee : Text → Config → Bool
has_assignee assignee it = text_eq it.assignee assignee

unfoldable pub declares : Text → Config → Bool
unfolding effective_task_types task_type_in_set
declares task_type it = task_type_in_set task_type (effective_task_types it.task_type it.task_types)

unfoldable pub defaults_for : Text → Config → Bool
unfolding task_type_in_set
defaults_for task_type it = task_type_in_set task_type it.default_for_task_types

unfoldable pub narrow_by_default : List Config → Text → Option Config
unfolding keep defaults_for
narrow_by_default matches task_type = sole (keep (defaults_for task_type) matches)

unfoldable pub convert : Text → Config → Config
unfolding append_branch_tag
convert branch it = record it { image = append_branch_tag it.image branch }

abbrev pub composed : Text → Text → Text
composed vault_name assignee = assignee ++ (dash ++ vault_name)

unfoldable pub narrow_by_assignee : Text → List Config → Text → Option Config
unfolding keep
narrow_by_assignee vault_name matches assignee =
    if is_empty assignee
    then none
    else elim (keep (has_assignee (composed vault_name assignee)) matches) [
      | [] ↦ sole (keep (has_assignee assignee) matches)
      | x ∷ xs ↦ sole (x ∷ xs)
    ]

-- `configResolver`: its branch, and the name of its vault.
module _ (branch vault_name : Text) where
  unfoldable pub resolve : Text → Result Text (List Config) → Result ResolveError Config
  unfolding convert
  resolve assignee (err e) = err (list_failed e)
  resolve assignee (ok items) =
      elim (first_with (has_assignee (composed vault_name assignee)) items) [
        | some it ↦ ok (convert branch it)
        | none ↦ elim (first_with (has_assignee assignee) items) [
          | some it ↦ ok (convert branch it)
          | none ↦ err config_not_found
        ]
      ]

  unfoldable pub resolve_by_task_type :
      Text → Text → Result Text (List Config) → Result ResolveError Config
  unfolding keep convert declares narrow_by_assignee narrow_by_default
  resolve_by_task_type task_type prefer (err e) = err (list_failed e)
  resolve_by_task_type task_type prefer (ok items) =
      let matches = keep (declares task_type) items in
      elim matches [
        | [] ↦ err config_not_found
        | x ∷ [] ↦ ok (convert branch x)
        | x ∷ (y ∷ xs) ↦ elim (narrow_by_assignee vault_name (x ∷ (y ∷ xs)) prefer) [
          | some it ↦ ok (convert branch it)
          | none ↦ elim (narrow_by_default (x ∷ (y ∷ xs)) task_type) [
            | some it ↦ ok (convert branch it)
            | none ↦ err config_ambiguous
          ]
        ]
      ]

  -- `inTypePreviousAssignee`: the assignee only where its configuration declares the type.
  unfoldable pub in_type_previous_assignee :
      Text → Text → Result Text (List Config) → Result ResolveError Text
  unfolding resolve declares
  in_type_previous_assignee previous task_type items =
      if is_empty previous then ok [] else elim (resolve previous items) [
        | ok config ↦ if declares task_type config then ok previous else ok []
        | err config_not_found ↦ ok []
        | err config_ambiguous ↦ err config_ambiguous
        | err (list_failed e) ↦ err (list_failed e)
      ]
