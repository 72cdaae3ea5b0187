-- ===== src/Handler/Maps.antt =====
-- Go maps from identifiers, as used in pkg/handler and pkg/task_store.go: lists of pairs, of which
-- the first with a key counts.
use agent_task_executor.Common.{
  ◌≡◌, Bool, true, false, List, [], ◌∷◌, Option, none, some, arith, if◌then◌else◌,
}
use agent_task_executor.Text.{Text, text_eq}
use agent_task_executor.Text.Laws.{text_eq_iff}

abbrev pub Map : Type 0 → Type 0
Map V = List (Text × V)

-- `v, ok := m[k]`.
unfoldable pub lookup : {V : Type 0} → Text → Map V → Option V
lookup k [] = none
lookup k ((j, v) ∷ m) = if text_eq j k then some v else lookup k m

-- `delete(m, k)`.
unfoldable pub erase : {V : Type 0} → Text → Map V → Map V
erase k [] = []
erase k ((j, v) ∷ m) = let rest = erase k m in if text_eq j k then rest else (j, v) ∷ rest

-- `m[k] = v`.
unfoldable pub put : {V : Type 0} → Text → V → Map V → Map V
put k v m = (k, v) ∷ erase k m

-- `m[k]`, with the zero value for a key that is missing.
abbrev pub get_or : {V : Type 0} → V → Text → Map V → V
get_or z k m = elim (lookup k m) [ none ↦ z | some v ↦ v ]

-- `_, ok := m[k]`.
abbrev pub has : {V : Type 0} → Text → Map V → Bool
has k m = elim (lookup k m) [ none ↦ false | some v ↦ true ]

-- The list of texts has one that is `t`.
unfoldable pub mem : Text → List Text → Bool
mem t [] = false
mem t (u ∷ us) = if text_eq u t then true else mem t us

pub lookup-erase :
    {V : Type 0} (k j : Text) (m : Map V)
    → lookup k (erase j m) ≡ (if text_eq j k then none else lookup k m)
unfolding lookup erase
lookup-erase k j [] = ground arith
lookup-erase k j ((i, v) ∷ m) =
    ground (arith, lookup-erase k j m, text_eq_iff i j, text_eq_iff j k, text_eq_iff i k)

pub lookup-put :
    {V : Type 0} (k j : Text) (v : V) (m : Map V)
    → lookup k (put j v m) ≡ (if text_eq j k then some v else lookup k m)
unfolding lookup put
lookup-put k j v m = ground (arith, lookup-erase k j m)
