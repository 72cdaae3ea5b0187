-- ===== src/Text/Laws.antt =====
-- Laws of the text operations.
use agent_task_executor.Common.{
  ℕ, ◌≡◌, refl, true, List, [], ◌∷◌, ◌++◌, ◌==◌, arith, inl, inr, Bool-cases, ◌↔◌,
}
use agent_task_executor.Text.{
  Text, text_eq, has_prefix, drop_text, trim_prefix, split, add_first, Lacks,
}

pub text_eq_refl : (s : Text) → text_eq s s ≡ true
unfolding text_eq
text_eq_refl [] = refl
text_eq_refl (x ∷ s) = ground (arith, text_eq_refl s)

pub eq_of_text_eq : (s t : Text) → text_eq s t ≡ true → s ≡ t
unfolding text_eq
eq_of_text_eq [] [] h = refl
eq_of_text_eq [] (y ∷ t) h = cc
eq_of_text_eq (x ∷ s) [] h = cc
eq_of_text_eq (x ∷ s) (y ∷ t) h = ground (arith, eq_of_text_eq s t)

pub text_eq_iff : (s t : Text) → (text_eq s t ≡ true) ↔ (s ≡ t)
text_eq_iff s t = (eq_of_text_eq s t, λ e. rw e (text_eq_refl t))

pub has_prefix-append : (p s : Text) → has_prefix (p ++ s) p ≡ true
unfolding has_prefix
has_prefix-append [] [] = refl
has_prefix-append [] (x ∷ s) = refl
has_prefix-append (x ∷ p) s = ground (arith, has_prefix-append p s)

drop_text-append : (p s : Text) → drop_text (p ++ s) p ≡ s
drop_text-append [] [] = refl
drop_text-append [] (x ∷ s) = refl
drop_text-append (x ∷ p) s = drop_text-append p s

pub trim_prefix-append : (p s : Text) → trim_prefix (p ++ s) p ≡ s
unfolding trim_prefix
trim_prefix-append p s = rw (has_prefix-append p s) (drop_text-append p s)

drop_text-restore : (p s : Text) → has_prefix s p ≡ true → s ≡ p ++ drop_text s p
unfolding has_prefix
drop_text-restore [] [] h = refl
drop_text-restore [] (x ∷ s) h = refl
drop_text-restore (y ∷ p) [] h = cc
drop_text-restore (y ∷ p) (x ∷ s) h = ground (arith, drop_text-restore p s)

-- A text with the prefix is the prefix and what `trim_prefix` leaves.
pub trim_prefix-restore : (p s : Text) → has_prefix s p ≡ true → s ≡ p ++ trim_prefix s p
unfolding trim_prefix
trim_prefix-restore p s h = rw h (drop_text-restore p s h)

-- Splitting a text without the separator gives the text.
pub split-Lacks : (sep : ℕ) (s : Text) → Lacks sep s → split sep s ≡ s ∷ []
unfolding split
split-Lacks sep [] h = refl
split-Lacks sep (x ∷ s) h = ground (arith, split-Lacks sep s)

-- Splitting at the first separator.
pub split-append :
    (sep : ℕ) (a s : Text) → Lacks sep a → split sep (a ++ (sep ∷ s)) ≡ a ∷ split sep s
unfolding split
split-append sep [] s h = ground arith
split-append sep (x ∷ a) s h = ground (arith, split-append sep a s)

-- `strings.Join(parts, sep)`.
abbrev pub join : ℕ → List Text → Text
join sep [] = []
join sep (p ∷ []) = p
join sep (p ∷ (q ∷ ps)) = p ++ (sep ∷ join sep (q ∷ ps))

join-add_first : (sep x : ℕ) (ps : List Text) → join sep (add_first x ps) ≡ x ∷ join sep ps
join-add_first sep x [] = refl
join-add_first sep x (p ∷ []) = refl
join-add_first sep x (p ∷ (q ∷ ps)) = refl

split-nonempty : (sep : ℕ) (s : Text) → (p : Text) × (ps : List Text) × (split sep s ≡ p ∷ ps)
unfolding split
split-nonempty sep [] = ([], [], refl)
split-nonempty sep (x ∷ s) = elim (Bool-cases (x == sep)) [
  | inl same ↦ rw same ([], split sep s, refl)
  | inr other ↦ let (p, ps, e) = split-nonempty sep s in rw (other, e) (x ∷ p, ps, refl)
]

-- Joining the parts gives the text back.
pub join-split : (sep : ℕ) (s : Text) → join sep (split sep s) ≡ s
unfolding split
join-split sep [] = refl
join-split sep (x ∷ s) =
    let (p, ps, e) = split-nonempty sep s in
    ground (arith, e, join-split sep s, join-add_first sep x (p ∷ ps))
