-- ===== src/Claim/Key/Shape.antt =====
-- The components of a claim key that `validateClaimComponent` (pkg/claim/key.go) accepts, written
-- without the tests of the code.
use agent_task_executor.Common.{
  ℕ, ◌≡◌, ◌≢◌, refl, ap, ◌∙◌, ◌≤◌, Bool, true, false, ◌⊎◌, inl, inr, [], ◌∷◌, ◌++◌, arith, ◌↔◌, ok,
  All, Bool-cases,
}
use agent_task_executor.Text.{
  Text, codes, is_empty, text_eq, contains, has_prefix, has_suffix, trim_prefix,
}
use agent_task_executor.Text.Laws.{
  has_prefix-append, trim_prefix-restore, text_eq_refl, eq_of_text_eq,
}
use agent_task_executor.Claim.Key.{Field, all_safe, is_safe_claim_rune, validate_claim_component}
use agent_task_executor.Claim.Key.Components.{IsComponent, validate_sound, validate_complete}

contains_prefix : (s p : Text) → has_prefix s p ≡ true → contains s p ≡ true
unfolding contains
contains_prefix [] p h = h
contains_prefix (x ∷ s) p h = ground (arith, h)

contains-append : (a p b : Text) → contains (a ++ (p ++ b)) p ≡ true
unfolding contains
contains-append [] p b = contains_prefix (p ++ b) p (has_prefix-append p b)
contains-append (x ∷ a) p b = ground (arith, contains-append a p b)

contains-split : (s p : Text) → contains s p ≡ true → (a : Text) × (b : Text) × (s ≡ a ++ (p ++ b))
unfolding contains
contains-split [] p h = ([], trim_prefix [] p, trim_prefix-restore p [] h)
contains-split (x ∷ s) p h = elim (Bool-cases (has_prefix (x ∷ s) p)) [
  | inl e ↦ ([], trim_prefix (x ∷ s) p, trim_prefix-restore p (x ∷ s) e)
  | inr e ↦
      let (a, b, f) = contains-split s p (ground (arith, h, e)) in (x ∷ a, b, ap (λ t. x ∷ t) f)
]

has_suffix_same : (p : Text) → has_suffix p p ≡ true
unfolding has_suffix
has_suffix_same [] = refl
has_suffix_same (x ∷ p) = ground (arith, text_eq_refl (x ∷ p))

has_suffix-append : (a p : Text) → has_suffix (a ++ p) p ≡ true
unfolding has_suffix
has_suffix-append [] p = has_suffix_same p
has_suffix-append (x ∷ a) p = ground (arith, has_suffix-append a p)

has_suffix-split : (s p : Text) → has_suffix s p ≡ true → (a : Text) × (s ≡ a ++ p)
unfolding has_suffix
has_suffix-split [] p h = ([], eq_of_text_eq [] p h)
has_suffix-split (x ∷ s) p h = elim (Bool-cases (text_eq (x ∷ s) p)) [
  | inl e ↦ ([], eq_of_text_eq (x ∷ s) p e)
  | inr e ↦ let (a, f) = has_suffix-split s p (ground (arith, h, e)) in (x ∷ a, ap (λ t. x ∷ t) f)
]

-- An ASCII letter, an ASCII digit, '.', '_' or '-'.
abbrev pub SafeRune : ℕ → Type 0
SafeRune r =
    ((65 ≤ r) × (r ≤ 90))
    ⊎ (((97 ≤ r) × (r ≤ 122)) ⊎ (((48 ≤ r) × (r ≤ 57)) ⊎ ((r ≡ 46) ⊎ ((r ≡ 95) ⊎ (r ≡ 45)))))

is_safe_claim_rune_iff : (r : ℕ) → (is_safe_claim_rune r ≡ true) ↔ SafeRune r
is_safe_claim_rune_iff r = (λ e. grind (arith, e), λ s. grind (arith, s))

all_safe_iff : (s : Text) → (all_safe s ≡ true) ↔ All SafeRune s
unfolding all_safe
all_safe_iff [] = (λ e. tt, λ s. refl)
all_safe_iff (r ∷ s) = (
  λ e. ((is_safe_claim_rune_iff r).0 (ground (arith, e)), (all_safe_iff s).0 (ground (arith, e))),
  λ (a, b). ground (arith, (is_safe_claim_rune_iff r).1 a, (all_safe_iff s).1 b),
)

pub record HasShape (value : Text) : Type 0 where
  pub nonempty : value ≢ []
  pub safe : All SafeRune value
  pub no_dots : (a b : Text) → value ≢ a ++ (codes ".." ++ b)
  pub no_leading_dot : (b : Text) → value ≢ codes "." ++ b
  pub no_lock : (a : Text) → value ≢ a ++ codes ".lock"

refutes : {b : Bool} → b ≡ true → b ≡ false → ⊥
refutes h k = ground (arith, h, k)

not_true : (b : Bool) → (b ≡ true → ⊥) → b ≡ false
not_true true f = absurd (f refl)
not_true false f = refl

IsComponent-HasShape : (value : Text) → IsComponent value → HasShape value
IsComponent-HasShape value c = record {
  nonempty = λ e. refutes (ap is_empty e) c.nonempty;
  safe = (all_safe_iff value).0 c.safe;
  no_dots = λ a b e.
      refutes (ap (λ s. contains s (codes "..")) e ∙ contains-append a (codes "..") b) c.no_dots;
  no_leading_dot = λ b e.
      refutes (ap (λ s. has_prefix s (codes ".")) e ∙ has_prefix-append (codes ".") b)
        c.no_leading_dot;
  no_lock = λ a e.
      refutes (ap (λ s. has_suffix s (codes ".lock")) e ∙ has_suffix-append a (codes ".lock"))
        c.no_lock;
}

empty_of : (s : Text) → is_empty s ≡ true → s ≡ []
empty_of [] h = refl
empty_of (x ∷ s) h = absurd (ground (arith, h))

HasShape-IsComponent : (value : Text) → HasShape value → IsComponent value
HasShape-IsComponent value c = record {
  nonempty = not_true (is_empty value) (λ h. c.nonempty (empty_of value h));
  safe = (all_safe_iff value).1 c.safe;
  no_dots =
      not_true (contains value (codes ".."))
        (λ h. let (a, b, e) = contains-split value (codes "..") h in c.no_dots a b e);
  no_leading_dot = not_true (has_prefix value (codes ".")) (λ h.
      c.no_leading_dot (trim_prefix value (codes ".")) (trim_prefix-restore (codes ".") value h));
  no_lock =
      not_true (has_suffix value (codes ".lock"))
        (λ h. let (a, e) = has_suffix-split value (codes ".lock") h in c.no_lock a e);
}

-- `validateClaimComponent` accepts exactly the nonempty texts of ASCII letters, ASCII digits, '.',
-- '_' and '-' that have no two dots in a row, do not begin with a dot and do not end with ".lock".
pub validate_claim_component_iff :
    (f : Field) (value : Text) → (validate_claim_component f value ≡ ok tt) ↔ HasShape value
validate_claim_component_iff f value = (
  λ h. IsComponent-HasShape value (validate_sound f value h),
  λ c. validate_complete f value (HasShape-IsComponent value c),
)
