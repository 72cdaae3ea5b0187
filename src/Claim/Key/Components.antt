-- ===== src/Claim/Key/Components.antt =====
-- What `validateClaimComponent` and `validPRNumber` let through (pkg/claim/key.go).
use agent_task_executor.Common.{◌≡◌, refl, true, false, [], ◌∷◌, arith, ok}
use agent_task_executor.Text.{Text, codes, is_empty, contains, has_prefix, has_suffix, Lacks}
use agent_task_executor.Claim.Target.{all_digits}
use agent_task_executor.Claim.Key.{slash, Field, all_safe, validate_claim_component}

-- A text of safe runes has no slash.
pub all_safe-Lacks : (s : Text) → all_safe s ≡ true → Lacks slash s
unfolding all_safe
all_safe-Lacks [] h = tt
all_safe-Lacks (r ∷ s) h = (ground arith, all_safe-Lacks s (ground arith))

pub all_digits-Lacks : (s : Text) → all_digits s ≡ true → Lacks slash s
unfolding all_digits
all_digits-Lacks [] h = tt
all_digits-Lacks (r ∷ s) h = (ground arith, all_digits-Lacks s (ground arith))

-- What an accepted component is like.
pub record IsComponent (value : Text) : Type 0 where
  pub nonempty : is_empty value ≡ false
  pub safe : all_safe value ≡ true
  pub no_dots : contains value (codes "..") ≡ false
  pub no_leading_dot : has_prefix value (codes ".") ≡ false
  pub no_lock : has_suffix value (codes ".lock") ≡ false

pub validate_sound :
    (f : Field) (value : Text) → validate_claim_component f value ≡ ok tt → IsComponent value
unfolding validate_claim_component
validate_sound f value h = record {
  nonempty = ground arith;
  safe = ground arith;
  no_dots = ground arith;
  no_leading_dot = ground arith;
  no_lock = ground arith;
}

contains-slash : (s : Text) → Lacks slash s → contains s (codes "/") ≡ false
unfolding contains has_prefix
contains-slash [] h = refl
contains-slash (x ∷ []) h = ground arith
contains-slash (x ∷ (y ∷ s)) h = ground (arith, contains-slash (y ∷ s))

-- The test for "/" adds nothing to the test for safe characters.
pub validate_complete :
    (f : Field) (value : Text) → IsComponent value → validate_claim_component f value ≡ ok tt
unfolding validate_claim_component
validate_complete f value c = ground (
  arith,
  contains-slash value (all_safe-Lacks value c.safe),
  c.nonempty,
  c.safe,
  c.no_dots,
  c.no_leading_dot,
  c.no_lock,
)

pub IsComponent-Lacks : {value : Text} → IsComponent value → Lacks slash value
IsComponent-Lacks {value} c = all_safe-Lacks value c.safe
