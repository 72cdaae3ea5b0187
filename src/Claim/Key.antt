-- ===== src/Claim/Key.antt =====
-- pkg/claim/key.go: the keys under which claims are held, derived from a task and parsed back.
-- The tables of the package `unicode` beyond ASCII are the parameter `Unicode`.
pub mod Components
pub mod Shape
pub mod RoundTrip
pub mod Derive
pub mod Number
pub mod Body
use agent_task_executor.Common.{
  ℕ, ◌+◌, ◌-◌, ◌*◌, ◌/◌, ◌%◌, zero, suc, Bool, true, false, not, ◌&&◌, ◌||◌, List, [], ◌∷◌, ◌++◌,
  map, Option, none, some, leb, ltb, ◌==◌, if◌then◌else◌, length, Result, ok, err, ◌>>=◌, ◌>>◌,
}
use agent_task_executor.Text.{
  Text, codes, is_empty, text_eq, has_prefix, trim_prefix, has_suffix, contains, split,
}
use agent_task_executor.Claim.Target.{
  ClaimTarget, new_task_claim, new_repo_claim, new_pr_claim, is_pr, is_ambiguous, all_digits,
  valid_pr_number,
}

-- `unicode.ToLower` and simple case folding, read only where a code point is not ASCII.
pub record Unicode : Type 0 where
  pub lower : ℕ → ℕ
  pub folds : ℕ → ℕ → Bool

abbrev pub slash : ℕ
slash = b'/'

-- Why a component is refused.
pub data Problem : Type 0 where
  empty_component has_slash has_dots leading_dot lock_suffix invalid_character : Problem

-- Which component it was.
pub data Field : Type 0 where
  owner_field repo_field task_id_field number_field : Field

pub data KeyError : Type 0 where
  refused : Field → Problem → KeyError

abbrev pub is_safe_claim_rune : ℕ → Bool
is_safe_claim_rune r =
    (leb b'A' r && leb r b'Z')
    || (leb b'a' r && leb r b'z')
    || (leb b'0' r && leb r b'9')
    || (r == b'.' || r == b'_' || r == b'-')

-- The loop of `validateClaimComponent` over the runes.
unfoldable pub all_safe : Text → Bool
all_safe [] = true
all_safe (r ∷ rs) = is_safe_claim_rune r && all_safe rs

unfoldable pub validate_claim_component : Field → Text → Result KeyError (Unit {0})
unfolding all_safe
validate_claim_component f value =
    if is_empty value
    then err (refused f empty_component)
    else if contains value (codes "/")
    then err (refused f has_slash)
    else if contains value (codes "..")
    then err (refused f has_dots)
    else if has_prefix value (codes ".")
    then err (refused f leading_dot)
    else if has_suffix value (codes ".lock")
    then err (refused f lock_suffix)
    else if all_safe value
    then ok tt
    else err (refused f invalid_character)

unfoldable pub repo_keyed : Text → Bool
repo_keyed task_type =
    text_eq task_type (codes "update-go")
    || text_eq task_type (codes "release")
    || text_eq task_type (codes "build-fix")

abbrev pub task_prefix : Text
task_prefix = codes "claims/task/"

abbrev pub repo_prefix : Text
repo_prefix = codes "claims/repo/"

abbrev pub pr_prefix : Text
pr_prefix = codes "claims/pr/"

-- `TargetFromKey`: the branches on the number of parts.
abbrev pub repo_target : List Text → Option ClaimTarget
repo_target (o ∷ r ∷ []) = if is_empty o || is_empty r then none else some (new_repo_claim o r)
repo_target _ = none

abbrev pub pr_target : List Text → Option ClaimTarget
pr_target (o ∷ r ∷ n ∷ []) =
    if is_empty o || is_empty r || is_empty n then none else some (new_pr_claim o r n)
pr_target _ = none

unfoldable pub target_from_key : Text → Option ClaimTarget
target_from_key key =
    if has_prefix key task_prefix
    then (if is_empty (trim_prefix key task_prefix)
        then none
        else some (new_task_claim (trim_prefix key task_prefix)))
    else if has_prefix key repo_prefix
    then repo_target (split slash (trim_prefix key repo_prefix))
    else if has_prefix key pr_prefix
    then pr_target (split slash (trim_prefix key pr_prefix))
    else none

unfoldable pub key_for : ClaimTarget → Option Text
key_for t =
    if is_ambiguous t
    then none
    else if not (is_empty t.task_id)
    then some (task_prefix ++ t.task_id)
    else if is_pr t && (is_empty t.owner || is_empty t.repo || not (valid_pr_number t.number))
    then none
    else if not (is_empty t.owner) && not (is_empty t.repo)
    then (if is_pr t
        then some (pr_prefix ++ (t.owner ++ (slash ∷ (t.repo ++ (slash ∷ t.number)))))
        else some (repo_prefix ++ (t.owner ++ (slash ∷ t.repo))))
    else none

-- `strings.TrimSpace`: white space of the package `unicode`.
abbrev pub is_space : ℕ → Bool
is_space r =
    (leb 9 r && leb r 13)
    || r == 32
    || r == 0x85
    || r == 0xa0
    || r == 0x1680
    || (leb 0x2000 r && leb r 0x200a)
    || r == 0x2028
    || r == 0x2029
    || r == 0x202f
    || r == 0x205f
    || r == 0x3000

unfoldable pub trim_left : Text → Text
trim_left [] = []
trim_left (r ∷ rs) = if is_space r then trim_left rs else r ∷ rs

-- Drops white space at the end: a tail that trims to nothing is dropped.
unfoldable pub trim_right : Text → Text
trim_right [] = []
trim_right (r ∷ rs) =
    let rest = trim_right rs in if is_empty rest && is_space r then [] else r ∷ rest

abbrev pub trim_space : Text → Text
trim_space s = trim_right (trim_left s)

-- `strconv.Atoi` on a text of digits.
unfoldable pub atoi_from : ℕ → Text → ℕ
atoi_from acc [] = acc
atoi_from acc (r ∷ rs) = atoi_from (acc * 10 + (r - b'0')) rs

abbrev pub atoi : Text → ℕ
atoi = atoi_from 0

-- `strconv.Itoa`, with one unit of fuel for each digit.
unfoldable pub itoa_fuel : ℕ → ℕ → Text
itoa_fuel zero n = []
itoa_fuel (suc fuel) n =
    let front = itoa_fuel fuel (n / 10) in
    if ltb n 10 then (b'0' + n) ∷ [] else front ++ ((b'0' + n % 10) ∷ [])

-- A number of at most ten digits needs ten units.
abbrev pub itoa : ℕ → Text
itoa = itoa_fuel 10

-- The keys of a task; `by_task` says that a pr-review without a URL was keyed by its task id.
pub record Keys : Type 0 where
  pub primary : Text
  pub secondary : Text
  pub by_task : Bool

module _ (u : Unicode) where
  abbrev pub to_lower_rune : ℕ → ℕ
  to_lower_rune r =
      if ltb r 128 then (if leb b'A' r && leb r b'Z' then r + 32 else r) else u.lower r

  -- `strings.ToLower`.
  unfoldable pub to_lower : Text → Text
  to_lower = map to_lower_rune

  abbrev pub fold_rune : ℕ → ℕ → Bool
  fold_rune a b =
      a == b || (if ltb a 128 && ltb b 128 then to_lower_rune a == to_lower_rune b else u.folds a b)

  -- `strings.EqualFold`.
  unfoldable pub equal_fold : Text → Text → Bool
  equal_fold [] [] = true
  equal_fold [] (y ∷ ys) = false
  equal_fold (x ∷ xs) [] = false
  equal_fold (x ∷ xs) (y ∷ ys) = fold_rune x y && equal_fold xs ys

  unfoldable pub derive_claim_key : Text → Text → Text → Text → Result KeyError Text
  derive_claim_key task_type task_id owner repo =
      if repo_keyed task_type
      then (do
        let o = to_lower owner
        let r = to_lower repo
        validate_claim_component owner_field o
        validate_claim_component repo_field r
        ok (repo_prefix ++ (o ++ (slash ∷ r))))
      else (do validate_claim_component task_id_field task_id; ok (task_prefix ++ task_id))

  -- The last part of the line: one to ten digits with a positive value.
  unfoldable pub number_of : Text → Option Text
  number_of raw =
      if ltb (length raw) 1 || ltb 10 (length raw)
      then none
      else if not (all_digits raw)
      then none
      else if ltb (atoi raw) 1
      then none
      else some (itoa (atoi raw))

  abbrev pub number_of_parts : Text → Text → List Text → Option Text
  number_of_parts owner repo (o ∷ r ∷ p ∷ raw ∷ []) =
      if not (text_eq p (codes "pull"))
      then none
      else if not (equal_fold o owner) || not (equal_fold r repo)
      then none
      else number_of raw
  number_of_parts owner repo _ = none

  unfoldable pub pull_request_number_from_line : Text → Text → Text → Option Text
  pull_request_number_from_line owner repo line =
      if not (has_prefix line (codes "https://github.com/"))
      then none
      else number_of_parts owner repo (split slash (trim_prefix line (codes "https://github.com/")))

  -- The loop over the lines of the body: the first line that has a number.
  unfoldable pub first_number : Text → Text → List Text → Option Text
  unfolding pull_request_number_from_line
  first_number owner repo [] = none
  first_number owner repo (line ∷ lines) =
      let rest = first_number owner repo lines in
      elim (pull_request_number_from_line owner repo (trim_space line)) [
        | some number ↦ some number
        | none ↦ rest
      ]

  unfoldable pub pull_request_number_from_body : Text → Text → Text → Option Text
  pull_request_number_from_body owner repo body =
      if is_empty owner || is_empty repo then none else first_number owner repo (split 10 body)

  abbrev pub single_key : Bool → Result KeyError Text → Result KeyError Keys
  single_key by_task result = do
    primary ← result
    ok (record { primary = primary; secondary = []; by_task = by_task })

  -- The key of one pull request, once its number was found.
  unfoldable pub pr_key : Text → Text → Text → Result KeyError Text
  pr_key owner repo number = do
    validate_claim_component owner_field owner
    validate_claim_component repo_field repo
    validate_claim_component number_field number
    ok (pr_prefix ++ (owner ++ (slash ∷ (repo ++ (slash ∷ number)))))

  unfoldable pub derive_claim_keys_with_body :
      Text → Text → Text → Text → Text → Result KeyError Keys
  unfolding pr_key
  derive_claim_keys_with_body task_type task_id owner repo body =
      if not (text_eq task_type (codes "pr-review"))
      then single_key false (derive_claim_key task_type task_id owner repo)
      else elim (pull_request_number_from_body (to_lower owner) (to_lower repo) body) [
        | some number ↦ single_key false (pr_key (to_lower owner) (to_lower repo) number)
        | none ↦
            single_key true (derive_claim_key task_type task_id (to_lower owner) (to_lower repo))
      ]
