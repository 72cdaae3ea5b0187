-- ===== src/Claim/Key/Number.antt =====
-- The pull-request number of a key (pkg/claim/key.go): printing and reading decimals.
use Prim.Native.Nat.{◌^◌}
use agent_task_executor.Common.{
  ℕ, zero, suc, ◌+◌, ◌-◌, ◌*◌, ◌/◌, ◌%◌, ◌≤◌, ◌<◌, ◌≡◌, refl, true, false, [], ◌∷◌, ◌++◌, arith,
  inl, inr, Bool-cases, ltb, length, some,
}
use agent_task_executor.Text.{Text, codes, is_empty, has_prefix}
use agent_task_executor.Claim.Target.{all_digits, valid_pr_number}
use agent_task_executor.Claim.Key.{Unicode, number_of, atoi, atoi_from, itoa, itoa_fuel}
use native.Mathlib.Nat.{pow-suc}

all_digits-append :
    (s t : Text) → all_digits s ≡ true → all_digits t ≡ true → all_digits (s ++ t) ≡ true
unfolding all_digits
all_digits-append [] t h k = k
all_digits-append (x ∷ s) t h k = ground (arith, all_digits-append s t)

pub itoa-all_digits : (f n : ℕ) → all_digits (itoa_fuel f n) ≡ true
unfolding itoa_fuel all_digits
itoa-all_digits zero n = refl
itoa-all_digits (suc f) n = elim (Bool-cases (ltb n 10)) [
  | inl small ↦ rw small (ground arith)
  | inr big ↦ rw big (
      all_digits-append (itoa_fuel f (n / 10)) ((b'0' + n % 10) ∷ []) (itoa-all_digits f (n / 10))
        (ground arith))
]

atoi_from-append :
    (acc : ℕ) (s : Text) (r : ℕ) → atoi_from acc (s ++ (r ∷ [])) ≡ atoi_from acc s * 10 + (r - b'0')
unfolding atoi_from
atoi_from-append acc [] r = refl
atoi_from-append acc (x ∷ s) r = atoi_from-append (acc * 10 + (x - b'0')) s r

-- With a unit of fuel for each digit, printing and reading give the number back.
atoi-itoa : (f n : ℕ) → n < 10 ^ f → 0 < f → atoi (itoa_fuel f n) ≡ n
unfolding itoa_fuel atoi_from
atoi-itoa zero n h p = absurd (omega arith)
atoi-itoa (suc zero) n h p = ground arith
atoi-itoa (suc (suc f)) n h p = elim (Bool-cases (ltb n 10)) [
  | inl small ↦ rw small (ground arith)
  | inr big ↦
      let shorter : n / 10 < 10 ^ suc f = omega (arith, pow-suc 10 (suc f)) in
      rw big (
        rw (atoi_from-append 0 (itoa_fuel (suc f) (n / 10)) (b'0' + n % 10))
          (omega (arith, atoi-itoa (suc f) (n / 10) shorter (omega arith))))
]

starts_well :
    (s t : Text)
    → (is_empty s ≡ false) × (has_prefix s (codes "0") ≡ false)
    → (is_empty (s ++ t) ≡ false) × (has_prefix (s ++ t) (codes "0") ≡ false)
unfolding has_prefix
starts_well [] t h = absurd (ground arith)
starts_well (x ∷ []) [] h = h
starts_well (x ∷ []) (y ∷ t) h = (refl, ground arith)
starts_well (x ∷ (z ∷ s)) t h = (refl, ground arith)

-- The first digit is no zero.
no_leading_zero :
    (f n : ℕ)
    → n < 10 ^ f
    → 1 ≤ n
    → (is_empty (itoa_fuel f n) ≡ false) × (has_prefix (itoa_fuel f n) (codes "0") ≡ false)
unfolding itoa_fuel has_prefix
no_leading_zero zero n h p = absurd (omega arith)
no_leading_zero (suc f) n h p = elim (Bool-cases (ltb n 10)) [
  | inl small ↦ rw small (refl, ground arith)
  | inr big ↦ rw big (
      starts_well (itoa_fuel f (n / 10)) ((b'0' + n % 10) ∷ [])
        (no_leading_zero f (n / 10) (omega (arith, pow-suc 10 f)) (ground arith)))
]

digit_bound : (v a d p : ℕ) → d ≤ 9 → v < (a * 10 + d + 1) * p → v < (a + 1) * (p * 10)
digit_bound v a d p h k = grind arith

atoi_from-lt :
    (acc : ℕ) (s : Text) → all_digits s ≡ true → atoi_from acc s < (acc + 1) * 10 ^ length s
unfolding atoi_from all_digits
atoi_from-lt acc [] h = omega arith
atoi_from-lt acc (x ∷ s) h =
    let d : x - b'0' ≤ 9 = ground arith in
    rw (pow-suc 10 (length s)) (
      digit_bound _ acc (x - b'0') (10 ^ length s) d
        (atoi_from-lt (acc * 10 + (x - b'0')) s (ground arith)))

pow_mono : (a b : ℕ) → a ≤ b → 10 ^ a ≤ 10 ^ b
pow_mono zero zero h = omega arith
pow_mono zero (suc b) h = omega (arith, pow-suc 10 b, pow_mono zero b (omega arith))
pow_mono (suc a) zero h = absurd (omega arith)
pow_mono (suc a) (suc b) h = omega (arith, pow-suc 10 a, pow-suc 10 b, pow_mono a b (omega arith))

value_bound : (s : Text) → all_digits s ≡ true → length s ≤ 10 → atoi s < 10 ^ 10
value_bound s h k = omega (arith, atoi_from-lt 0 s h, pow_mono (length s) 10 k)

-- The number that a pull-request line gives is the canonical decimal of the value of the line's
-- last part: digits only, no leading zero, positive, and of the same value.
pub number_of_canonical :
    (u : Unicode) (raw n : Text)
    → number_of u raw ≡ some n
    → (valid_pr_number n ≡ true)
      × (has_prefix n (codes "0") ≡ false)
      × (1 ≤ atoi n)
      × (atoi n ≡ atoi raw)
      × (all_digits raw ≡ true)
unfolding number_of valid_pr_number
number_of_canonical u raw n h =
    let digits : all_digits raw ≡ true = ground arith in
    let short : length raw ≤ 10 = ground arith in
    let positive : 1 ≤ atoi raw = ground arith in
    let printed : n ≡ itoa (atoi raw) = ground arith in
    let small : atoi raw < 10 ^ 10 = value_bound raw digits short in
    let starts = no_leading_zero 10 (atoi raw) small positive in
    let same = atoi-itoa 10 (atoi raw) small (omega arith) in
    rw printed (
      ground (arith, starts.0, itoa-all_digits 10 (atoi raw)),
      starts.1,
      omega (arith, same),
      same,
      digits,
    )
