-- ===== src/Handler/Int.antt =====
-- Go's `int` where a value below zero can occur: no operation here leaves its range.
use agent_task_executor.Common.{ℕ, zero, suc, Bool, true, false}

pub data ℤ : Type 0 where
  pos negsuc : ℕ → ℤ

-- `0 < z`.
abbrev pub is_positive : ℤ → Bool
is_positive (pos zero) = false
is_positive (pos (suc n)) = true
is_positive (negsuc n) = false

-- `z`, or 0 where it is below.
abbrev pub max_zero : ℤ → ℕ
max_zero (pos n) = n
max_zero (negsuc n) = 0
