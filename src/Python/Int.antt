-- ===== src/Python/Int.antt =====
-- Python's `int` where it may be negative.
use tpm_attest.Prelude.{ℕ, zero, ◌<◌, Bool, true, false, ltb}

-- `negsuc n` is -(n + 1).
pub data ℤ : Type 0 where
  pos : ℕ → ℤ
  negsuc : ℕ → ℤ

-- `i < j`
abbrev pub ltz : ℤ → ℤ → Bool
ltz (pos i) (pos j) = ltb i j
ltz (pos i) (negsuc j) = false
ltz (negsuc i) (pos j) = true
ltz (negsuc i) (negsuc j) = ltb j i

abbrev pub IsPositive : ℤ → Type 0
IsPositive (pos i) = 0 < i
IsPositive (negsuc i) = ⊥

-- `0 <= i < n`
abbrev pub in_range : ℤ → ℕ → Bool
in_range (pos i) n = ltb i n
in_range (negsuc i) n = false

-- the test of an exit status, `returncode == 0`
abbrev pub is_zero : ℤ → Bool
is_zero (pos zero) = true
is_zero _ = false
