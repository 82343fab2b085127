-- ===== src/Base/Int.antt =====
-- Signed integers over the native numbers, with the tests that the configuration code makes.
use Prim.Native.Nat.{ℕ}
use mathlib.Core.Bool.{Bool, true, false, not}
use go_mesi.Base.Tests.{◌==◌, ltb}

-- `negsuc n` is -(n + 1).
pub data ℤ : Type 0 where
  pos : ℕ → ℤ
  negsuc : ℕ → ℤ

-- The sentinel -1 of a field that no directive has set.
abbrev pub unset : ℤ
unset = negsuc 0

-- v != -1
abbrev pub is_set : ℤ → Bool
is_set (pos n) = true
is_set (negsuc n) = not (n == 0)

-- v >= 0
abbrev pub is_nonneg : ℤ → Bool
is_nonneg (pos n) = true
is_nonneg (negsuc n) = false

-- v > 0
abbrev pub is_pos : ℤ → Bool
is_pos (pos n) = ltb 0 n
is_pos (negsuc n) = false

-- v != 0, the truth of a C integer
abbrev pub is_true : ℤ → Bool
is_true (pos n) = not (n == 0)
is_true (negsuc n) = true

-- v == n
abbrev pub is_nat : ℕ → ℤ → Bool
is_nat k (pos n) = n == k
is_nat k (negsuc n) = false

-- a > b
abbrev pub gtb : ℤ → ℤ → Bool
gtb (pos a) (pos b) = ltb b a
gtb (pos a) (negsuc b) = true
gtb (negsuc a) (pos b) = false
gtb (negsuc a) (negsuc b) = ltb a b

-- The value of an integer that is not negative.
abbrev pub to_nat : ℤ → ℕ
to_nat (pos n) = n
to_nat (negsuc n) = 0
