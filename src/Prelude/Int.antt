-- ===== src/Prelude/Int.antt =====
-- Go's `int`, where the program uses negative values.
use Prim.Native.Nat.{ℕ, zero, suc, ◌+◌, ◌-◌}
use mathlib.Core.Bool.{Bool, true, false}
use ocifuse.Prelude.Tests.{ltb, leb, if◌then◌else◌}

-- `negsuc n` is -(n + 1).
pub data ℤ : Type 0 where
  pos : ℕ → ℤ
  negsuc : ℕ → ℤ

-- z <= 0
abbrev pub nonpositive : ℤ → Bool
nonpositive (pos zero) = true
nonpositive (pos (suc n)) = false
nonpositive (negsuc n) = true

-- n > z
abbrev pub exceeds : ℕ → ℤ → Bool
exceeds n (pos m) = ltb m n
exceeds n (negsuc m) = true

-- z + n and z - n
abbrev pub sub_nat : ℤ → ℕ → ℤ
sub_nat (pos a) b = if leb b a then pos (a - b) else negsuc (b - suc a)
sub_nat (negsuc a) b = negsuc (a + b)

abbrev pub add_nat : ℤ → ℕ → ℤ
add_nat (pos a) b = pos (a + b)
add_nat (negsuc a) b = if leb (suc a) b then pos (b - suc a) else negsuc (a - b)

-- y > z
abbrev pub above : ℤ → ℤ → Bool
above (pos a) z = exceeds a z
above (negsuc a) (pos b) = false
above (negsuc a) (negsuc b) = ltb a b
