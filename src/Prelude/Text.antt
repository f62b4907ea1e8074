-- ===== src/Prelude/Text.antt =====
-- Go strings: sequences of bytes, compared byte by byte.
use Prim.Native.Nat.{ℕ}
use Prim.Native.Char.{code}
use Prim.Native.String.{String}
use mathlib.Core.Path.{◌≡◌, refl}
use mathlib.Core.Logic.{◌↔◌}
use mathlib.Core.Bool.{Bool, true, false, ◌&&◌, ◌||◌}
use mathlib.Core.List.{List, [], ◌∷◌, ◌++◌}
use native.Mathlib.Omega.{arith}
use ocifuse.Prelude.Tests.{Comparable, ltb, nat_beq}

-- A Go `string`, or a `[]byte`.
abbrev pub Bytes : Type 0
Bytes = List ℕ

-- The code points of a literal: its bytes, for the ASCII literals of the source.
abbrev pub codes : String → Bytes
codes String.[] = []
codes (String.◌∷◌ c s) = code c ∷ codes s

unfoldable pub bytes_beq : Bytes → Bytes → Bool
bytes_beq [] [] = true
bytes_beq (x ∷ xs) (y ∷ ys) = nat_beq x y && bytes_beq xs ys
bytes_beq _ _ = false

pub bytes_beq_iff : (a b : Bytes) → (bytes_beq a b ≡ true) ↔ (a ≡ b)
unfolding bytes_beq
bytes_beq_iff [] [] = ground arith
bytes_beq_iff [] (y ∷ ys) = ground arith
bytes_beq_iff (x ∷ xs) [] = ground arith
bytes_beq_iff (x ∷ xs) (y ∷ ys) = ground (arith, bytes_beq_iff xs ys)

instance abbrev pub bytes_eq : Comparable Bytes
bytes_eq = record { equal = bytes_beq; equal_iff = bytes_beq_iff }

-- Go's `<` on strings.
unfoldable pub bytes_ltb : Bytes → Bytes → Bool
bytes_ltb xs [] = false
bytes_ltb [] (y ∷ ys) = true
bytes_ltb (x ∷ xs) (y ∷ ys) = ltb x y || (nat_beq x y && bytes_ltb xs ys)

pub bytes_ltb_irrefl : (a : Bytes) → bytes_ltb a a ≡ false
unfolding bytes_ltb
bytes_ltb_irrefl [] = refl
bytes_ltb_irrefl (x ∷ xs) = ground (arith, bytes_ltb_irrefl xs)

pub bytes_ltb_trans :
    (a b c : Bytes) → bytes_ltb a b ≡ true → bytes_ltb b c ≡ true → bytes_ltb a c ≡ true
unfolding bytes_ltb
bytes_ltb_trans a b [] p q = cc
bytes_ltb_trans a [] (z ∷ zs) p q = cc
bytes_ltb_trans [] (y ∷ ys) (z ∷ zs) p q = refl
bytes_ltb_trans (x ∷ xs) (y ∷ ys) (z ∷ zs) p q = ground (arith, bytes_ltb_trans xs ys zs)

pub bytes_ltb_total : (a b : Bytes) → bytes_ltb a b ≡ false → bytes_ltb b a ≡ false → a ≡ b
unfolding bytes_ltb
bytes_ltb_total [] [] p q = refl
bytes_ltb_total [] (y ∷ ys) p q = cc
bytes_ltb_total (x ∷ xs) [] p q = cc
bytes_ltb_total (x ∷ xs) (y ∷ ys) p q = ground (arith, bytes_ltb_total xs ys)

pub bytes_ltb_append : (d a b : Bytes) → bytes_ltb (d ++ a) (d ++ b) ≡ bytes_ltb a b
unfolding bytes_ltb
bytes_ltb_append [] a b = refl
bytes_ltb_append (x ∷ d) a b = ground (arith, bytes_ltb_append d a b)
