-- ===== src/Base/Int.antt =====
-- Signed 64-bit numbers, where the source reads one from outside. `negsuc n` is -(n + 1).
use Prim.Native.Nat.{ℕ}
use mathlib.Core.Bool.{Bool, true, false}
use knobs.Base.Tests.{ltb, nat_eq}

pub data ℤ : Type 0 where
  pos : ℕ → ℤ
  negsuc : ℕ → ℤ

-- `z < n`
abbrev pub below : ℤ → ℕ → Bool
below (pos m) n = ltb m n
below (negsuc m) n = true

abbrev pub ℤ_equal : ℤ → ℤ → Bool
ℤ_equal (pos m) (pos n) = nat_eq m n
ℤ_equal (negsuc m) (negsuc n) = nat_eq m n
ℤ_equal _ _ = false
