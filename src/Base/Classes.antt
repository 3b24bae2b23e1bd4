-- ===== src/Base/Classes.antt =====
-- Decidable equality as an interface: Go's `==` on keys, and `reflect.DeepEqual` on values.
use Prim.Native.Nat.{ℕ}
use Prim.Native.String.{String}
use mathlib.Core.Bool.{Bool, true}
use mathlib.Core.Logic.{◌↔◌}
use mathlib.Core.Path.{◌≡◌}
use text.Mathlib.Text.{◌==◌ as str_eq}
use text.Mathlib.TextEquality.{eq_iff}
use knobs.Base.Tests.{nat_eq, nat_eq_iff}

-- A test that answers whether two values are equal, and that it does.
pub record HasEq {κ} (V : Type κ) : Type κ where
  pub equal : V → V → Bool
  pub equal_iff : (v w : V) → (equal v w ≡ true) ↔ (v ≡ w)

instance abbrev pub String_eq : HasEq String
String_eq = record { equal = str_eq; equal_iff = eq_iff }

instance abbrev pub ℕ_eq : HasEq ℕ
ℕ_eq = record { equal = nat_eq; equal_iff = nat_eq_iff }

infix 50 ◌==◌
abbrev pub ◌==◌ {κ} : {V : Type κ} ⦃h : HasEq V⦄ → V → V → Bool
◌==◌ ⦃h⦄ v w = h.equal v w
