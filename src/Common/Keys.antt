-- ===== src/Common/Keys.antt =====
-- Equality of dictionary keys, as an instance argument.
use Prim.Native.Nat.{ℕ}
use Prim.Native.String.{String}
use mathlib.Core.Path.{◌≡◌}
use mathlib.Core.Logic.{◌↔◌}
use mathlib.Core.Bool.{Bool, true}
use text.Mathlib.Text.{◌==◌ as str_eq}
use text.Mathlib.TextEquality.{eq_iff}
use visio_schema.Common.Tests.{◌==◌, ==_iff}

pub record Eq (A : Type 0) : Type 0 where
  pub test : A → A → Bool
  pub test_iff : (a b : A) → (test a b ≡ true) ↔ (a ≡ b)

instance abbrev pub nat_eq : Eq ℕ
nat_eq = record { test = ◌==◌; test_iff = ==_iff }

instance abbrev pub string_eq : Eq String
string_eq = record { test = str_eq; test_iff = eq_iff }

abbrev pub beq : {A : Type 0} ⦃e : Eq A⦄ → A → A → Bool
beq ⦃e⦄ = e.test

pub beq_iff : {A : Type 0} ⦃e : Eq A⦄ (a b : A) → (beq a b ≡ true) ↔ (a ≡ b)
beq_iff ⦃e⦄ = e.test_iff
