-- ===== src/Prelude/Equality.antt =====
-- Equality tests: one operator for numbers, texts and the enumerations of the program.
use Prim.Native.Nat.{ℕ}
use Prim.Native.String.{String}
use mathlib.Core.Path.{◌≡◌, refl}
use mathlib.Core.Logic.{◌↔◌}
use mathlib.Core.Bool.{Bool, true, false}
use mathlib.Core.Option.{Option, none, some}
use text.Mathlib.Text.{◌==◌ as str_eq}
use text.Mathlib.TextEquality.{eq_iff}
use costpilot.Prelude.Tests.{nat_beq, nat_beq_iff}

-- Python's `==` on the values of one type: the test, and that it decides equality.
pub record Eq {κ} (X : Type κ) : Type κ where
  pub same : X → X → Bool
  pub same_iff : (x y : X) → (same x y ≡ true) ↔ (x ≡ y)

instance abbrev pub text_of_python : Eq String
text_of_python = record { same = str_eq; same_iff = eq_iff }

instance abbrev pub number_of_python : Eq ℕ
number_of_python = record { same = nat_beq; same_iff = nat_beq_iff }

infix 50 ◌==◌
abbrev pub ◌==◌ {κ} : {X : Type κ} ⦃test : Eq X⦄ → X → X → Bool
◌==◌ ⦃test⦄ x y = test.same x y

abbrev pub decided {ℓ} : {A : Type ℓ} → Dec A → Bool
decided (yes _) = true
decided (no _) = false

pub decided_iff {ℓ} : {A : Type ℓ} (d : Dec A) → (decided d ≡ true) ↔ A
decided_iff (yes a) = ((λ _. a), (λ _. refl))
decided_iff (no n) = ((λ h. cc), (λ a. absurd (n a)))

-- The test of an enumeration, from its decidable equality.
abbrev pub eq_of_discrete {ℓ} : {A : Type ℓ} → Discrete A → Eq A
eq_of_discrete d = record { same = λ a b. decided (d a b); same_iff = λ a b. decided_iff (d a b) }

-- A test that compares a nullable column with a value: `None` equals no value.
abbrev pub some_eq {ℓ} : {A : Type ℓ} ⦃e : Eq A⦄ → Option A → A → Bool
some_eq none b = false
some_eq (some a) b = a == b
