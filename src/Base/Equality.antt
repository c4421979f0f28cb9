-- ===== src/Base/Equality.antt =====
-- Equality as a Boolean test, for Go's `==` on comparable values and for `wirejson.Equal`, which
-- compares the canonical encodings of two values: values that encode alike are one value here.
use Prim.Native.Nat.{ℕ}
use mathlib.Core.Path.{◌≡◌}
use mathlib.Core.Logic.{ite}
use mathlib.Core.Bool.{Bool, true, false}
use mathlib.Core.Option.{Option}
use mathlib.Core.List.{List}
use native.Mathlib.Omega.{arith}
use native.Mathlib.Decide.{ℕ_discrete}

pub record DecEq {ℓ} (A : Type ℓ) : Type ℓ where
  pub dec : Discrete A

infix 50 ◌==◌ ◌!=◌
abbrev pub ◌==◌ {ℓ} : {A : Type ℓ} ⦃e : DecEq A⦄ → A → A → Bool
◌==◌ ⦃e⦄ a b = ite (e.dec a b) true false

abbrev pub ◌!=◌ {ℓ} : {A : Type ℓ} ⦃e : DecEq A⦄ → A → A → Bool
◌!=◌ ⦃e⦄ a b = ite (e.dec a b) false true

unfoldable pub Text-discrete : Discrete (List ℕ)
unfolding ℕ_discrete
Text-discrete = hlevel ℕ_discrete

unfoldable pub Option-discrete {ℓ} : {A : Type ℓ} → Discrete A → Discrete (Option A)
Option-discrete d = hlevel d

unfoldable pub List-discrete {ℓ} : {A : Type ℓ} → Discrete A → Discrete (List A)
List-discrete d = hlevel d

unfoldable pub Bool-discrete : Discrete Bool
Bool-discrete = hlevel

instance abbrev pub nat_eq : DecEq ℕ
nat_eq = record { dec = ℕ_discrete }

instance abbrev pub text_eq : DecEq (List ℕ)
text_eq = record { dec = Text-discrete }

instance abbrev pub bool_eq : DecEq Bool
bool_eq = record { dec = Bool-discrete }

instance abbrev pub option_eq {ℓ} : {A : Type ℓ} ⦃e : DecEq A⦄ → DecEq (Option A)
option_eq ⦃e⦄ = record { dec = Option-discrete e.dec }

pub ==→≡ {ℓ} : {A : Type ℓ} ⦃e : DecEq A⦄ (a b : A) → (a == b) ≡ true → a ≡ b
==→≡ ⦃e⦄ a b h = ground arith

pub ==-refl {ℓ} : {A : Type ℓ} ⦃e : DecEq A⦄ (a : A) → (a == a) ≡ true
==-refl ⦃e⦄ a = ground arith

pub ≡→== {ℓ} : {A : Type ℓ} ⦃e : DecEq A⦄ (a b : A) → a ≡ b → (a == b) ≡ true
≡→== ⦃e⦄ a b h = ground arith
