-- ===== src/Base/Lists.antt =====
-- Lists over the native numbers.
use Prim.Native.Nat.{ℕ, zero, suc}
use mathlib.Core.Path.{◌≡◌}
use mathlib.Core.Bool.{Bool, false, ◌||◌}
use mathlib.Core.Option.{Option, none, some}
use mathlib.Core.List.{List, [], ◌∷◌}
use octomus_agent.Base.Equality.{DecEq, ◌==◌}

abbrev pub length {ℓ} : {A : Type ℓ} → List A → ℕ
length [] = 0
length (x ∷ xs) = suc (length xs)

-- slices.Contains
abbrev pub contains {ℓ} : {A : Type ℓ} ⦃e : DecEq A⦄ → List A → A → Bool
contains [] a = false
contains (x ∷ xs) a = x == a || contains xs a

abbrev pub last? {ℓ} : {A : Type ℓ} → List A → Option A
last? [] = none
last? (x ∷ []) = some x
last? (x ∷ (y ∷ ys)) = last? (y ∷ ys)

abbrev pub nth {ℓ} : {A : Type ℓ} → ℕ → List A → Option A
nth i [] = none
nth zero (x ∷ xs) = some x
nth (suc i) (x ∷ xs) = nth i xs

-- No entry occurs twice.
pub data Distinct {ℓ} {A : Type ℓ} ⦃e : DecEq A⦄ : List A → Type ℓ where
  no_entries : Distinct []
  new_entry : {x : A} {xs : List A} → contains xs x ≡ false → Distinct xs → Distinct (x ∷ xs)

pub Distinct-head {ℓ} :
    {A : Type ℓ} ⦃e : DecEq A⦄ {x : A} {xs : List A} → Distinct (x ∷ xs) → contains xs x ≡ false
Distinct-head (new_entry n d) = n

pub Distinct-tail {ℓ} :
    {A : Type ℓ} ⦃e : DecEq A⦄ {x : A} {xs : List A} → Distinct (x ∷ xs) → Distinct xs
Distinct-tail (new_entry n d) = d
