-- ===== src/Base/Only.antt =====
-- The only entry of a list that a predicate holds of, and the filter that finds it.
use mathlib.Core.Path.{◌≡◌, refl, ap, subst, ◌∙◌}
use mathlib.Core.Logic.{inl, inr}
use mathlib.Core.Bool.{Bool, true, false}
use mathlib.Core.List.{List, [], ◌∷◌, ◌++◌}
use native.Mathlib.Omega.{arith}
use octomus_agent.Base.Tests.{if◌then◌else◌, Bool-cases}
use octomus_agent.Base.Growing.{Any, here, there}

-- The entries that a test selects.
unfoldable pub keep {ℓ} : {A : Type ℓ} → (A → Bool) → List A → List A
keep test [] = []
keep test (x ∷ xs) = let rest = keep test xs in if test x then x ∷ rest else rest

-- The predicate holds of no entry.
abbrev pub Nowhere {ℓ κ} : {A : Type ℓ} → (A → Type κ) → List A → Type (ℓ ⊔ κ)
Nowhere {A} Holds xs = (y : A) → Any (λ x. x ≡ y) xs → ¬ Holds y

-- The entry stands in the list, the predicate holds of it, and of none before or after it.
abbrev pub Sole {ℓ κ} : {A : Type ℓ} → (A → Type κ) → A → List A → Type (ℓ ⊔ κ)
Sole {A} Holds x xs =
    (before : List A) × (after : List A) × (xs ≡ before ++ (x ∷ after))
    × Holds x
    × Nowhere Holds before
    × Nowhere Holds after

module _ {ℓ} {A : Type ℓ} (test : A → Bool) where
  abbrev pub Selects : A → Type 0
  Selects x = test x ≡ true

  Nowhere-cons :
      (x : A) (xs : List A) → test x ≡ false → Nowhere Selects xs → Nowhere Selects (x ∷ xs)
  Nowhere-cons x xs misses absent y (here e) h = absurd (cc)
  Nowhere-cons x xs misses absent y (there o) h = absent y o h

  pub Nowhere-keep : (xs : List A) → keep test xs ≡ [] → Nowhere Selects xs
  unfolding keep
  Nowhere-keep [] h = λ y o. elim o [ ]
  Nowhere-keep (x ∷ xs) h = elim (Bool-cases (test x)) [
    | inl e ↦ absurd (ground arith)
    | inr e ↦ Nowhere-cons x xs e (Nowhere-keep xs (ground arith))
  ]

  pub keep-Nowhere : (xs : List A) → Nowhere Selects xs → keep test xs ≡ []
  unfolding keep
  keep-Nowhere [] absent = refl
  keep-Nowhere (x ∷ xs) absent =
      let rest = keep-Nowhere xs (λ y o. absent y (there o)) in
      elim (Bool-cases (test x)) [ inl e ↦ absurd (absent x (here refl) e) | inr e ↦ ground arith ]

  pub Sole-keep : (xs : List A) (x : A) → keep test xs ≡ x ∷ [] → Sole Selects x xs
  unfolding keep
  Sole-keep [] x h = absurd (cc)
  Sole-keep (z ∷ xs) x h = elim (Bool-cases (test z)) [
    | inl e ↦
        let same : z ≡ x = ground arith in
        (
          [],
          xs,
          ap (λ w. w ∷ xs) same,
          subst Selects same e,
          λ y o. elim o [ ],
          Nowhere-keep xs (ground arith),
        )
    | inr e ↦
        let (before, after, split, holds, none_before, none_after) =
          Sole-keep xs x (ground arith) in
        (
          z ∷ before,
          after,
          ap (λ l. z ∷ l) split,
          holds,
          Nowhere-cons z before e none_before,
          none_after,
        )
  ]

  keep-split :
      (before after : List A) (x : A)
      → Selects x
      → Nowhere Selects before
      → Nowhere Selects after
      → keep test (before ++ (x ∷ after)) ≡ x ∷ []
  unfolding keep
  keep-split [] after x holds none_before none_after =
      let rest = keep-Nowhere after none_after in ground arith
  keep-split (z ∷ before) after x holds none_before none_after =
      let rest = keep-split before after x holds (λ y o. none_before y (there o)) none_after in
      elim (Bool-cases (test z)) [
        | inl e ↦ absurd (none_before z (here refl) e)
        | inr e ↦ ground arith
      ]

  pub keep-Sole : (xs : List A) (x : A) → Sole Selects x xs → keep test xs ≡ x ∷ []
  keep-Sole xs x (before, after, split, holds, none_before, none_after) =
      ap (keep test) split ∙ keep-split before after x holds none_before none_after

-- Predicates that agree have the same only entry.
pub Sole-map {ℓ κ υ} :
    {A : Type ℓ} {P : A → Type κ} {Q : A → Type υ} (to : (y : A) → P y → Q y)
    (from : (y : A) → Q y → P y) (x : A) (xs : List A)
    → Sole P x xs
    → Sole Q x xs
Sole-map to from x xs (before, after, split, holds, none_before, none_after) = (
  before,
  after,
  split,
  to x holds,
  λ y o q. none_before y o (from y q),
  λ y o q. none_after y o (from y q),
)
