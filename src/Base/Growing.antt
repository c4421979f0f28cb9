-- ===== src/Base/Growing.antt =====
-- A list that another one begins with, and a predicate that some entry of a list meets.
use mathlib.Core.Path.{◌≡◌, sym, ap, subst, ◌∙◌}
use mathlib.Core.Option.{some}
use mathlib.Core.List.{List, [], ◌∷◌, ◌++◌, append-nil, append_assoc}
use octomus_agent.Base.Lists.{last?}

-- The later list is the earlier one with entries added at its end.
abbrev pub Extends {ℓ} : {A : Type ℓ} → List A → List A → Type ℓ
Extends {A} before after = (added : List A) × (after ≡ before ++ added)

pub Extends-refl {ℓ} : {A : Type ℓ} (xs : List A) → Extends xs xs
Extends-refl xs = ([], sym (append-nil xs))

pub Extends-of_eq {ℓ} : {A : Type ℓ} (xs ys : List A) → xs ≡ ys → Extends xs ys
Extends-of_eq xs ys e = ([], sym e ∙ sym (append-nil xs))

pub Extends-trans {ℓ} :
    {A : Type ℓ} (xs ys zs : List A) → Extends xs ys → Extends ys zs → Extends xs zs
Extends-trans xs ys zs (a, p) (b, q) = (a ++ b, q ∙ ap (λ l. l ++ b) p ∙ append_assoc xs a b)

pub Extends-cons {ℓ} :
    {A : Type ℓ} (x : A) (xs ys : List A) → Extends xs ys → Extends (x ∷ xs) (x ∷ ys)
Extends-cons x xs ys (a, p) = (a, ap (λ l. x ∷ l) p)

-- Some entry meets the predicate.
pub data Any {ℓ κ} {A : Type ℓ} (P : A → Type κ) : List A → Type (ℓ ⊔ κ) where
  here : {x : A} {xs : List A} → P x → Any P (x ∷ xs)
  there : {x : A} {xs : List A} → Any P xs → Any P (x ∷ xs)

pub Any-append {ℓ κ} :
    {A : Type ℓ} {P : A → Type κ} {xs : List A} → Any P xs → (ys : List A) → Any P (xs ++ ys)
Any-append (here p) ys = here p
Any-append (there a) ys = there (Any-append a ys)

pub Any-Extends {ℓ κ} :
    {A : Type ℓ} {P : A → Type κ} (xs ys : List A) → Extends xs ys → Any P xs → Any P ys
Any-Extends {P} xs ys (added, e) a = subst (λ l. Any P l) (sym e) (Any-append a added)

pub Any-last? {ℓ κ} :
    {A : Type ℓ} {P : A → Type κ} (xs : List A) {x : A} → last? xs ≡ some x → P x → Any P xs
Any-last? [] e p = absurd (cc)
Any-last? {P} (x ∷ []) e p = here (subst P (cc) p)
Any-last? (x ∷ (y ∷ ys)) e p = there (Any-last? (y ∷ ys) e p)

pub Any-map {ℓ κ υ} :
    {A : Type ℓ} {P : A → Type κ} {Q : A → Type υ} {xs : List A}
    → ((x : A) → P x → Q x)
    → Any P xs
    → Any Q xs
Any-map f (here p) = here (f _ p)
Any-map f (there a) = there (Any-map f a)
