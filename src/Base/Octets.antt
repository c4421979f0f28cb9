-- ===== src/Base/Octets.antt =====
-- Bytes as numbers: big-endian lengths, and the reading of a number of bytes from the front.
use Prim.Native.Nat.{ℕ, zero, suc, ◌+◌, ◌*◌, ◌/◌, ◌%◌, ◌≤◌, ◌<◌}
use mathlib.Core.Path.{◌≡◌, refl, ap}
use mathlib.Core.Option.{Option, none, some}
use mathlib.Core.List.{List, [], ◌∷◌, ◌++◌}
use native.Mathlib.Omega.{arith}
use octomus_agent.Base.Lists.{length}

abbrev pub Bytes : Type 0
Bytes = List ℕ

-- Every number of the list is a byte.
abbrev pub IsBytes : Bytes → Type 0
IsBytes [] = Unit {0}
IsBytes (b ∷ bs) = (b < 256) × IsBytes bs

abbrev pub cons_first {ℓ} : {A : Type ℓ} → A → Option (List A × List A) → Option (List A × List A)
cons_first x none = none
cons_first x (some (taken, rest)) = some (x ∷ taken, rest)

-- The first n entries and what follows them; `none` where there are fewer.
unfoldable pub split_at {ℓ} : {A : Type ℓ} → ℕ → List A → Option (List A × List A)
split_at zero xs = some ([], xs)
split_at (suc n) [] = none
split_at (suc n) (x ∷ xs) = cons_first x (split_at n xs)

abbrev pub put_u16 : ℕ → Bytes
put_u16 n = (n / 256 % 256) ∷ (n % 256) ∷ []

abbrev pub put_u32 : ℕ → Bytes
put_u32 n = (n / 16777216 % 256) ∷ (n / 65536 % 256) ∷ (n / 256 % 256) ∷ (n % 256) ∷ []

abbrev pub u16 : ℕ → ℕ → ℕ
u16 a b = a * 256 + b

abbrev pub u32 : ℕ → ℕ → ℕ → ℕ → ℕ
u32 a b c d = a * 16777216 + b * 65536 + c * 256 + d

pub split_at-length {ℓ} :
    {A : Type ℓ} (xs rest : List A) → split_at (length xs) (xs ++ rest) ≡ some (xs, rest)
unfolding split_at
split_at-length [] rest = refl
split_at-length (x ∷ xs) rest = ap (cons_first x) (split_at-length xs rest)

cons_first_inversion {ℓ} :
    {A : Type ℓ} (x : A) (o : Option (List A × List A)) (taken rest : List A)
    → cons_first x o ≡ some (taken, rest)
    → (t : List A) × (taken ≡ x ∷ t) × (o ≡ some (t, rest))
cons_first_inversion x none taken rest h = absurd (cc)
cons_first_inversion x (some (t, r)) taken rest h = (t, ground arith, ground arith)

-- What is taken has the asked length, and the list is what was taken and what follows.
pub split_at_inversion {ℓ} :
    {A : Type ℓ} (n : ℕ) (xs taken rest : List A)
    → split_at n xs ≡ some (taken, rest)
    → (xs ≡ taken ++ rest) × (length taken ≡ n)
unfolding split_at
split_at_inversion zero xs taken rest h = (ground arith, ground arith)
split_at_inversion (suc n) [] taken rest h = absurd (cc)
split_at_inversion (suc n) (x ∷ xs) taken rest h =
    let (t, shape, found) = cons_first_inversion x (split_at n xs) taken rest h in
    let (joined, size) = split_at_inversion n xs t rest found in (ground arith, ground arith)

pub IsBytes-append : (xs ys : Bytes) → IsBytes (xs ++ ys) → IsBytes xs × IsBytes ys
IsBytes-append [] ys h = (tt, h)
IsBytes-append (x ∷ xs) ys (b, h) = let (p, q) = IsBytes-append xs ys h in ((b, p), q)

pub append-IsBytes : (xs ys : Bytes) → IsBytes xs → IsBytes ys → IsBytes (xs ++ ys)
append-IsBytes [] ys p q = q
append-IsBytes (x ∷ xs) ys (b, p) q = (b, append-IsBytes xs ys p q)

pub length-append {ℓ} : {A : Type ℓ} (xs ys : List A) → length (xs ++ ys) ≡ length xs + length ys
length-append [] ys = omega arith
length-append (x ∷ xs) ys = omega (arith, length-append xs ys)

pub split_at_total {ℓ} :
    {A : Type ℓ} (n : ℕ) (xs : List A)
    → n ≤ length xs
    → (taken : List A) × (rest : List A) × (split_at n xs ≡ some (taken, rest))
unfolding split_at
split_at_total zero xs h = ([], xs, refl)
split_at_total (suc n) [] h = absurd (omega arith)
split_at_total (suc n) (x ∷ xs) h =
    let (taken, rest, e) = split_at_total n xs (omega arith) in (x ∷ taken, rest, ground arith)
