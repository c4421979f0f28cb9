-- ===== src/Egress/Hello/Vectors.antt =====
-- The vectors of a ClientHello and what follows from reading one (internal/egress/clienthello.go).
use octomus_agent.Base.{
  ℕ, ◌/◌, ◌%◌, ◌<◌, Bool, true, false, ◌||◌, List, [], ◌∷◌, ◌++◌, map, Option, none, some, length,
  contains, Bytes, IsBytes, IsBytes-append, split_at_inversion, u16, put_u16, text_eq, nat_eq,
  option_eq, ◌≡◌, refl, ap, subst, ◌∙◌, inl, inr, arith, Bool-cases,
}
use mathlib.Core.List.{append-nil}
use octomus_agent.Egress.Hello.{HelloError, Width, one_byte, two_bytes, tls_vector, and_vector}

-- A vector behind its length.
abbrev pub vector : Width → Bytes → Bytes
vector one_byte v = length v ∷ v
vector two_bytes v = put_u16 (length v) ++ v

pub u16-put : (a b n : ℕ) → a < 256 → b < 256 → n ≡ u16 a b → put_u16 n ≡ a ∷ b ∷ []
u16-put a b n pa pb e =
    let hi : n / 256 % 256 ≡ a = omega arith in let lo : n % 256 ≡ b = omega arith in cc

pub tls_vector_inversion :
    (w : Width) (input value rest : Bytes)
    → IsBytes input
    → tls_vector w input ≡ some (value, rest)
    → (input ≡ vector w value ++ rest) × IsBytes value × IsBytes rest
unfolding tls_vector
tls_vector_inversion one_byte (n ∷ input) value rest (pn, bytes) h =
    let (joined, sized) = split_at_inversion n input value rest h in
    let (pv, pr) = IsBytes-append value rest (subst (λ i. IsBytes i) joined bytes) in (cc, pv, pr)
tls_vector_inversion two_bytes (a ∷ b ∷ input) value rest (pa, (pb, bytes)) h =
    let (joined, sized) = split_at_inversion (u16 a b) input value rest h in
    let (pv, pr) = IsBytes-append value rest (subst (λ i. IsBytes i) joined bytes) in
    let e = u16-put a b (length value) pa pb sized in (ground arith, pv, pr)
tls_vector_inversion one_byte [] value rest bytes h = absurd (cc)
tls_vector_inversion two_bytes [] value rest bytes h = absurd (cc)
tls_vector_inversion two_bytes (a ∷ []) value rest bytes h = absurd (cc)

pub and_vector_inversion :
    (o : Option (Bytes × Bytes)) (next : Bytes → Bytes → Option HelloError)
    → and_vector o next ≡ none
    → (value : Bytes) × (rest : Bytes) × (o ≡ some (value, rest)) × (next value rest ≡ none)
and_vector_inversion none next h = absurd (cc)
and_vector_inversion (some (value, rest)) next h = (value, rest, refl, h)

-- A vector that the check takes off the front of some bytes, and what it checks of it.
pub taken :
    (w : Width) (input : Bytes) (next : Bytes → Bytes → Option HelloError)
    → IsBytes input
    → and_vector (tls_vector w input) next ≡ none
    → (value : Bytes) × (rest : Bytes) × (input ≡ vector w value ++ rest)
      × IsBytes value
      × IsBytes rest
      × (next value rest ≡ none)
taken w input next bytes h =
    let (value, rest, found, ok) = and_vector_inversion (tls_vector w input) next h in
    let (joined, pv, pr) = tls_vector_inversion w input value rest bytes found in
    (value, rest, joined, pv, pr, ok)

-- A vector with nothing behind it.
pub alone :
    (w : Width) (input value rest : Bytes)
    → input ≡ vector w value ++ rest
    → rest ≡ []
    → input ≡ vector w value
alone w input value rest joined empty =
    joined ∙ ap (λ r. vector w value ++ r) empty ∙ append-nil (vector w value)

abbrev pub encode_extensions : List (ℕ × Bytes) → Bytes
encode_extensions [] = []
encode_extensions ((kind, value) ∷ extensions) =
    put_u16 kind ++ (vector two_bytes value ++ encode_extensions extensions)

abbrev pub kinds : List (ℕ × Bytes) → List ℕ
kinds extensions = map (λ x. x.0) extensions

pub absent : (xs : List ℕ) (x : ℕ) → ¬ (contains xs x ≡ true) → contains xs x ≡ false
absent xs x h = elim (Bool-cases (contains xs x)) [ inl m ↦ absurd (h m) | inr n ↦ n ]

pub or_true : (a b : Bool) → b ≡ true → true ≡ (a || b)
or_true a b e = ground arith

pub or_false : (a b : Bool) → b ≡ false → a ≡ (a || b)
or_false a b e = ground arith
