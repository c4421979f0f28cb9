-- ===== src/Egress/Policy/Names.antt =====
-- The names that the containment probe tries: their dots and their numbers
-- (internal/egress/policy.go).
use mathlib.Core.List.{reverse_aux}
use octomus_agent.Base.{
  ℕ, suc, ◌+◌, ◌≤◌, true, [], ◌∷◌, ◌++◌, if◌then◌else◌, length, Text, codes, text_eq, nat_eq, ◌==◌,
  decimal, all_digits, is_digit, all_digits-decimal, decimal_inj, reverse, ◌≡◌, refl, sym, ap, ◌∙◌,
  inl, inr, arith, Bool-cases, ==→≡,
}
use octomus_agent.Config.Identity.{starts_with, split, split_from}
use octomus_agent.Config.Paths.{ends_with}
use octomus_agent.Egress.Policy.{candidate}

unfoldable pub dots : Text → ℕ
dots [] = 0
dots (c ∷ s) = let rest = dots s in if c == b'.' then suc rest else rest

dots-append : (s t : Text) → dots (s ++ t) ≡ dots s + dots t
unfolding dots
dots-append [] t = omega arith
dots-append (c ∷ s) t = let rest = dots-append s t in ground arith

dots-reverse_aux : (s t : Text) → dots (reverse_aux s t) ≡ dots s + dots t
unfolding dots
dots-reverse_aux [] t = omega arith
dots-reverse_aux (c ∷ s) t = let rest = dots-reverse_aux s (c ∷ t) in ground arith

dots-reverse : (s : Text) → dots (reverse s) ≡ dots s
unfolding dots
dots-reverse s = let all = dots-reverse_aux s [] in omega arith

dots-starts_with : (p s : Text) → starts_with p s ≡ true → dots p ≤ dots s
unfolding dots
dots-starts_with [] s h = omega arith
dots-starts_with (x ∷ p) [] h = absurd (cc)
dots-starts_with (x ∷ p) (y ∷ s) h =
    let rest = dots-starts_with p s (ground arith) in
    let same = ==→≡ x y (ground arith) in ground arith

pub dots-ends_with : (p s : Text) → ends_with p s ≡ true → dots p ≤ dots s
unfolding ends_with
dots-ends_with p s h =
    let few = dots-starts_with (reverse p) (reverse s) h in
    let p_same = dots-reverse p in let s_same = dots-reverse s in omega arith

-- A name has one label more than dots.
length-split_from : (part s : Text) → length (split_from b'.' part s) ≡ suc (dots s)
unfolding split_from dots
length-split_from part [] = refl
length-split_from part (c ∷ s) = elim (Bool-cases (c == b'.')) [
  | inl e ↦ let rest = length-split_from [] s in ground arith
  | inr e ↦ let rest = length-split_from (part ++ (c ∷ [])) s in ground arith
]

pub length-split : (s : Text) → length (split s b'.') ≡ suc (dots s)
unfolding split
length-split s = length-split_from [] s

dots-digits : (s : Text) → all_digits s ≡ true → dots s ≡ 0
unfolding dots
dots-digits [] h = refl
dots-digits (c ∷ s) h =
    let rest = dots-digits s (ground arith) in
    elim (Bool-cases (c == b'.')) [
      | inl e ↦ let dot = ==→≡ c b'.' e in absurd (ground arith)
      | inr e ↦ ground arith
    ]

pub dots-candidate : (i : ℕ) → dots (candidate i) ≡ 1
unfolding candidate dots
dots-candidate i =
    let all = dots-append (decimal i) (codes ".invalid") in
    let none_there = dots-digits (decimal i) (all_digits-decimal i) in ground arith

leading : Text → Text
leading [] = []
leading (c ∷ s) = let rest = leading s in if is_digit c then c ∷ rest else []

leading-append : (s : Text) → all_digits s ≡ true → leading (s ++ codes ".invalid") ≡ s
unfolding leading
leading-append [] h = refl
leading-append (c ∷ s) h = let rest = leading-append s (ground arith) in ground arith

number_text : Text → Text
unfolding leading
number_text (a ∷ b ∷ c ∷ d ∷ e ∷ f ∷ g ∷ h ∷ i ∷ j ∷ k ∷ l ∷ m ∷ n ∷ s) = leading s
number_text _ = []

number_text-candidate : (i : ℕ) → number_text (candidate i) ≡ decimal i
unfolding number_text candidate
number_text-candidate i = leading-append (decimal i) (all_digits-decimal i)

-- The tried names differ.
pub candidate_inj : (i j : ℕ) → candidate i ≡ candidate j → i ≡ j
candidate_inj i j e =
    decimal_inj i j (sym (number_text-candidate i) ∙ (ap number_text e ∙ number_text-candidate j))
