-- ===== src/Egress/Policy/Crowded.antt =====
-- How many of the names of the containment probe the rules of a policy can cover
-- (internal/egress/policy.go).
use octomus_agent.Base.{
  ℕ, zero, suc, ◌+◌, ◌≤◌, ◌<◌, true, List, [], ◌∷◌, if◌then◌else◌, length, Text, text_eq, nat_eq,
  ◌==◌, contains, ◌≡◌, ◌≢◌, refl, sym, ap, subst, ◌∙◌, inl, inr, arith, Bool-cases, ==→≡, ==-refl,
}
use octomus_agent.Egress.Policy.{Rule, matches, any_matches, candidate}
use octomus_agent.Egress.Policy.Names.{dots, dots-ends_with, dots-candidate, candidate_inj}

-- Every rule names a host with a dot.
abbrev pub AllDotted : List Rule → Type 0
AllDotted [] = Unit {0}
AllDotted (r ∷ rules) = (0 < dots r.host) × AllDotted rules

abbrev pub hosts_of : List Rule → List Text
hosts_of [] = []
hosts_of (r ∷ rules) = r.host ∷ hosts_of rules

pub length-hosts_of : (rules : List Rule) → length (hosts_of rules) ≡ length rules
length-hosts_of [] = refl
length-hosts_of (r ∷ rules) = ap suc (length-hosts_of rules)

-- A wildcard rule covers no candidate, which has one dot only.
pub matches-candidate :
    (r : Rule) (i port : ℕ)
    → 0 < dots r.host
    → matches r (candidate i) port ≡ true
    → (r.host == candidate i) ≡ true
unfolding matches dots
matches-candidate r i port dotted h = elim (Bool-cases r.wildcard) [
  | inl e ↦
      let few = dots-ends_with (b'.' ∷ r.host) (candidate i) (ground arith) in
      let one = dots-candidate i in absurd (ground arith)
  | inr e ↦
      let same = ==→≡ (candidate i) r.host (ground arith) in
      subst (λ x. (r.host == x) ≡ true) (sym same) (==-refl r.host)
]

pub any_matches-candidate :
    (rules : List Rule) (i port : ℕ)
    → AllDotted rules
    → any_matches rules (candidate i) port ≡ true
    → contains (hosts_of rules) (candidate i) ≡ true
unfolding any_matches
any_matches-candidate [] i port dotted h = absurd (cc)
any_matches-candidate (r ∷ rules) i port (one, dotted) h =
    elim (Bool-cases (matches r (candidate i) port)) [
      | inl e ↦ let same = matches-candidate r i port one e in ground arith
      | inr e ↦ let rest = any_matches-candidate rules i port dotted (ground arith) in ground arith
    ]

-- The pigeonhole: a list with m different candidates has at least m entries.
pub remove : List Text → Text → List Text
remove [] a = []
remove (x ∷ xs) a = let rest = remove xs a in if x == a then xs else x ∷ rest

pub length-remove :
    (xs : List Text) (a : Text) → contains xs a ≡ true → suc (length (remove xs a)) ≡ length xs
unfolding remove
length-remove [] a h = absurd (cc)
length-remove (x ∷ xs) a h = elim (Bool-cases (x == a)) [
  | inl e ↦ ground arith
  | inr e ↦ let rest = length-remove xs a (ground arith) in ground arith
]

pub contains-remove :
    (xs : List Text) (a b : Text) → a ≢ b → contains xs b ≡ true → contains (remove xs a) b ≡ true
unfolding remove
contains-remove [] a b different h = absurd (cc)
contains-remove (x ∷ xs) a b different h = elim (Bool-cases (x == a)) [
  | inl e ↦ elim (Bool-cases (x == b)) [
    | inl f ↦ absurd (different (sym (==→≡ x a e) ∙ ==→≡ x b f))
    | inr f ↦ ground arith
  ]
  | inr e ↦ elim (Bool-cases (x == b)) [
    | inl f ↦ ground arith
    | inr f ↦ let rest = contains-remove xs a b different (ground arith) in ground arith
  ]
]

pub crowded :
    (m k : ℕ) (hosts : List Text)
    → ((i : ℕ) → k ≤ i → i < k + m → contains hosts (candidate i) ≡ true)
    → m ≤ length hosts
crowded zero k hosts every = omega arith
crowded (suc m) k hosts every =
    let here = every k (omega arith) (omega arith) in
    let shorter = length-remove hosts (candidate k) here in
    let rest = crowded m (suc k) (remove hosts (candidate k)) (λ i low high.
      contains-remove hosts (candidate k) (candidate i)
        (λ same. let equal = candidate_inj k i same in absurd (omega arith))
        (every i (omega arith) (omega arith))) in
    omega arith
