-- ===== src/Wirejson/RoundTrip.antt =====
-- The wire names of an enumeration and their parsing (internal/wirejson/json.go).
use octomus_agent.Base.{
  ℕ, zero, suc, ◌+◌, ◌≤◌, length, true, false, Text, some, List, [], ◌∷◌, ◌==◌, text_eq, contains,
  Distinct, Distinct-head, Distinct-tail, ◌≡◌, ◌↔◌, sym, ap, subst, ◌∙◌, inl, inr, arith,
  Bool-cases, Option-cases, ==→≡, ==-refl,
}
use octomus_agent.Wirejson.{get_elem?, enum_name, enum_text, parse_enum_from, parse_enum}

get_elem?-contains :
    (names : List Text) (i : ℕ) (text : Text)
    → get_elem? names i ≡ some text
    → contains names text ≡ true
get_elem?-contains [] i text h = absurd (cc)
get_elem?-contains (n ∷ names) zero text h = let same = ==-refl n in ground arith
get_elem?-contains (n ∷ names) (suc i) text h =
    let rest = get_elem?-contains names i text h in ground arith

-- The loop finds the index of a name.
parse_enum_from-get_elem? :
    (start : ℕ) (names : List Text) (text : Text) (i : ℕ)
    → Distinct names
    → get_elem? names i ≡ some text
    → start + length names ≤ 256
    → parse_enum_from start text names ≡ some (i + start)
unfolding parse_enum_from
parse_enum_from-get_elem? start [] text i d h few = absurd (cc)
parse_enum_from-get_elem? start (n ∷ names) text zero d h few = let same = ==-refl n in ground arith
parse_enum_from-get_elem? start (n ∷ names) text (suc i) d h few =
    let later = get_elem?-contains names i text h in
    let fresh = Distinct-head d in
    let rest =
      parse_enum_from-get_elem? (suc start) names text i (Distinct-tail d) h (omega arith) in
    elim (Bool-cases (text == n)) [
      | inl e ↦
          let gone = subst (λ x. contains names x ≡ false) (sym (==→≡ text n e)) fresh in
          absurd (cc)
      | inr e ↦ ground arith
    ]

get_elem?-parse_enum_from :
    (start : ℕ) (names : List Text) (text : Text) (value : ℕ)
    → parse_enum_from start text names ≡ some value
    → start + length names ≤ 256
    → (i : ℕ) × (value ≡ i + start) × (get_elem? names i ≡ some text)
unfolding parse_enum_from
get_elem?-parse_enum_from start [] text value h few = absurd (cc)
get_elem?-parse_enum_from start (n ∷ names) text value h few = elim (Bool-cases (text == n)) [
  | inl e ↦ (0, ground arith, ap some (sym (==→≡ text n e)))
  | inr e ↦
      let (i, shift, found) =
        get_elem?-parse_enum_from (suc start) names text value (ground arith) (omega arith) in
      (suc i, omega arith, found)
]

enum_text-get_elem? :
    (value : ℕ) (names : List Text) (text : Text)
    → enum_text value names ≡ some text
    → get_elem? names value ≡ some text
unfolding enum_text enum_name
enum_text-get_elem? value names text h = elim (Option-cases (get_elem? names value)) [
  | inl e ↦ absurd (ground arith)
  | inr (n, e) ↦ ground arith
]

get_elem?-enum_text :
    (value : ℕ) (names : List Text) (text : Text)
    → contains names [] ≡ false
    → get_elem? names value ≡ some text
    → enum_text value names ≡ some text
unfolding enum_text enum_name
get_elem?-enum_text value names text named h =
    let known = get_elem?-contains names value text h in
    elim (Bool-cases (text == [])) [
      | inl e ↦
          let empty = subst (λ x. contains names x ≡ true) (==→≡ text [] e) known in absurd (cc)
      | inr e ↦ ground arith
    ]

-- Where at most 256 names are distinct and none is empty, a text parses to a value exactly when the value is
-- written as that text.
pub parse_enum-enum_text :
    (names : List Text) (text : Text) (value : ℕ)
    → Distinct names
    → contains names [] ≡ false
    → length names ≤ 256
    → (parse_enum text names ≡ some value) ↔ (enum_text value names ≡ some text)
unfolding parse_enum
parse_enum-enum_text names text value distinct named few = (
  λ h.
      let (i, shift, found) = get_elem?-parse_enum_from 0 names text value h (omega arith) in
      let same : value ≡ i = omega arith in
      get_elem?-enum_text value names text named
        (subst (λ k. get_elem? names k ≡ some text) (sym same) found),
  λ h.
      parse_enum_from-get_elem? 0 names text value distinct (enum_text-get_elem? value names text h)
        (omega arith)
      ∙ ap some (omega arith),
)
