-- ===== src/Engine/Plan/IdsExact.antt =====
-- What a list of identities is once matchIDs accepts it (internal/engine/plan_rules.go).
use octomus_agent.Base.{
  ℕ, zero, suc, ◌+◌, true, false, ◌||◌, List, [], ◌∷◌, map, Option, none, some, Text, text_eq,
  is_blank, contains, nth, Distinct, no_entries, new_entry, Distinct-head, Distinct-tail, ◌≡◌, ◌∙◌,
  ◌↔◌, inl, inr, arith, refl, ◌==◌, Bool-cases, subst, sym, ap, ==→≡, ==-refl,
}
use native.Mathlib.Nat.{add-zero}
use octomus_agent.Model.Types.{Proposal}
use octomus_agent.Engine.Plan.Ids.{
  match_ids, match_from, omitted_id, Assessment, check_assessments, check_consolidation,
  proposal_ids, assessment_ids, assessment_at, assessment_error, found_error, assessments,
}

-- The identities that remain at the index i, with some seen before, match the wanted ones: none is
-- repeated, unwanted, missing or refused by the callback.
pub record Exact {ℓ} {E : Type ℓ} (want : List Text) (each : ℕ → Text → Option E) (i : ℕ)
    (seen got : List Text) : Type ℓ where
  pub distinct : Distinct got
  pub fresh : (id : Text) → contains got id ≡ true → contains seen id ≡ false
  pub known : (id : Text) → contains got id ≡ true → contains want id ≡ true
  pub complete :
      (id : Text) → contains want id ≡ true → (contains seen id || contains got id) ≡ true
  pub accepted : (j : ℕ) (id : Text) → nth j got ≡ some id → each (j + i) id ≡ none

suc_shift : (j i : ℕ) → suc j + i ≡ j + suc i
suc_shift j i = omega arith

omitted_id-none {ℓ} :
    {E : Type ℓ} (seen want : List Text)
    → omitted_id {E = E} seen want ≡ none
    → (id : Text) → contains want id ≡ true
    → contains seen id ≡ true
unfolding omitted_id
omitted_id-none seen [] h id m = absurd (cc)
omitted_id-none {E} seen (w ∷ want) h id m = elim (Bool-cases (w == id)) [
  | inl e ↦ let fact = ==→≡ w id e in ground arith
  | inr e ↦ omitted_id-none {E = E} seen want (ground arith) id (ground arith)
]

none-omitted_id {ℓ} :
    {E : Type ℓ} (seen want : List Text)
    → ((id : Text) → contains want id ≡ true → contains seen id ≡ true)
    → omitted_id {E = E} seen want ≡ none
unfolding omitted_id
none-omitted_id seen [] h = refl
none-omitted_id {E} seen (w ∷ want) h =
    let rest = none-omitted_id {E = E} seen want (λ id m. h id (ground arith)) in
    let first = h w (let fact = ==-refl w in ground arith) in ground arith

match_guards {ℓ} :
    {E : Type ℓ} (want : List Text) (each : ℕ → Text → Option E) (i : ℕ) (seen : List Text)
    (g : Text) (got : List Text)
    → match_from want each i seen (g ∷ got) ≡ none
    → (contains want g ≡ true)
      × (contains seen g ≡ false)
      × (each i g ≡ none)
      × (match_from want each (suc i) (g ∷ seen) got ≡ none)
unfolding match_from
match_guards want each i seen g got h = ground arith

Exact-cons {ℓ} :
    {E : Type ℓ} (want : List Text) (each : ℕ → Text → Option E) (i : ℕ) (seen : List Text)
    (g : Text) (got : List Text)
    → contains want g ≡ true
    → contains seen g ≡ false
    → each i g ≡ none
    → Exact want each (suc i) (g ∷ seen) got
    → Exact want each i seen (g ∷ got)
Exact-cons want each i seen g got wanted new ok rest = record {
  distinct = new_entry new_here rest.distinct;
  fresh = λ id m. elim (Bool-cases (g == id)) [
    | inl e ↦ subst (λ x. contains seen x ≡ false) (==→≡ g id e) new
    | inr e ↦ let fact = rest.fresh id (ground arith) in ground arith
  ];
  known = λ id m. elim (Bool-cases (g == id)) [
    | inl e ↦ subst (λ x. contains want x ≡ true) (==→≡ g id e) wanted
    | inr e ↦ rest.known id (ground arith)
  ];
  complete = λ id m. let fact = rest.complete id m in ground arith;
  accepted = λ j id e. accepted_at j id e;
}
  where
    new_here : contains got g ≡ false
    new_here = elim (Bool-cases (contains got g)) [
      | inl m ↦ let fact = rest.fresh g m in let same = ==-refl g in absurd (ground arith)
      | inr n ↦ n
    ]

    rest_at : (j : ℕ) (id : Text) → nth j got ≡ some id → each (suc j + i) id ≡ none
    rest_at j id e = subst (λ k. each k id ≡ none) (sym (suc_shift j i)) (rest.accepted j id e)

    accepted_at : (j : ℕ) (id : Text) → nth j (g ∷ got) ≡ some id → each (j + i) id ≡ none
    accepted_at zero id e = ground arith
    accepted_at (suc j) id e = rest_at j id e

Exact-tail {ℓ} :
    {E : Type ℓ} (want : List Text) (each : ℕ → Text → Option E) (i : ℕ) (seen : List Text)
    (g : Text) (got : List Text)
    → Exact want each i seen (g ∷ got)
    → Exact want each (suc i) (g ∷ seen) got
Exact-tail want each i seen g got x = record {
  distinct = Distinct-tail x.distinct;
  fresh = λ id m. tail_fresh id m;
  known = λ id m. x.known id (ground arith);
  complete = λ id m. let fact = x.complete id m in ground arith;
  accepted = λ j id e. subst (λ k. each k id ≡ none) (suc_shift j i) (x.accepted (suc j) id e);
}
  where
    tail_fresh : (id : Text) → contains got id ≡ true → contains (g ∷ seen) id ≡ false
    tail_fresh id m = elim (Bool-cases (g == id)) [
      | inl e ↦
          let gone = Distinct-head x.distinct in
          let found = subst (λ y. contains got y ≡ true) (sym (==→≡ g id e)) m in absurd (cc)
      | inr e ↦ let fact = x.fresh id (ground arith) in ground arith
    ]

match_from-none {ℓ} :
    {E : Type ℓ} (want : List Text) (each : ℕ → Text → Option E) (i : ℕ) (seen got : List Text)
    → match_from want each i seen got ≡ none
    → Exact want each i seen got
unfolding match_from
match_from-none {E} want each i seen [] h = record {
  distinct = no_entries;
  fresh = λ id m. absurd (cc);
  known = λ id m. absurd (cc);
  complete = λ id m. let fact = omitted_id-none {E = E} seen want h id m in ground arith;
  accepted = λ j id e. absurd (cc);
}
match_from-none want each i seen (g ∷ got) h =
    let (wanted, new, ok, rest) = match_guards want each i seen g got h in
    Exact-cons want each i seen g got wanted new ok
      (match_from-none want each (suc i) (g ∷ seen) got rest)

none-match_from {ℓ} :
    {E : Type ℓ} (want : List Text) (each : ℕ → Text → Option E) (i : ℕ) (seen got : List Text)
    → Exact want each i seen got
    → match_from want each i seen got ≡ none
unfolding match_from
none-match_from {E} want each i seen [] x =
    none-omitted_id {E = E} seen want (λ id m. let fact = x.complete id m in ground arith)
none-match_from want each i seen (g ∷ got) x =
    let here = ==-refl g in
    let wanted = x.known g (ground arith) in
    let new = x.fresh g (ground arith) in
    let ok = x.accepted 0 g refl in
    let rest =
      none-match_from want each (suc i) (g ∷ seen) got (Exact-tail want each i seen g got x) in
    ground arith

-- An acceptance of matchIDs is exactly an agreement of the two lists: the identities that came back
-- are distinct and the wanted ones, and the callback accepts each at its index.
pub match_ids-Exact {ℓ} :
    {E : Type ℓ} (want got : List Text) (each : ℕ → Text → Option E)
    → (match_ids want got each ≡ none) ↔ Exact want each 0 [] got
unfolding match_ids
match_ids-Exact want got each =
    (match_from-none want each 0 [] got, none-match_from want each 0 [] got)

-- The identities that came back are distinct, and exactly the wanted ones.
pub record Agrees (want got : List Text) : Type 0 where
  pub distinct : Distinct got
  pub known : (id : Text) → contains got id ≡ true → contains want id ≡ true
  pub complete : (id : Text) → contains want id ≡ true → contains got id ≡ true

Agrees-of_Exact {ℓ} :
    {E : Type ℓ} (want got : List Text) (each : ℕ → Text → Option E)
    → Exact want each 0 [] got
    → Agrees want got
Agrees-of_Exact want got each x = record {
  distinct = x.distinct;
  known = x.known;
  complete = λ id m. x.complete id m;
}

-- A consolidated plan is accepted exactly when it returns every candidate once and nothing else.
pub check_consolidation-Agrees :
    (candidates returned : List Proposal)
    → (check_consolidation candidates returned ≡ none)
      ↔ Agrees (proposal_ids candidates) (proposal_ids returned)
unfolding check_consolidation
check_consolidation-Agrees candidates returned =
    let want = proposal_ids candidates in
    let got = proposal_ids returned in
    let (to, from) = match_ids-Exact {E = Text} want got (λ i id. none) in
    (
      λ h. Agrees-of_Exact want got (λ i id. none) (to h),
      λ a. from (record {
        distinct = a.distinct;
        fresh = λ id m. refl;
        known = a.known;
        complete = λ id m. a.complete id m;
        accepted = λ j id e. refl;
      }),
    )

-- A reviewer's decision is one of the three, with a rationale.
abbrev pub Reasoned : Assessment → Type 0
Reasoned item = (contains assessments item.decision ≡ true) × (is_blank item.reason ≡ false)

Reasoned-iff : (item : Assessment) → (assessment_error item ≡ none) ↔ Reasoned item
unfolding assessment_error
Reasoned-iff item = (λ h. (ground arith, ground arith), λ (d, r). ground arith)

nth-map {ℓ κ} :
    {A : Type ℓ} {B : Type κ} (f : A → B) (xs : List A) (j : ℕ) {b : B}
    → nth j (map f xs) ≡ some b
    → (a : A) × (nth j xs ≡ some a)
nth-map f [] j e = absurd (cc)
nth-map f (x ∷ xs) zero e = (x, refl)
nth-map f (x ∷ xs) (suc j) e = nth-map f xs j e

map-nth {ℓ κ} :
    {A : Type ℓ} {B : Type κ} (f : A → B) (xs : List A) (j : ℕ) {a : A}
    → nth j xs ≡ some a
    → nth j (map f xs) ≡ some (f a)
map-nth f [] j e = absurd (cc)
map-nth f (x ∷ xs) zero e = ground arith
map-nth f (x ∷ xs) (suc j) e = map-nth f xs j e

assessment_at-item :
    (items : List Assessment) (j : ℕ) (item : Assessment) (id : Text)
    → nth j items ≡ some item
    → assessment_at items (j + 0) id ≡ assessment_error item
unfolding assessment_at
assessment_at-item items j item id e = rw (add-zero j) (ap found_error e)

-- A reviewer's assessments are accepted exactly when they assess every candidate once and nothing
-- else, each with a decision that is one of the three and a rationale that is not blank.
pub check_assessments-Agrees :
    (candidates : List Proposal) (items : List Assessment)
    → (check_assessments candidates items ≡ none) ↔ (
        Agrees (proposal_ids candidates) (assessment_ids items)
        × ((j : ℕ) (item : Assessment) → nth j items ≡ some item → Reasoned item))
unfolding check_assessments assessment_ids assessment_at
check_assessments-Agrees candidates items =
    let want = proposal_ids candidates in
    let got = assessment_ids items in
    let (to, from) = match_ids-Exact want got (assessment_at items) in
    (
      λ h. (
        Agrees-of_Exact want got (assessment_at items) (to h),
        λ j item e. (Reasoned-iff item).0 (
            sym (assessment_at-item items j item item.id e)
            ∙ (to h).accepted j item.id (map-nth (λ i. i.id) items j e)),
      ),
      λ (a, valid). from (record {
        distinct = a.distinct;
        fresh = λ id m. refl;
        known = a.known;
        complete = λ id m. a.complete id m;
        accepted = λ j id e.
            let (item, f) = nth-map (λ i. i.id) items j e in
            assessment_at-item items j item id f ∙ (Reasoned-iff item).1 (valid j item f);
      }),
    )
