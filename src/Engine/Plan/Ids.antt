-- ===== src/Engine/Plan/Ids.antt =====
-- internal/engine/plan_rules.go: matchIDs and the checks that call it. A Go set of identities is a
-- list read by `contains`.
use octomus_agent.Base.{
  ℕ, suc, not, List, [], ◌∷◌, map, Option, none, some, if◌then◌else◌, Text, text_eq, codes,
  is_blank, contains, nth,
}
use octomus_agent.Model.Types.{Proposal}

-- The messages of matchIDs, and the errors of its callback.
pub data IdError {ℓ} (E : Type ℓ) : Type ℓ where
  invented duplicate omitted : Text → IdError E
  entry : E → IdError E

-- The last loop of matchIDs.
unfoldable pub omitted_id {ℓ} : {E : Type ℓ} → List Text → List Text → Option (IdError E)
omitted_id seen [] = none
omitted_id seen (id ∷ want) =
    let rest = omitted_id seen want in if not (contains seen id) then some (omitted id) else rest

abbrev pub entry_error {ℓ} : {E : Type ℓ} → Option E → Option (IdError E) → Option (IdError E)
entry_error none rest = rest
entry_error (some e) rest = some (entry e)

-- The first loop of matchIDs at the index i with the identities seen, and the last loop after it.
unfoldable pub match_from {ℓ} :
    {E : Type ℓ}
    → List Text
    → (ℕ → Text → Option E)
    → ℕ
    → List Text
    → List Text
    → Option (IdError E)
unfolding omitted_id
match_from want each i seen [] = omitted_id seen want
match_from want each i seen (id ∷ got) =
    let rest = match_from want each (suc i) (id ∷ seen) got in
    if not (contains want id)
    then some (invented id)
    else if contains seen id
    then some (duplicate id)
    else entry_error (each i id) rest

unfoldable pub match_ids {ℓ} :
    {E : Type ℓ} → List Text → List Text → (ℕ → Text → Option E) → Option (IdError E)
unfolding match_from
match_ids want got each = match_from want each 0 [] got

unfoldable pub proposal_ids : List Proposal → List Text
proposal_ids ps = map (λ p. p.id) ps

pub record Assessment : Type 0 where
  pub id : Text
  pub decision : Text
  pub reason : Text

pub data AssessmentError : Type 0 where
  invalid_decision no_rationale : Text → AssessmentError

unfoldable pub assessments : List Text
assessments = map codes ("accepted" ∷ "rejected" ∷ "deferred" ∷ [])

unfoldable pub assessment_ids : List Assessment → List Text
assessment_ids items = map (λ item. item.id) items

unfoldable pub assessment_error : Assessment → Option AssessmentError
unfolding assessments
assessment_error item =
    if not (contains assessments item.decision)
    then some (invalid_decision item.id)
    else if is_blank item.reason
    then some (no_rationale item.id)
    else none

abbrev pub found_error : Option Assessment → Option AssessmentError
found_error none = none
found_error (some item) = assessment_error item

-- assessments[i]; matchIDs calls it at the indices of the list only.
unfoldable pub assessment_at : List Assessment → ℕ → Text → Option AssessmentError
assessment_at items i id = found_error (nth i items)

unfoldable pub check_assessments :
    List Proposal → List Assessment → Option (IdError AssessmentError)
unfolding match_ids proposal_ids assessment_ids assessment_at
check_assessments candidates items =
    match_ids (proposal_ids candidates) (assessment_ids items) (assessment_at items)

unfoldable pub check_consolidation : List Proposal → List Proposal → Option (IdError Text)
unfolding match_ids proposal_ids
check_consolidation candidates returned =
    match_ids (proposal_ids candidates) (proposal_ids returned) (λ i id. none)
