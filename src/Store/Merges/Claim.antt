-- ===== src/Store/Merges/Claim.antt =====
-- internal/store/automerge.go: ClaimMerge. `none` is the rollback of a precondition that no longer
-- holds.
use octomus_agent.Base.{
  Text, Bool, true, false, ◌&&◌, ◌||◌, not, Option, none, some, ◌==◌, ◌!=◌, nat_eq, text_eq,
  if◌then◌else◌, List, [], ◌∷◌, ℕ,
}
use octomus_agent.Config.Identity.{equal_ascii}
use octomus_agent.Model.Enums.{waiting, manual, merging, auto_merge_status_eq}
use octomus_agent.Model.Types.{AutoMergeState}
use octomus_agent.Model.PullRequests.{PrObservation}
use octomus_agent.Store.Records.{Database, put_row}

-- prObservationAt: the row inserted last for the repository and number.
unfoldable pub observation_at :
    Text → ℕ → List (Text × PrObservation) → Option (Text × PrObservation)
observation_at repository number [] = none
observation_at repository number ((id, o) ∷ rows) = elim (observation_at repository number rows) [
  | some later ↦ some later
  | none ↦
      if equal_ascii o.repository repository && o.pr.number == number then some (id, o) else none
]

abbrev absent_or_empty : Option Text → Bool
absent_or_empty none = true
absent_or_empty (some t) = t == []

-- The guard of the intent itself.
unfoldable pub incomplete_intent : AutoMergeState → Bool
incomplete_intent intent =
    intent.status != merging
    || not intent.authorized
    || intent.head_branch == []
    || intent.base_branch == []
    || absent_or_empty intent.attempt_id
    || absent_or_empty intent.attempted_at

-- Both are about the same reviewed delivery, under the same policy.
unfoldable pub same_subject : AutoMergeState → AutoMergeState → Bool
same_subject a b =
    a.task_id == b.task_id
    && a.head == b.head
    && a.comparison_base == b.comparison_base
    && a.head_branch == b.head_branch
    && a.base_branch == b.base_branch
    && a.policy_revision == b.policy_revision

unfoldable pub claimable : AutoMergeState → AutoMergeState → Bool → Bool
unfolding same_subject
claimable current intent allow_manual =
    current.authorized
    && (current.status == waiting || (allow_manual && current.status == manual))
    && same_subject current intent

unfoldable pub claim_observation : PrObservation → AutoMergeState → Bool → Option PrObservation
unfolding claimable
claim_observation o intent allow_manual = elim o.auto_merge [
  | none ↦ none
  | some current ↦
      if claimable current intent allow_manual
      then some (record o { auto_merge = some intent })
      else none
]

unfoldable pub claim_found :
    Database → Option (Text × PrObservation) → AutoMergeState → Bool → Bool × Database
unfolding claim_observation
claim_found db none intent allow_manual = (false, db)
claim_found db (some (id, o)) intent allow_manual = elim (claim_observation o intent allow_manual) [
  | none ↦ (false, db)
  | some claimed ↦ (true, record db { pull_requests = put_row db.pull_requests id claimed })
]

unfoldable pub claim_merge : Database → Text → ℕ → AutoMergeState → Bool → Bool × Database
unfolding claim_found
claim_merge db repository number intent allow_manual =
    if incomplete_intent intent
    then (false, db)
    else claim_found db (observation_at repository number db.pull_requests) intent allow_manual
