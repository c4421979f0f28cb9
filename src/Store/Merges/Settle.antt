-- ===== src/Store/Merges/Settle.antt =====
-- internal/store/automerge.go: SettleMerge, on the observation that the row holds. `none` is the
-- rollback of a precondition that no longer holds.
use octomus_agent.Base.{
  Text, Bool, true, false, ◌&&◌, ◌||◌, not, Option, none, some, ◌==◌, ◌!=◌, text_eq, option_eq,
  if◌then◌else◌, [], codes, is_none, ℕ,
}
use octomus_agent.Model.Enums.{
  AutoMergeStatus, waiting, manual, merged, closed, auto_merge_status_eq,
}
use octomus_agent.Model.Types.{AutoMergeState}
use octomus_agent.Model.PullRequests.{PullRequest, PrObservation, pending}
use octomus_agent.Store.Records.{Database, put_row}
use octomus_agent.Store.Merges.Observe.{merge_result_confirmed}
use octomus_agent.Store.Merges.Claim.{same_subject, observation_at}

-- The arguments of a settlement; `source` is "" where the caller gives none.
pub record Settlement : Type 0 where
  pub status : AutoMergeStatus
  pub reason : Text
  pub source : Text
  pub commit : Option Text
  pub revokes : Bool
  pub now : Text

abbrev confirmed : Option Text → Bool
confirmed none = false
confirmed (some s) = s == merge_result_confirmed

-- merge.MergeCommit != nil && *merge.MergeCommit != *commit
abbrev other_commit : Option Text → Option Text → Bool
other_commit (some recorded) (some commit) = recorded != commit
other_commit _ _ = false

abbrev pub or_recorded : Option Text → Option Text → Option Text
or_recorded none recorded = recorded
or_recorded (some given) recorded = some given

-- The new source and reason of a terminal record that is told its outcome again.
unfoldable pub confirm : AutoMergeState → Settlement → AutoMergeState
confirm merge s =
    let noted = record merge {
      result_source = some s.source;
      reason = s.reason;
      observed_at = s.now;
    } in
    if s.source == merge_result_confirmed && not (confirmed merge.result_source)
    then noted
    else if not (confirmed merge.result_source) && s.source != [] && is_none merge.result_source
    then noted
    else merge

unfoldable pub confirm_terminal : AutoMergeState → Settlement → Option AutoMergeState
unfolding confirm
confirm_terminal merge s =
    if other_commit merge.merge_commit s.commit
    then none
    else some (confirm (record merge { merge_commit = or_recorded s.commit merge.merge_commit }) s)

unfoldable pub settle_state : AutoMergeState → Settlement → AutoMergeState
settle_state merge s = record merge {
  status = s.status;
  reason = s.reason;
  observed_at = s.now;
  authorized = if s.revokes then false else merge.authorized;
  attempt_id = if s.status == waiting then none else merge.attempt_id;
  result_source = if s.source != [] then some s.source else merge.result_source;
  merge_commit = or_recorded s.commit merge.merge_commit;
}

abbrev status_text : AutoMergeStatus → Text
status_text closed = codes "closed"
status_text _ = codes "merged"

-- The pull request takes a terminal outcome as its state.
unfoldable pub settle_pr : PullRequest → AutoMergeStatus → PullRequest
settle_pr p status =
    if status == merged || status == closed then record p { state = status_text status } else p

unfoldable pub settleable : AutoMergeState → Bool
unfolding pending
settleable merge = pending merge.status || (merge.status == manual && merge.authorized)

-- The switch of SettleMerge.
unfoldable pub settle_current : PrObservation → AutoMergeState → Settlement → Option PrObservation
unfolding settleable confirm_terminal settle_state settle_pr
settle_current o merge s =
    if settleable merge
    then some (record o { auto_merge = some (settle_state merge s); pr = settle_pr o.pr s.status })
    else if (merge.status == merged || merge.status == closed) && s.status == merge.status
    then elim (confirm_terminal merge s) [
      | none ↦ none
      | some noted ↦ some (record o { auto_merge = some noted })
    ]
    else none

unfoldable pub settle_observation :
    PrObservation → AutoMergeState → Settlement → Option PrObservation
unfolding settle_current
settle_observation o expected s = elim o.auto_merge [
  | none ↦ none
  | some merge ↦
      if not (same_subject merge expected) || merge.attempt_id != expected.attempt_id
      then none
      else settle_current o merge s
]

unfoldable pub settle_found :
    Database → Option (Text × PrObservation) → AutoMergeState → Settlement → Bool × Database
unfolding settle_observation
settle_found db none expected s = (false, db)
settle_found db (some (id, o)) expected s = elim (settle_observation o expected s) [
  | none ↦ (false, db)
  | some settled ↦ (true, record db { pull_requests = put_row db.pull_requests id settled })
]

unfoldable pub settle_merge : Database → Text → ℕ → AutoMergeState → Settlement → Bool × Database
unfolding settle_found observation_at
settle_merge db repository number expected s =
    settle_found db (observation_at repository number db.pull_requests) expected s
