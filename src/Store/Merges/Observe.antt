-- ===== src/Store/Merges/Observe.antt =====
-- internal/store/automerge.go: the merge state that a new observation of a pull request keeps, and
-- the revocation of a task's merges.
use octomus_agent.Base.{
  Text, Bool, false, ◌&&◌, ◌||◌, not, Option, none, some, ◌==◌, ◌!=◌, text_eq, if◌then◌else◌, codes,
  ◌++◌, List, [], ◌∷◌,
}
use octomus_agent.Model.Enums.{
  AutoMergeStatus, waiting, manual, merging, uncertain, merged, closed, auto_merge_status_eq,
}
use octomus_agent.Model.Types.{AutoMergeState}
use octomus_agent.Model.PullRequests.{PullRequest, PrObservation, pending}

abbrev pub merge_result_confirmed : Text
merge_result_confirmed = codes "confirmed"

abbrev pub merge_result_observed : Text
merge_result_observed = codes "observed"

-- The pull request is still the one that the merge state was recorded for.
unfoldable pub bound : AutoMergeState → PullRequest → Bool
bound merge p =
    p.owned
    && p.head == merge.head
    && merge.head_branch != []
    && merge.base_branch != []
    && p.branch == merge.head_branch
    && p.base == merge.base_branch

unfoldable pub same_delivery_head : AutoMergeState → PullRequest → Bool
same_delivery_head merge p =
    p.state == codes "open"
    && p.owned
    && p.head == merge.head
    && merge.head_branch != []
    && merge.base_branch != []
    && p.branch == merge.head_branch
    && p.base == merge.base_branch

-- The intent stays for reconciliation, without authority.
unfoldable pub keep_intent : AutoMergeState → Text → Text → AutoMergeState
keep_intent merge why now = record merge { authorized = false; reason = why; observed_at = now }

unfoldable pub hand_back : AutoMergeState → Text → Text → AutoMergeState
hand_back merge why now = record merge {
  authorized = false;
  status = manual;
  reason = why;
  observed_at = now;
}

unfoldable pub in_flight : AutoMergeStatus → Bool
in_flight s = s == merging || s == uncertain

-- A finished pull request outside a merge attempt.
unfoldable pub finish : AutoMergeState → PullRequest → Text → AutoMergeState
unfolding bound hand_back pending
finish merge p now =
    let outcome = if p.state == codes "closed" then closed else merged in
    let why =
      if p.state == codes "closed"
      then codes "The pull request was closed without merging"
      else codes "The pull request is merged on the remote" in
    if merge.status == outcome || (not (pending merge.status) && merge.status != manual)
    then merge
    else if not (bound merge p)
    then hand_back merge
        (codes "The pull request is "
          ++ (p.state
              ++ codes
                  " after its head or ownership changed; the outcome does not apply to the recorded reviewed head"))
        now
    else record merge {
      status = outcome;
      result_source = some merge_result_observed;
      reason = why;
      observed_at = now;
    }

-- The switch of preserveAutoMerge on the saved state.
unfoldable pub observe : AutoMergeState → PullRequest → Text → AutoMergeState
unfolding bound same_delivery_head keep_intent hand_back in_flight finish
observe merge p now =
    if p.state == codes "merged" || p.state == codes "closed"
    then (if in_flight merge.status
        then (if bound merge p
            then merge
            else keep_intent merge
                (codes "The pull request is "
                  ++ (p.state
                      ++ codes
                          " after its head, branch, base or ownership changed; the recorded intent remains for reconciliation"))
                now)
        else finish merge p now)
    else if in_flight merge.status
    then (if bound merge p
        then merge
        else keep_intent merge
            (codes
              "The pull request head, branch, base or ownership changed; the recorded intent remains for reconciliation")
            now)
    else if merge.status == waiting || (merge.status == manual && merge.authorized)
    then (if same_delivery_head merge p
        then merge
        else hand_back merge
            (codes
              "The pull request head, ownership or open state changed; automatic merge authority is revoked")
            now)
    else merge

unfoldable pub preserve_auto_merge :
    Option PrObservation → PullRequest → Text → Option AutoMergeState
unfolding observe
preserve_auto_merge none p now = none
preserve_auto_merge (some previous) p now = elim previous.auto_merge [
  | none ↦ none
  | some merge ↦ some (observe merge p now)
]

-- The body of the last loop of txRevokeTaskMerges.
unfoldable pub revoke : AutoMergeState → Text → Text → AutoMergeState
unfolding in_flight
revoke merge why now =
    if merge.status == merged || merge.status == closed
    then record merge { authorized = false }
    else if in_flight merge.status
    then record merge { authorized = false; reason = why; observed_at = now }
    else record merge { authorized = false; reason = why; observed_at = now; status = manual }

-- The rows that revokeTaskMergesQuery selects.
unfoldable pub revocable : Text → AutoMergeState → Bool
unfolding pending
revocable task_id merge = merge.task_id == task_id && (pending merge.status || merge.authorized)

unfoldable pub revoke_observation : Text → Text → Text → PrObservation → PrObservation
unfolding revoke revocable
revoke_observation task_id why now o = record o {
  auto_merge = elim o.auto_merge [
    | none ↦ none
    | some merge ↦ some (if revocable task_id merge then revoke merge why now else merge)
  ];
}

unfoldable pub revoke_task_merges :
    Text → Text → Text → List (Text × PrObservation) → List (Text × PrObservation)
unfolding revoke_observation
revoke_task_merges task_id why now [] = []
revoke_task_merges task_id why now ((id, o) ∷ rows) =
    (id, revoke_observation task_id why now o) ∷ revoke_task_merges task_id why now rows
