-- ===== src/Store/Examples.antt =====
-- The theorems about the store applied to concrete databases.
use octomus_agent.Base.{
  Text, codes, true, false, none, some, [], ◌∷◌, ◌≡◌, ◌↔◌, refl, ◌⊎◌, Any, List, is_blank,
  Text-discrete, Option-discrete, ℕ_discrete,
}
use octomus_agent.Config.Types.{Config-discrete, Route-discrete, DeliveryMode-discrete}
use octomus_agent.Config.Identity.{equal_ascii, lower_ascii}
use octomus_agent.Model.Enums.{waiting, merging, Status-discrete, AutoMergeStatus-discrete}
use octomus_agent.Model.Types.{
  AutoMergeState, Proposal-discrete, ReviewRound-discrete, Verification-discrete,
}
use octomus_agent.Model.Task.{Task, Task-discrete}
use octomus_agent.Model.PullRequests.{PullRequest, PrObservation, pending}
use octomus_agent.Model.Samples.{planned, admitted, reviewed, authorized_task, delivered}
use octomus_agent.Model.Status.{active, retryable}
use octomus_agent.Model.Sessions.{clean}
use octomus_agent.Model.Reviews.{review_authorizes}
use octomus_agent.Model.Lifecycle.Evidence.{validate_evidence, copy_evidence}
use octomus_agent.Model.Lifecycle.Change.{
  admission, checkpoint, authorize_publication, publication, replaces_identity, replaces_output,
  stopped_by_cancellation, workspace_gone, authorized, allowed, evidence_error,
  validate_task_change,
}
use octomus_agent.Model.Lifecycle.Run.{IsPlanned}
use octomus_agent.Model.Lifecycle.Sound.{Clears}
use octomus_agent.Store.Records.{Database, ok, err, put_task, put_row}
use octomus_agent.Store.Tasks.{TaskError, commit_task, insert_task, stamp_batch}
use octomus_agent.Store.Tasks.Commits.{Committed, commit_task-no_lost_update}
use octomus_agent.Store.Tasks.History.{
  Call, commits, inserts, starts, AllPlan, perform_all, empty, perform_all-published,
}
use octomus_agent.Store.Merges.Observe.{observe}
use octomus_agent.Store.Merges.Claim.{claim_merge, observation_at, incomplete_intent}
use octomus_agent.Store.Merges.Authority.{
  MergeReach, MergeStep, Restrains, MergeReach-Restrains, observe-authorized, SameDelivery,
  IsFinished, IsInFlight, IsKnownState,
}
use octomus_agent.Store.Merges.Single.{Between, claims, revokes, perform_between, claim_merge-once}

code_under_test : Unit {0}
unfolding validate_task_change replaces_identity replaces_output stopped_by_cancellation
    workspace_gone authorized allowed evidence_error validate_evidence copy_evidence active
    retryable clean is_blank review_authorizes Text-discrete Option-discrete ℕ_discrete
    Config-discrete Route-discrete DeliveryMode-discrete Status-discrete Proposal-discrete
    ReviewRound-discrete Verification-discrete Task-discrete put_task put_row commit_task
    insert_task stamp_batch perform_all claim_merge observation_at incomplete_intent equal_ascii
    lower_ascii AutoMergeStatus-discrete observe pending
code_under_test = tt

abbrev one_task : Database
one_task = record { tasks = λ id. some planned; cancel_markers = λ id. none; pull_requests = [] }

commit_task-no_lost_update_example :
    ((e : TaskError) × (commit_task one_task planned admitted admission ≡ (err e, one_task)))
    ⊎ ((task : Task) × (after : Database) × (commit_task one_task planned admitted admission
          ≡ (ok task, after))
        × Committed one_task planned admission task after)
commit_task-no_lost_update_example = commit_task-no_lost_update one_task planned admitted admission

planned-IsPlanned : IsPlanned planned
planned-IsPlanned = record {
  is_queued = refl;
  no_output = refl;
  no_archive = refl;
  no_discard = refl;
}

abbrev calls : List Call
calls =
    inserts planned
    ∷ starts (codes "run-1") (codes "Owner/Other")
    ∷ commits planned admitted admission
    ∷ commits planned delivered publication
    ∷ commits admitted reviewed checkpoint
    ∷ commits reviewed authorized_task authorize_publication
    ∷ commits authorized_task delivered publication
    ∷ []

calls_plan : AllPlan calls
calls_plan = (planned-IsPlanned, (tt, (tt, (tt, (tt, (tt, (tt, tt)))))))

calls_deliver : (perform_all empty calls).tasks (codes "task-1") ≡ some delivered
unfolding code_under_test
calls_deliver = refl

perform_all-published_example :
    (commit : Text) × (delivered.output_commit ≡ some commit)
    × Any (Clears delivered commit) delivered.reviews
perform_all-published_example =
    perform_all-published calls (codes "task-1") delivered calls_plan calls_deliver refl

abbrev merge_state : AutoMergeState
merge_state = record {
  task_id = codes "task-1";
  head = codes "c1";
  head_branch = codes "octomus/task-1";
  base_branch = codes "main";
  comparison_base = codes "base";
  policy_revision = codes "p";
  authorized = true;
  footprint = none;
  status = waiting;
  reason = [];
  observed_at = codes "t5";
  attempt_id = none;
  attempted_at = none;
  merge_commit = none;
  result_source = none;
}

abbrev intent : AutoMergeState
intent = record merge_state {
  status = merging;
  attempt_id = some (codes "a1");
  attempted_at = some (codes "t6");
}

abbrev pr : PullRequest
pr = record {
  number = 7;
  title = codes "t";
  branch = codes "octomus/task-1";
  head = codes "c1";
  base = codes "main";
  url = codes "u";
  body = [];
  state = codes "open";
  changed_lines = 3;
  created_at = codes "t4";
  owned = true;
  head_repository = codes "owner/name";
  base_repository = codes "owner/name";
  review_decision = [];
  check_status = [];
  mergeability = [];
  status_source = [];
  status_observed_at = [];
}

abbrev observed : PrObservation
observed = record {
  repository = codes "Owner/name";
  pr = pr;
  observed_at = codes "t5";
  delivered_head = some (codes "c1");
  external_head_movement = false;
  auto_merge = some merge_state;
}

abbrev one_pr : Database
one_pr = record one_task { pull_requests = (codes "owner/name:7", observed) ∷ [] }

abbrev claimed_pr : Database
claimed_pr = record one_task {
  pull_requests = (codes "owner/name:7", record observed { auto_merge = some intent }) ∷ [];
}

claim_ok : claim_merge one_pr (codes "owner/name") 7 intent false ≡ (true, claimed_pr)
unfolding code_under_test
claim_ok = refl

abbrev calls_between : List Between
calls_between = claims intent true ∷ revokes (codes "task-1") (codes "stopped") (codes "t7") ∷ []

claim_merge-once_example :
    claim_merge
      (perform_between (codes "owner/name") 7 claimed_pr calls_between)
      (codes "owner/name")
      7
      intent
      true
    ≡ (false, perform_between (codes "owner/name") 7 claimed_pr calls_between)
claim_merge-once_example =
    claim_merge-once one_pr claimed_pr (codes "owner/name") 7 intent intent false true calls_between
      (refl, tt) claim_ok

MergeReach-Restrains_example : Restrains merge_state (observe merge_state pr (codes "t7"))
MergeReach-Restrains_example =
    MergeReach-Restrains
      (MergeReach.next MergeReach.here (MergeStep.observes merge_state pr (codes "t7")))

observe-authorized_example : ((observe merge_state pr (codes "t7")).authorized ≡ true) ↔ (
    (merge_state.authorized ≡ true)
    × (IsFinished merge_state
        ⊎ (SameDelivery merge_state pr × (IsInFlight merge_state ⊎ IsKnownState pr))))
observe-authorized_example = observe-authorized merge_state pr (codes "t7")
