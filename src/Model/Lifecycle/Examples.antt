-- ===== src/Model/Lifecycle/Examples.antt =====
-- One task's life on concrete records, and each theorem about task changes applied to it.
use octomus_agent.Base.{
  Text, true, false, none, some, ◌≡◌, refl, text_eq, option_eq, Text-discrete, Option-discrete,
  ℕ_discrete, is_blank, Any, ◌≢◌, ◌⊎◌, ◌↔◌,
}
use octomus_agent.Config.Types.{
  config_eq, route_eq, Config-discrete, Route-discrete, DeliveryMode-discrete,
}
use octomus_agent.Model.Enums.{publishing, published, cancelled, Status-discrete}
use octomus_agent.Model.Types.{Proposal-discrete, ReviewRound-discrete, Verification-discrete}
use octomus_agent.Model.Task.{Task-discrete}
use octomus_agent.Model.Samples.{
  planned, admitted, reviewed, authorized_task, delivered, cancelled_early,
}
use octomus_agent.Model.Status.{active, retryable}
use octomus_agent.Model.Sessions.{clean}
use octomus_agent.Model.Reviews.{review_authorizes}
use octomus_agent.Model.Lifecycle.Evidence.{validate_evidence, copy_evidence}
use octomus_agent.Model.Lifecycle.Change.{
  checkpoint, admission, authorize_publication, publication, settlement, replaces_identity,
  replaces_output, stopped_by_cancellation, workspace_gone, authorized, allowed, evidence_error,
  validate_task_change, lineage,
}
use octomus_agent.Model.Lifecycle.Cancel.{
  merged, merge_cancelled_task, settle_task_evidence, cancelled_task,
}
use octomus_agent.Model.Lifecycle.Sound.{Clears, Sound, validate_task_change-Sound}
use octomus_agent.Model.Lifecycle.Run.{
  step, Reach, here, and_then, IsPlanned, IsPlanned-Sound, Reach-Sound, published-Any_clear, Keeps,
  Reach-Keeps,
}
use octomus_agent.Model.Lifecycle.Diagram.{
  may_follow, validate_task_change-follows, Reach-published,
}
use octomus_agent.Model.Lifecycle.Cancellation.{
  MarkedReach, MarkedReach-no_publication, merge_cancelled_task-validate,
}
use octomus_agent.Model.Lifecycle.Settle.{MaySettle, settle_task_evidence-validate}

-- What the tests below compute with.
code_under_test : Unit {0}
unfolding validate_task_change replaces_identity replaces_output stopped_by_cancellation
    workspace_gone authorized allowed evidence_error validate_evidence copy_evidence active
    retryable clean is_blank review_authorizes Text-discrete Option-discrete ℕ_discrete
    Config-discrete Route-discrete DeliveryMode-discrete Status-discrete Proposal-discrete
    ReviewRound-discrete Verification-discrete Task-discrete
code_under_test = tt

admission_ok : validate_task_change planned admitted admission false ≡ none
unfolding code_under_test
admission_ok = refl

review_ok : validate_task_change admitted reviewed checkpoint false ≡ none
unfolding code_under_test
review_ok = refl

authorize_ok : validate_task_change reviewed authorized_task authorize_publication false ≡ none
unfolding code_under_test
authorize_ok = refl

delivery_ok : validate_task_change authorized_task delivered publication false ≡ none
unfolding code_under_test
delivery_ok = refl

pub planned-IsPlanned : IsPlanned planned
planned-IsPlanned = record {
  is_queued = refl;
  no_output = refl;
  no_archive = refl;
  no_discard = refl;
}

life : Reach planned delivered
life =
    and_then
      (and_then
        (and_then (and_then here (step admission false admission_ok))
          (step checkpoint false review_ok))
        (step authorize_publication false authorize_ok))
      (step publication false delivery_ok)

published-Any_clear_example :
    (commit : Text) × (delivered.output_commit ≡ some commit)
    × Any (Clears delivered commit) delivered.reviews
published-Any_clear_example = published-Any_clear planned delivered planned-IsPlanned life refl

validate_task_change-Sound_example : Sound admitted
validate_task_change-Sound_example =
    validate_task_change-Sound planned admitted admission false admission_ok
      (IsPlanned-Sound planned planned-IsPlanned)

Reach-Keeps_example : Keeps planned delivered
Reach-Keeps_example = Reach-Keeps life

validate_task_change-follows_example :
    (admitted.status ≡ planned.status) ⊎ (may_follow planned.status admitted.status ≡ true)
validate_task_change-follows_example =
    validate_task_change-follows planned admitted admission false
      (IsPlanned-Sound planned planned-IsPlanned) admission_ok

delivered-Sound : Sound delivered
delivered-Sound = Reach-Sound (IsPlanned-Sound planned planned-IsPlanned) life

lineage_ok : validate_task_change delivered delivered lineage false ≡ none
unfolding code_under_test
lineage_ok = refl

Reach-published_example : delivered.status ≡ published
Reach-published_example =
    Reach-published delivered-Sound refl (and_then here (step lineage false lineage_ok))

cancel_ok : validate_task_change admitted cancelled_early settlement true ≡ none
unfolding code_under_test
cancel_ok = refl

admitted-Sound : Sound admitted
admitted-Sound =
    validate_task_change-Sound planned admitted admission false admission_ok
      (IsPlanned-Sound planned planned-IsPlanned)

MarkedReach-no_publication_example :
    Sound cancelled_early
    × (cancelled_early.output_commit ≡ none)
    × (cancelled_early.status ≢ publishing)
    × (cancelled_early.status ≢ published)
MarkedReach-no_publication_example =
    MarkedReach-no_publication admitted-Sound refl
      (MarkedReach.and_then settlement MarkedReach.here cancel_ok)

merge_ok :
    merge_cancelled_task admitted cancelled_early reviewed
    ≡ merged (cancelled_task cancelled_early reviewed)
unfolding merge_cancelled_task code_under_test
merge_ok = refl

merge_cancelled_task-validate_example :
    (validate_task_change cancelled_early (cancelled_task cancelled_early reviewed) settlement true
      ≡ none)
    × ((cancelled_task cancelled_early reviewed).status ≡ cancelled)
merge_cancelled_task-validate_example =
    merge_cancelled_task-validate admitted cancelled_early reviewed _ merge_ok

settle_task_evidence-validate_example :
    (validate_task_change admitted (settle_task_evidence admitted admitted) settlement false ≡ none)
    ↔ ((validate_evidence admitted admitted ≡ none) × MaySettle admitted.status admitted.status)
settle_task_evidence-validate_example = settle_task_evidence-validate admitted admitted
