-- ===== src/Engine/Examples.antt =====
-- The theorems about the orchestrator's rules applied to concrete records.
use octomus_agent.Base.{codes, true, false, none, some, ◌≡◌, refl, contains, inl}
use octomus_agent.Model.Enums.{TaskAction, Status-discrete, TaskAction-discrete, task_action_eq}
use octomus_agent.Model.Samples.{planned, expired}
use octomus_agent.Model.Status.{allowed_actions}
use octomus_agent.Model.Lifecycle.Change.{archive, validate_task_change, workspace_ineligible}
use octomus_agent.Model.Lifecycle.Run.{IsPlanned, IsPlanned-Sound}
use octomus_agent.Engine.Actions.{action_record, action_change}
use octomus_agent.Engine.Actions.Offered.{allowed_actions-accepted, archive_discarded-refused}

planned-IsPlanned : IsPlanned planned
planned-IsPlanned = record {
  is_queued = refl;
  no_output = refl;
  no_archive = refl;
  no_discard = refl;
}

cancel_offered : contains (allowed_actions planned) TaskAction.cancel ≡ true
unfolding allowed_actions Status-discrete TaskAction-discrete
cancel_offered = refl

allowed_actions-accepted_example :
    validate_task_change planned
      (action_record TaskAction.cancel planned planned.config none (codes "t1"))
      (action_change TaskAction.cancel planned none)
      true
    ≡ none
allowed_actions-accepted_example =
    allowed_actions-accepted TaskAction.cancel planned planned.config none (codes "t1") true
      (IsPlanned-Sound planned planned-IsPlanned) refl cancel_offered

archive_discarded-refused_example :
    (contains (allowed_actions expired) TaskAction.archive ≡ true)
    × (validate_task_change expired
          (action_record TaskAction.archive expired expired.config none (codes "t9"))
          archive
          false
        ≡ some workspace_ineligible)
archive_discarded-refused_example =
    archive_discarded-refused expired expired.config none (codes "t9") false (inl refl) refl refl
