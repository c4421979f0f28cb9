-- ===== src/Engine/Actions/Offered.antt =====
-- Whether the records that the offered actions save pass the validation of their changes
-- (internal/engine/actions.go).
use octomus_agent.Base.{
  Text, Bool, true, ◌||◌, none, some, ◌==◌, is_some, ◌≡◌, arith, ◌≢◌, ◌⊎◌, contains, Option,
  Option-cases, inl, inr,
}
use octomus_agent.Config.Types.{Config}
use octomus_agent.Model.Enums.{
  published, cancelled, TaskAction, task_action_eq, status_eq, TaskAction-discrete, publishing,
}
use octomus_agent.Model.Task.{Task, task_eq}
use octomus_agent.Model.Status.{allowed_actions, retryable}
use octomus_agent.Model.Lifecycle.Change.{
  archive, authorized, allowed, evidence_error, stopped_by_cancellation, workspace_gone,
  replaces_identity, replaces_output, validate_task_change, workspace_ineligible,
}
use octomus_agent.Model.Lifecycle.Accepted.{Accepted, Accepted-validate}
use octomus_agent.Model.Lifecycle.Sound.{Sound}
use octomus_agent.Engine.Actions.{Failure, action_record, action_change}

-- What the record of a task says when an action is among those that it offers.
abbrev pub Permits : TaskAction → Task → Type 0
Permits TaskAction.cancel t =
    (t.lifecycle.archived_at ≡ none)
    × (t.lifecycle.discarded_at ≡ none)
    × (t.output_commit ≡ none)
    × (t.status ≢ publishing)
    × (t.status ≢ published)
Permits TaskAction.retry t =
    (t.lifecycle.archived_at ≡ none)
    × (t.lifecycle.discarded_at ≡ none)
    × (retryable t.status ≡ true)
Permits TaskAction.supersede t =
    (t.lifecycle.archived_at ≡ none)
    × (t.lifecycle.discarded_at ≡ none)
    × ((retryable t.status || t.status == cancelled) ≡ true)
Permits TaskAction.archive t =
    (t.lifecycle.archived_at ≡ none)
    × ((retryable t.status || t.status == cancelled || t.status == published) ≡ true)
Permits TaskAction.discard t = is_some t.lifecycle.archived_at ≡ true
Permits TaskAction.reconcile t =
    (t.lifecycle.archived_at ≡ none)
    × (t.lifecycle.discarded_at ≡ none)
    × (retryable t.status ≡ true)

offers-Permits : (a : TaskAction) (t : Task) → contains (allowed_actions t) a ≡ true → Permits a t
unfolding allowed_actions TaskAction-discrete
offers-Permits TaskAction.cancel t h = ground arith
offers-Permits _ t h = ground arith

permitted-Accepted :
    (a : TaskAction) (t : Task) (cfg : Config) (preflight : Option Failure) (now : Text)
    (marked : Bool)
    → Sound t
    → t.lifecycle.discarded_at ≡ none
    → Permits a t
    → Accepted t (action_record a t cfg preflight now) (action_change a t preflight) marked
unfolding action_record replaces_identity replaces_output stopped_by_cancellation workspace_gone
    authorized evidence_error allowed
permitted-Accepted TaskAction.cancel t cfg preflight now marked s d p = ground arith
permitted-Accepted TaskAction.retry t cfg preflight now marked s d p =
    elim (Option-cases t.output_commit) [
      | inr (commit, e) ↦ ground arith
      | inl e ↦ elim (Option-cases preflight) [
        | inl f ↦ ground arith
        | inr (failure, f) ↦ ground arith
      ]
    ]
permitted-Accepted TaskAction.reconcile t cfg preflight now marked s d p =
    elim (Option-cases t.output_commit) [
      | inr (commit, e) ↦ ground arith
      | inl e ↦ elim (Option-cases preflight) [
        | inl f ↦ ground arith
        | inr (failure, f) ↦ ground arith
      ]
    ]
permitted-Accepted _ t cfg preflight now marked s d p = ground arith

-- Every action that a sound task offers while its workspace is not discarded is accepted, under any
-- cancellation mark: the record that the action saves, be it after a preflight that failed, and for a
-- reconciliation the record before it publishes, passes the validation of its change.
pub allowed_actions-accepted :
    (a : TaskAction) (t : Task) (cfg : Config) (preflight : Option Failure) (now : Text)
    (marked : Bool)
    → Sound t
    → t.lifecycle.discarded_at ≡ none
    → contains (allowed_actions t) a ≡ true
    → validate_task_change t
        (action_record a t cfg preflight now)
        (action_change a t preflight)
        marked
      ≡ none
allowed_actions-accepted a t cfg preflight now marked s d h =
    Accepted-validate t _ (action_change a t preflight) marked
      (permitted-Accepted a t cfg preflight now marked s d (offers-Permits a t h))

-- A published or cancelled task whose workspace was discarded, but that is not archived, still offers
-- to be archived, and every archive of it is refused.
pub archive_discarded-refused :
    (t : Task) (cfg : Config) (preflight : Option Failure) (now : Text) (marked : Bool)
    → (t.status ≡ published) ⊎ (t.status ≡ cancelled)
    → t.lifecycle.archived_at ≡ none
    → is_some t.lifecycle.discarded_at ≡ true
    → (contains (allowed_actions t) TaskAction.archive ≡ true)
      × (validate_task_change t
            (action_record TaskAction.archive t cfg preflight now)
            archive
            marked
          ≡ some workspace_ineligible)
unfolding allowed_actions TaskAction-discrete action_record replaces_identity replaces_output
    stopped_by_cancellation workspace_gone validate_task_change
archive_discarded-refused t cfg preflight now marked h free gone = (ground arith, ground arith)
