-- ===== src/Model/Status.antt =====
-- internal/model/model.go and actions.go: the classes of task states and the actions that the
-- operator is offered.
use octomus_agent.Base.{
  Bool, true, false, ◌&&◌, ◌||◌, not, List, [], ◌∷◌, ◌++◌, Option, none, some, if◌then◌else◌, ◌==◌,
  leb, is_some, is_none, Text, text_eq,
}
use octomus_agent.Model.Enums.{
  Status, executing, reviewing, repairing, verifying, publishing, published, blocked, cancelled,
  BlockedReason, stale_base, remote_conflict, publication_uncertain, runner_unavailable,
  dependency_blocked, invalid_plan, workspace_invalid, unknown, TaskAction, cancel, retry,
  supersede, reconcile, CycleStatus, CycleAction, status_index, status_eq,
}
use octomus_agent.Model.Types.{WorkspaceLifecycle}
use octomus_agent.Model.Task.{Task}

-- s >= StatusExecuting && s <= StatusPublishing, on the uint8 values.
unfoldable pub active : Status → Bool
active s =
    leb (status_index executing) (status_index s) && leb (status_index s) (status_index publishing)

unfoldable pub retryable : Status → Bool
retryable s = s == Status.failed || s == blocked

unfoldable pub active_statuses : List Status
active_statuses = executing ∷ reviewing ∷ repairing ∷ verifying ∷ publishing ∷ []

unfoldable pub cycle_actions : CycleStatus → WorkspaceLifecycle → List CycleAction
cycle_actions CycleStatus.running lifecycle = []
cycle_actions _ lifecycle =
    if is_some lifecycle.discarded_at
    then []
    else if is_none lifecycle.archived_at
    then CycleAction.archive ∷ []
    else CycleAction.discard ∷ []

-- The switch on the reason that a retryable task is blocked for.
unfoldable pub reason_actions : BlockedReason → List TaskAction
reason_actions stale_base = supersede ∷ []
reason_actions invalid_plan = supersede ∷ []
reason_actions workspace_invalid = supersede ∷ []
reason_actions remote_conflict = reconcile ∷ []
reason_actions publication_uncertain = reconcile ∷ []
reason_actions dependency_blocked = retry ∷ supersede ∷ []
reason_actions runner_unavailable = retry ∷ supersede ∷ []
reason_actions _ = retry ∷ []

abbrev blocked_reason_or_unknown : Option BlockedReason → BlockedReason
blocked_reason_or_unknown none = unknown
blocked_reason_or_unknown (some r) = r

abbrev no_entries : List Text → Bool
no_entries [] = true
no_entries (_ ∷ _) = false

unfoldable pub allowed_actions : Task → List TaskAction
unfolding retryable reason_actions
allowed_actions t =
    if is_some t.lifecycle.archived_at
    then (if is_some t.lifecycle.discarded_at then [] else TaskAction.discard ∷ [])
    else if t.status == published
    then TaskAction.archive ∷ []
    else if t.status == cancelled
    then (if is_none t.lifecycle.discarded_at
          && is_none t.output_commit
          && not t.rediscovery_requested
          && no_entries t.superseded_by
        then TaskAction.archive ∷ supersede ∷ []
        else TaskAction.archive ∷ [])
    else if is_some t.lifecycle.discarded_at || t.status == publishing
    then []
    else if not (retryable t.status)
    then (if is_none t.output_commit then cancel ∷ [] else [])
    else ((if is_none t.output_commit then cancel ∷ [] else [])
        ++ (TaskAction.archive ∷ reason_actions (blocked_reason_or_unknown t.blocked_reason)))
