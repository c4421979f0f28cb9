-- ===== src/Engine/Actions.antt =====
-- internal/engine/actions.go: the record that each operator action saves, for a reconciliation the
-- one before it publishes. Remote checks that an action makes first, and its refusals, come before
-- the record is built; how a preflight failed is an argument.
pub mod Offered
use octomus_agent.Base.{
  ℕ, ◌+◌, u64, Text, true, Option, none, some, ◌==◌, ◌&&◌, if◌then◌else◌, length, codes, is_some,
}
use octomus_agent.Config.Types.{Config}
use octomus_agent.Model.Enums.{
  queued, cancelled, publishing, unknown, publication_uncertain, BlockedReason, blocked_reason_eq,
  status_eq, TaskAction, cancel, retry, supersede, archive, discard, reconcile,
}
use octomus_agent.Model.Task.{Task}
use octomus_agent.Model.Status.{retryable}
use octomus_agent.Model.Sessions.{policy_of}
use octomus_agent.Model.Lifecycle.Change.{TaskChange, resolve, inspect}
use octomus_agent.Store.Tasks.{cancelled_record}

unfoldable pub superseded_task : Task → Text → Task
superseded_task task now = record task {
  status = cancelled;
  rediscovery_requested = true;
  rediscovery_result = none;
  updated_at = now;
}

unfoldable pub archived_task : Task → Text → Task
archived_task task now = record task {
  status = if retryable task.status then cancelled else task.status;
  lifecycle = record { archived_at = some now; discarded_at = task.lifecycle.discarded_at };
  updated_at = now;
}

-- The end of discardTask, as the commit stamps it.
unfoldable pub discarded_task : Task → Text → Task
discarded_task task now = record task {
  lifecycle = record { archived_at = task.lifecycle.archived_at; discarded_at = some now };
  updated_at = now;
}

-- The end of retryTask, under the live configuration, after a preflight that did not fail.
unfoldable pub retried_task : Task → Config → Text → Task
retried_task task cfg now = record task {
  attempt_policy = some (policy_of cfg);
  attempts = u64 (task.attempts + 1);
  review_baseline = length task.reviews;
  repair_rounds = some 0;
  repair_progress = none;
  error = none;
  blocked_reason = none;
  status = queued;
  run_id = none;
  updated_at = now;
}

-- The reason and the message that a preflight failed with (BlockedReasonFromError and redact.Error).
abbrev pub Failure : Type 0
Failure = BlockedReason × Text

-- recordTaskError
unfoldable pub record_task_error : Task → Failure → Task
record_task_error task (reason, message) = record task {
  blocked_reason = some (
      if reason == unknown && task.status == publishing && is_some task.output_commit
      then publication_uncertain
      else reason);
  error = some message;
}

-- retryTask after a failed preflight, as the commit stamps it.
unfoldable pub inspected_task : Task → Config → Failure → Text → Task
unfolding record_task_error
inspected_task task cfg failure now =
    record (record_task_error (record task { attempt_policy = some (policy_of cfg) }) failure) {
      updated_at = now;
    }

-- reconcileLocked before it publishes: with an output commit the task goes to publishing again;
-- without one the preflight's failure is recorded, or that its prerequisites are restored.
unfoldable pub reconciled_task : Task → Option Failure → Text → Task
unfolding record_task_error
reconciled_task task preflight now =
    if is_some task.output_commit
    then record task { status = publishing; updated_at = now }
    else elim preflight [
      | none ↦ record task {
        blocked_reason = some unknown;
        error = some (codes "Remote prerequisites are restored; task can be retried");
        updated_at = now;
      }
      | some failure ↦ record (record_task_error task failure) { updated_at = now }
    ]

-- The preflight of a retry, which only a task without an output commit has.
abbrev pub retry_failure : Task → Option Failure → Option Failure
retry_failure task preflight = if is_some task.output_commit then none else preflight

abbrev pub retry_record : Task → Config → Option Failure → Text → Task
retry_record task cfg none now = retried_task task cfg now
retry_record task cfg (some failure) now = inspected_task task cfg failure now

abbrev pub retry_change : Option Failure → TaskChange
retry_change none = TaskChange.retry
retry_change (some _) = inspect

-- The record and the kind of change of each action, given how its preflight failed, if it did.
unfoldable pub action_record : TaskAction → Task → Config → Option Failure → Text → Task
unfolding superseded_task archived_task discarded_task retried_task inspected_task reconciled_task
    cancelled_record
action_record cancel task cfg preflight now = cancelled_record task now
action_record retry task cfg preflight now =
    retry_record task cfg (retry_failure task preflight) now
action_record supersede task cfg preflight now = superseded_task task now
action_record archive task cfg preflight now = archived_task task now
action_record discard task cfg preflight now = discarded_task task now
action_record reconcile task cfg preflight now = reconciled_task task preflight now

abbrev pub action_change : TaskAction → Task → Option Failure → TaskChange
action_change cancel task preflight = TaskChange.cancel
action_change retry task preflight = retry_change (retry_failure task preflight)
action_change supersede task preflight = resolve
action_change archive task preflight = TaskChange.archive
action_change discard task preflight = TaskChange.discard
action_change reconcile task preflight = resolve
