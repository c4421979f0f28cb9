-- ===== src/Model/Lifecycle/Cancel.antt =====
-- internal/model/task_lifecycle.go: what a settling worker leaves behind, with and without a
-- competing cancellation.
use octomus_agent.Base.{◌||◌, none, some, if◌then◌else◌, ◌!=◌, Text, codes, is_some}
use octomus_agent.Model.Enums.{cancelled}
use octomus_agent.Model.Task.{Task, task_eq}
use octomus_agent.Model.Sessions.{fail_running}
use octomus_agent.Model.Lifecycle.Evidence.{EvidenceError, copy_evidence, validate_evidence}

pub data MergeError : Type 0 where
  changed_independently : MergeError
  evidence : EvidenceError → MergeError

pub data Merged : Type 0 where
  merged : Task → Merged
  refused : MergeError → Merged

abbrev pub cancelled_message : Text
cancelled_message = codes "Cancelled by the operator"

-- `current` with the fields of a cancellation as the worker expected them.
unfoldable pub cancellation_baseline : Task → Task → Task
cancellation_baseline expected current = record current {
  status = expected.status;
  updated_at = expected.updated_at;
  error = expected.error;
  blocked_reason = expected.blocked_reason;
}

unfoldable pub cancelled_task : Task → Task → Task
unfolding copy_evidence
cancelled_task current pending = record (copy_evidence current pending) {
  status = cancelled;
  error = some cancelled_message;
  blocked_reason = none;
  updated_at = pending.updated_at;
  sessions = fail_running pending.sessions cancelled_message;
}

unfoldable pub merge_cancelled_task : Task → Task → Task → Merged
unfolding cancellation_baseline cancelled_task
merge_cancelled_task expected current pending =
    if is_some current.output_commit || cancellation_baseline expected current != expected
    then refused changed_independently
    else elim (validate_evidence expected pending) [
      | some e ↦ refused (evidence e)
      | none ↦ merged (cancelled_task current pending)
    ]

unfoldable pub settle_task_evidence : Task → Task → Task
unfolding copy_evidence
settle_task_evidence expected pending = record (copy_evidence expected pending) {
  execution_session = pending.execution_session;
  repair_session = pending.repair_session;
  status = pending.status;
  updated_at = pending.updated_at;
  error = pending.error;
  blocked_reason = pending.blocked_reason;
  maintenance_footprint = pending.maintenance_footprint;
}
