-- ===== src/Model/Lifecycle/Change.antt =====
-- internal/model/task_lifecycle.go: ValidateTaskChange, in the order of its tests.
use octomus_agent.Base.{
  Bool, true, false, ◌&&◌, ◌||◌, not, Option, none, some, if◌then◌else◌, ◌==◌, ◌!=◌, nat_eq, ◌+◌,
  u64, text_eq, option_eq, is_some, is_none,
}
use octomus_agent.Config.Types.{config_eq, route_eq}
use octomus_agent.Model.Enums.{
  Status, queued, executing, reviewing, repairing, verifying, publishing, published, blocked,
  cancelled, status_eq,
}
use octomus_agent.Model.Types.{proposal_eq}
use octomus_agent.Model.Task.{Task, task_eq}
use octomus_agent.Model.Status.{active, retryable}
use octomus_agent.Model.Reviews.{review_authorizes}
use octomus_agent.Model.Lifecycle.Evidence.{EvidenceError, copy_evidence, validate_evidence}

pub data TaskChange : Type 0 where
  checkpoint prepare admission authorize_publication publication settlement recovery : TaskChange
  retry resolve inspect cancel archive discard lineage merge_snapshot : TaskChange

pub data ChangeError : Type 0 where
  identity_replaced output_replaced task_cancelled workspace_ineligible : ChangeError
  unauthorized : Status → Status → ChangeError
  evidence : EvidenceError → ChangeError
  foreign_fields : ChangeError

unfoldable pub replaces_identity : Task → Task → Bool
replaces_identity current next =
    current.id != next.id
    || current.cycle_id != next.cycle_id
    || current.created_at != next.created_at
    || current.branch != next.branch
    || current.default_revision != next.default_revision
    || current.proposal != next.proposal
    || current.config != next.config
    || current.route != next.route

unfoldable pub replaces_output : Task → Task → Bool
replaces_output current next =
    is_some current.output_commit && current.output_commit != next.output_commit

abbrev pub worker_change : TaskChange → Bool
worker_change checkpoint = true
worker_change prepare = true
worker_change admission = true
worker_change authorize_publication = true
worker_change _ = false

unfoldable pub stopped_by_cancellation : Task → TaskChange → Bool → Bool
stopped_by_cancellation current change marked =
    marked && is_none current.output_commit && worker_change change

abbrev pub outlives_workspace : TaskChange → Bool
outlives_workspace settlement = true
outlives_workspace discard = true
outlives_workspace merge_snapshot = true
outlives_workspace _ = false

unfoldable pub workspace_gone : Task → TaskChange → Bool
workspace_gone current change =
    (is_some current.lifecycle.archived_at || is_some current.lifecycle.discarded_at)
    && not (outlives_workspace change)

-- The inner switch of a checkpoint that moves the task.
abbrev pub checkpoint_move : Status → Status → Bool
checkpoint_move executing next = next == reviewing
checkpoint_move repairing next = next == reviewing
checkpoint_move reviewing next = next == verifying || next == repairing
checkpoint_move verifying next = next == repairing
checkpoint_move _ next = false

abbrev authorizes_output : Task → Bool
authorizes_output next = elim next.output_commit [
  | none ↦ false
  | some commit ↦ review_authorizes next commit
]

-- The variable `valid` after the switch.
unfoldable pub authorized : TaskChange → Task → Task → Bool → Bool
unfolding active retryable
authorized checkpoint current next marked =
    if current.status != next.status
    then checkpoint_move current.status next.status
    else active current.status
authorized prepare current next marked =
    current.status == executing
    && next.status == current.status
    && is_none current.execution_session
authorized admission current next marked = current.status == queued && next.status == executing
authorized authorize_publication current next marked =
    active current.status && next.status == publishing && authorizes_output next
authorized publication current next marked =
    current.status == publishing && next.status == published && is_some current.output_commit
authorized settlement current next marked =
    if marked && is_none current.output_commit
    then next.status == cancelled
    else (next.status == current.status
        || ((active current.status || current.status == queued)
            && (next.status == blocked
                || next.status == Status.failed
                || next.status == cancelled)))
authorized recovery current next marked =
    if marked && is_none current.output_commit
    then next.status == cancelled
    else (active current.status
        && (next.status == queued || next.status == blocked || next.status == cancelled))
authorized retry current next marked =
    retryable current.status && next.status == queued && next.attempts == u64 (current.attempts + 1)
authorized resolve current next marked =
    (retryable current.status || current.status == cancelled)
    && (next.status == current.status
        || next.status == cancelled
        || (next.status == publishing && is_some current.output_commit))
authorized inspect current next marked = retryable current.status && next.status == current.status
authorized cancel current next marked =
    is_none current.output_commit
    && current.status != publishing
    && current.status != published
    && next.status == cancelled
authorized archive current next marked =
    not (active current.status)
    && current.status != queued
    && is_some next.lifecycle.archived_at
    && (next.status == current.status || (retryable current.status && next.status == cancelled))
authorized discard current next marked =
    not (active current.status)
    && current.status != queued
    && next.status == current.status
    && is_some next.lifecycle.discarded_at
authorized lineage current next marked = next.status == current.status
authorized merge_snapshot current next marked = next.status == current.status

-- The fields that every change may set.
unfoldable pub allowed_common : Task → Task → Task
allowed_common current next = record current {
  status = next.status;
  updated_at = next.updated_at;
  error = next.error;
  blocked_reason = next.blocked_reason;
}

-- The fields that a worker's change may set besides.
unfoldable pub allowed_worker : Task → Task → Task
unfolding allowed_common copy_evidence
allowed_worker current next = record (copy_evidence (allowed_common current next) next) {
  execution_session = next.execution_session;
  repair_session = next.repair_session;
  maintenance_footprint = next.maintenance_footprint;
}

-- The variable `allowed` after the second switch: `current` with the fields that the change owns.
unfoldable pub allowed : TaskChange → Task → Task → Task
unfolding allowed_common allowed_worker
allowed checkpoint current next = allowed_worker current next
allowed prepare current next = record (allowed_worker current next) {
  source_revision = next.source_revision;
  workspace = next.workspace;
  comparison_base = next.comparison_base;
}
allowed authorize_publication current next = record (allowed_worker current next) {
  output_commit = next.output_commit;
}
allowed settlement current next = allowed_worker current next
allowed publication current next = record (allowed_common current next) {
  pr_number = next.pr_number;
  pr_url = next.pr_url;
  auto_merge_snapshot = next.auto_merge_snapshot;
}
allowed recovery current next = record (allowed_common current next) {
  sessions = next.sessions;
  attempts = next.attempts;
}
allowed retry current next = record (allowed_common current next) {
  attempts = next.attempts;
  attempt_policy = next.attempt_policy;
  run_id = next.run_id;
  review_baseline = next.review_baseline;
  repair_rounds = next.repair_rounds;
  repair_progress = next.repair_progress;
}
allowed inspect current next = record (allowed_common current next) {
  attempt_policy = next.attempt_policy;
}
allowed resolve current next = record (allowed_common current next) {
  rediscovery_requested = next.rediscovery_requested;
  rediscovery_result = next.rediscovery_result;
}
allowed archive current next = record (allowed_common current next) {
  lifecycle = record {
    archived_at = next.lifecycle.archived_at;
    discarded_at = current.lifecycle.discarded_at;
  };
}
allowed discard current next = record (allowed_common current next) {
  lifecycle = record {
    archived_at = current.lifecycle.archived_at;
    discarded_at = next.lifecycle.discarded_at;
  };
}
allowed lineage current next = record (allowed_common current next) {
  superseded_by = next.superseded_by;
  rediscovery_requested = next.rediscovery_requested;
  rediscovery_result = next.rediscovery_result;
}
allowed merge_snapshot current next = record (allowed_common current next) {
  auto_merge_snapshot = next.auto_merge_snapshot;
}
allowed admission current next = allowed_common current next
allowed cancel current next = allowed_common current next

abbrev pub evidence_change : TaskChange → Bool
evidence_change checkpoint = true
evidence_change prepare = true
evidence_change authorize_publication = true
evidence_change settlement = true
evidence_change _ = false

unfoldable pub evidence_error : TaskChange → Task → Task → Option EvidenceError
evidence_error change current next =
    if evidence_change change then validate_evidence current next else none

unfoldable pub validate_task_change : Task → Task → TaskChange → Bool → Option ChangeError
validate_task_change current next change marked =
    if replaces_identity current next
    then some identity_replaced
    else if replaces_output current next
    then some output_replaced
    else if stopped_by_cancellation current change marked
    then some task_cancelled
    else if workspace_gone current change
    then some workspace_ineligible
    else if not (authorized change current next marked)
    then some (unauthorized current.status next.status)
    else elim (evidence_error change current next) [
      | some e ↦ some (evidence e)
      | none ↦ if allowed change current next == next then none else some foreign_fields
    ]
