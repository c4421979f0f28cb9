-- ===== src/Model/Enums.antt =====
-- internal/model/enums.go, actions.go and requests.go: the enumerations. A data type has one
-- constructor for each value that the name table has a name for; `Status.index` is the uint8.
use octomus_agent.Base.{ℕ, DecEq, List, Text, codes, map, [], ◌∷◌}

pub data Status : Type 0 where
  queued executing reviewing repairing verifying publishing published blocked failed cancelled :
      Status

pub data BlockedReason : Type 0 where
  budget_exhausted storage_limit stale_base remote_conflict publication_uncertain : BlockedReason
  runner_unavailable invalid_review verification_failed dependency_blocked : BlockedReason
  invalid_plan workspace_invalid retry_limit timeout unknown : BlockedReason

pub data SessionStatus : Type 0 where
  running completed failed interrupted : SessionStatus

pub data CycleStatus : Type 0 where
  running completed idle failed interrupted : CycleStatus

pub data AutoMergeStatus : Type 0 where
  waiting manual merging uncertain merged closed : AutoMergeStatus

pub data TaskAction : Type 0 where
  cancel retry supersede archive discard reconcile : TaskAction

pub data CycleAction : Type 0 where
  archive discard : CycleAction

unfoldable pub Status-discrete : Discrete Status
Status-discrete = hlevel

unfoldable pub BlockedReason-discrete : Discrete BlockedReason
BlockedReason-discrete = hlevel

unfoldable pub SessionStatus-discrete : Discrete SessionStatus
SessionStatus-discrete = hlevel

unfoldable pub AutoMergeStatus-discrete : Discrete AutoMergeStatus
AutoMergeStatus-discrete = hlevel

unfoldable pub TaskAction-discrete : Discrete TaskAction
TaskAction-discrete = hlevel

instance abbrev pub status_eq : DecEq Status
status_eq = record { dec = Status-discrete }

instance abbrev pub blocked_reason_eq : DecEq BlockedReason
blocked_reason_eq = record { dec = BlockedReason-discrete }

instance abbrev pub session_status_eq : DecEq SessionStatus
session_status_eq = record { dec = SessionStatus-discrete }

instance abbrev pub auto_merge_status_eq : DecEq AutoMergeStatus
auto_merge_status_eq = record { dec = AutoMergeStatus-discrete }

instance abbrev pub task_action_eq : DecEq TaskAction
task_action_eq = record { dec = TaskAction-discrete }

abbrev pub status_index : Status → ℕ
status_index queued = 0
status_index executing = 1
status_index reviewing = 2
status_index repairing = 3
status_index verifying = 4
status_index publishing = 5
status_index published = 6
status_index blocked = 7
status_index Status.failed = 8
status_index cancelled = 9

abbrev pub status_names : List Text
status_names = map codes (
    "queued" ∷ "executing" ∷ "reviewing" ∷ "repairing" ∷ "verifying" ∷ "publishing" ∷ "published"
    ∷ "blocked" ∷ "failed" ∷ "cancelled" ∷ [])

abbrev pub blocked_reason_index : BlockedReason → ℕ
blocked_reason_index budget_exhausted = 0
blocked_reason_index storage_limit = 1
blocked_reason_index stale_base = 2
blocked_reason_index remote_conflict = 3
blocked_reason_index publication_uncertain = 4
blocked_reason_index runner_unavailable = 5
blocked_reason_index invalid_review = 6
blocked_reason_index verification_failed = 7
blocked_reason_index dependency_blocked = 8
blocked_reason_index invalid_plan = 9
blocked_reason_index workspace_invalid = 10
blocked_reason_index retry_limit = 11
blocked_reason_index timeout = 12
blocked_reason_index unknown = 13

abbrev pub blocked_reason_names : List Text
blocked_reason_names = map codes (
    "budget_exhausted" ∷ "storage_limit" ∷ "stale_base" ∷ "remote_conflict"
    ∷ "publication_uncertain" ∷ "runner_unavailable" ∷ "invalid_review" ∷ "verification_failed"
    ∷ "dependency_blocked" ∷ "invalid_plan" ∷ "workspace_invalid" ∷ "retry_limit" ∷ "timeout"
    ∷ "unknown" ∷ [])
