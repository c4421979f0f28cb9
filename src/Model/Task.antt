-- ===== src/Model/Task.antt =====
-- internal/model/types.go: the task record. `Task.Clone` copies a record deeply; records here are
-- values, so a copy is the record itself.
use octomus_agent.Base.{ℕ, Text, Text-discrete, ℕ_discrete, Option, List, Bool, DecEq}
use octomus_agent.Config.Types.{Route, Route-discrete, Config, Config-discrete}
use octomus_agent.Model.Enums.{Status, BlockedReason, Status-discrete, BlockedReason-discrete}
use octomus_agent.Model.Types.{
  Proposal, AttemptPolicy, WorkspaceLifecycle, MaintenanceFootprint, AutoMergeSnapshot, ReviewRound,
  Verification, Session, RepairProgress, Proposal-discrete, AttemptPolicy-discrete,
  WorkspaceLifecycle-discrete, MaintenanceFootprint-discrete, AutoMergeSnapshot-discrete,
  ReviewRound-discrete, Verification-discrete, Session-discrete, RepairProgress-discrete,
}

pub record Task : Type 0 where
  pub id : Text
  pub cycle_id : Text
  pub proposal : Proposal
  pub status : Status
  pub route : Route
  pub config : Config
  pub source_revision : Text
  pub comparison_base : Text
  pub default_revision : Text
  pub branch : Text
  pub workspace : Text
  pub execution_session : Option Text
  pub repair_session : Option Text
  pub sessions : List Session
  pub reviews : List ReviewRound
  pub verification : List Verification
  pub output_commit : Option Text
  pub pr_number : Option ℕ
  pub pr_url : Option Text
  pub attempts : ℕ
  pub error : Option Text
  pub created_at : Text
  pub updated_at : Text
  pub attempt_policy : Option AttemptPolicy
  pub review_baseline : ℕ
  pub repair_rounds : Option ℕ
  pub repair_progress : Option RepairProgress
  pub blocked_reason : Option BlockedReason
  pub run_id : Option Text
  pub superseded_by : List Text
  pub supersedes : List Text
  pub rediscovery_requested : Bool
  pub rediscovery_result : Option Text
  pub lifecycle : WorkspaceLifecycle
  pub maintenance_footprint : Option MaintenanceFootprint
  pub auto_merge_snapshot : Option AutoMergeSnapshot

unfoldable pub Task-discrete : Discrete Task
unfolding Text-discrete ℕ_discrete Route-discrete Config-discrete Status-discrete
    BlockedReason-discrete Proposal-discrete AttemptPolicy-discrete WorkspaceLifecycle-discrete
    MaintenanceFootprint-discrete AutoMergeSnapshot-discrete ReviewRound-discrete
    Verification-discrete Session-discrete RepairProgress-discrete
Task-discrete = hlevel (
  ℕ_discrete, Text-discrete, Route-discrete, Config-discrete, Status-discrete,
  BlockedReason-discrete, Proposal-discrete, AttemptPolicy-discrete, WorkspaceLifecycle-discrete,
  MaintenanceFootprint-discrete, AutoMergeSnapshot-discrete, ReviewRound-discrete,
  Verification-discrete, Session-discrete, RepairProgress-discrete,
)

instance abbrev pub task_eq : DecEq Task
task_eq = record { dec = Task-discrete }
