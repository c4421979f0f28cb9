-- ===== src/Model/Types.antt =====
-- internal/model/types.go, sandbox.go: the parts of a task record. A pointer that may be nil is an
-- option, a slice a list, a timestamp its text.
use octomus_agent.Base.{ℕ, Text, Text-discrete, ℕ_discrete, Option, List, Bool, DecEq}
use octomus_agent.Config.Types.{Route, Route-discrete}
use octomus_agent.Model.Enums.{
  SessionStatus, AutoMergeStatus, SessionStatus-discrete, AutoMergeStatus-discrete,
}

pub record Proposal : Type 0 where
  pub id : Text
  pub title : Text
  pub problem : Text
  pub evidence : List Text
  pub benefit : Text
  pub category : Text
  pub target : Text
  pub tier : Text
  pub scope : Text
  pub dependencies : List Text
  pub prompt : Text
  pub decision : Text
  pub reason : Text
  pub problem_key : Text
  pub relevant_paths : List Text
  pub reconsiders : List Text

pub record AttemptPolicy : Type 0 where
  pub max_repair_rounds : ℕ
  pub max_no_progress_rounds : ℕ
  pub max_retries : ℕ
  pub task_timeout_seconds : ℕ
  pub session_timeout_seconds : ℕ
  pub command_timeout_seconds : ℕ

pub record WorkspaceLifecycle : Type 0 where
  pub archived_at : Option Text
  pub discarded_at : Option Text

pub record Finding : Type 0 where
  pub title : Text
  pub file : Text
  pub detail : Text
  pub priority : Text

pub record Review : Type 0 where
  pub completed : Bool
  pub summary : Text
  pub findings : List Finding

pub record MaintenanceAssessment : Type 0 where
  pub qualifies : Bool
  pub manual_merge_required : Bool
  pub reason : Text

pub record MaintenanceFootprint : Type 0 where
  pub comparison_base : Text
  pub revision : Text
  pub changed_lines : Option ℕ
  pub changed_files : Option ℕ
  pub paths : List Text
  pub complete : Bool
  pub manual_reasons : List Text

pub record AutoMergeState : Type 0 where
  pub task_id : Text
  pub head : Text
  pub head_branch : Text
  pub base_branch : Text
  pub comparison_base : Text
  pub policy_revision : Text
  pub authorized : Bool
  pub footprint : Option MaintenanceFootprint
  pub status : AutoMergeStatus
  pub reason : Text
  pub observed_at : Text
  pub attempt_id : Option Text
  pub attempted_at : Option Text
  pub merge_commit : Option Text
  pub result_source : Option Text

pub record AutoMergeSnapshot : Type 0 where
  pub repository : Text
  pub pr_number : ℕ
  pub state : AutoMergeState

pub record ReviewRound : Type 0 where
  pub session_id : Text
  pub revision : Text
  pub comparison_base : Text
  pub result : Review
  pub created_at : Text
  pub maintenance : Option MaintenanceAssessment
  pub trusted_diff_complete : Bool

pub record SandboxEgress : Type 0 where
  pub allowed : List (Text × ℕ)
  pub denied : List (Text × ℕ)
  pub failed : List (Text × ℕ)

pub record SandboxRecord : Type 0 where
  pub image_id : Text
  pub runtime : Text
  pub runs : ℕ
  pub oom : Bool
  pub incomplete : Bool
  pub egress : SandboxEgress

pub record Verification : Type 0 where
  pub command : Text
  pub success : Bool
  pub output : Text
  pub revision : Text
  pub created_at : Text
  pub sandbox : Option SandboxRecord

pub record Session : Type 0 where
  pub id : Text
  pub role : Text
  pub route : Route
  pub status : SessionStatus
  pub started_at : Text
  pub summary : Text
  pub first_turn_started : Option Bool
  pub sandbox : Option SandboxRecord

pub record RepairProgress : Type 0 where
  pub revision : Text
  pub no_progress_rounds : ℕ
  pub awaiting_review : Bool

unfoldable pub Proposal-discrete : Discrete Proposal
unfolding Text-discrete
Proposal-discrete = hlevel (ℕ_discrete, Text-discrete)

unfoldable pub AttemptPolicy-discrete : Discrete AttemptPolicy
unfolding ℕ_discrete
AttemptPolicy-discrete = hlevel ℕ_discrete

unfoldable pub WorkspaceLifecycle-discrete : Discrete WorkspaceLifecycle
unfolding Text-discrete
WorkspaceLifecycle-discrete = hlevel Text-discrete

unfoldable pub Review-discrete : Discrete Review
unfolding Text-discrete
Review-discrete = hlevel (ℕ_discrete, Text-discrete)

unfoldable pub MaintenanceAssessment-discrete : Discrete MaintenanceAssessment
unfolding Text-discrete
MaintenanceAssessment-discrete = hlevel Text-discrete

unfoldable pub MaintenanceFootprint-discrete : Discrete MaintenanceFootprint
unfolding Text-discrete ℕ_discrete
MaintenanceFootprint-discrete = hlevel (ℕ_discrete, Text-discrete)

unfoldable pub AutoMergeState-discrete : Discrete AutoMergeState
unfolding Text-discrete MaintenanceFootprint-discrete AutoMergeStatus-discrete
AutoMergeState-discrete =
    hlevel (ℕ_discrete, Text-discrete, MaintenanceFootprint-discrete, AutoMergeStatus-discrete)

unfoldable pub AutoMergeSnapshot-discrete : Discrete AutoMergeSnapshot
unfolding Text-discrete AutoMergeState-discrete ℕ_discrete
AutoMergeSnapshot-discrete = hlevel (ℕ_discrete, Text-discrete, AutoMergeState-discrete)

unfoldable pub ReviewRound-discrete : Discrete ReviewRound
unfolding Text-discrete Review-discrete MaintenanceAssessment-discrete
ReviewRound-discrete =
    hlevel (ℕ_discrete, Text-discrete, Review-discrete, MaintenanceAssessment-discrete)

unfoldable pub SandboxRecord-discrete : Discrete SandboxRecord
unfolding Text-discrete ℕ_discrete
SandboxRecord-discrete = hlevel (ℕ_discrete, Text-discrete)

unfoldable pub Verification-discrete : Discrete Verification
unfolding Text-discrete SandboxRecord-discrete
Verification-discrete = hlevel (ℕ_discrete, Text-discrete, SandboxRecord-discrete)

unfoldable pub Session-discrete : Discrete Session
unfolding Text-discrete SandboxRecord-discrete Route-discrete SessionStatus-discrete
Session-discrete =
    hlevel
      (ℕ_discrete, Text-discrete, SandboxRecord-discrete, Route-discrete, SessionStatus-discrete)

unfoldable pub RepairProgress-discrete : Discrete RepairProgress
unfolding Text-discrete ℕ_discrete
RepairProgress-discrete = hlevel (ℕ_discrete, Text-discrete)

instance abbrev pub proposal_eq : DecEq Proposal
proposal_eq = record { dec = Proposal-discrete }

instance abbrev pub review_round_eq : DecEq ReviewRound
review_round_eq = record { dec = ReviewRound-discrete }

instance abbrev pub verification_eq : DecEq Verification
verification_eq = record { dec = Verification-discrete }
