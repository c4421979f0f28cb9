-- ===== src/Model/Lifecycle/Accepted.antt =====
-- What an accepted change says, test by test: the inversion that the proofs about changes start from.
use octomus_agent.Base.{Bool, true, false, none, ◌≡◌, arith, ◌⊎◌}
use octomus_agent.Model.Task.{Task, task_eq}
use octomus_agent.Model.Lifecycle.Change.{
  TaskChange, replaces_identity, replaces_output, stopped_by_cancellation, workspace_gone,
  authorized, allowed, evidence_error, validate_task_change,
}

pub record Accepted (current next : Task) (change : TaskChange) (marked : Bool) : Type 0 where
  pub same_identity : replaces_identity current next ≡ false
  pub kept_output : replaces_output current next ≡ false
  pub not_cancelled : stopped_by_cancellation current change marked ≡ false
  pub has_workspace : workspace_gone current change ≡ false
  pub is_authorized : authorized change current next marked ≡ true
  pub evidence_ok : evidence_error change current next ≡ none
  pub fields : allowed change current next ≡ next

pub accepted :
    (current next : Task) (change : TaskChange) (marked : Bool)
    → validate_task_change current next change marked ≡ none
    → Accepted current next change marked
unfolding validate_task_change
accepted current next change marked h = ground arith

pub Accepted-validate :
    (current next : Task) (change : TaskChange) (marked : Bool)
    → Accepted current next change marked
    → validate_task_change current next change marked ≡ none
unfolding validate_task_change
Accepted-validate current next change marked a = ground arith

-- The planning identity of a task.
pub record SameIdentity (current next : Task) : Type 0 where
  pub id : current.id ≡ next.id
  pub cycle_id : current.cycle_id ≡ next.cycle_id
  pub created_at : current.created_at ≡ next.created_at
  pub branch : current.branch ≡ next.branch
  pub default_revision : current.default_revision ≡ next.default_revision
  pub proposal : current.proposal ≡ next.proposal
  pub config : current.config ≡ next.config
  pub route : current.route ≡ next.route

pub identity_kept :
    (current next : Task) → replaces_identity current next ≡ false → SameIdentity current next
unfolding replaces_identity
identity_kept current next h = ground arith

pub output_kept :
    (current next : Task)
    → replaces_output current next ≡ false
    → (current.output_commit ≡ none) ⊎ (next.output_commit ≡ current.output_commit)
unfolding replaces_output
output_kept current next h = ground arith
