-- ===== src/Model/Lifecycle/Settle.antt =====
-- What a worker's settlement may be refused for, and what it drops.
use octomus_agent.Base.{true, false, none, ◌≡◌, refl, arith, ◌⊎◌, ◌↔◌, sym, ◌∙◌}
use octomus_agent.Model.Enums.{Status, queued, blocked, cancelled, status_eq}
use octomus_agent.Model.Task.{Task, task_eq}
use octomus_agent.Model.Status.{active}
use octomus_agent.Model.Lifecycle.Evidence.{validate_evidence}
use octomus_agent.Model.Lifecycle.Change.{
  settlement, authorized, allowed, stopped_by_cancellation, replaces_identity, replaces_output,
  workspace_gone, evidence_error, validate_task_change,
}
use octomus_agent.Model.Lifecycle.Accepted.{Accepted, accepted, Accepted-validate}
use octomus_agent.Model.Lifecycle.Cancel.{settle_task_evidence}

-- The states that a settlement without a cancellation mark may leave behind.
abbrev pub MaySettle : Status → Status → Type 0
MaySettle s t =
    (t ≡ s)
    ⊎ (((active s ≡ true) ⊎ (s ≡ queued))
        × ((t ≡ blocked) ⊎ ((t ≡ Status.failed) ⊎ (t ≡ cancelled))))

validate_evidence-settled :
    (expected pending : Task)
    → validate_evidence expected (settle_task_evidence expected pending)
      ≡ validate_evidence expected pending
unfolding validate_evidence settle_task_evidence
validate_evidence-settled expected pending = refl

settled-Accepted :
    (expected pending : Task)
    → validate_evidence expected pending ≡ none
    → MaySettle expected.status pending.status
    → Accepted expected (settle_task_evidence expected pending) settlement false
unfolding settle_task_evidence replaces_identity replaces_output stopped_by_cancellation
    workspace_gone authorized evidence_error allowed
settled-Accepted expected pending ok may = record {
  same_identity = ground arith;
  kept_output = ground arith;
  not_cancelled = ground arith;
  has_workspace = ground arith;
  is_authorized = ground arith;
  evidence_ok = validate_evidence-settled expected pending ∙ ok;
  fields = refl;
}

settled_inversion :
    (expected pending : Task)
    → Accepted expected (settle_task_evidence expected pending) settlement false
    → (validate_evidence expected (settle_task_evidence expected pending) ≡ none)
      × MaySettle expected.status pending.status
unfolding settle_task_evidence authorized evidence_error
settled_inversion expected pending a = (a.evidence_ok, ground (arith, a.is_authorized))

-- With no cancellation mark, the settlement of a worker's pending task against the record that it
-- expects is accepted exactly when the pending evidence extends the saved one and the pending state
-- is the saved one or a stop of an active or queued task: no other pending field can refuse it.
pub settle_task_evidence-validate :
    (expected pending : Task)
    → (validate_task_change expected (settle_task_evidence expected pending) settlement false
        ≡ none)
      ↔ ((validate_evidence expected pending ≡ none) × MaySettle expected.status pending.status)
settle_task_evidence-validate expected pending = (
  (λ h.
      let (ok, may) = settled_inversion expected pending (accepted expected _ settlement false h) in
      (sym (validate_evidence-settled expected pending) ∙ ok, may)),
  (λ h. Accepted-validate expected _ settlement false (settled-Accepted expected pending h.0 h.1)),
)
