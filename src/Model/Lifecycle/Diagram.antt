-- ===== src/Model/Lifecycle/Diagram.antt =====
-- The diagram of task states, written from the operations' intent and not from their code, beside
-- the changes that are accepted (internal/model/task_lifecycle.go).
use octomus_agent.Base.{Bool, true, false, ◌||◌, none, ◌≡◌, refl, arith, is_some, ◌⊎◌, inr, ◌==◌}
use octomus_agent.Model.Enums.{
  Status, queued, executing, reviewing, repairing, verifying, publishing, published, blocked,
  cancelled, status_eq, Status-discrete,
}
use octomus_agent.Model.Task.{Task}
use octomus_agent.Model.Status.{active, retryable}
use octomus_agent.Model.Lifecycle.Change.{
  TaskChange, authorize_publication, authorized, validate_task_change,
}
use octomus_agent.Model.Lifecycle.Accepted.{accepted}
use octomus_agent.Model.Lifecycle.Sound.{Sound}
use octomus_agent.Model.Lifecycle.Run.{Step, step, Reach, here, and_then, Reach-Sound}

-- Where a task that is worked on may always go: back to the queue, or out.
abbrev interrupted : Status → Bool
interrupted queued = true
interrupted blocked = true
interrupted Status.failed = true
interrupted cancelled = true
interrupted _ = false

abbrev resumed : Status → Bool
resumed queued = true
resumed publishing = true
resumed cancelled = true
resumed _ = false

-- The states that may come after a state, itself aside.
abbrev pub may_follow : Status → Status → Bool
may_follow queued next =
    next == executing || next == blocked || next == Status.failed || next == cancelled
may_follow executing next = next == reviewing || next == publishing || interrupted next
may_follow reviewing next =
    next == verifying || next == repairing || next == publishing || interrupted next
may_follow repairing next = next == reviewing || next == publishing || interrupted next
may_follow verifying next = next == repairing || next == publishing || interrupted next
may_follow publishing next = next == published || interrupted next
may_follow published next = false
may_follow blocked next = resumed next
may_follow Status.failed next = resumed next
may_follow cancelled next = next == publishing

follows :
    (s t : Status) (change : TaskChange) (current next : Task) (marked : Bool)
    → current.status ≡ s
    → next.status ≡ t
    → (s ≡ published → is_some current.output_commit ≡ true)
    → authorized change current next marked ≡ true
    → (t ≡ s) ⊎ (may_follow s t ≡ true)
unfolding authorized active retryable Status-discrete
follows s t authorize_publication current next marked p q d h = ground arith
follows s t _ current next marked p q d h = ground arith

-- An accepted change of a sound task leaves its state or moves it along the diagram.
pub validate_task_change-follows :
    (current next : Task) (change : TaskChange) (marked : Bool)
    → Sound current
    → validate_task_change current next change marked ≡ none
    → (next.status ≡ current.status) ⊎ (may_follow current.status next.status ≡ true)
validate_task_change-follows current next change marked s h =
    follows current.status next.status change current next marked refl refl
      (λ e. s.delivered (inr e)) (accepted current next change marked h).is_authorized

published_kept : {t u : Task} → Sound t → t.status ≡ published → Step t u → u.status ≡ published
published_kept s e (step {current = t} {next = u} change marked h) =
    ground (arith, validate_task_change-follows t u change marked s h)

-- No accepted change, nor any number of them, takes a sound published task to another state.
pub Reach-published :
    {t u : Task} → Sound t → t.status ≡ published → Reach t u → u.status ≡ published
Reach-published s e here = e
Reach-published s e (and_then r st) = published_kept (Reach-Sound s r) (Reach-published s e r) st
