-- ===== src/Model/Lifecycle/Cancellation.antt =====
-- An operator's cancellation mark: what it stops, and how a settling worker records it
-- (internal/model/task_lifecycle.go).
use octomus_agent.Base.{
  suc, true, Option, none, some, ◌≡◌, refl, arith, inl, inr, ◌≢◌, List, [], ◌∷◌, Text, ap, sym, ◌∙◌,
  length,
}
use octomus_agent.Model.Enums.{publishing, published, cancelled, session_status_eq}
use octomus_agent.Model.Types.{Session}
use octomus_agent.Model.Task.{Task, task_eq}
use octomus_agent.Model.Sessions.{fail_session, fail_running, attempt_reviews}
use octomus_agent.Model.Lifecycle.Evidence.{
  sessions_error, new_repairs, repair_of, session_error, replaces_session, validate_evidence,
  head_of, tail_of,
}
use octomus_agent.Model.Lifecycle.Change.{
  TaskChange, settlement, authorized, allowed, stopped_by_cancellation, replaces_identity,
  replaces_output, workspace_gone, evidence_error, validate_task_change,
}
use octomus_agent.Model.Lifecycle.Accepted.{Accepted, accepted, Accepted-validate}
use octomus_agent.Model.Lifecycle.Growth.{output_step}
use octomus_agent.Model.Lifecycle.Sound.{Sound, validate_task_change-Sound}
use octomus_agent.Model.Lifecycle.Cancel.{
  merged, merge_cancelled_task, cancelled_task, cancelled_message, cancellation_baseline,
}

-- Accepted changes while the mark stands.
pub data MarkedReach (t : Task) : Task → Type 0 where
  here : MarkedReach t t
  and_then :
      {u v : Task} (change : TaskChange)
      → MarkedReach t u
      → validate_task_change u v change true ≡ none
      → MarkedReach t v

no_output_step :
    (current next : Task) (change : TaskChange)
    → current.output_commit ≡ none
    → Accepted current next change true
    → next.output_commit ≡ none
unfolding stopped_by_cancellation
no_output_step current next change e a =
    ground (arith, output_step current next change true a, a.not_cancelled)

-- While the cancellation mark stands, a sound task without an output commit gets none and is
-- neither published nor put to publishing, whatever changes are accepted.
pub MarkedReach-no_publication :
    {t u : Task}
    → Sound t
    → t.output_commit ≡ none
    → MarkedReach t u
    → Sound u × (u.output_commit ≡ none) × (u.status ≢ publishing) × (u.status ≢ published)
MarkedReach-no_publication {t} s e here =
    (s, e, λ p. ground (arith, s.delivered (inl p)), λ p. ground (arith, s.delivered (inr p)))
MarkedReach-no_publication s e (and_then {u} {v} change r h) =
    let (su, eu, _, _) = MarkedReach-no_publication s e r in
    let sv = validate_task_change-Sound u v change true h su in
    let ev = no_output_step u v change eu (accepted u v change true h) in
    (sv, ev, λ p. ground (arith, sv.delivered (inl p)), λ p. ground (arith, sv.delivered (inr p)))

-- Failing the running sessions changes nothing that the evidence check reads.
session_error-fail :
    (old : Option Session) (s : Session) (m : Text)
    → session_error old (fail_session m s) ≡ session_error old s
unfolding session_error replaces_session fail_session
session_error-fail none s m = refl
session_error-fail (some old) s m = ground arith

repair_of-fail :
    (old : Option Session) (s : Session) (m : Text)
    → repair_of old (fail_session m s) ≡ repair_of old s
unfolding repair_of fail_session
repair_of-fail old s m = ground arith

fail_session-id : (s : Session) (m : Text) → (fail_session m s).id ≡ s.id
unfolding fail_session
fail_session-id s m = ground arith

sessions_error-fail :
    (seen : List Text) (olds ss : List Session) (m : Text)
    → sessions_error seen olds (fail_running ss m) ≡ sessions_error seen olds ss
unfolding sessions_error fail_running
sessions_error-fail seen olds [] m = refl
sessions_error-fail seen olds (s ∷ ss) m = rw (
  fail_session-id s m,
  session_error-fail (head_of olds) s m,
  sessions_error-fail (s.id ∷ seen) (tail_of olds) ss m,
)

new_repairs-fail :
    (olds ss : List Session) (m : Text) → new_repairs olds (fail_running ss m) ≡ new_repairs olds ss
unfolding new_repairs fail_running
new_repairs-fail olds [] m = refl
new_repairs-fail olds (s ∷ ss) m =
    rw (repair_of-fail (head_of olds) s m, new_repairs-fail (tail_of olds) ss m)

length-fail : (ss : List Session) (m : Text) → length (fail_running ss m) ≡ length ss
unfolding fail_running
length-fail [] m = refl
length-fail (s ∷ ss) m = ap suc (length-fail ss m)

-- The check reads the saved task's evidence only, which a cancellation leaves alone.
validate_evidence-baseline :
    (expected current pending : Task)
    → validate_evidence (cancellation_baseline expected current) pending
      ≡ validate_evidence current pending
unfolding validate_evidence cancellation_baseline attempt_reviews
validate_evidence-baseline expected current pending = refl

validate_evidence-cancelled :
    (current pending : Task)
    → validate_evidence current (cancelled_task current pending) ≡ validate_evidence current pending
unfolding validate_evidence cancelled_task
validate_evidence-cancelled current pending = rw (
  length-fail pending.sessions cancelled_message,
  sessions_error-fail [] current.sessions pending.sessions cancelled_message,
  new_repairs-fail current.sessions pending.sessions cancelled_message,
)

cancelled_task-Accepted :
    (expected current pending : Task)
    → current.output_commit ≡ none
    → cancellation_baseline expected current ≡ expected
    → validate_evidence expected pending ≡ none
    → Accepted current (cancelled_task current pending) settlement true
unfolding cancelled_task replaces_identity replaces_output stopped_by_cancellation workspace_gone
    authorized evidence_error allowed
cancelled_task-Accepted expected current pending none_yet same ok = record {
  same_identity = ground arith;
  kept_output = ground arith;
  not_cancelled = ground arith;
  has_workspace = ground arith;
  is_authorized = ground arith;
  evidence_ok =
      validate_evidence-cancelled current pending
      ∙ sym (validate_evidence-baseline expected current pending)
      ∙ ap (λ t. validate_evidence t pending) same
      ∙ ok;
  fields = refl;
}

pub merge_inversion :
    (expected current pending next : Task)
    → merge_cancelled_task expected current pending ≡ merged next
    → (current.output_commit ≡ none)
      × (cancellation_baseline expected current ≡ expected)
      × (validate_evidence expected pending ≡ none)
      × (cancelled_task current pending ≡ next)
unfolding merge_cancelled_task
merge_inversion expected current pending next h = ground arith

-- A cancelled settlement is never refused: when the worker's evidence merges with the cancelled
-- record, the merged task is an accepted settlement of that record under the mark, and is cancelled.
pub merge_cancelled_task-validate :
    (expected current pending next : Task)
    → merge_cancelled_task expected current pending ≡ merged next
    → (validate_task_change current next settlement true ≡ none) × (next.status ≡ cancelled)
merge_cancelled_task-validate expected current pending next h =
    let (none_yet, same, ok, e) = merge_inversion expected current pending next h in
    let a = cancelled_task-Accepted expected current pending none_yet same ok in
    rw (← e) (Accepted-validate current _ settlement true a, unfold cancelled_task in refl)
