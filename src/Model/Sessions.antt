-- ===== src/Model/Sessions.antt =====
-- internal/model/model.go: runner sessions, reviews and the attempt policy.
use octomus_agent.Base.{
  ℕ, suc, ◌-◌, Bool, true, false, ◌&&◌, not, List, [], ◌∷◌, none, some, if◌then◌else◌, ◌==◌, ltb,
  length, Text, text_eq, is_blank,
}
use octomus_agent.Config.Types.{Config}
use octomus_agent.Model.Enums.{running, completed, failed, interrupted, session_status_eq}
use octomus_agent.Model.Types.{Session, Review, Finding, AttemptPolicy}
use octomus_agent.Model.Task.{Task}

unfoldable pub mark_interrupted : Session → Session
mark_interrupted s = record s { status = interrupted }

unfoldable pub interrupt_running : List Session → List Session
unfolding mark_interrupted
interrupt_running [] = []
interrupt_running (s ∷ ss) =
    (if s.status == running then mark_interrupted s else s) ∷ interrupt_running ss

unfoldable pub completed_sessions : List Session → ℕ
completed_sessions [] = 0
completed_sessions (s ∷ ss) =
    let n = completed_sessions ss in if s.status == completed then suc n else n

-- The body of the loop of FailRunning.
unfoldable pub fail_session : Text → Session → Session
fail_session summary s =
    if s.status == running
    then record s { status = failed; summary = if s.summary == [] then summary else s.summary }
    else s

unfoldable pub fail_running : List Session → Text → List Session
unfolding fail_session
fail_running [] summary = []
fail_running (s ∷ ss) summary = fail_session summary s ∷ fail_running ss summary

abbrev no_findings : List Finding → Bool
no_findings [] = true
no_findings (_ ∷ _) = false

unfoldable pub valid : Review → Bool
unfolding is_blank
valid r = r.completed && not (is_blank r.summary)

unfoldable pub clean : Review → Bool
unfolding valid
clean r = valid r && no_findings r.findings

unfoldable pub policy_of : Config → AttemptPolicy
policy_of c = record {
  max_repair_rounds = c.max_repair_rounds;
  max_no_progress_rounds = c.max_no_progress_rounds;
  max_retries = c.max_retries;
  task_timeout_seconds = c.task_timeout_seconds;
  session_timeout_seconds = c.session_timeout_seconds;
  command_timeout_seconds = c.command_timeout_seconds;
}

unfoldable pub apply_policy : AttemptPolicy → Config → Config
apply_policy p c = record c {
  max_repair_rounds = p.max_repair_rounds;
  max_no_progress_rounds = p.max_no_progress_rounds;
  max_retries = p.max_retries;
  task_timeout_seconds = p.task_timeout_seconds;
  session_timeout_seconds = p.session_timeout_seconds;
  command_timeout_seconds = p.command_timeout_seconds;
}

unfoldable pub attempt_reviews : Task → ℕ
attempt_reviews t =
    if ltb (length t.reviews) t.review_baseline then 0 else length t.reviews - t.review_baseline

unfoldable pub execution_config : Task → Config
unfolding apply_policy
execution_config t = elim t.attempt_policy [ none ↦ t.config | some p ↦ apply_policy p t.config ]
