-- ===== src/Model/Lifecycle/Evidence.antt =====
-- internal/model/task_lifecycle.go: the evidence of a task (sessions, reviews, verification and
-- repair accounting) and the check that a change only adds to it. Sums of uint64 counters wrap.
use octomus_agent.Base.{
  ℕ, ◌+◌, u64, Bool, true, false, ◌&&◌, ◌||◌, not, List, [], ◌∷◌, Option, none, some, if◌then◌else◌,
  ◌==◌, ◌!=◌, DecEq, nat_eq, ltb, length, Text, text_eq, codes, contains,
}
use octomus_agent.Config.Types.{route_eq}
use octomus_agent.Model.Enums.{completed, session_status_eq}
use octomus_agent.Model.Types.{Session, review_round_eq, verification_eq}
use octomus_agent.Model.Task.{Task}
use octomus_agent.Model.Sessions.{attempt_reviews}

pub data EvidenceError : Type 0 where
  committed_evidence session_repeated session_replaced turn_forgotten : EvidenceError
  repair_accounting legacy_accounting accounting_missing : EvidenceError

-- The length test and the loop in one: a shorter list runs out first.
unfoldable pub history_prefix {ℓ} : {A : Type ℓ} ⦃e : DecEq A⦄ → List A → List A → Bool
history_prefix [] after = true
history_prefix (x ∷ before) [] = false
history_prefix (x ∷ before) (y ∷ after) = x == y && history_prefix before after

unfoldable pub copy_evidence : Task → Task → Task
copy_evidence next evidence = record next {
  sessions = evidence.sessions;
  reviews = evidence.reviews;
  verification = evidence.verification;
  repair_rounds = evidence.repair_rounds;
  repair_progress = evidence.repair_progress;
}

-- old.FirstTurnStarted != nil && *old.FirstTurnStarted && !(session's is set)
abbrev is_set : Option Bool → Bool
is_set none = false
is_set (some b) = b

unfoldable pub replaces_session : Session → Session → Bool
replaces_session old session =
    old.id != session.id
    || old.role != session.role
    || old.started_at != session.started_at
    || old.route != session.route

unfoldable pub completed_repair : Session → Bool
completed_repair session = session.role == codes "repair" && session.status == completed

abbrev was_completed : Option Session → Bool
was_completed none = false
was_completed (some old) = old.status == completed

-- What one round of the session loop adds to `repairs`.
unfoldable pub repair_of : Option Session → Session → ℕ
unfolding completed_repair
repair_of old session = if completed_repair session && not (was_completed old) then 1 else 0

-- The guards of one round against the saved session at the same index, when there is one.
unfoldable pub session_error : Option Session → Session → Option EvidenceError
unfolding replaces_session
session_error none session = none
session_error (some old) session =
    if replaces_session old session
    then some session_replaced
    else if is_set old.first_turn_started && not (is_set session.first_turn_started)
    then some turn_forgotten
    else none

abbrev pub head_of : List Session → Option Session
head_of [] = none
head_of (s ∷ _) = some s

abbrev pub tail_of : List Session → List Session
tail_of [] = []
tail_of (_ ∷ ss) = ss

abbrev pub or_else : Option EvidenceError → Option EvidenceError → Option EvidenceError
or_else (some e) rest = some e
or_else none rest = rest

-- The first error of the session loop. `seen` holds the identities of the rounds before.
unfoldable pub sessions_error : List Text → List Session → List Session → Option EvidenceError
unfolding session_error
sessions_error seen olds [] = none
sessions_error seen olds (s ∷ ss) =
    let rest = sessions_error (s.id ∷ seen) (tail_of olds) ss in
    if s.id == [] || contains seen s.id
    then some session_repeated
    else or_else (session_error (head_of olds) s) rest

-- The count `repairs` after the session loop.
unfoldable pub new_repairs : List Session → List Session → ℕ
unfolding repair_of
new_repairs olds [] = 0
new_repairs olds (s ∷ ss) = repair_of (head_of olds) s + new_repairs (tail_of olds) ss

unfoldable pub accounting_error : Option ℕ → Option ℕ → ℕ → ℕ → Option EvidenceError
accounting_error (some rounds) none reviews repairs = some repair_accounting
accounting_error (some rounds) (some n) reviews repairs =
    if n != u64 (rounds + repairs) then some repair_accounting else none
accounting_error none (some n) reviews repairs =
    if n != u64 (reviews + repairs) then some legacy_accounting else none
accounting_error none none reviews repairs = if repairs != 0 then some accounting_missing else none

unfoldable pub validate_evidence : Task → Task → Option EvidenceError
unfolding sessions_error new_repairs accounting_error history_prefix
validate_evidence expected pending =
    if ltb (length pending.sessions) (length expected.sessions)
      || not (history_prefix expected.reviews pending.reviews)
      || not (history_prefix expected.verification pending.verification)
    then some committed_evidence
    else or_else (sessions_error [] expected.sessions pending.sessions) (
        accounting_error expected.repair_rounds pending.repair_rounds (attempt_reviews expected)
          (new_repairs expected.sessions pending.sessions))
