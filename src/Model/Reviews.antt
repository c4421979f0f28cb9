-- ===== src/Model/Reviews.antt =====
-- internal/model/maintenance.go and verification.go: what a review authorizes, and the recorded
-- results of one verification command.
use octomus_agent.Base.{
  ℕ, suc, Bool, true, false, ◌&&◌, ◌||◌, not, List, [], ◌∷◌, Option, none, some, if◌then◌else◌,
  ◌==◌, ◌!=◌, Text, text_eq, codes, is_blank, contains, last?,
}
use octomus_agent.Config.Types.{standard, maintenance, delivery_mode_eq}
use octomus_agent.Config.Identity.{effective_categories}
use octomus_agent.Model.Enums.{completed, session_status_eq}
use octomus_agent.Model.Types.{Session, ReviewRound, Verification, MaintenanceAssessment}
use octomus_agent.Model.Task.{Task}
use octomus_agent.Model.Sessions.{clean}

-- The last loop of ReviewAuthorizes: the round's session is a completed reviewer session.
unfoldable pub has_reviewer_session : Text → List Session → Bool
has_reviewer_session id [] = false
has_reviewer_session id (s ∷ ss) =
    (s.id == id && s.role == codes "reviewer" && s.status == completed)
    || has_reviewer_session id ss

-- round.Maintenance == nil || !Qualifies || the reason is blank
abbrev pub refuses_maintenance : Option MaintenanceAssessment → Bool
refuses_maintenance none = true
refuses_maintenance (some m) = not m.qualifies || is_blank m.reason

unfoldable pub maintenance_review : Task → ReviewRound → Bool
unfolding has_reviewer_session
maintenance_review t round =
    if t.config.delivery_mode != maintenance
      || t.proposal.category == codes "features"
      || not (contains (effective_categories t.config) t.proposal.category)
      || t.comparison_base == []
      || round.comparison_base != t.comparison_base
      || refuses_maintenance round.maintenance
    then false
    else has_reviewer_session round.session_id t.sessions

unfoldable pub round_authorizes : Task → Text → ReviewRound → Bool
unfolding maintenance_review
round_authorizes t revision round =
    if round.revision != revision || not (clean round.result)
    then false
    else if t.config.delivery_mode == standard
    then true
    else maintenance_review t round

unfoldable pub review_authorizes : Task → Text → Bool
unfolding round_authorizes
review_authorizes t revision =
    if revision == []
    then false
    else elim (last? t.reviews) [ none ↦ false | some round ↦ round_authorizes t revision round ]

pub record VerificationHistory : Type 0 where
  pub latest : Option Verification
  pub recorded : ℕ

-- The body of the loop of VerificationFor.
unfoldable pub record_result : Text → VerificationHistory → Verification → VerificationHistory
record_result command history v =
    if v.command == command
    then record { latest = some v; recorded = suc history.recorded }
    else history

unfoldable pub verification_from :
    Text → VerificationHistory → List Verification → VerificationHistory
unfolding record_result
verification_from command history [] = history
verification_from command history (v ∷ vs) =
    verification_from command (record_result command history v) vs

unfoldable pub verification_for : Task → Text → VerificationHistory
unfolding verification_from
verification_for t command =
    verification_from command (record { latest = none; recorded = 0 }) t.verification
