-- ===== src/Model/Lifecycle/Sound.antt =====
-- The invariant of a saved task: publication rests on an output commit, an output commit on a clean
-- review of that very revision, and a retired workspace has no work left.
use octomus_agent.Base.{
  Bool, true, false, ◌||◌, none, some, ◌≡◌, arith, ap, is_some, ◌⊎◌, inl, inr, ◌≢◌, Extends,
  Extends-of_eq, Any, Any-last?, Any-map, Any-Extends, Text, Option-cases, contains, text_eq, last?,
}
use octomus_agent.Config.Types.{standard}
use octomus_agent.Config.Identity.{effective_categories}
use octomus_agent.Model.Enums.{queued, publishing, published}
use octomus_agent.Model.Types.{ReviewRound}
use octomus_agent.Model.Task.{Task}
use octomus_agent.Model.Status.{active}
use octomus_agent.Model.Sessions.{clean}
use octomus_agent.Model.Reviews.{refuses_maintenance, round_authorizes, review_authorizes}
use octomus_agent.Model.Lifecycle.Change.{
  TaskChange, checkpoint, prepare, authorize_publication, settlement, authorized, allowed,
  evidence_error, workspace_gone, validate_task_change,
}
use octomus_agent.Model.Lifecycle.Accepted.{Accepted, accepted, identity_kept}
use octomus_agent.Model.Lifecycle.Growth.{output_step, validate_evidence-Extends}

-- The round approves the commit under the task's delivery mode.
abbrev pub Clears : Task → Text → ReviewRound → Type 0
Clears t commit round =
    (round.revision ≡ commit)
    × (clean round.result ≡ true)
    × ((t.config.delivery_mode ≡ standard)
        ⊎ ((refuses_maintenance round.maintenance ≡ false)
            × (contains (effective_categories t.config) t.proposal.category ≡ true)))

abbrev pub IsRetired : Task → Type 0
IsRetired t = (is_some t.lifecycle.archived_at || is_some t.lifecycle.discarded_at) ≡ true

pub record Sound (t : Task) : Type 0 where
  pub delivered : (t.status ≡ publishing) ⊎ (t.status ≡ published) → is_some t.output_commit ≡ true
  pub cleared : (commit : Text) → t.output_commit ≡ some commit → Any (Clears t commit) t.reviews
  pub idle : IsRetired t → (active t.status ≡ false) × (t.status ≢ queued)

round_authorizes-Clears :
    (t : Task) (commit : Text) (round : ReviewRound)
    → round_authorizes t commit round ≡ true
    → Clears t commit round
unfolding round_authorizes
round_authorizes-Clears t commit round h = ground arith

pub review_authorizes-Any :
    (t : Task) (commit : Text) → review_authorizes t commit ≡ true → Any (Clears t commit) t.reviews
unfolding review_authorizes
review_authorizes-Any t commit h = elim (Option-cases (last? t.reviews)) [
  | inl e ↦ absurd (ground arith)
  | inr (round, e) ↦ Any-last? t.reviews e (round_authorizes-Clears t commit round (ground arith))
]

-- Every accepted change keeps the saved reviews and verification results, in order.
pub histories_step :
    (current next : Task) (change : TaskChange) (marked : Bool)
    → Accepted current next change marked
    → Extends current.reviews next.reviews × Extends current.verification next.verification
unfolding evidence_error allowed
histories_step current next checkpoint marked a =
    validate_evidence-Extends current next a.evidence_ok
histories_step current next prepare marked a = validate_evidence-Extends current next a.evidence_ok
histories_step current next authorize_publication marked a =
    validate_evidence-Extends current next a.evidence_ok
histories_step current next settlement marked a =
    validate_evidence-Extends current next a.evidence_ok
histories_step current next _ marked a = (
  Extends-of_eq current.reviews next.reviews (ap (λ t. t.reviews) a.fields),
  Extends-of_eq current.verification next.verification (ap (λ t. t.verification) a.fields),
)

delivered_step :
    (current next : Task) (change : TaskChange) (marked : Bool)
    → Accepted current next change marked
    → Sound current
    → (next.status ≡ publishing) ⊎ (next.status ≡ published)
    → is_some next.output_commit ≡ true
unfolding authorized allowed
delivered_step current next authorize_publication marked a s h = ground arith
delivered_step current next _ marked a s h = ground arith

idle_step :
    (current next : Task) (change : TaskChange) (marked : Bool)
    → Accepted current next change marked
    → Sound current
    → IsRetired next
    → (active next.status ≡ false) × (next.status ≢ queued)
unfolding authorized allowed workspace_gone
idle_step current next authorize_publication marked a s h = ground arith
idle_step current next _ marked a s h = ground arith

Clears-next :
    (current next : Task) (change : TaskChange) (marked : Bool) (commit : Text)
    → Accepted current next change marked
    → (round : ReviewRound) → Clears current commit round
    → Clears next commit round
Clears-next current next change marked commit a round c =
    let i = identity_kept current next a.same_identity in rw (← i.config, ← i.proposal) c

cleared_step :
    (current next : Task) (change : TaskChange) (marked : Bool)
    → Accepted current next change marked
    → Sound current
    → (commit : Text) → next.output_commit ≡ some commit
    → Any (Clears next commit) next.reviews
cleared_step current next change marked a s commit e =
    elim (output_step current next change marked a) [
      | inl same ↦
          Any-Extends current.reviews next.reviews (histories_step current next change marked a).0
            (Any-map (Clears-next current next change marked commit a) (s.cleared commit (cc)))
      | inr (c, _, e', r, _) ↦ review_authorizes-Any next commit (ground arith)
    ]

-- Every accepted change keeps a sound task sound.
pub validate_task_change-Sound :
    (current next : Task) (change : TaskChange) (marked : Bool)
    → validate_task_change current next change marked ≡ none
    → Sound current
    → Sound next
validate_task_change-Sound current next change marked h s =
    let a = accepted current next change marked h in
    record {
      delivered = delivered_step current next change marked a s;
      cleared = cleared_step current next change marked a s;
      idle = idle_step current next change marked a s;
    }
