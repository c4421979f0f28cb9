-- ===== src/Model/Lifecycle/Growth.antt =====
-- What an accepted change may do to the output commit and to the evidence of a task.
use octomus_agent.Base.{
  Bool, true, none, some, ◌≡◌, refl, arith, sym, ap, ◌⊎◌, inl, inr, List, [], ◌∷◌, DecEq, Extends,
  Text, Option-cases,
}
use octomus_agent.Model.Enums.{publishing}
use octomus_agent.Model.Types.{review_round_eq, verification_eq}
use octomus_agent.Model.Task.{Task}
use octomus_agent.Model.Reviews.{review_authorizes}
use octomus_agent.Model.Lifecycle.Evidence.{history_prefix, validate_evidence}
use octomus_agent.Model.Lifecycle.Change.{TaskChange, authorize_publication, authorized, allowed}
use octomus_agent.Model.Lifecycle.Accepted.{Accepted}

pub history_prefix-Extends {ℓ} :
    {A : Type ℓ} ⦃e : DecEq A⦄ (before after : List A)
    → history_prefix before after ≡ true
    → Extends before after
unfolding history_prefix
history_prefix-Extends [] after h = (after, refl)
history_prefix-Extends (x ∷ before) [] h = absurd (cc)
history_prefix-Extends (x ∷ before) (y ∷ after) h =
    let (added, e) = history_prefix-Extends before after (ground arith) in (added, ground arith)

-- The reviews and verification results of evidence that passes its check are added at the end.
pub validate_evidence-Extends :
    (expected pending : Task)
    → validate_evidence expected pending ≡ none
    → Extends expected.reviews pending.reviews × Extends expected.verification pending.verification
unfolding validate_evidence
validate_evidence-Extends expected pending h = (
  history_prefix-Extends expected.reviews pending.reviews (ground arith),
  history_prefix-Extends expected.verification pending.verification (ground arith),
)

pub output_step :
    (current next : Task) (change : TaskChange) (marked : Bool)
    → Accepted current next change marked
    → (next.output_commit ≡ current.output_commit)
      ⊎ ((commit : Text) × (change ≡ authorize_publication)
          × (next.output_commit ≡ some commit)
          × (review_authorizes next commit ≡ true)
          × (next.status ≡ publishing))
unfolding authorized allowed
output_step current next authorize_publication marked a = elim (Option-cases next.output_commit) [
  | inl e ↦ absurd (ground arith)
  | inr (commit, e) ↦ inr (commit, refl, e, ground arith, ground arith)
]
output_step current next _ marked a = inl (sym (ap (λ t. t.output_commit) a.fields))
