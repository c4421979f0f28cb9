-- ===== src/Model/Lifecycle/Run.antt =====
-- A task's life: the accepted changes from its plan on, in any order and under any cancellation
-- marks.
use octomus_agent.Base.{
  Bool, true, none, some, ◌≡◌, refl, arith, is_some, ◌⊎◌, inl, inr, Extends, Extends-refl,
  Extends-trans, Any, Text, Option-cases,
}
use octomus_agent.Model.Enums.{queued, published, status_eq}
use octomus_agent.Model.Task.{Task}
use octomus_agent.Model.Lifecycle.Change.{
  TaskChange, checkpoint, authorized, allowed, workspace_gone, validate_task_change,
}
use octomus_agent.Model.Lifecycle.Accepted.{
  Accepted, accepted, SameIdentity, identity_kept, output_kept,
}
use octomus_agent.Model.Lifecycle.Sound.{Clears, Sound, histories_step, validate_task_change-Sound}

pub data Step : Task → Task → Type 0 where
  step :
      {current next : Task} (change : TaskChange) (marked : Bool)
      → validate_task_change current next change marked ≡ none
      → Step current next

pub data Reach (t : Task) : Task → Type 0 where
  here : Reach t t
  and_then : {u v : Task} → Reach t u → Step u v → Reach t v

-- A task as its plan creates it.
pub record IsPlanned (t : Task) : Type 0 where
  pub is_queued : t.status ≡ queued
  pub no_output : t.output_commit ≡ none
  pub no_archive : t.lifecycle.archived_at ≡ none
  pub no_discard : t.lifecycle.discarded_at ≡ none

pub IsPlanned-Sound : (t : Task) → IsPlanned t → Sound t
IsPlanned-Sound t p = record {
  delivered = λ h. ground arith;
  cleared = λ commit e. absurd (cc p.no_output);
  idle = λ h. ground arith;
}

pub Reach-Sound : {t u : Task} → Sound t → Reach t u → Sound u
Reach-Sound s here = s
Reach-Sound s (and_then r (step {current = u} {next = v} change marked h)) =
    validate_task_change-Sound u v change marked h (Reach-Sound s r)

pub Sound-published :
    (u : Task)
    → Sound u
    → u.status ≡ published
    → (commit : Text) × (u.output_commit ≡ some commit) × Any (Clears u commit) u.reviews
Sound-published u s e = elim (Option-cases u.output_commit) [
  | inl no_commit ↦ absurd (ground (arith, s.delivered (inr e)))
  | inr (commit, found) ↦ (commit, found, s.cleared commit found)
]

-- A task that is published, at the end of any accepted changes from its plan, has an output commit,
-- and one of its recorded reviews is clean, is of that very commit, and in a maintenance delivery
-- qualifies the change and its category.
pub published-Any_clear :
    (t u : Task)
    → IsPlanned t
    → Reach t u
    → u.status ≡ published
    → (commit : Text) × (u.output_commit ≡ some commit) × Any (Clears u commit) u.reviews
published-Any_clear t u p r e = Sound-published u (Reach-Sound (IsPlanned-Sound t p) r) e

-- What a later record of a task keeps of an earlier one.
pub record Keeps (t u : Task) : Type 0 where
  pub identity : SameIdentity t u
  pub output : (t.output_commit ≡ none) ⊎ (u.output_commit ≡ t.output_commit)
  pub reviews : Extends t.reviews u.reviews
  pub verification : Extends t.verification u.verification
  pub archived :
      (t.lifecycle.archived_at ≡ none) ⊎ (u.lifecycle.archived_at ≡ t.lifecycle.archived_at)
  pub discarded : is_some t.lifecycle.discarded_at ≡ true → is_some u.lifecycle.discarded_at ≡ true

archived_step :
    (current next : Task) (change : TaskChange) (marked : Bool)
    → Accepted current next change marked
    → (current.lifecycle.archived_at ≡ none)
      ⊎ (next.lifecycle.archived_at ≡ current.lifecycle.archived_at)
unfolding allowed workspace_gone
archived_step current next checkpoint marked a = ground arith
archived_step current next _ marked a = ground arith

discarded_step :
    (current next : Task) (change : TaskChange) (marked : Bool)
    → Accepted current next change marked
    → is_some current.lifecycle.discarded_at ≡ true
    → is_some next.lifecycle.discarded_at ≡ true
unfolding allowed authorized
discarded_step current next checkpoint marked a h = ground arith
discarded_step current next _ marked a h = ground arith

Step-Keeps : {t u : Task} → Step t u → Keeps t u
Step-Keeps (step {current = t} {next = u} change marked h) =
    let a = accepted t u change marked h in
    record {
      identity = identity_kept t u a.same_identity;
      output = output_kept t u a.kept_output;
      reviews = (histories_step t u change marked a).0;
      verification = (histories_step t u change marked a).1;
      archived = archived_step t u change marked a;
      discarded = discarded_step t u change marked a;
    }

Keeps-trans : (t u v : Task) → Keeps t u → Keeps u v → Keeps t v
Keeps-trans t u v p q = record {
  identity = ground (arith, p.identity, q.identity);
  output = ground (arith, p.output, q.output);
  reviews = Extends-trans t.reviews u.reviews v.reviews p.reviews q.reviews;
  verification =
      Extends-trans t.verification u.verification v.verification p.verification q.verification;
  archived = ground (arith, p.archived, q.archived);
  discarded = λ h. q.discarded (p.discarded h);
}

Keeps-refl : (t : Task) → Keeps t t
Keeps-refl t = record {
  identity = ground arith;
  output = inr refl;
  reviews = Extends-refl t.reviews;
  verification = Extends-refl t.verification;
  archived = inr refl;
  discarded = λ h. h;
}

-- However long a task lives, its planning identity, an output commit once it is set, and an archive
-- time once it is set stay what they were, its reviews and verification results only grow at the
-- end, and a discarded workspace stays discarded.
pub Reach-Keeps : {t u : Task} → Reach t u → Keeps t u
Reach-Keeps {t} here = Keeps-refl t
Reach-Keeps {t} (and_then {u} {v} r s) = Keeps-trans t u v (Reach-Keeps r) (Step-Keeps s)
