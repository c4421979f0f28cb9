-- ===== src/Store/Tasks/Commits.antt =====
-- What a commit of a task record does when it succeeds.
use octomus_agent.Base.{
  Bool, true, ◌&&◌, none, some, text_eq, is_some, is_none, ◌≡◌, refl, arith, sym, ap, ◌∙◌,
  Bool-cases, Option-cases, ◌⊎◌, inl, inr,
}
use octomus_agent.Model.Enums.{cancelled, status_eq}
use octomus_agent.Model.Task.{Task, task_eq}
use octomus_agent.Model.Lifecycle.Change.{TaskChange, validate_task_change}
use octomus_agent.Model.Lifecycle.Cancel.{
  Merged, merged, refused, merge_cancelled_task, cancelled_task, cancellation_baseline,
}
use octomus_agent.Model.Lifecycle.Cancellation.{merge_inversion}
use octomus_agent.Store.Records.{Database, put_task, Result, ok, err}
use octomus_agent.Store.Tasks.{
  TaskError, validated_put, merged_put, commit_current, tx_commit_task, commit_task, is_settlement,
}

-- The saved record is the expected one, or differs from it by a cancellation that the commit settles.
abbrev pub Agrees : Database → Task → Task → Task → TaskChange → Type 0
Agrees db expected current task change =
    (current ≡ expected)
    ⊎ ((is_some (db.cancel_markers expected.id) ≡ true)
        × (is_settlement change ≡ true)
        × (current.output_commit ≡ none)
        × (cancellation_baseline expected current ≡ expected)
        × (task.status ≡ cancelled))

-- What a successful commit did.
pub record Committed (db : Database) (expected : Task) (change : TaskChange) (task : Task)
    (after : Database) : Type 0 where
  pub current : Task
  pub found : db.tasks expected.id ≡ some current
  pub valid :
      validate_task_change current task change (is_some (db.cancel_markers expected.id)) ≡ none
  pub same_id : task.id ≡ expected.id
  pub written : after ≡ put_task db task
  pub agrees : Agrees db expected current task change

validated_put_inversion :
    (db : Database) (current next task : Task) (change : TaskChange) (marked : Bool)
    (after : Database)
    → validated_put db current next change marked ≡ ok (task, after)
    → (validate_task_change current next change marked ≡ none)
      × (task ≡ next)
      × (after ≡ put_task db next)
unfolding validated_put
validated_put_inversion db current next task change marked after h = ground arith

merged_put-Committed :
    (db : Database) (current expected next task : Task) (change : TaskChange) (after : Database)
    → db.tasks expected.id ≡ some current
    → is_some (db.cancel_markers expected.id) ≡ true
    → is_settlement change ≡ true
    → (m : Merged) → merge_cancelled_task expected current next ≡ m
    → merged_put db current m change ≡ ok (task, after)
    → Committed db expected change task after
unfolding merged_put cancelled_task cancellation_baseline
merged_put-Committed db current expected next task change after found marked settles (merged n) e
      h =
    let (fresh, base, _, made) = merge_inversion expected current next n e in
    let (v, t, w) = validated_put_inversion db current n task change true after h in
    record {
      current = current;
      found = found;
      valid = rw (t, marked) v;
      same_id = ap (λ x. x.id) t ∙ (sym (ap (λ x. x.id) made) ∙ ap (λ x. x.id) base);
      written = w ∙ ap (put_task db) (sym t);
      agrees = inr (marked, settles, fresh, base, ground (arith, made, t));
    }
merged_put-Committed db current expected next task change after found marked settles (refused r) e
      h =
    absurd (cc)

-- The two ways through a commit that succeeds: a merged cancellation, or the expected record.
commit_current-Committed :
    (db : Database) (current expected next task : Task) (change : TaskChange) (after : Database)
    → db.tasks expected.id ≡ some current
    → next.id ≡ expected.id
    → commit_current db current expected next change ≡ ok (task, after)
    → Committed db expected change task after
unfolding commit_current
commit_current-Committed db current expected next task change after found named h =
    elim (Bool-cases (
      is_some (db.cancel_markers expected.id)
      && is_none current.output_commit
      && is_settlement change)) [
        | inl merging ↦
            merged_put-Committed db current expected next task change after found (ground arith)
              (ground arith) (merge_cancelled_task expected current next) refl
              (rw (merging, commit_current) at h)
        | inr plain ↦
            let put : validated_put db current next change (is_some (db.cancel_markers expected.id))
                ≡ ok (task, after) =
              ground arith in
            let (v, t, w) = validated_put_inversion db current next task change _ after put in
            record {
              current = current;
              found = found;
              valid = rw t v;
              same_id = ap (λ x. x.id) t ∙ named;
              written = w ∙ ap (put_task db) (sym t);
              agrees = inl (ground arith);
            }
      ]

pub tx_commit_task-Committed :
    (db : Database) (expected next task : Task) (change : TaskChange) (after : Database)
    → tx_commit_task db expected next change ≡ ok (task, after)
    → Committed db expected change task after
unfolding tx_commit_task
tx_commit_task-Committed db expected next task change after h =
    elim (Option-cases (db.tasks expected.id)) [
      | inl missing ↦ absurd (ground arith)
      | inr (current, found) ↦
          commit_current-Committed db current expected next task change after found (ground arith)
            (ground arith)
    ]

-- A commit that fails leaves the store as it was. One that succeeds found the record that the caller
-- expected, or that record under a cancellation which it settles as cancelled, so it overwrites no
-- other change; it writes the validated task under the expected identity and no other record.
pub commit_task-no_lost_update :
    (db : Database) (expected next : Task) (change : TaskChange)
    → ((e : TaskError) × (commit_task db expected next change ≡ (err e, db)))
      ⊎ ((task : Task) × (after : Database) × (commit_task db expected next change
            ≡ (ok task, after))
          × Committed db expected change task after)
unfolding commit_task
commit_task-no_lost_update db expected next change =
    transaction_cases (tx_commit_task db expected next change) refl
  where
    transaction_cases :
        (r : Result TaskError (Task × Database))
        → tx_commit_task db expected next change ≡ r
        → ((e : TaskError) × (commit_task db expected next change ≡ (err e, db)))
          ⊎ ((task : Task) × (after : Database) × (commit_task db expected next change
                ≡ (ok task, after))
              × Committed db expected change task after)
    transaction_cases (ok (task, after)) e =
        inr
          (task, after, ground arith, tx_commit_task-Committed db expected next task change after e)
    transaction_cases (err x) e = inl (x, ground arith)
