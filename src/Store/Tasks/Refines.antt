-- ===== src/Store/Tasks/Refines.antt =====
-- How the validated writes of the store move the saved tasks (internal/store/task_lifecycle.go,
-- store.go).
use octomus_agent.Base.{
  Bool, Text, ◌||◌, Option, none, some, ◌==◌, text_eq, is_some, ◌≡◌, refl, arith, subst, ◌∙◌,
  Bool-cases, inl, inr, ==→≡,
}
use octomus_agent.Model.Enums.{publishing, published, status_eq}
use octomus_agent.Model.Task.{Task, task_eq}
use octomus_agent.Model.Lifecycle.Change.{TaskChange, retry, resolve, cancel}
use octomus_agent.Model.Lifecycle.Run.{step, Reach, here, and_then}
use octomus_agent.Store.Tasks.Commits.{Committed, tx_commit_task-Committed}
use octomus_agent.Store.Records.{Database, put_task, put_marker, Result, ok, err, transaction}
use octomus_agent.Store.Tasks.{
  TaskError, tx_commit_task, commit_task, reset_task_cancellation, retry_task, mark_cancel,
  cancelled_record, cancel_current, report_cancelled, cancel_found, cancel_task,
}

-- Between two states of the store, every saved task is kept, moved by accepted changes only, and
-- every task found later was there before.
pub record Evolves (db after : Database) : Type 0 where
  pub kept :
      (id : Text) (t : Task)
      → db.tasks id ≡ some t
      → (u : Task) × (after.tasks id ≡ some u) × Reach t u
  pub traced :
      (id : Text) (u : Task)
      → after.tasks id ≡ some u
      → (t : Task) × (db.tasks id ≡ some t) × Reach t u

Evolves-refl : (db : Database) → Evolves db db
Evolves-refl db = record { kept = λ id t e. (t, e, here); traced = λ id u e. (u, e, here) }

Committed-kept :
    (db : Database) (expected : Task) (change : TaskChange) (task : Task) (after : Database)
    → Committed db expected change task after
    → (other : Text) (t : Task) → db.tasks other ≡ some t
    → (u : Task) × (after.tasks other ≡ some u) × Reach t u
unfolding put_task
Committed-kept db expected change task after c other t e = elim (Bool-cases (other == task.id)) [
  | inl same ↦
      let at_id : other ≡ expected.id = ==→≡ other task.id same ∙ c.same_id in
      let is_current : t ≡ c.current = cc in
      (
        task,
        ground (arith, c.written),
        and_then here
            (step change (is_some (db.cancel_markers expected.id)) (rw is_current c.valid)),
      )
  | inr differs ↦ (t, ground (arith, c.written), here)
]

Committed-traced :
    (db : Database) (expected : Task) (change : TaskChange) (task : Task) (after : Database)
    → Committed db expected change task after
    → (other : Text) (u : Task) → after.tasks other ≡ some u
    → (t : Task) × (db.tasks other ≡ some t) × Reach t u
unfolding put_task
Committed-traced db expected change task after c other u e = elim (Bool-cases (other == task.id)) [
  | inl same ↦
      let at_id : other ≡ expected.id = ==→≡ other task.id same ∙ c.same_id in
      let is_task : u ≡ task = ground (arith, c.written) in
      (
        c.current,
        cc c.found,
        and_then here (step change (is_some (db.cancel_markers expected.id)) (rw is_task c.valid)),
      )
  | inr differs ↦ (u, ground (arith, c.written), here)
]

pub tx_commit_task-Evolves :
    (db : Database) (expected next task : Task) (change : TaskChange) (after : Database)
    → tx_commit_task db expected next change ≡ ok (task, after)
    → Evolves db after
tx_commit_task-Evolves db expected next task change after h =
    let c = tx_commit_task-Committed db expected next task change after h in
    record {
      kept = Committed-kept db expected change task after c;
      traced = Committed-traced db expected change task after c;
    }

-- A failed operation leaves the store as it was.
transaction-Evolves {ℓ} :
    {A : Type ℓ} (db : Database) (f : Database → Result TaskError (A × Database))
    → (r : Result TaskError (A × Database)) → f db ≡ r
    → ((a : A) (after : Database) → r ≡ ok (a, after) → Evolves db after)
    → Evolves db (transaction db f).1
transaction-Evolves db f (ok (a, after)) e h = rw (e, transaction) (h a after refl)
transaction-Evolves db f (err x) e h = rw (e, transaction) (Evolves-refl db)

-- A commit moves the saved tasks along accepted changes.
pub commit_task-Evolves :
    (db : Database) (expected next : Task) (change : TaskChange)
    → Evolves db (commit_task db expected next change).1
unfolding commit_task
commit_task-Evolves db expected next change =
    transaction-Evolves db (λ tx. tx_commit_task tx expected next change) _ refl
      (λ task after e. tx_commit_task-Evolves db expected next task change after e)

-- The markers are no part of the tasks.
put_marker-Evolves :
    (db : Database) (id : Text) (marker : Option Text) (after : Database)
    → Evolves (put_marker db id marker) after
    → Evolves db after
unfolding put_marker
put_marker-Evolves db id marker after v = record { kept = v.kept; traced = v.traced }

pub reset_task_cancellation-Evolves :
    (db : Database) (expected task : Task) → Evolves db (reset_task_cancellation db expected task).1
unfolding reset_task_cancellation
reset_task_cancellation-Evolves db expected task =
    transaction-Evolves db (λ tx. tx_commit_task (put_marker tx task.id none) expected task resolve)
      _ refl
      (λ t after e.
        put_marker-Evolves db task.id none after
          (tx_commit_task-Evolves (put_marker db task.id none) expected task t resolve after e))

pub retry_task-Evolves :
    (db : Database) (expected task : Task) → Evolves db (retry_task db expected task).1
unfolding retry_task
retry_task-Evolves db expected task =
    transaction-Evolves db (λ tx. tx_commit_task (put_marker tx task.id none) expected task retry) _
      refl
      (λ t after e.
        put_marker-Evolves db task.id none after
          (tx_commit_task-Evolves (put_marker db task.id none) expected task t retry after e))

pub mark_cancel-Evolves : (db : Database) (id now : Text) → Evolves db (mark_cancel db id now)
unfolding mark_cancel
mark_cancel-Evolves db id now = put_marker-Evolves db id (some now) _ (Evolves-refl _)

report_cancelled_inversion :
    (r : Result TaskError (Task × Database)) (a : Bool) (after : Database)
    → report_cancelled r ≡ ok (a, after)
    → (t : Task) × (r ≡ ok (t, after))
unfolding report_cancelled
report_cancelled_inversion (ok (t, d)) a after h = (t, ground arith)
report_cancelled_inversion (err e) a after h = absurd (cc)

cancel_current-Evolves :
    (db : Database) (current : Task) (now : Text) (a : Bool) (after : Database)
    → cancel_current db current now ≡ ok (a, after)
    → Evolves db after
unfolding cancel_current
cancel_current-Evolves db current now a after h =
    elim (Bool-cases (
      is_some current.output_commit
      || current.status == publishing
      || current.status == published)) [
        | inl late ↦
            let same : db ≡ after = ground arith in subst (λ d. Evolves db d) same (Evolves-refl db)
        | inr early ↦
            let (t, committed) =
              report_cancelled_inversion
                (tx_commit_task db current (cancelled_record current now) cancel) a after
                (rw (early, cancel_current) at h) in
            tx_commit_task-Evolves db current (cancelled_record current now) t cancel after
              committed
      ]

cancel_found-Evolves :
    (db : Database) (found : Option Task) (now : Text) (a : Bool) (after : Database)
    → cancel_found db found now ≡ ok (a, after)
    → Evolves db after
unfolding cancel_found
cancel_found-Evolves db none now a after h =
    let same : db ≡ after = ground arith in subst (λ d. Evolves db d) same (Evolves-refl db)
cancel_found-Evolves db (some current) now a after h =
    cancel_current-Evolves db current now a after h

-- A cancellation moves the saved tasks along accepted changes.
pub cancel_task-Evolves : (db : Database) (id now : Text) → Evolves db (cancel_task db id now).1
unfolding cancel_task
cancel_task-Evolves db id now =
    transaction-Evolves db (λ tx. cancel_found tx (tx.tasks id) now) _ refl
      (λ a after e. cancel_found-Evolves db (db.tasks id) now a after e)
