-- ===== src/Store/Tasks.antt =====
-- internal/store/task_lifecycle.go and store.go: the operations that write task records. The time
-- of the call is an argument.
pub mod Commits
pub mod Refines
pub mod History
use octomus_agent.Base.{
  Text, Bool, true, false, ◌&&◌, ◌||◌, not, Option, none, some, ◌==◌, ◌!=◌, text_eq, if◌then◌else◌,
  is_some, is_none, [],
}
use octomus_agent.Config.Identity.{equal_ascii}
use octomus_agent.Model.Enums.{queued, publishing, published, cancelled, status_eq}
use octomus_agent.Model.Task.{Task, task_eq}
use octomus_agent.Model.Lifecycle.Change.{
  TaskChange, checkpoint, prepare, authorize_publication, settlement, retry, resolve, cancel,
  ChangeError, validate_task_change,
}
use octomus_agent.Model.Lifecycle.Cancel.{
  MergeError, Merged, merged, refused, merge_cancelled_task, cancelled_message,
}
use octomus_agent.Store.Records.{Database, put_task, put_marker, Result, ok, err, transaction}

pub data TaskError : Type 0 where
  conflict task_cancelled already_exists : TaskError
  merge_conflict : MergeError → TaskError
  invalid : ChangeError → TaskError

-- The queued tasks that txStartBatch takes into a batch, of one repository or, for the empty name, of all.
unfoldable pub joins_batch : Text → Task → Bool
unfolding equal_ascii
joins_batch repository t =
    t.status == queued
    && is_none t.lifecycle.archived_at
    && (repository == [] || equal_ascii t.config.github_repo repository)

-- The UPDATE of txStartBatch, which no validation precedes: the batch is the run of these tasks.
unfoldable pub stamp_batch : Database → Text → Text → Database
unfolding joins_batch
stamp_batch db run repository = record db {
  tasks = λ id. elim (db.tasks id) [
    | none ↦ none
    | some t ↦ some (if joins_batch repository t then record t { run_id = some run } else t)
  ];
}

abbrev pub is_settlement : TaskChange → Bool
is_settlement settlement = true
is_settlement _ = false

abbrev stopped_change : TaskChange → Bool
stopped_change checkpoint = true
stopped_change prepare = true
stopped_change authorize_publication = true
stopped_change _ = false

-- The validation and the write at the end of txCommitTask.
unfoldable pub validated_put :
    Database → Task → Task → TaskChange → Bool → Result TaskError (Task × Database)
validated_put db current next change marked =
    elim (validate_task_change current next change marked) [
      | some e ↦ err (invalid e)
      | none ↦ ok (next, put_task db next)
    ]

unfoldable pub merged_put :
    Database → Task → Merged → TaskChange → Result TaskError (Task × Database)
unfolding validated_put
merged_put db current (merged next) change = validated_put db current next change true
merged_put db current (refused e) change = err (merge_conflict e)

-- txCommitTask with the saved record at hand.
unfoldable pub commit_current :
    Database → Task → Task → Task → TaskChange → Result TaskError (Task × Database)
unfolding validated_put merged_put
commit_current db current expected next change =
    let marked = is_some (db.cancel_markers expected.id) in
    if marked && is_none current.output_commit && is_settlement change
    then merged_put db current (merge_cancelled_task expected current next) change
    else if current != expected
    then (if marked && is_none current.output_commit && stopped_change change
        then err task_cancelled
        else err conflict)
    else validated_put db current next change marked

unfoldable pub tx_commit_task :
    Database → Task → Task → TaskChange → Result TaskError (Task × Database)
unfolding commit_current
tx_commit_task db expected next change = elim (db.tasks expected.id) [
  | none ↦ err conflict
  | some current ↦
      if next.id != expected.id
      then err conflict
      else commit_current db current expected next change
]

unfoldable pub commit_task : Database → Task → Task → TaskChange → Result TaskError Task × Database
unfolding tx_commit_task
commit_task db expected next change = transaction db (λ tx. tx_commit_task tx expected next change)

-- One task of a plan; an identity that is taken is a conflict.
unfoldable pub insert_task : Database → Task → Result TaskError (Task × Database)
insert_task db task = elim (db.tasks task.id) [
  | some _ ↦ err already_exists
  | none ↦ ok (task, put_task db task)
]

unfoldable pub reset_task_cancellation : Database → Task → Task → Result TaskError Task × Database
unfolding tx_commit_task
reset_task_cancellation db expected task =
    transaction db (λ tx. tx_commit_task (put_marker tx task.id none) expected task resolve)

unfoldable pub retry_task : Database → Task → Task → Result TaskError Task × Database
unfolding tx_commit_task
retry_task db expected task =
    transaction db (λ tx. tx_commit_task (put_marker tx task.id none) expected task retry)

unfoldable pub mark_cancel : Database → Text → Text → Database
mark_cancel db id now = put_marker db id (some now)

unfoldable pub cancelled_record : Task → Text → Task
cancelled_record current now = record current {
  status = cancelled;
  updated_at = now;
  error = some cancelled_message;
  blocked_reason = none;
}

-- CancelTask reports whether it cancelled the task.
unfoldable pub report_cancelled :
    Result TaskError (Task × Database) → Result TaskError (Bool × Database)
report_cancelled (ok (task, after)) = ok (true, after)
report_cancelled (err e) = err e

-- CancelTask with the saved record at hand.
unfoldable pub cancel_current : Database → Task → Text → Result TaskError (Bool × Database)
unfolding tx_commit_task cancelled_record report_cancelled
cancel_current db current now =
    if is_some current.output_commit || current.status == publishing || current.status == published
    then ok (false, db)
    else report_cancelled (tx_commit_task db current (cancelled_record current now) cancel)

unfoldable pub cancel_found : Database → Option Task → Text → Result TaskError (Bool × Database)
unfolding cancel_current
cancel_found db none now = ok (false, db)
cancel_found db (some current) now = cancel_current db current now

unfoldable pub cancel_task : Database → Text → Text → Result TaskError Bool × Database
unfolding cancel_found
cancel_task db id now = transaction db (λ tx. cancel_found tx (tx.tasks id) now)
