-- ===== src/Store/Tasks/History.antt =====
-- What holds of the saved tasks after any sequence of the store's task operations.
use octomus_agent.Base.{
  Text, none, some, List, [], ◌∷◌, ◌==◌, text_eq, ◌≡◌, arith, subst, Bool-cases, Option-cases, inl,
  inr, Any,
}
use octomus_agent.Model.Enums.{published}
use octomus_agent.Model.Task.{Task}
use octomus_agent.Model.Lifecycle.Change.{TaskChange}
use octomus_agent.Model.Lifecycle.Run.{Reach-Sound, IsPlanned, IsPlanned-Sound, Sound-published}
use octomus_agent.Model.Lifecycle.Sound.{Clears, Sound}
use octomus_agent.Store.Records.{Database, put_task, transaction}
use octomus_agent.Store.Tasks.{
  commit_task, reset_task_cancellation, retry_task, mark_cancel, cancel_task, insert_task,
  joins_batch, stamp_batch,
}
use octomus_agent.Store.Tasks.Refines.{
  Evolves, commit_task-Evolves, reset_task_cancellation-Evolves, retry_task-Evolves,
  mark_cancel-Evolves, cancel_task-Evolves,
}

-- One call of the store that writes task records; `starts` is the stamp of a batch on queued tasks.
pub data Call : Type 0 where
  commits : (expected next : Task) → TaskChange → Call
  resets : (expected task : Task) → Call
  retries : (expected task : Task) → Call
  marks : (id now : Text) → Call
  cancels : (id now : Text) → Call
  inserts : Task → Call
  starts : (run repository : Text) → Call

unfoldable pub perform : Database → Call → Database
perform db (commits expected next change) = (commit_task db expected next change).1
perform db (resets expected task) = (reset_task_cancellation db expected task).1
perform db (retries expected task) = (retry_task db expected task).1
perform db (marks id now) = mark_cancel db id now
perform db (cancels id now) = (cancel_task db id now).1
perform db (inserts task) = (transaction db (λ tx. insert_task tx task)).1
perform db (starts run repository) = stamp_batch db run repository

unfoldable pub perform_all : Database → List Call → Database
unfolding perform
perform_all db [] = db
perform_all db (c ∷ cs) = perform_all (perform db c) cs

-- Every task that a call inserts is as a plan makes it.
abbrev pub Plans : Call → Type 0
Plans (inserts task) = IsPlanned task
Plans _ = Unit {0}

abbrev pub AllPlan : List Call → Type 0
AllPlan [] = Unit {0}
AllPlan (c ∷ cs) = Plans c × AllPlan cs

-- Every saved task is sound.
abbrev pub IsSound : Database → Type 0
IsSound db = (id : Text) (u : Task) → db.tasks id ≡ some u → Sound u

abbrev pub empty : Database
empty = record { tasks = λ id. none; cancel_markers = λ id. none; pull_requests = [] }

Evolves-IsSound : (db after : Database) → Evolves db after → IsSound db → IsSound after
Evolves-IsSound db after v s id u e =
    let (t, found, r) = v.traced id u e in Reach-Sound (s id t found) r

insert-IsSound :
    (db : Database) (task : Task)
    → IsPlanned task
    → IsSound db
    → IsSound (transaction db (λ tx. insert_task tx task)).1
unfolding insert_task put_task
insert-IsSound db task planned s id u e = elim (Option-cases (db.tasks task.id)) [
  | inr (old, taken) ↦ s id u (ground arith)
  | inl free ↦ elim (Bool-cases (id == task.id)) [
    | inl same ↦
        let is_task : task ≡ u = ground arith in
        subst (λ x. Sound x) is_task (IsPlanned-Sound task planned)
    | inr differs ↦ s id u (ground arith)
  ]
]

-- The run of a task is no part of what makes it sound.
run-Sound : (t : Task) (run : Text) → Sound t → Sound (record t { run_id = some run })
run-Sound t run s = record { delivered = s.delivered; cleared = s.cleared; idle = s.idle }

stamp-IsSound :
    (db : Database) (run repository : Text) → IsSound db → IsSound (stamp_batch db run repository)
unfolding stamp_batch
stamp-IsSound db run repository s id u e = elim (Option-cases (db.tasks id)) [
  | inl missing ↦ absurd (ground arith)
  | inr (t, found) ↦ elim (Bool-cases (joins_batch repository t)) [
    | inl joins ↦
        let stamped : record t { run_id = some run } ≡ u = ground arith in
        subst (λ x. Sound x) stamped (run-Sound t run (s id t found))
    | inr stays ↦ let same : t ≡ u = ground arith in subst (λ x. Sound x) same (s id t found)
  ]
]

perform-IsSound : (db : Database) (c : Call) → Plans c → IsSound db → IsSound (perform db c)
unfolding perform
perform-IsSound db (commits expected next change) p =
    Evolves-IsSound db _ (commit_task-Evolves db expected next change)
perform-IsSound db (resets expected task) p =
    Evolves-IsSound db _ (reset_task_cancellation-Evolves db expected task)
perform-IsSound db (retries expected task) p =
    Evolves-IsSound db _ (retry_task-Evolves db expected task)
perform-IsSound db (marks id now) p = Evolves-IsSound db _ (mark_cancel-Evolves db id now)
perform-IsSound db (cancels id now) p = Evolves-IsSound db _ (cancel_task-Evolves db id now)
perform-IsSound db (inserts task) p = insert-IsSound db task p
perform-IsSound db (starts run repository) p = stamp-IsSound db run repository

pub perform_all-IsSound :
    (db : Database) (cs : List Call) → AllPlan cs → IsSound db → IsSound (perform_all db cs)
unfolding perform_all
perform_all-IsSound db [] p s = s
perform_all-IsSound db (c ∷ cs) (p, ps) s =
    perform_all-IsSound (perform db c) cs ps (perform-IsSound db c p s)

-- After any sequence of commits, resets, retries, cancellation marks, cancellations, insertions and
-- batch stamps on an empty store, failing ones included, in which every inserted task is as a plan
-- makes it (queued, without an output commit and with its workspace), each task that is saved as
-- published carries an output commit and a clean recorded review of that very commit.
pub perform_all-published :
    (cs : List Call) (id : Text) (u : Task)
    → AllPlan cs
    → (perform_all empty cs).tasks id ≡ some u
    → u.status ≡ published
    → (commit : Text) × (u.output_commit ≡ some commit) × Any (Clears u commit) u.reviews
perform_all-published cs id u p found e =
    Sound-published u (perform_all-IsSound empty cs p (λ i v h. absurd (cc)) id u found) e
