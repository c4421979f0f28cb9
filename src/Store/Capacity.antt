-- ===== src/Store/Capacity.antt =====
-- internal/store/capacity.go: the pull requests that the policy allows to be open, and the admission
-- of a task that opens another. The lower case of a repository's name is a parameter.
use octomus_agent.Base.{
  ℕ, suc, ◌+◌, ◌-◌, Bool, true, false, not, ◌&&◌, ◌||◌, List, [], ◌∷◌, ◌++◌, Option, none, some,
  if◌then◌else◌, Text, text_eq, nat_eq, option_eq, ◌==◌, ◌!=◌, contains, length,
}
use octomus_agent.Config.Types.{Config}
use octomus_agent.Config.Identity.{equal_ascii, same_pr_policy}
use octomus_agent.Model.Enums.{queued, executing, status_eq}
use octomus_agent.Model.Task.{Task, task_eq}
use octomus_agent.Model.PullRequests.{
  PullRequest, OpenPrInventory, inventory_eq, owned_open, owned_branches,
}
use octomus_agent.Model.Lifecycle.Change.{admission}
use octomus_agent.Store.Records.{Database, Result, ok, err}
use octomus_agent.Store.Tasks.{TaskError, tx_commit_task}
mod Bound
mod Persist
mod Examples

pub record PrReservation : Type 0 where
  pub task_id : Text
  pub repository : Text
  pub branch : Text
  pub admitted_at : Text

-- The records, the rows of pr_reservations, the stored policy and the saved inventory.
pub record Capacity : Type 0 where
  pub records : Database
  pub reservations : List PrReservation
  pub config : Config
  pub inventory : Option OpenPrInventory

-- The set `numbers`.
unfoldable pub owned_numbers : List ℕ → List PullRequest → List ℕ
unfolding owned_open
owned_numbers numbers [] = numbers
owned_numbers numbers (p ∷ prs) =
    let same = owned_numbers numbers prs in
    let more = owned_numbers (p.number ∷ numbers) prs in
    if owned_open p && not (contains numbers p.number) then more else same

unfoldable pub unrepresented : List Text → List PrReservation → ℕ
unrepresented branches [] = 0
unrepresented branches (r ∷ rows) =
    let rest = unrepresented branches rows in
    if not (contains branches r.branch) then suc rest else rest

-- What PRUnion counts as taken: the observed pull requests and the reservations without one.
unfoldable pub taken : OpenPrInventory → List PrReservation → ℕ
unfolding owned_numbers owned_branches
taken inventory rows =
    length (owned_numbers [] inventory.prs) + unrepresented (owned_branches inventory.prs) rows

-- The last result of PRUnion; both counts are lengths, far from 2 ^ 64.
unfoldable pub remaining : OpenPrInventory → List PrReservation → ℕ → ℕ
unfolding taken
remaining inventory rows limit = limit - taken inventory rows

unfoldable pub has_reservation : List PrReservation → Text → Bool
has_reservation [] id = false
has_reservation (r ∷ rows) id = r.task_id == id || has_reservation rows id

module _ (lower : Text → Text) where
  unfoldable pub reservation_rows : List PrReservation → Text → List PrReservation
  reservation_rows [] repository = []
  reservation_rows (r ∷ rows) repository =
      let rest = reservation_rows rows repository in
      if r.repository == lower repository then r ∷ rest else rest

  -- The tests of AdmitNewPRTask that roll back, up to the capacity.
  unfoldable pub admissible : Capacity → Task → OpenPrInventory → Option Task → Bool
  unfolding reservation_rows remaining
  admissible c task inventory none = false
  admissible c task inventory (some canonical) =
      equal_ascii inventory.repository c.config.github_repo
      && c.inventory == some inventory
      && task.proposal.target == task.config.default_branch
      && same_pr_policy task.config c.config
      && canonical.status == queued
      && canonical == task
      && remaining inventory (reservation_rows c.reservations c.config.github_repo)
          c.config.max_open_prs
        != 0

  abbrev pub admitted_task : Task → Text → Task
  admitted_task task now = record task { status = executing; updated_at = now }

  abbrev pub reservation : Capacity → Task → Text → PrReservation
  reservation c task now = record {
    task_id = task.id;
    repository = lower c.config.github_repo;
    branch = task.branch;
    admitted_at = now;
  }

  -- The writes: the commit, and the reservation, which fails on a task that has one.
  abbrev pub admit_committed :
      Capacity → Text → Result TaskError (Task × Database) → Option (Task × Capacity)
  admit_committed c now (err e) = none
  admit_committed c now (ok (next, records)) =
      if has_reservation c.reservations next.id
      then none
      else some (
        next,
        record c {
          records = records;
          reservations = c.reservations ++ (reservation c next now ∷ []);
        },
      )

  -- AdmitNewPRTask: the admitted task and the store after it, or nothing and no change.
  unfoldable pub admit_new_pr_task :
      Capacity → Task → OpenPrInventory → Text → Option (Task × Capacity)
  unfolding admissible
  admit_new_pr_task c task inventory now =
      if admissible c task inventory (c.records.tasks task.id)
      then admit_committed c now (tx_commit_task c.records task (admitted_task task now) admission)
      else none
