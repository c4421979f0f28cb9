-- ===== src/Store/Capacity/Persist.antt =====
-- internal/store/capacity.go: PersistPRInventory, which saves an observation of the pull requests and
-- releases the reservations that it settles. The lower case of a name and the reading of an RFC 3339
-- timestamp (time.Parse, as an instant) are parameters.
use octomus_agent.Base.{
  ℕ, Bool, true, false, not, ◌&&◌, ◌||◌, List, [], ◌∷◌, Option, none, some, if◌then◌else◌, Text,
  text_eq, ◌==◌, ◌!=◌, contains, ltb, is_some,
}
use octomus_agent.Config.Identity.{equal_ascii}
use octomus_agent.Model.Enums.{published, cancelled, status_eq}
use octomus_agent.Model.Task.{Task}
use octomus_agent.Model.PullRequests.{OpenPrInventory, owned_branches}
use octomus_agent.Store.Records.{Database}
use octomus_agent.Store.Capacity.{PrReservation, Capacity, reservation_rows}
mod Released
mod Examples

-- DELETE FROM pr_reservations WHERE task_id=?1
unfoldable pub release_reservation : List PrReservation → Text → List PrReservation
release_reservation [] id = []
release_reservation (r ∷ rows) id =
    let rest = release_reservation rows id in if r.task_id == id then rest else r ∷ rest

abbrev pub confirmed : Option Task → Bool
confirmed none = false
confirmed (some t) = is_some t.output_commit && (t.status == published || t.status == cancelled)

abbrev pub is_published : Option Task → Bool
is_published none = false
is_published (some t) = t.status == published

-- One round of the loop over the reservations.
unfoldable pub settle_reservation :
    Database → List Text → List Text → List PrReservation → PrReservation → List PrReservation
unfolding release_reservation
settle_reservation db represented released rows r =
    if contains released r.task_id && confirmed (db.tasks r.task_id)
    then release_reservation rows r.task_id
    else if contains represented r.branch && is_published (db.tasks r.task_id)
    then release_reservation rows r.task_id
    else rows

unfoldable pub settle_from :
    Database → List Text → List Text → List PrReservation → List PrReservation → List PrReservation
unfolding settle_reservation
settle_from db represented released rows [] = rows
settle_from db represented released rows (r ∷ reservations) =
    settle_from db represented released (settle_reservation db represented released rows r)
      reservations

-- The store after it, a newer observation in place, or the error of a timestamp.
pub data Persisted : Type 0 where
  persisted : Capacity → Persisted
  rolled_back saved_timestamp_invalid timestamp_invalid : Persisted

abbrev pub and_newer : Option ℕ → Option ℕ → Persisted → Persisted
and_newer none candidate next = saved_timestamp_invalid
and_newer (some previous) none next = timestamp_invalid
and_newer (some previous) (some candidate) next =
    if ltb candidate previous then rolled_back else next

module _ (lower : Text → Text) (parse_time : Text → Option ℕ) where
  abbrev pub persisted_capacity : Capacity → OpenPrInventory → List Text → Capacity
  persisted_capacity c inventory released = record c {
    inventory = some inventory;
    reservations =
        settle_from c.records (owned_branches inventory.prs) released c.reservations
          (reservation_rows lower c.reservations c.config.github_repo);
  }

  -- The comparison with the observation that is saved, when it is of the same repository.
  abbrev pub and_existing : Option OpenPrInventory → OpenPrInventory → Persisted → Persisted
  and_existing none inventory next = next
  and_existing (some existing) inventory next =
      if equal_ascii existing.repository inventory.repository
      then and_newer (parse_time existing.observed_at) (parse_time inventory.observed_at) next
      else next

  unfoldable pub persist_pr_inventory : Capacity → OpenPrInventory → List Text → Persisted
  unfolding settle_from
  persist_pr_inventory c inventory released =
      if not (equal_ascii inventory.repository c.config.github_repo)
      then rolled_back
      else and_existing c.inventory inventory (persisted (persisted_capacity c inventory released))
