-- ===== src/Store/Capacity/Persist/Examples.antt =====
-- An observation that settles one reservation and leaves another (internal/store/capacity.go).
use octomus_agent.Base.{
  ℕ, Text, codes, Option, none, some, [], ◌∷◌, ◌==◌, text_eq, if◌then◌else◌, ◌≡◌, refl,
  Text-discrete,
}
use octomus_agent.Config.Identity.{equal_ascii}
use octomus_agent.Model.Enums.{Status-discrete}
use octomus_agent.Model.PullRequests.{OpenPrInventory, owned_branches}
use octomus_agent.Model.Samples.{admitted, delivered, config}
use octomus_agent.Store.Capacity.{PrReservation, Capacity, reservation_rows}
use octomus_agent.Store.Capacity.Persist.{persist_pr_inventory, persisted, timestamp_invalid}
use octomus_agent.Store.Capacity.Persist.Released.{persist_pr_inventory-Finished}

abbrev observed : OpenPrInventory
observed = record { repository = codes "owner/name"; observed_at = codes "t0"; prs = [] }

abbrev observed_later : OpenPrInventory
observed_later = record observed { observed_at = codes "t1" }

-- The name of the example is in lower case already; a timestamp is read by its second character.
abbrev same_text : Text → Text
same_text s = s

abbrev instant : Text → Option ℕ
instant (t ∷ c ∷ []) = some c
instant s = none

abbrev slot : Text → PrReservation
slot id = record {
  task_id = id;
  repository = codes "owner/name";
  branch = codes "octomus/x";
  admitted_at = codes "t0";
}

abbrev before : Capacity
before = record {
  records = record {
    tasks = λ id. if id == codes "task-1" then some delivered else some admitted;
    cancel_markers = λ id. none;
    pull_requests = [];
  };
  reservations = slot (codes "task-1") ∷ slot (codes "task-2") ∷ [];
  config = config;
  inventory = some observed;
}

abbrev after : Capacity
after = record before { reservations = slot (codes "task-2") ∷ []; inventory = some observed_later }

abbrev both : Text × Text
both = (codes "task-1", codes "task-2")

saved :
    persist_pr_inventory same_text instant before observed_later (both.0 ∷ both.1 ∷ [])
    ≡ persisted after
unfolding persist_pr_inventory equal_ascii reservation_rows owned_branches Text-discrete
    Status-discrete
saved = refl

unreadable_time :
    persist_pr_inventory same_text instant before (record observed { observed_at = [] }) []
    ≡ timestamp_invalid
unfolding persist_pr_inventory equal_ascii Text-discrete
unreadable_time = refl

persist_pr_inventory-Finished_example : after.inventory ≡ some observed_later
persist_pr_inventory-Finished_example =
    (persist_pr_inventory-Finished same_text instant before after observed_later
      (both.0 ∷ both.1 ∷ []) saved).0
