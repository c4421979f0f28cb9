-- ===== src/Store/Capacity/Examples.antt =====
-- The bound on open pull requests applied to a concrete admission.
use octomus_agent.Base.{
  Text, codes, none, some, [], ◌∷◌, ◌≡◌, ◌≤◌, refl, Text-discrete, Option-discrete, ℕ_discrete,
}
use octomus_agent.Config.Types.{Config-discrete, Route-discrete, DeliveryMode-discrete}
use octomus_agent.Config.Identity.{
  equal_ascii, lower_ascii, same_pr_policy, same_remote_identity, same_path, path_identity, split,
  path_parts, join_slash,
}
use octomus_agent.Model.Enums.{queued, Status-discrete}
use octomus_agent.Model.Types.{Proposal-discrete}
use octomus_agent.Model.Task.{Task, Task-discrete}
use octomus_agent.Model.PullRequests.{
  OpenPrInventory, OpenPrInventory-discrete, PullRequest-discrete, owned_branches, owned_open,
}
use octomus_agent.Model.Samples.{planned, config}
use octomus_agent.Model.Lifecycle.Change.{
  replaces_identity, replaces_output, stopped_by_cancellation, workspace_gone, authorized, allowed,
  evidence_error, validate_task_change,
}
use octomus_agent.Store.Records.{put_task}
use octomus_agent.Store.Tasks.{tx_commit_task}
use octomus_agent.Store.Capacity.{
  Capacity, reservation_rows, taken, unrepresented, owned_numbers, admissible, remaining,
  has_reservation, admitted_task, reservation, admit_new_pr_task,
}
use octomus_agent.Store.Capacity.Bound.{admit_new_pr_task-taken}

abbrev inventory : OpenPrInventory
inventory = record { repository = codes "owner/name"; observed_at = codes "t0"; prs = [] }

-- The name of the example is in lower case already.
abbrev same_text : Text → Text
same_text s = s

abbrev before_admission : Capacity
before_admission = record {
  records = record { tasks = λ id. some planned; cancel_markers = λ id. none; pull_requests = [] };
  reservations = [];
  config = config;
  inventory = some inventory;
}

abbrev admitted : Task
admitted = admitted_task same_text planned (codes "t9")

abbrev after_admission : Capacity
after_admission = record before_admission {
  records = put_task before_admission.records admitted;
  reservations = reservation same_text before_admission admitted (codes "t9") ∷ [];
}

admitted_now :
    admit_new_pr_task same_text before_admission planned inventory (codes "t9")
    ≡ some (admitted, after_admission)
unfolding admit_new_pr_task admissible remaining taken reservation_rows unrepresented owned_numbers
    owned_branches owned_open has_reservation tx_commit_task validate_task_change replaces_identity
    replaces_output stopped_by_cancellation workspace_gone authorized allowed evidence_error
    equal_ascii lower_ascii same_pr_policy same_remote_identity same_path path_identity split
    path_parts join_slash Text-discrete Option-discrete ℕ_discrete Config-discrete Route-discrete
    DeliveryMode-discrete Status-discrete Proposal-discrete Task-discrete OpenPrInventory-discrete
    PullRequest-discrete put_task
admitted_now = refl

admit_new_pr_task-taken_example :
    (before_admission.records.tasks planned.id ≡ some planned)
    × (planned.status ≡ queued)
    × (taken inventory (
          reservation_rows same_text after_admission.reservations
            after_admission.config.github_repo)
        ≤ after_admission.config.max_open_prs)
admit_new_pr_task-taken_example =
    admit_new_pr_task-taken same_text before_admission after_admission planned admitted inventory
      (codes "t9") admitted_now
