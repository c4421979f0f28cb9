-- ===== src/Model/Maintenance/Examples.antt =====
-- One maintenance delivery that may be merged without a person (internal/model/maintenance.go).
use octomus_agent.Base.{codes, true, false, none, some, [], ◌∷◌, refl, ◌≡◌, Text-discrete}
use octomus_agent.Config.Types.{Config, maintenance, DeliveryMode-discrete}
use octomus_agent.Config.Identity.{same_remote_identity, effective_categories}
use octomus_agent.Config.Paths.{manual_merge_path}
use octomus_agent.Model.Sessions.{clean, execution_config}
use octomus_agent.Model.Reviews.{review_authorizes, verification_for}
use octomus_agent.Model.Enums.{completed, SessionStatus-discrete}
use octomus_agent.Model.Types.{MaintenanceFootprint, ReviewRound, Verification, Session}
use octomus_agent.Model.Task.{Task}
use octomus_agent.Model.Samples.{route, config, round, authorized_task}
use octomus_agent.Model.Maintenance.{maintenance_merge_authorized}
use octomus_agent.Model.Maintenance.Authorized.{maintenance_merge_authorized-Verified}

abbrev live : Config
live = record config { delivery_mode = maintenance }

abbrev reviewer : Session
reviewer = record {
  id = codes "s1";
  role = codes "reviewer";
  route = route;
  status = completed;
  started_at = codes "t1";
  summary = codes "fine";
  first_turn_started = none;
  sandbox = none;
}

abbrev qualified : ReviewRound
qualified = record round {
  maintenance =
      some (record { qualifies = true; manual_merge_required = false; reason = codes "tests" });
}

abbrev run : Verification
run = record {
  command = codes "make test";
  success = true;
  output = [];
  revision = codes "c1";
  created_at = codes "t2";
  sandbox = none;
}

abbrev footprint : MaintenanceFootprint
footprint = record {
  comparison_base = codes "base";
  revision = codes "c1";
  changed_lines = some 12;
  changed_files = some 1;
  paths = codes "a/b.go" ∷ [];
  complete = true;
  manual_reasons = [];
}

abbrev ready : Task
ready = record authorized_task {
  config = live;
  sessions = reviewer ∷ [];
  reviews = qualified ∷ [];
  verification = run ∷ [];
  maintenance_footprint = some footprint;
}

ready_merges : maintenance_merge_authorized (λ c. c) ready live ≡ true
unfolding maintenance_merge_authorized DeliveryMode-discrete same_remote_identity Text-discrete
    effective_categories review_authorizes clean SessionStatus-discrete manual_merge_path
    execution_config verification_for
ready_merges = refl

maintenance_merge_authorized-Verified_example : ready.lifecycle.archived_at ≡ none
maintenance_merge_authorized-Verified_example =
    (maintenance_merge_authorized-Verified (λ c. c) ready live ready_merges).2

-- A failed run of the command, an excluded path or an extra changed line forbids the merge.
failed_refused :
    maintenance_merge_authorized
      (λ c. c)
      (record ready { verification = run ∷ record run { success = false } ∷ [] })
      live
    ≡ false
unfolding maintenance_merge_authorized DeliveryMode-discrete same_remote_identity Text-discrete
    effective_categories review_authorizes clean SessionStatus-discrete manual_merge_path
    execution_config verification_for
failed_refused = refl

workflow_refused :
    maintenance_merge_authorized
      (λ c. c)
      (record ready {
        maintenance_footprint = some (record footprint { paths = codes ".github/x" ∷ [] });
      })
      live
    ≡ false
unfolding maintenance_merge_authorized DeliveryMode-discrete same_remote_identity Text-discrete
    effective_categories review_authorizes clean SessionStatus-discrete manual_merge_path
    execution_config verification_for
workflow_refused = refl

large_refused :
    maintenance_merge_authorized (λ c. c) ready (record live { auto_merge_max_lines = 11 }) ≡ false
unfolding maintenance_merge_authorized DeliveryMode-discrete same_remote_identity Text-discrete
    effective_categories review_authorizes clean SessionStatus-discrete manual_merge_path
    execution_config verification_for
large_refused = refl
