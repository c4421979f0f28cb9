-- ===== src/Engine/Plan/Examples.antt =====
-- The theorems about plans applied to concrete ones.
use octomus_agent.Base.{
  Sole, byte_length, ℕ, codes, true, false, none, some, ◌≡◌, ◌≢◌, refl, [], ◌∷◌, length, List, Text,
  text_eq, Any, here, there, ◌==◌, nth, Distinct, no_entries, new_entry, ◌↔◌, ◌≤◌, ◌+◌, arith, map,
  Text-discrete, ℕ_discrete, trim_space, trim_left, is_space, is_blank,
}
use Prim.Native.Nat.{◌*◌}
use octomus_agent.Config.Types.{Config, DeliveryMode-discrete}
use octomus_agent.Config.Identity.{effective_categories, non_features, equal_ascii, lower_ascii}
use octomus_agent.Model.PullRequests.{PullRequest, owned_open}
use octomus_agent.Model.Types.{Proposal}
use octomus_agent.Model.Task.{Task}
use octomus_agent.Model.Samples.{planned, config, proposal}
use octomus_agent.Engine.Plan.Dependencies.{
  edges_error, dependencies_error, by_id, cycle_search, visit, visit_all, set_state, branches_error,
  branches_from, branch_error, order_error, ready_writers, waits_for, delete, DepNode, unfinished,
  node_ids, members, validate_dependencies,
}
use octomus_agent.Engine.Plan.Accepted.{
  validate_dependencies-IsOrder, validate_dependencies-finishes,
}
use octomus_agent.Engine.Plan.Order.{IsOrder}
use octomus_agent.Engine.Plan.Ids.{
  assessments, Assessment, check_consolidation, check_assessments, proposal_ids, assessment_ids,
}
use octomus_agent.Engine.Plan.IdsExact.{
  Agrees, Reasoned, check_consolidation-Agrees, check_assessments-Agrees,
}
use octomus_agent.Engine.Plan.Rules.{
  tasks_error, missing_field, first_blank, resolve_from, targets, resolve_target, pull_request,
  check_rediscoveries, discovery_proposal_limit, validate_task_plan, plan_branch, task_node,
}
use octomus_agent.Engine.Plan.RulesHold.{
  discovery_proposal_limit-bound, check_rediscoveries-once, resolve_target-only, IsTarget,
  OneReconsiders,
}
use octomus_agent.Engine.Plan.Proposals.{
  validate_proposals, proposals_error, identity_error, accepted_error, repeats, recorded,
  content_error, has_tier, accepted_proposals, proposal_node, is_accepted,
}
use octomus_agent.Engine.Plan.Committed.{
  validate_task_plan-OneOrder, validate_proposals-Grounded, OneOrder, Compatible, task_ids,
}
use octomus_agent.Engine.Plan.Grounds.{Grounded}
use octomus_agent.Engine.Plan.Repeats.{ids_of, NoRepeat}

-- Two writers of one branch in order, and one of the default branch.
abbrev first : DepNode
first = record { id = codes "a"; target = codes "fix"; deps = [] }

abbrev second : DepNode
second = record { id = codes "b"; target = codes "fix"; deps = codes "a" ∷ [] }

abbrev apart : DepNode
apart = record { id = codes "c"; target = codes "main"; deps = [] }

abbrev nodes : List DepNode
nodes = second ∷ first ∷ apart ∷ []

nodes-Distinct : Distinct (node_ids nodes)
unfolding node_ids Text-discrete ℕ_discrete
nodes-Distinct = new_entry refl (new_entry refl (new_entry refl no_entries))

nodes_accepted : validate_dependencies (codes "main") nodes ≡ none
unfolding validate_dependencies edges_error dependencies_error by_id cycle_search visit visit_all
    set_state node_ids branches_error branches_from branch_error order_error ready_writers waits_for
    delete members Text-discrete ℕ_discrete
nodes_accepted = refl

validate_dependencies-IsOrder_example :
    (order : List Text) × IsOrder
      (members (codes "fix") nodes)
      (node_ids (members (codes "fix") nodes))
      order
    × ((other : List Text)
        → IsOrder (members (codes "fix") nodes) (node_ids (members (codes "fix") nodes)) other
        → other ≡ order)
unfolding Text-discrete ℕ_discrete
validate_dependencies-IsOrder_example =
    validate_dependencies-IsOrder (codes "main") nodes nodes-Distinct nodes_accepted first
      (there (here refl)) refl

validate_dependencies-finishes_example :
    validate_dependencies (codes "main") nodes ≢ some unfinished
validate_dependencies-finishes_example = validate_dependencies-finishes (codes "main") nodes

abbrev assessment : Assessment
assessment = record { id = codes "p1"; decision = codes "accepted"; reason = codes "useful" }

check_assessments-Agrees_example : (check_assessments (proposal ∷ []) (assessment ∷ []) ≡ none) ↔ (
    Agrees (proposal_ids (proposal ∷ [])) (assessment_ids (assessment ∷ []))
    × ((j : ℕ) (item : Assessment) → nth j (assessment ∷ []) ≡ some item → Reasoned item))
check_assessments-Agrees_example = check_assessments-Agrees (proposal ∷ []) (assessment ∷ [])

check_consolidation-Agrees_example :
    (check_consolidation (proposal ∷ []) (proposal ∷ []) ≡ none)
    ↔ Agrees (proposal_ids (proposal ∷ [])) (proposal_ids (proposal ∷ []))
check_consolidation-Agrees_example = check_consolidation-Agrees (proposal ∷ []) (proposal ∷ [])

discovery_proposal_limit-bound_example : 9 * discovery_proposal_limit 10 9 + 10 ≤ 100
discovery_proposal_limit-bound_example = discovery_proposal_limit-bound 10 9 (omega arith)

check_rediscoveries-once_example :
    (check_rediscoveries (codes "r1" ∷ []) (proposal ∷ []) ≡ none)
    ↔ ((id : Text) → Any (λ r. r ≡ id) (codes "r1" ∷ []) → OneReconsiders (proposal ∷ []) id)
check_rediscoveries-once_example = check_rediscoveries-once (codes "r1" ∷ []) (proposal ∷ [])

abbrev pull : PullRequest
pull = record {
  number = 7;
  title = codes "t";
  branch = codes "fix";
  head = codes "h";
  base = codes "main";
  url = codes "u";
  body = [];
  state = codes "open";
  changed_lines = 1;
  created_at = codes "t0";
  owned = true;
  head_repository = codes "owner/name";
  base_repository = codes "owner/name";
  review_decision = [];
  check_status = [];
  mergeability = [];
  status_source = [];
  status_observed_at = [];
}

resolve_target-only_example :
    (resolve_target config (pull ∷ []) (codes "fix") ≡ pull_request pull) ↔ (
      (codes "fix" ≢ config.default_branch) × Sole (IsTarget config (codes "fix")) pull (pull ∷ []))
resolve_target-only_example = resolve_target-only config (pull ∷ []) (codes "fix") pull

-- A task on an existing branch.
abbrev on_branch : Task
on_branch = record planned { proposal = record proposal { target = codes "fix" } }

abbrev tasks : List Task
tasks = on_branch ∷ []

tasks_accepted : validate_task_plan tasks config ≡ none
unfolding validate_dependencies edges_error dependencies_error by_id cycle_search visit visit_all
    set_state node_ids branches_error branches_from branch_error order_error ready_writers waits_for
    delete members Text-discrete ℕ_discrete validate_task_plan tasks_error plan_branch
    effective_categories non_features DeliveryMode-discrete
tasks_accepted = refl

validate_task_plan-OneOrder_example :
    Distinct (task_ids tasks)
    × ((t : Task)
        → Any (λ u. u ≡ t) tasks
        → Compatible config t
          × ((t.proposal.target == plan_branch [] tasks) ≡ false
              → OneOrder (members t.proposal.target (map task_node tasks))))
validate_task_plan-OneOrder_example = validate_task_plan-OneOrder tasks config tasks_accepted

abbrev tiered : Config
tiered = record config { tiers = (codes "S", config.repair_route) ∷ [] }

abbrev grounded : Proposal
grounded = record proposal { target = codes "fix"; evidence = codes "e" ∷ [] }

-- The texts of the example are in lower case already.
abbrev same_text : Text → Text
same_text s = s

grounded_accepted : validate_proposals same_text tiered (grounded ∷ []) (pull ∷ []) [] ≡ none
unfolding validate_dependencies edges_error dependencies_error by_id cycle_search visit visit_all
    set_state node_ids branches_error branches_from branch_error order_error ready_writers waits_for
    delete members Text-discrete ℕ_discrete validate_proposals proposals_error identity_error
    accepted_error repeats recorded content_error byte_length has_tier accepted_proposals
    missing_field first_blank resolve_target resolve_from targets owned_open equal_ascii lower_ascii
    effective_categories non_features DeliveryMode-discrete assessments is_blank trim_space
    trim_left is_space
grounded_accepted = refl

validate_proposals-Grounded_example :
    Distinct (ids_of (grounded ∷ []))
    × (length (accepted_proposals (grounded ∷ [])) ≤ 5)
    × NoRepeat same_text (accepted_proposals (grounded ∷ []))
    × ((p : Proposal)
        → Any (λ q. q ≡ p) (grounded ∷ [])
        → is_accepted p ≡ true
        → Grounded same_text tiered (pull ∷ []) [] p
          × ((p.target == codes "main") ≡ false
              → OneOrder
                  (members p.target (map proposal_node (accepted_proposals (grounded ∷ []))))))
validate_proposals-Grounded_example =
    validate_proposals-Grounded same_text tiered (pull ∷ []) [] (grounded ∷ []) grounded_accepted
