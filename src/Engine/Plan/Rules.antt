-- ===== src/Engine/Plan/Rules.antt =====
-- internal/engine/plan_rules.go: the remaining rules of a plan: the target of a proposal, the
-- recheck of a committed plan, operator requests, rediscoveries and the size of discovery.
use octomus_agent.Base.{
  ℕ, suc, ◌-◌, Bool, not, ◌&&◌, ◌||◌, List, [], ◌∷◌, ◌++◌, map, Option, none, some, if◌then◌else◌,
  Text, text_eq, nat_eq, ◌==◌, ◌!=◌, ltb, contains, is_blank, codes, is_some,
}
use Prim.Native.Nat.{◌/◌}
use octomus_agent.Config.Types.{Config, delivery_mode_eq}
use octomus_agent.Config.Identity.{effective_categories, equal_ascii}
use octomus_agent.Model.Enums.{CycleStatus}
use octomus_agent.Model.Types.{Proposal}
use octomus_agent.Model.Task.{Task}
use octomus_agent.Model.PullRequests.{PullRequest, owned_open}
use octomus_agent.Engine.Plan.Dependencies.{DepNode, DepError, validate_dependencies}

unfoldable pub first_blank : List (Text × Text) → Option Text
first_blank [] = none
first_blank ((name, value) ∷ fields) =
    let rest = first_blank fields in if is_blank value then some name else rest

abbrev pub no_evidence : List Text → Option Text
no_evidence [] = some (codes "evidence")
no_evidence (_ ∷ _) = none

abbrev pub or_field : Option Text → Option Text → Option Text
or_field (some field) next = some field
or_field none next = next

-- The name of the first field that is missing; the empty name of the source is `none`.
unfoldable pub missing_field : Proposal → Option Text
unfolding first_blank
missing_field p =
    or_field
      (first_blank (
        (codes "title", p.title)
        ∷ (codes "problem", p.problem)
        ∷ (codes "benefit", p.benefit)
        ∷ (codes "scope", p.scope)
        ∷ (codes "prompt", p.prompt)
        ∷ []))
      (no_evidence p.evidence)

pub data Target : Type 0 where
  default_target : Target
  pull_request : PullRequest → Target
  ambiguous unresolved : Target

unfoldable pub targets : Config → Text → PullRequest → Bool
targets cfg target pr =
    pr.branch == target
    && owned_open pr
    && pr.base == cfg.default_branch
    && equal_ascii pr.base_repository cfg.github_repo

abbrev pub found_target : Option PullRequest → Target
found_target none = unresolved
found_target (some pr) = pull_request pr

-- The loop of resolveTarget with the pull request found so far.
unfoldable pub resolve_from : Config → Text → Option PullRequest → List PullRequest → Target
unfolding targets
resolve_from cfg target found [] = found_target found
resolve_from cfg target found (pr ∷ prs) =
    let rest = resolve_from cfg target found prs in
    let taken = resolve_from cfg target (some pr) prs in
    if targets cfg target pr then (if is_some found then ambiguous else taken) else rest

unfoldable pub resolve_target : Config → List PullRequest → Text → Target
unfolding resolve_from
resolve_target cfg prs target =
    if target == cfg.default_branch then default_target else resolve_from cfg target none prs

pub data TaskPlanError : Type 0 where
  duplicate_task incompatible : Text → TaskPlanError
  dependencies : DepError → TaskPlanError

abbrev pub task_node : Task → DepNode
task_node t = record { id = t.id; target = t.proposal.target; deps = t.proposal.dependencies }

-- The loop of validateTaskPlan with the identities seen.
unfoldable pub tasks_error : Config → List Text → List Task → Option TaskPlanError
tasks_error live seen [] = none
tasks_error live seen (t ∷ tasks) =
    let rest = tasks_error live (t.id ∷ seen) tasks in
    if contains seen t.id
    then some (duplicate_task t.id)
    else if t.config.delivery_mode != live.delivery_mode
        || not (contains (effective_categories t.config) t.proposal.category)
    then some (incompatible t.id)
    else rest

-- The variable defaultBranch after the loop: the last task's.
unfoldable pub plan_branch : Text → List Task → Text
plan_branch branch [] = branch
plan_branch branch (t ∷ tasks) = plan_branch t.config.default_branch tasks

abbrev pub plan_error : Option TaskPlanError → Option DepError → Option TaskPlanError
plan_error (some e) dep = some e
plan_error none none = none
plan_error none (some e) = some (dependencies e)

unfoldable pub validate_task_plan : List Task → Config → Option TaskPlanError
unfolding tasks_error plan_branch
validate_task_plan tasks live =
    plan_error (tasks_error live [] tasks)
      (validate_dependencies (plan_branch [] tasks) (map task_node tasks))

-- RequestProposalPrefix + r.ID
unfoldable pub request_proposal_id : Text → Text
request_proposal_id id = codes "request-" ++ id

-- The fields of an operator's request that the plan rules read.
pub record RequestSeed : Type 0 where
  pub id : Text
  pub target : Text

pub data RequestError : Type 0 where
  not_returned other_target : Text → RequestError

-- byID: the last proposal of an identity.
unfoldable pub proposal_by_id : List Proposal → Text → Option Proposal
proposal_by_id [] id = none
proposal_by_id (p ∷ ps) id = elim (proposal_by_id ps id) [
  | some q ↦ some q
  | none ↦ if p.id == id then some p else none
]

abbrev pub request_error : RequestSeed → Option Proposal → Option RequestError
request_error r none = some (not_returned r.id)
request_error r (some p) =
    if p.decision == codes "accepted" && p.target != r.target
    then some (other_target r.id)
    else none

abbrev pub first_error : Option RequestError → Option RequestError → Option RequestError
first_error (some e) next = some e
first_error none next = next

unfoldable pub check_operator_requests : List RequestSeed → List Proposal → Option RequestError
unfolding proposal_by_id
check_operator_requests [] proposals = none
check_operator_requests (r ∷ seeded) proposals =
    first_error (request_error r (proposal_by_id proposals (request_proposal_id r.id)))
      (check_operator_requests seeded proposals)

-- The number of proposals that reconsider a request.
unfoldable pub reconsidering : Text → List Proposal → ℕ
reconsidering id [] = 0
reconsidering id (p ∷ ps) =
    let rest = reconsidering id ps in if contains p.reconsiders id then suc rest else rest

-- The request that the check refuses, with its number of decisions.
unfoldable pub check_rediscoveries : List Text → List Proposal → Option (Text × ℕ)
unfolding reconsidering
check_rediscoveries [] proposals = none
check_rediscoveries (id ∷ requests) proposals =
    let rest = check_rediscoveries requests proposals in
    if reconsidering id proposals != 1 then some (id, reconsidering id proposals) else rest

unfoldable pub planned_status : List Proposal → CycleStatus
planned_status [] = CycleStatus.idle
planned_status (p ∷ ps) =
    let rest = planned_status ps in
    if p.decision == codes "accepted" then CycleStatus.completed else rest

abbrev pub max_planning_proposals : ℕ
max_planning_proposals = 100

-- `room <= 0` holds exactly when the difference of naturals is 0; `seeded` is a length.
unfoldable pub discovery_proposal_limit : ℕ → ℕ → ℕ
discovery_proposal_limit seeded agents =
    let room = max_planning_proposals - seeded in
    if room == 0 || agents == 0 || ltb room agents then 0 else room / agents
