-- ===== src/Engine/Plan/Proposals.antt =====
-- internal/engine/plan_rules.go: validateProposals, and internal/model/model.go: the identity of a
-- problem. Lower case in the sense of golang.org/x/text (lowercaseIdentity) is a parameter.
use octomus_agent.Base.{
  ℕ, byte_length, Bool, false, not, ◌&&◌, ◌||◌, List, [], ◌∷◌, ◌++◌, map, Option, none, some,
  if◌then◌else◌, Text, text_eq, nat_eq, ◌==◌, ◌!=◌, ltb, contains, length, is_blank, trim_space,
  codes,
}
use octomus_agent.Config.Types.{Config, Route}
use octomus_agent.Config.Identity.{effective_categories, equal_ascii}
use octomus_agent.Model.Enums.{cancelled, status_eq}
use octomus_agent.Model.Types.{Proposal}
use octomus_agent.Model.Task.{Task}
use octomus_agent.Model.PullRequests.{PullRequest}
use octomus_agent.Engine.Plan.Ids.{assessments}
use octomus_agent.Engine.Plan.Dependencies.{DepNode, DepError, validate_dependencies}
use octomus_agent.Engine.Plan.Rules.{
  missing_field, resolve_target, Target, default_target, pull_request, ambiguous, unresolved,
}

pub data ProposalError : Type 0 where
  empty_identity : ProposalError
  duplicate_identity invalid_proposal_decision missing_rationale repeated_work :
      Text → ProposalError
  oversized missing_context unknown_tier bad_target recorded_work : Text → ProposalError
  too_many : ℕ → ProposalError
  dependencies : DepError → ProposalError

abbrev pub then_check : Option ProposalError → Option ProposalError → Option ProposalError
then_check (some e) next = some e
then_check none next = next

-- The tests that every proposal meets, with the identities before it.
unfoldable pub identity_error : List Text → Proposal → Option ProposalError
identity_error ids p =
    if is_blank p.id
    then some empty_identity
    else if contains ids p.id
    then some (duplicate_identity p.id)
    else if not (contains assessments p.decision)
    then some (invalid_proposal_decision p.id)
    else if is_blank p.reason
    then some (missing_rationale p.id)
    else none

unfoldable pub has_tier : List (Text × Route) → Text → Bool
has_tier [] tier = false
has_tier ((name, route) ∷ tiers) tier = name == tier || has_tier tiers tier

abbrev pub target_error : Text → Target → Option ProposalError
target_error id default_target = none
target_error id (pull_request pr) = none
target_error id ambiguous = some (bad_target id)
target_error id unresolved = some (bad_target id)

abbrev pub field_error : Text → Option Text → Option ProposalError
field_error id none = none
field_error id (some field) = some (missing_context id)

-- The tests of an accepted proposal on its own fields.
unfoldable pub content_error : Config → List PullRequest → Proposal → Option ProposalError
unfolding byte_length has_tier
content_error cfg prs p =
    if ltb 200 (byte_length p.title)
      || ltb 32000 (byte_length p.prompt)
      || ltb 40 (length p.evidence)
    then some (oversized p.id)
    else then_check (field_error p.id (missing_field p)) (
        if not (has_tier cfg.tiers p.tier) || not (contains (effective_categories cfg) p.category)
        then some (unknown_tier p.id)
        else target_error p.id (resolve_target cfg prs p.target))

abbrev pub is_accepted : Proposal → Bool
is_accepted p = p.decision == codes "accepted"

-- The list `accepted` after the loop.
unfoldable pub accepted_proposals : List Proposal → List Proposal
accepted_proposals [] = []
accepted_proposals (p ∷ ps) =
    let rest = accepted_proposals ps in if is_accepted p then p ∷ rest else rest

abbrev pub proposal_node : Proposal → DepNode
proposal_node p = record { id = p.id; target = p.target; deps = p.dependencies }

abbrev pub plan_dependencies : Option DepError → Option ProposalError
plan_dependencies none = none
plan_dependencies (some e) = some (dependencies e)

module _ (lowercase : Text → Text) where
  unfoldable pub problem_identity : Proposal → Text
  problem_identity p =
      lowercase (trim_space (if is_blank p.problem_key then p.title else p.problem_key))

  unfoldable pub same_work : Proposal → Proposal → Bool
  unfolding problem_identity
  same_work p other =
      p.target == other.target
      && (equal_ascii (trim_space p.title) (trim_space other.title)
          || problem_identity p == problem_identity other)

  -- The loop over the proposals accepted so far.
  unfoldable pub repeats : List Proposal → Proposal → Bool
  unfolding same_work
  repeats [] p = false
  repeats (other ∷ accepted) p = same_work other p || repeats accepted p

  -- The loop over the history of tasks.
  unfoldable pub recorded : List Task → Proposal → Bool
  unfolding same_work
  recorded [] p = false
  recorded (t ∷ history) p = (t.status != cancelled && same_work t.proposal p) || recorded history p

  -- The tests of an accepted proposal, in their order.
  unfoldable pub accepted_error :
      Config → List PullRequest → List Task → List Proposal → Proposal → Option ProposalError
  unfolding repeats recorded content_error
  accepted_error cfg prs history accepted p =
      if repeats accepted p
      then some (repeated_work p.id)
      else then_check (content_error cfg prs p)
          (if recorded history p then some (recorded_work p.id) else none)

  -- The loop over the proposals, with the identities and the accepted proposals before them.
  unfoldable pub proposals_error :
      Config
      → List PullRequest
      → List Task
      → List Text
      → List Proposal
      → List Proposal
      → Option ProposalError
  unfolding identity_error accepted_error
  proposals_error cfg prs history ids accepted [] = none
  proposals_error cfg prs history ids accepted (p ∷ ps) =
      let skip = proposals_error cfg prs history (p.id ∷ ids) accepted ps in
      let take = proposals_error cfg prs history (p.id ∷ ids) (accepted ++ (p ∷ [])) ps in
      then_check (identity_error ids p) (
        if not (is_accepted p)
        then skip
        else then_check (accepted_error cfg prs history accepted p) take)

  unfoldable pub validate_proposals :
      Config → List Proposal → List PullRequest → List Task → Option ProposalError
  unfolding proposals_error accepted_proposals
  validate_proposals cfg proposals prs history =
      let accepted = accepted_proposals proposals in
      then_check (proposals_error cfg prs history [] [] proposals) (
        if ltb cfg.max_tasks_per_cycle (length accepted)
        then some (too_many (length accepted))
        else plan_dependencies
            (validate_dependencies cfg.default_branch (map proposal_node accepted)))
