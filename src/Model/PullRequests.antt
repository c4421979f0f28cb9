-- ===== src/Model/PullRequests.antt =====
-- internal/model/pullrequest.go: pull requests as they are observed, and the saved inventory.
use octomus_agent.Base.{
  ℕ, Text, Bool, DecEq, Text-discrete, ℕ_discrete, ◌&&◌, ◌||◌, Option, List, [], ◌∷◌, ◌==◌, text_eq,
  codes, if◌then◌else◌,
}
use octomus_agent.Model.Enums.{AutoMergeStatus, waiting, merging, uncertain, auto_merge_status_eq}
use octomus_agent.Model.Types.{AutoMergeState}

pub record PullRequest : Type 0 where
  pub number : ℕ
  pub title : Text
  pub branch : Text
  pub head : Text
  pub base : Text
  pub url : Text
  pub body : Text
  pub state : Text
  pub changed_lines : ℕ
  pub created_at : Text
  pub owned : Bool
  pub head_repository : Text
  pub base_repository : Text
  pub review_decision : Text
  pub check_status : Text
  pub mergeability : Text
  pub status_source : Text
  pub status_observed_at : Text

pub record PrObservation : Type 0 where
  pub repository : Text
  pub pr : PullRequest
  pub observed_at : Text
  pub delivered_head : Option Text
  pub external_head_movement : Bool
  pub auto_merge : Option AutoMergeState

pub record OpenPrInventory : Type 0 where
  pub repository : Text
  pub observed_at : Text
  pub prs : List PullRequest

unfoldable pub PullRequest-discrete : Discrete PullRequest
unfolding Text-discrete ℕ_discrete
PullRequest-discrete = hlevel (ℕ_discrete, Text-discrete)

unfoldable pub OpenPrInventory-discrete : Discrete OpenPrInventory
unfolding Text-discrete PullRequest-discrete
OpenPrInventory-discrete = hlevel (ℕ_discrete, Text-discrete, PullRequest-discrete)

instance abbrev pub inventory_eq : DecEq OpenPrInventory
inventory_eq = record { dec = OpenPrInventory-discrete }

unfoldable pub owned_open : PullRequest → Bool
owned_open p = p.owned && p.state == codes "open"

-- The branches of the owned open pull requests; a set is a list read by `contains`.
unfoldable pub owned_branches : List PullRequest → List Text
unfolding owned_open
owned_branches [] = []
owned_branches (p ∷ prs) =
    let rest = owned_branches prs in if owned_open p then p.branch ∷ rest else rest

unfoldable pub pending : AutoMergeStatus → Bool
pending v = v == waiting || v == merging || v == uncertain
