-- ===== src/Engine/Plan/RulesHold.antt =====
-- What the rules of a plan ensure once they accept it (internal/engine/plan_rules.go).
use octomus_agent.Base.{
  ℕ, ◌+◌, ◌-◌, ◌≤◌, true, ◌||◌, List, [], ◌∷◌, none, some, Text, text_eq, nat_eq, ◌==◌, ltb,
  contains, ◌≡◌, ◌≢◌, ◌↔◌, refl, sym, ap, ◌∙◌, subst, length, codes, Any, here, there, keep, Sole,
  Sole-keep, keep-Sole, Sole-map, inl, inr, arith, Bool-cases, ==→≡, ≡→==, ==-refl,
}
use Prim.Native.Nat.{◌*◌}
use native.Mathlib.Nat.{mul-div-le, mul-zero}
use octomus_agent.Config.Identity.{equal_ascii}
use octomus_agent.Config.Types.{Config, delivery_mode_eq}
use octomus_agent.Model.Types.{Proposal}
use octomus_agent.Model.PullRequests.{PullRequest, owned_open}
use octomus_agent.Engine.Plan.Rules.{
  pull_request, targets, resolve_from, resolve_target, check_rediscoveries, reconsidering,
  discovery_proposal_limit,
}

-- Discovery never proposes more than the plan has room for: all agents at the limit and the seeded
-- requests stay within the hundred proposals of a plan, where the requests alone do.
pub discovery_proposal_limit-bound :
    (seeded agents : ℕ)
    → seeded ≤ 100
    → agents * discovery_proposal_limit seeded agents + seeded ≤ 100
unfolding discovery_proposal_limit
discovery_proposal_limit-bound seeded agents fits =
    let room = mul-div-le (100 - seeded) agents in
    elim (Bool-cases (100 - seeded == 0 || agents == 0 || ltb (100 - seeded) agents)) [
      | inl e ↦ let none_left = mul-zero agents in ground arith
      | inr e ↦ ground arith
    ]

-- The number of proposals that reconsider a request is the number that the filter leaves.
length-keep-reconsidering :
    (id : Text) (proposals : List Proposal)
    → length (keep (λ p. contains p.reconsiders id) proposals) ≡ reconsidering id proposals
unfolding keep reconsidering
length-keep-reconsidering id [] = refl
length-keep-reconsidering id (p ∷ proposals) =
    let rest = length-keep-reconsidering id proposals in ground arith

length_one {ℓ} : {A : Type ℓ} (xs : List A) → length xs ≡ 1 → (x : A) × (xs ≡ x ∷ [])
length_one [] h = absurd (omega arith)
length_one (x ∷ []) h = (x, refl)
length_one (x ∷ (y ∷ xs)) h = absurd (omega arith)

-- One proposal of the list, and no other, reconsiders the request.
abbrev pub OneReconsiders : List Proposal → Text → Type 0
OneReconsiders proposals id =
    (p : Proposal) × Sole (λ q. Any (λ r. r ≡ id) q.reconsiders) p proposals

contains-Any : (xs : List Text) (a : Text) → contains xs a ≡ true → Any (λ x. x ≡ a) xs
contains-Any [] a h = absurd (cc)
contains-Any (x ∷ xs) a h = elim (Bool-cases (x == a)) [
  | inl e ↦ here (==→≡ x a e)
  | inr e ↦ there (contains-Any xs a (ground arith))
]

Any-contains : (xs : List Text) (a : Text) → Any (λ x. x ≡ a) xs → contains xs a ≡ true
Any-contains [] a o = elim o [ ]
Any-contains (x ∷ xs) a (here e) =
    subst (λ y. (x == y || contains xs y) ≡ true) e (let same = ==-refl x in ground arith)
Any-contains (x ∷ xs) a (there o) = let rest = Any-contains xs a o in ground arith

reconsidering-OneReconsiders :
    (id : Text) (proposals : List Proposal)
    → reconsidering id proposals ≡ 1
    → OneReconsiders proposals id
reconsidering-OneReconsiders id proposals h =
    let (p, only) =
      length_one (keep (λ q. contains q.reconsiders id) proposals)
        (length-keep-reconsidering id proposals ∙ h) in
    (
      p,
      Sole-map (λ q. contains-Any q.reconsiders id) (λ q. Any-contains q.reconsiders id) p proposals
          (Sole-keep (λ q. contains q.reconsiders id) proposals p only),
    )

OneReconsiders-reconsidering :
    (id : Text) (proposals : List Proposal)
    → OneReconsiders proposals id
    → reconsidering id proposals ≡ 1
OneReconsiders-reconsidering id proposals (p, sole) =
    let only =
      keep-Sole (λ q. contains q.reconsiders id) proposals p
        (Sole-map (λ q. Any-contains q.reconsiders id) (λ q. contains-Any q.reconsiders id) p
          proposals sole) in
    sym (length-keep-reconsidering id proposals) ∙ ap length only

check_rediscoveries-none :
    (requests : List Text) (proposals : List Proposal)
    → check_rediscoveries requests proposals ≡ none
    → (id : Text) → Any (λ r. r ≡ id) requests
    → OneReconsiders proposals id
unfolding check_rediscoveries
check_rediscoveries-none [] proposals h id o = elim o [ ]
check_rediscoveries-none (r ∷ requests) proposals h id (here e) =
    subst (OneReconsiders proposals) e (reconsidering-OneReconsiders r proposals (ground arith))
check_rediscoveries-none (r ∷ requests) proposals h id (there o) =
    check_rediscoveries-none requests proposals (ground arith) id o

none-check_rediscoveries :
    (requests : List Text) (proposals : List Proposal)
    → ((id : Text) → Any (λ r. r ≡ id) requests → OneReconsiders proposals id)
    → check_rediscoveries requests proposals ≡ none
unfolding check_rediscoveries
none-check_rediscoveries [] proposals h = refl
none-check_rediscoveries (r ∷ requests) proposals h =
    let rest = none-check_rediscoveries requests proposals (λ id o. h id (there o)) in
    let first = OneReconsiders-reconsidering r proposals (h r (here refl)) in ground arith

-- The rediscoveries are accepted exactly when for every request the list holds a proposal that names
-- it among those it reconsiders, and no proposal before or after that one names it.
pub check_rediscoveries-once :
    (requests : List Text) (proposals : List Proposal)
    → (check_rediscoveries requests proposals ≡ none)
      ↔ ((id : Text) → Any (λ r. r ≡ id) requests → OneReconsiders proposals id)
check_rediscoveries-once requests proposals =
    (check_rediscoveries-none requests proposals, none-check_rediscoveries requests proposals)

-- With one found already, the loop succeeds exactly where no other one matches.
resolve_from-some :
    (cfg : Config) (target : Text) (p : PullRequest) (prs : List PullRequest) (pr : PullRequest)
    → (resolve_from cfg target (some p) prs ≡ pull_request pr)
      ↔ ((p ≡ pr) × (keep (targets cfg target) prs ≡ []))
unfolding resolve_from keep
resolve_from-some cfg target p [] pr = (λ h. (cc, refl), λ (e, f). cc)
resolve_from-some cfg target p (q ∷ prs) pr =
    let (to, from) = resolve_from-some cfg target p prs pr in
    elim (Bool-cases (targets cfg target q)) [
      | inl e ↦ (λ h. absurd (ground arith), λ (f, g). absurd (ground arith))
      | inr e ↦ (
        λ h. let found = to (ground arith) in ground arith,
        λ (f, g). let found = from (f, ground arith) in ground arith,
      )
    ]

resolve_from-none :
    (cfg : Config) (target : Text) (prs : List PullRequest) (pr : PullRequest)
    → (resolve_from cfg target none prs ≡ pull_request pr)
      ↔ (keep (targets cfg target) prs ≡ pr ∷ [])
unfolding resolve_from keep
resolve_from-none cfg target [] pr = (λ h. absurd (cc), λ h. absurd (cc))
resolve_from-none cfg target (q ∷ prs) pr =
    let (to, from) = resolve_from-none cfg target prs pr in
    let (to_some, from_some) = resolve_from-some cfg target q prs pr in
    elim (Bool-cases (targets cfg target q)) [
      | inl e ↦ (
        λ h. let found = to_some (ground arith) in ground arith,
        λ f. let found = from_some (ground arith, ground arith) in ground arith,
      )
      | inr e ↦ (
        λ h. let found = to (ground arith) in ground arith,
        λ f. let found = from (ground arith) in ground arith,
      )
    ]

-- An owned open pull request on the branch, into the default branch of the repository.
abbrev pub IsTarget : Config → Text → PullRequest → Type 0
IsTarget cfg target pr =
    (pr.branch ≡ target)
    × (pr.owned ≡ true)
    × (pr.state ≡ codes "open")
    × (pr.base ≡ cfg.default_branch)
    × (equal_ascii pr.base_repository cfg.github_repo ≡ true)

pub targets-IsTarget :
    (cfg : Config) (target : Text) (pr : PullRequest)
    → targets cfg target pr ≡ true
    → IsTarget cfg target pr
unfolding targets owned_open
targets-IsTarget cfg target pr h = (
  ==→≡ pr.branch target (ground arith),
  ground arith,
  ==→≡ pr.state (codes "open") (ground arith),
  ==→≡ pr.base cfg.default_branch (ground arith),
  ground arith,
)

IsTarget-targets :
    (cfg : Config) (target : Text) (pr : PullRequest)
    → IsTarget cfg target pr
    → targets cfg target pr ≡ true
unfolding targets owned_open
IsTarget-targets cfg target pr (on_branch, is_owned, is_open, into, of_repository) =
    let a = ≡→== pr.branch target on_branch in
    let b = ≡→== pr.state (codes "open") is_open in
    let c = ≡→== pr.base cfg.default_branch into in ground arith

-- A target resolves to a pull request exactly when it is not the default branch and that pull request
-- stands in the list as the only owned open one on that branch, into the default branch of the
-- repository: there is none before and none after it.
pub resolve_target-only :
    (cfg : Config) (prs : List PullRequest) (target : Text) (pr : PullRequest)
    → (resolve_target cfg prs target ≡ pull_request pr)
      ↔ ((target ≢ cfg.default_branch) × Sole (IsTarget cfg target) pr prs)
unfolding resolve_target
resolve_target-only cfg prs target pr =
    let (to, from) = resolve_from-none cfg target prs pr in
    elim (Bool-cases (target == cfg.default_branch)) [
      | inl e ↦
          (λ h. absurd (ground arith), λ (off, s). absurd (off (==→≡ target cfg.default_branch e)))
      | inr e ↦ (
        λ h. (
          λ same. let equal = ≡→== target cfg.default_branch same in absurd (cc),
          Sole-map (targets-IsTarget cfg target) (IsTarget-targets cfg target) pr prs
              (Sole-keep (targets cfg target) prs pr (to (ground arith))),
        ),
        λ (off, s).
            let found = from (
              keep-Sole (targets cfg target) prs pr
                (Sole-map (IsTarget-targets cfg target) (targets-IsTarget cfg target) pr prs s)) in
            ground arith,
      )
    ]
