-- ===== src/Engine/Plan/Grounds.antt =====
-- What an accepted proposal is on its own (internal/engine/plan_rules.go).
use octomus_agent.Base.{
  byte_length, ◌≤◌, true, false, List, [], ◌∷◌, Option, none, some, Text, text_eq, nat_eq, ◌==◌,
  contains, length, is_blank, is_some, codes, trim_space, ◌≡◌, ◌≢◌, refl, subst, ◌⊎◌, inl, inr,
  arith, Bool-cases, ==→≡, ≡→==, Any, here, there, Sole,
}
use octomus_agent.Config.Types.{Config, Route, delivery_mode_eq}
use octomus_agent.Config.Identity.{effective_categories, equal_ascii}
use octomus_agent.Model.Enums.{cancelled, status_eq}
use octomus_agent.Model.Types.{Proposal}
use octomus_agent.Model.Task.{Task}
use octomus_agent.Model.PullRequests.{PullRequest}
use octomus_agent.Engine.Plan.Rules.{
  missing_field, first_blank, or_field, no_evidence, resolve_target, resolve_from, targets, Target,
  default_target, pull_request, ambiguous, unresolved,
}
use octomus_agent.Engine.Plan.RulesHold.{IsTarget, resolve_target-only}
use octomus_agent.Engine.Plan.Proposals.{
  accepted_error, content_error, target_error, has_tier, recorded, repeats, same_work,
  problem_identity,
}

-- Every field that is not to be missing is there.
abbrev pub IsComplete : Proposal → Type 0
IsComplete p =
    (is_blank p.title ≡ false)
    × (is_blank p.problem ≡ false)
    × (is_blank p.benefit ≡ false)
    × (is_blank p.scope ≡ false)
    × (is_blank p.prompt ≡ false)
    × (p.evidence ≢ [])

-- The target is the default branch, or that of exactly one owned open pull request.
abbrev pub HasTarget : Config → List PullRequest → Text → Type 0
HasTarget cfg prs target =
    (target ≡ cfg.default_branch) ⊎ ((pr : PullRequest) × Sole (IsTarget cfg target) pr prs)

no_evidence-some : (evidence : List Text) → no_evidence evidence ≡ none → evidence ≢ []
no_evidence-some [] h e = absurd (cc)
no_evidence-some (x ∷ xs) h e = absurd (ground arith)

or_field_inversion : (a b : Option Text) → or_field a b ≡ none → (a ≡ none) × (b ≡ none)
or_field_inversion none b h = (refl, h)
or_field_inversion (some x) b h = absurd (cc)

abbrev Present : List (Text × Text) → Type 0
Present [] = Unit {0}
Present ((name, value) ∷ fields) = (is_blank value ≡ false) × Present fields

first_blank-Present : (fields : List (Text × Text)) → first_blank fields ≡ none → Present fields
unfolding first_blank
first_blank-Present [] h = tt
first_blank-Present ((name, value) ∷ fields) h =
    (ground arith, first_blank-Present fields (ground arith))

abbrev fields_of : Proposal → List (Text × Text)
fields_of p =
    (codes "title", p.title)
    ∷ (codes "problem", p.problem)
    ∷ (codes "benefit", p.benefit)
    ∷ (codes "scope", p.scope)
    ∷ (codes "prompt", p.prompt)
    ∷ []

missing_field-IsComplete : (p : Proposal) → missing_field p ≡ none → IsComplete p
unfolding missing_field
missing_field-IsComplete p h =
    let (fields, evidence) =
      or_field_inversion (first_blank (fields_of p)) (no_evidence p.evidence) h in
    let (title, (problem, (benefit, (scope, (prompt, rest))))) =
      first_blank-Present (fields_of p) fields in
    (title, problem, benefit, scope, prompt, no_evidence-some p.evidence evidence)

has_tier-Any :
    (tiers : List (Text × Route)) (tier : Text)
    → has_tier tiers tier ≡ true
    → Any (λ t. t.0 ≡ tier) tiers
unfolding has_tier
has_tier-Any [] tier h = absurd (cc)
has_tier-Any ((name, route) ∷ tiers) tier h = elim (Bool-cases (name == tier)) [
  | inl e ↦ here (==→≡ name tier e)
  | inr e ↦ there (has_tier-Any tiers tier (ground arith))
]

resolve_from-default :
    (cfg : Config) (target : Text) (found : Option PullRequest) (prs : List PullRequest)
    → ¬ (resolve_from cfg target found prs ≡ default_target)
unfolding resolve_from
resolve_from-default cfg target none [] h = absurd (cc)
resolve_from-default cfg target (some pr) [] h = absurd (cc)
resolve_from-default cfg target found (pr ∷ prs) h =
    let skipped = resolve_from-default cfg target found prs in
    let taken = resolve_from-default cfg target (some pr) prs in
    elim (Bool-cases (targets cfg target pr)) [
      | inl e ↦ elim (Bool-cases (is_some found)) [
        | inl f ↦ absurd (ground arith)
        | inr f ↦ taken (ground arith)
      ]
      | inr e ↦ skipped (ground arith)
    ]

resolved-HasTarget :
    (cfg : Config) (prs : List PullRequest) (p : Proposal) (found : Target)
    → resolve_target cfg prs p.target ≡ found
    → target_error p.id found ≡ none
    → HasTarget cfg prs p.target
unfolding resolve_target
resolved-HasTarget cfg prs p default_target e h =
    elim (Bool-cases (p.target == cfg.default_branch)) [
      | inl same ↦ inl (==→≡ p.target cfg.default_branch same)
      | inr other ↦ absurd (resolve_from-default cfg p.target none prs (ground arith))
    ]
resolved-HasTarget cfg prs p (pull_request pr) e h =
    let (to, from) = resolve_target-only cfg prs p.target pr in inr (pr, (to e).1)
resolved-HasTarget cfg prs p ambiguous e h = absurd (cc)
resolved-HasTarget cfg prs p unresolved e h = absurd (cc)

module _ (lowercase : Text → Text) where
  -- Two proposals for one branch have the same title or the same problem.
  abbrev pub SameWork : Proposal → Proposal → Type 0
  SameWork p other =
      (p.target ≡ other.target)
      × ((equal_ascii (trim_space p.title) (trim_space other.title) ≡ true)
          ⊎ (problem_identity lowercase p ≡ problem_identity lowercase other))

  pub same_work-SameWork :
      (p other : Proposal) → same_work lowercase p other ≡ false → ¬ SameWork p other
  unfolding same_work
  same_work-SameWork p other h (target, inl title) =
      let a = ≡→== p.target other.target target in absurd (ground arith)
  same_work-SameWork p other h (target, inr problem) =
      let a = ≡→== p.target other.target target in
      let b = ≡→== (problem_identity lowercase p) (problem_identity lowercase other) problem in
      absurd (ground arith)

  recorded-SameWork :
      (history : List Task) (p : Proposal)
      → recorded lowercase history p ≡ false
      → (t : Task) → Any (λ u. u ≡ t) history
      → t.status ≢ cancelled
      → ¬ SameWork t.proposal p
  unfolding recorded
  recorded-SameWork [] p h t o live = elim o [ ]
  recorded-SameWork (u ∷ history) p h t (here e) live = elim (Bool-cases (u.status == cancelled)) [
    | inl done ↦ absurd (live (subst (λ x. x.status ≡ cancelled) e (==→≡ u.status cancelled done)))
    | inr open_ ↦
        subst (λ x. ¬ SameWork x.proposal p) e (same_work-SameWork u.proposal p (ground arith))
  ]
  recorded-SameWork (u ∷ history) p h t (there o) live =
      recorded-SameWork history p (ground arith) t o live

  module _ (cfg : Config) (prs : List PullRequest) (history : List Task) where
    -- An accepted proposal on its own: within the sizes, with all its context, of a known tier and a
    -- category that the policy plans, on a branch that exists, and not the work of a recorded task.
    abbrev pub Grounded : Proposal → Type 0
    Grounded p =
        (byte_length p.title ≤ 200)
        × (byte_length p.prompt ≤ 32000)
        × (length p.evidence ≤ 40)
        × IsComplete p
        × Any (λ t. t.0 ≡ p.tier) cfg.tiers
        × (contains (effective_categories cfg) p.category ≡ true)
        × HasTarget cfg prs p.target
        × ((t : Task) → Any (λ u. u ≡ t) history → t.status ≢ cancelled → ¬ SameWork t.proposal p)

    accepted_inversion :
        (accepted : List Proposal) (p : Proposal)
        → accepted_error lowercase cfg prs history accepted p ≡ none
        → (repeats lowercase accepted p ≡ false)
          × (content_error cfg prs p ≡ none)
          × (recorded lowercase history p ≡ false)
    unfolding accepted_error
    accepted_inversion accepted p h = (ground arith, ground arith, ground arith)

    content_inversion :
        (p : Proposal)
        → content_error cfg prs p ≡ none
        → (byte_length p.title ≤ 200)
          × (byte_length p.prompt ≤ 32000)
          × (length p.evidence ≤ 40)
          × (missing_field p ≡ none)
          × (has_tier cfg.tiers p.tier ≡ true)
          × (contains (effective_categories cfg) p.category ≡ true)
          × (target_error p.id (resolve_target cfg prs p.target) ≡ none)
    unfolding content_error
    content_inversion p h = (
      ground arith,
      ground arith,
      ground arith,
      ground arith,
      ground arith,
      ground arith,
      ground arith,
    )

    pub Grounded-accepted_error :
        (accepted : List Proposal) (p : Proposal)
        → accepted_error lowercase cfg prs history accepted p ≡ none
        → Grounded p
    Grounded-accepted_error accepted p h =
        let (new, own, fresh) = accepted_inversion accepted p h in
        let (title, prompt, evidence, fields, tier, category, target) = content_inversion p own in
        (
          title,
          prompt,
          evidence,
          missing_field-IsComplete p fields,
          has_tier-Any cfg.tiers p.tier tier,
          category,
          resolved-HasTarget cfg prs p (resolve_target cfg prs p.target) refl target,
          recorded-SameWork history p fresh,
        )
