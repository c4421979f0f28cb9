-- ===== src/Engine/Plan/Committed.antt =====
-- What a plan is once validateProposals accepts it, and what a committed one still is once
-- validateTaskPlan accepts it (internal/engine/plan_rules.go).
use octomus_agent.Base.{
  ◌≤◌, true, false, List, [], ◌∷◌, ◌++◌, map, Option, none, some, Text, text_eq, nat_eq, ◌==◌,
  contains, length, ◌≡◌, refl, sym, subst, inl, inr, arith, Bool-cases, Option-cases, ==→≡, ==-refl,
  Distinct, no_entries, new_entry, Any, here, there,
}
use octomus_agent.Config.Types.{Config, delivery_mode_eq}
use octomus_agent.Config.Identity.{effective_categories}
use octomus_agent.Model.Types.{Proposal}
use octomus_agent.Model.Task.{Task}
use octomus_agent.Model.PullRequests.{PullRequest}
use octomus_agent.Engine.Plan.Dependencies.{
  DepNode, DepError, node_ids, members, validate_dependencies,
}
use octomus_agent.Engine.Plan.Order.{IsOrder}
use octomus_agent.Engine.Plan.Accepted.{validate_dependencies-IsOrder}
use octomus_agent.Engine.Plan.Rules.{
  TaskPlanError, tasks_error, validate_task_plan, plan_branch, plan_error, task_node,
}
use octomus_agent.Engine.Plan.Proposals.{
  validate_proposals, proposals_error, identity_error, accepted_proposals, is_accepted,
  proposal_node,
}
use octomus_agent.Engine.Plan.Grounds.{Grounded, Grounded-accepted_error}
use octomus_agent.Engine.Plan.Repeats.{
  ids_of, accepted-Distinct, accepted-Occurs, NoRepeat, proposals_error-NoRepeat,
}

-- The writers to the branch have exactly one execution order.
abbrev pub OneOrder : List DepNode → Type 0
OneOrder writers =
    (order : List Text) × IsOrder writers (node_ids writers) order
    × ((other : List Text) → IsOrder writers (node_ids writers) other → other ≡ order)

-- The recheck of one task.
abbrev pub Compatible : Config → Task → Type 0
Compatible live t =
    (t.config.delivery_mode ≡ live.delivery_mode)
    × (contains (effective_categories t.config) t.proposal.category ≡ true)

abbrev pub task_ids : List Task → List Text
task_ids ts = map (λ t. t.id) ts

-- An identity that is new to those before it and to those after it.
Distinct-of_fresh :
    (seen : List Text) (id : Text) (rest : List Text)
    → contains seen id ≡ false
    → Distinct rest
    → ((x : Text) → contains rest x ≡ true → contains (id ∷ seen) x ≡ false)
    → Distinct (id ∷ rest) × ((x : Text) → contains (id ∷ rest) x ≡ true → contains seen x ≡ false)
Distinct-of_fresh seen id rest new distinct fresh = (
  new_entry
      (elim (Bool-cases (contains rest id)) [
        | inl k ↦ let f = fresh id k in let same = ==-refl id in absurd (ground arith)
        | inr k ↦ k
      ])
      distinct,
  λ x k. elim (Bool-cases (id == x)) [
    | inl e ↦ subst (λ y. contains seen y ≡ false) (==→≡ id x e) new
    | inr e ↦ let f = fresh x (ground arith) in ground arith
  ],
)

tasks_error-Distinct :
    (live : Config) (seen : List Text) (tasks : List Task)
    → tasks_error live seen tasks ≡ none
    → Distinct (task_ids tasks)
      × ((id : Text) → contains (task_ids tasks) id ≡ true → contains seen id ≡ false)
unfolding tasks_error
tasks_error-Distinct live seen [] h = (no_entries, λ id k. absurd (cc))
tasks_error-Distinct live seen (t ∷ tasks) h =
    let (distinct, fresh) = tasks_error-Distinct live (t.id ∷ seen) tasks (ground arith) in
    Distinct-of_fresh seen t.id (task_ids tasks) (ground arith) distinct fresh

tasks_error-Compatible :
    (live : Config) (seen : List Text) (tasks : List Task)
    → tasks_error live seen tasks ≡ none
    → (t : Task) → Any (λ u. u ≡ t) tasks
    → Compatible live t
unfolding tasks_error
tasks_error-Compatible live seen [] h t o = elim o [ ]
tasks_error-Compatible live seen (u ∷ tasks) h t (here e) =
    subst (λ k. Compatible live k) e (ground arith, ground arith)
tasks_error-Compatible live seen (u ∷ tasks) h t (there o) =
    tasks_error-Compatible live (u.id ∷ seen) tasks (ground arith) t o

node_ids-tasks : (tasks : List Task) → node_ids (map task_node tasks) ≡ task_ids tasks
unfolding node_ids
node_ids-tasks [] = refl
node_ids-tasks (t ∷ tasks) = let rest = node_ids-tasks tasks in cc

Occurs-task_node :
    (tasks : List Task) (t : Task)
    → Any (λ u. u ≡ t) tasks
    → Any (λ m. m ≡ task_node t) (map task_node tasks)
Occurs-task_node [] t o = elim o [ ]
Occurs-task_node (u ∷ tasks) t (here e) = here (cc)
Occurs-task_node (u ∷ tasks) t (there o) = there (Occurs-task_node tasks t o)

first_ok :
    (a : Option TaskPlanError) (b : Option DepError)
    → plan_error a b ≡ none
    → (a ≡ none) × (b ≡ none)
first_ok none none h = (refl, refl)
first_ok none (some e) h = absurd (cc)
first_ok (some e) b h = absurd (cc)

-- A committed plan that the recheck accepts has distinct tasks, all of the live delivery mode and of
-- a category that their policy plans, and the tasks that write the branch of one of them have
-- exactly one execution order, unless that branch is the default one.
pub validate_task_plan-OneOrder :
    (tasks : List Task) (live : Config)
    → validate_task_plan tasks live ≡ none
    → Distinct (task_ids tasks)
      × ((t : Task)
          → Any (λ u. u ≡ t) tasks
          → Compatible live t
            × ((t.proposal.target == plan_branch [] tasks) ≡ false
                → OneOrder (members t.proposal.target (map task_node tasks))))
unfolding validate_task_plan
validate_task_plan-OneOrder tasks live h =
    let checked =
      first_ok (tasks_error live [] tasks)
        (validate_dependencies (plan_branch [] tasks) (map task_node tasks)) h in
    let (distinct, fresh) = tasks_error-Distinct live [] tasks checked.0 in
    (
      distinct,
      λ t o. (
        tasks_error-Compatible live [] tasks checked.0 t o,
        λ off.
            validate_dependencies-IsOrder (plan_branch [] tasks) (map task_node tasks)
              (subst (λ ids. Distinct ids) (sym (node_ids-tasks tasks)) distinct) checked.1
              (task_node t) (Occurs-task_node tasks t o) off,
      ),
    )

module _ (lowercase : Text → Text) (cfg : Config) (prs : List PullRequest)
    (history : List Task) where
  -- One accepted round of the loop.
  proposals_error-cons :
      (ids : List Text) (accepted : List Proposal) (p : Proposal) (ps : List Proposal)
      → proposals_error lowercase cfg prs history ids accepted (p ∷ ps) ≡ none
      → (contains ids p.id ≡ false)
        × (is_accepted p ≡ true → Grounded lowercase cfg prs history p)
        × ((next : List Proposal) × (proposals_error lowercase cfg prs history (p.id ∷ ids) next ps
              ≡ none))
  unfolding proposals_error identity_error
  proposals_error-cons ids accepted p ps h = elim (Bool-cases (is_accepted p)) [
    | inl a ↦
        let own = Grounded-accepted_error lowercase cfg prs history accepted p (ground arith) in
        (ground arith, λ b. own, (accepted ++ (p ∷ []), ground arith))
    | inr a ↦ (ground arith, λ b. absurd (cc), (accepted, ground arith))
  ]

  proposals_error-Distinct :
      (ids : List Text) (accepted ps : List Proposal)
      → proposals_error lowercase cfg prs history ids accepted ps ≡ none
      → Distinct (ids_of ps)
        × ((id : Text) → contains (ids_of ps) id ≡ true → contains ids id ≡ false)
  proposals_error-Distinct ids accepted [] h = (no_entries, λ id k. absurd (cc))
  proposals_error-Distinct ids accepted (p ∷ ps) h =
      let (new, own, more) = proposals_error-cons ids accepted p ps h in
      let (distinct, fresh) = proposals_error-Distinct (p.id ∷ ids) more.0 ps more.1 in
      Distinct-of_fresh ids p.id (ids_of ps) new distinct fresh

  proposals_error-Grounded :
      (ids : List Text) (accepted ps : List Proposal)
      → proposals_error lowercase cfg prs history ids accepted ps ≡ none
      → (p : Proposal) → Any (λ q. q ≡ p) ps
      → is_accepted p ≡ true
      → Grounded lowercase cfg prs history p
  proposals_error-Grounded ids accepted [] h p o a = elim o [ ]
  proposals_error-Grounded ids accepted (q ∷ ps) h p (here e) a =
      let (new, own, more) = proposals_error-cons ids accepted q ps h in
      subst (λ k. Grounded lowercase cfg prs history k) e
        (own (subst (λ k. is_accepted k ≡ true) (sym e) a))
  proposals_error-Grounded ids accepted (q ∷ ps) h p (there o) a =
      let (new, own, more) = proposals_error-cons ids accepted q ps h in
      proposals_error-Grounded (q.id ∷ ids) more.0 ps more.1 p o a

  validate_proposals-parts :
      (proposals : List Proposal)
      → validate_proposals lowercase cfg proposals prs history ≡ none
      → (proposals_error lowercase cfg prs history [] [] proposals ≡ none)
        × (length (accepted_proposals proposals) ≤ cfg.max_tasks_per_cycle)
        × (validate_dependencies cfg.default_branch
              (map proposal_node (accepted_proposals proposals))
            ≡ none)
  unfolding validate_proposals
  validate_proposals-parts proposals h = (
    ground arith,
    ground arith,
    elim (Option-cases (
        validate_dependencies cfg.default_branch
          (map proposal_node (accepted_proposals proposals)))) [
            | inl e ↦ e
            | inr (x, e) ↦ absurd (ground arith)
          ],
  )

  -- A plan that the validation accepts has distinct proposals and no more accepted ones than the policy
  -- allows in a cycle; none of these is the work of an accepted one before it or of a recorded task
  -- that is not cancelled, and each has all its context within the sizes, a known tier, a planned
  -- category, and as its target the default branch or that of exactly one owned open pull request; and the accepted writers to the branch of one of
  -- them have exactly one execution order, unless that branch is the default one.
  pub validate_proposals-Grounded :
      (proposals : List Proposal)
      → validate_proposals lowercase cfg proposals prs history ≡ none
      → Distinct (ids_of proposals)
        × (length (accepted_proposals proposals) ≤ cfg.max_tasks_per_cycle)
        × NoRepeat lowercase (accepted_proposals proposals)
        × ((p : Proposal)
            → Any (λ q. q ≡ p) proposals
            → is_accepted p ≡ true
            → Grounded lowercase cfg prs history p
              × ((p.target == cfg.default_branch) ≡ false
                  → OneOrder (members p.target (map proposal_node (accepted_proposals proposals)))))
  validate_proposals-Grounded proposals h =
      let (checked, few, ordered) = validate_proposals-parts proposals h in
      let (distinct, fresh) = proposals_error-Distinct [] [] proposals checked in
      (
        distinct,
        few,
        proposals_error-NoRepeat lowercase cfg prs history proposals checked,
        λ p o a. (
          proposals_error-Grounded [] [] proposals checked p o a,
          λ off.
              validate_dependencies-IsOrder cfg.default_branch
                (map proposal_node (accepted_proposals proposals))
                (accepted-Distinct proposals distinct) ordered (proposal_node p)
                (accepted-Occurs proposals p o a) off,
        ),
      )
