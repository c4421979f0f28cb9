-- ===== src/Engine/Plan/Repeats.antt =====
-- The accepted proposals of a plan beside one another: their nodes and their work
-- (internal/engine/plan_rules.go).
use octomus_agent.Base.{
  true, false, List, [], ◌∷◌, map, if◌then◌else◌, Text, text_eq, nat_eq, ◌==◌, contains, ◌≡◌, sym,
  subst, ap, inl, inr, arith, Bool-cases, Distinct, no_entries, new_entry, Distinct-head,
  Distinct-tail, Any, here, there, Any-append, ◌++◌, none, refl,
}
use octomus_agent.Config.Types.{Config, delivery_mode_eq}
use octomus_agent.Model.Task.{Task}
use octomus_agent.Model.PullRequests.{PullRequest}
use octomus_agent.Model.Types.{Proposal}
use octomus_agent.Engine.Plan.Dependencies.{node_ids}
use octomus_agent.Engine.Plan.Proposals.{
  accepted_proposals, is_accepted, proposal_node, proposals_error, accepted_error, repeats,
}
use octomus_agent.Engine.Plan.Grounds.{SameWork, same_work-SameWork}

abbrev pub ids_of : List Proposal → List Text
ids_of ps = map (λ p. p.id) ps

pub accepted-contains :
    (ps : List Proposal) (id : Text)
    → contains (node_ids (map proposal_node (accepted_proposals ps))) id ≡ true
    → contains (ids_of ps) id ≡ true
unfolding accepted_proposals node_ids
accepted-contains [] id h = absurd (cc)
accepted-contains (p ∷ ps) id h =
    let nodes = map proposal_node (accepted_proposals ps) in
    elim (Bool-cases (contains (node_ids nodes) id)) [
      | inl k ↦ let rest = accepted-contains ps id k in ground arith
      | inr k ↦ elim (Bool-cases (p.id == id)) [
        | inl e ↦ ground arith
        | inr e ↦
            elim (is_accepted p)
                as (λ b.
                  contains
                      (node_ids (
                        map proposal_node
                          (if b then p ∷ accepted_proposals ps else accepted_proposals ps)))
                      id
                    ≡ true
                  → contains (ids_of (p ∷ ps)) id ≡ true) [
                    | true ↦ λ f. absurd (ground arith)
                    | false ↦ λ f. absurd (cc)
                  ]
              h
      ]
    ]

pub accepted-Distinct :
    (ps : List Proposal)
    → Distinct (ids_of ps)
    → Distinct (node_ids (map proposal_node (accepted_proposals ps)))
unfolding accepted_proposals node_ids
accepted-Distinct [] d = no_entries
accepted-Distinct (p ∷ ps) d =
    let rest = accepted-Distinct ps (Distinct-tail d) in
    let nodes = map proposal_node (accepted_proposals ps) in
    let fresh : contains (node_ids nodes) p.id ≡ false =
      elim (Bool-cases (contains (node_ids nodes) p.id)) [
        | inl k ↦
            let known = accepted-contains ps p.id k in let gone = Distinct-head d in absurd (cc)
        | inr k ↦ k
      ] in
    elim (is_accepted p)
      as (λ b. Distinct (
        node_ids
          (map proposal_node (if b then p ∷ accepted_proposals ps else accepted_proposals ps)))) [
            | true ↦ new_entry fresh rest
            | false ↦ rest
          ]

pub accepted-Occurs :
    (ps : List Proposal) (p : Proposal)
    → Any (λ q. q ≡ p) ps
    → is_accepted p ≡ true
    → Any (λ m. m ≡ proposal_node p) (map proposal_node (accepted_proposals ps))
unfolding accepted_proposals
accepted-Occurs [] p o a = elim o [ ]
accepted-Occurs (q ∷ ps) p (here e) a =
    subst
      (λ b.
        Any (λ m. m ≡ proposal_node p)
          (map proposal_node (if b then q ∷ accepted_proposals ps else accepted_proposals ps)))
      (sym (subst (λ k. is_accepted k ≡ true) (sym e) a)) (here (ap proposal_node e))
accepted-Occurs (q ∷ ps) p (there o) a =
    let rest = accepted-Occurs ps p o a in
    elim (is_accepted q)
      as (λ b.
        Any (λ m. m ≡ proposal_node p)
          (map proposal_node (if b then q ∷ accepted_proposals ps else accepted_proposals ps))) [
            | true ↦ there rest
            | false ↦ rest
          ]

-- No proposal is the work of one before it.
abbrev pub NoRepeat : (Text → Text) → List Proposal → Type 0
NoRepeat lowercase [] = Unit {0}
NoRepeat lowercase (p ∷ ps) =
    ((q : Proposal) → Any (λ r. r ≡ q) ps → ¬ SameWork lowercase p q) × NoRepeat lowercase ps

abbrev New : (Text → Text) → List Proposal → List Proposal → Type 0
New lowercase accepted ps =
    (a q : Proposal) → Any (λ r. r ≡ a) accepted → Any (λ r. r ≡ q) ps → ¬ SameWork lowercase a q

repeats-SameWork :
    (lowercase : Text → Text) (accepted : List Proposal) (p : Proposal)
    → repeats lowercase accepted p ≡ false
    → (a : Proposal) → Any (λ r. r ≡ a) accepted
    → ¬ SameWork lowercase a p
unfolding repeats
repeats-SameWork lowercase [] p h a o = elim o [ ]
repeats-SameWork lowercase (b ∷ accepted) p h a (here e) =
    subst (λ x. ¬ SameWork lowercase x p) e (same_work-SameWork lowercase b p (ground arith))
repeats-SameWork lowercase (b ∷ accepted) p h a (there o) =
    repeats-SameWork lowercase accepted p (ground arith) a o

Any-snoc_last : (xs : List Proposal) (p : Proposal) → Any (λ r. r ≡ p) (xs ++ (p ∷ []))
Any-snoc_last [] p = here refl
Any-snoc_last (x ∷ xs) p = there (Any-snoc_last xs p)

module _ (lowercase : Text → Text) (cfg : Config) (prs : List PullRequest)
    (history : List Task) where
  accepted_round :
      (ids : List Text) (accepted : List Proposal) (p : Proposal) (ps : List Proposal)
      → is_accepted p ≡ true
      → proposals_error lowercase cfg prs history ids accepted (p ∷ ps) ≡ none
      → (repeats lowercase accepted p ≡ false)
        × (proposals_error lowercase cfg prs history (p.id ∷ ids) (accepted ++ (p ∷ [])) ps ≡ none)
  unfolding proposals_error accepted_error
  accepted_round ids accepted p ps a h = (ground arith, ground arith)

  other_round :
      (ids : List Text) (accepted : List Proposal) (p : Proposal) (ps : List Proposal)
      → is_accepted p ≡ false
      → proposals_error lowercase cfg prs history ids accepted (p ∷ ps) ≡ none
      → proposals_error lowercase cfg prs history (p.id ∷ ids) accepted ps ≡ none
  unfolding proposals_error
  other_round ids accepted p ps a h = ground arith

  -- A proposal that was accepted is new to those before it, and those after it are new to it.
  NoRepeat-cons :
      (accepted : List Proposal) (p : Proposal) (ps : List Proposal)
      → repeats lowercase accepted p ≡ false
      → New lowercase (accepted ++ (p ∷ [])) ps × NoRepeat lowercase ps
      → New lowercase accepted (p ∷ ps) × NoRepeat lowercase (p ∷ ps)
  NoRepeat-cons accepted p ps fresh (new, apart) =
      (new_head, (λ q o. new p q (Any-snoc_last accepted p) o, apart))
    where
      new_head : New lowercase accepted (p ∷ ps)
      new_head a q o (here e) =
          subst (λ x. ¬ SameWork lowercase a x) e (repeats-SameWork lowercase accepted p fresh a o)
      new_head a q o (there m) = new a q (Any-append o (p ∷ [])) m

  accepted-NoRepeat :
      (ids : List Text) (accepted ps : List Proposal)
      → proposals_error lowercase cfg prs history ids accepted ps ≡ none
      → New lowercase accepted (accepted_proposals ps) × NoRepeat lowercase (accepted_proposals ps)
  unfolding accepted_proposals
  accepted-NoRepeat ids accepted [] h = (λ a q o m. elim m [ ], tt)
  accepted-NoRepeat ids accepted (p ∷ ps) h = elim (Bool-cases (is_accepted p)) [
    | inl a ↦
        let (fresh, rest) = accepted_round ids accepted p ps a h in
        let both =
          NoRepeat-cons accepted p (accepted_proposals ps) fresh
            (accepted-NoRepeat (p.id ∷ ids) (accepted ++ (p ∷ [])) ps rest) in
        subst
          (λ b.
            New lowercase accepted (if b then p ∷ accepted_proposals ps else accepted_proposals ps)
            × NoRepeat lowercase (if b then p ∷ accepted_proposals ps else accepted_proposals ps))
          (sym a) both
    | inr a ↦
        subst
          (λ b.
            New lowercase accepted (if b then p ∷ accepted_proposals ps else accepted_proposals ps)
            × NoRepeat lowercase (if b then p ∷ accepted_proposals ps else accepted_proposals ps))
          (sym a) (accepted-NoRepeat (p.id ∷ ids) accepted ps (other_round ids accepted p ps a h))
  ]

  pub proposals_error-NoRepeat :
      (ps : List Proposal)
      → proposals_error lowercase cfg prs history [] [] ps ≡ none
      → NoRepeat lowercase (accepted_proposals ps)
  proposals_error-NoRepeat ps h = (accepted-NoRepeat [] [] ps h).1
