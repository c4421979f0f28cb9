-- ===== src/Engine/Plan/Accepted.antt =====
-- What a plan's dependencies are once validateDependencies accepts them
-- (internal/engine/plan_rules.go).
use octomus_agent.Base.{
  true, false, List, [], ◌∷◌, Option, none, some, Text, text_eq, ◌==◌, contains, length, Any, here,
  there, Distinct, new_entry, Distinct-head, Distinct-tail, ◌≡◌, ◌≢◌, refl, sym, subst, inl, inr,
  arith, Bool-cases, Option-cases, ==→≡, ==-refl, ◌≤◌, if◌then◌else◌,
}
use octomus_agent.Engine.Plan.Dependencies.{
  DepNode, unfinished, node_ids, members, branches_from, branch_error, branches_error, then_error,
  validate_dependencies, edges_error, dependencies_error, dependency_error, by_id,
}
use octomus_agent.Engine.Plan.Order.{
  IsOrder, order_error-IsOrder, order_error_unique, order_error-finishes,
}
use octomus_agent.Engine.Plan.Search.{edges_error-closed, cycle_search-finishes}

members-node_ids :
    (branch : Text) (nodes : List DepNode) (id : Text)
    → contains (node_ids (members branch nodes)) id ≡ true
    → contains (node_ids nodes) id ≡ true
unfolding members node_ids
members-node_ids branch [] id h = h
members-node_ids branch (n ∷ nodes) id h =
    elim (Bool-cases (contains (node_ids (members branch nodes)) id)) [
      | inl e ↦ let rest = members-node_ids branch nodes id e in ground arith
      | inr e ↦ ground arith
    ]

members-Distinct :
    (branch : Text) (nodes : List DepNode)
    → Distinct (node_ids nodes)
    → Distinct (node_ids (members branch nodes))
unfolding members node_ids
members-Distinct branch [] d = d
members-Distinct branch (n ∷ nodes) d =
    elim (n.target == branch)
      as (λ b. Distinct (node_ids (if b then n ∷ members branch nodes else members branch nodes))) [
        | true ↦
            new_entry (fresh (Distinct-head d)) (members-Distinct branch nodes (Distinct-tail d))
        | false ↦ members-Distinct branch nodes (Distinct-tail d)
      ]
  where
    fresh :
        contains (node_ids nodes) n.id ≡ false
        → contains (node_ids (members branch nodes)) n.id ≡ false
    fresh e = elim (Bool-cases (contains (node_ids (members branch nodes)) n.id)) [
      | inl k ↦ let known = members-node_ids branch nodes n.id k in absurd (cc)
      | inr k ↦ k
    ]

length-node_ids : (nodes : List DepNode) → length (node_ids nodes) ≤ length nodes
unfolding node_ids
length-node_ids [] = ground arith
length-node_ids (n ∷ nodes) = let rest = length-node_ids nodes in ground arith

branches_from-contains :
    (default_branch : Text) (known : List Text) (nodes : List DepNode) (n : DepNode)
    → Any (λ m. m ≡ n) nodes
    → (n.target == default_branch) ≡ false
    → contains known n.target ≡ false
    → contains (branches_from default_branch known nodes) n.target ≡ true
unfolding branches_from
branches_from-contains b known [] n o off new = elim o [ ]
branches_from-contains b known (m ∷ nodes) n (here e) off new =
    let same = ==-refl n.target in
    let off_m = subst (λ k. (k.target == b) ≡ false) (sym e) off in
    let new_m = subst (λ k. contains known k.target ≡ false) (sym e) new in
    subst (λ k. contains (branches_from b known (m ∷ nodes)) k.target ≡ true) e
      (let head = ==-refl m.target in ground arith)
branches_from-contains b known (m ∷ nodes) n (there o) off new =
    elim (Bool-cases (m.target == n.target)) [
      | inl e ↦
          let target = ==→≡ m.target n.target e in
          let off_m = subst (λ t. (t == b) ≡ false) (sym target) off in
          let new_m = subst (λ t. contains known t ≡ false) (sym target) new in ground arith
      | inr e ↦
          let same = branches_from-contains b known nodes n o off new in
          let more = branches_from-contains b (m.target ∷ known) nodes n o off (ground arith) in
          ground arith
    ]

branches_error-contains :
    (branches : List Text) (nodes : List DepNode) (b : Text)
    → branches_error branches nodes ≡ none
    → contains branches b ≡ true
    → branch_error b nodes ≡ none
unfolding branches_error
branches_error-contains [] nodes b h k = absurd (cc)
branches_error-contains (x ∷ branches) nodes b h k = elim (Bool-cases (x == b)) [
  | inl e ↦ subst (λ y. branch_error y nodes ≡ none) (==→≡ x b e) (ground arith)
  | inr e ↦ branches_error-contains branches nodes b (ground arith) (ground arith)
]

-- An error that neither check gives, the two in turn do not give.
then_error-finishes {ℓ} :
    {E : Type ℓ} (e : E) (a b : Option E) → a ≢ some e → b ≢ some e → then_error a b ≢ some e
then_error-finishes e none b p q h = q h
then_error-finishes e (some x) b p q h = p h

branches_error-finishes :
    (branches : List Text) (nodes : List DepNode) → branches_error branches nodes ≢ some unfinished
unfolding branches_error branch_error
branches_error-finishes [] nodes = λ h. absurd (cc)
branches_error-finishes (x ∷ branches) nodes =
    let writers = members x nodes in
    then_error-finishes unfinished _ _
      (order_error-finishes x writers (length writers) (node_ids writers) (length-node_ids writers))
      (branches_error-finishes branches nodes)

dependency_error-finishes :
    (default_branch : Text) (n : DepNode) (id : Text) (o : Option DepNode)
    → dependency_error default_branch n id o ≢ some unfinished
dependency_error-finishes b n id none h = absurd (cc)
dependency_error-finishes b n id (some d) h = absurd (ground arith)

dependencies_error-finishes :
    (default_branch : Text) (nodes : List DepNode) (n : DepNode) (deps : List Text)
    → dependencies_error default_branch nodes n deps ≢ some unfinished
unfolding dependencies_error
dependencies_error-finishes b nodes n [] = λ h. absurd (cc)
dependencies_error-finishes b nodes n (id ∷ deps) =
    then_error-finishes unfinished _ _ (dependency_error-finishes b n id (by_id nodes id))
      (dependencies_error-finishes b nodes n deps)

edges_error-finishes :
    (default_branch : Text) (nodes : List DepNode) (rest : List DepNode)
    → edges_error default_branch nodes rest ≢ some unfinished
unfolding edges_error
edges_error-finishes b nodes [] = λ h. absurd (cc)
edges_error-finishes b nodes (n ∷ rest) =
    then_error-finishes unfinished _ _ (dependencies_error-finishes b nodes n n.deps)
      (edges_error-finishes b nodes rest)

-- The bounds on the cycle search and on the rounds of a branch are never reached: the checks of a
-- plan's dependencies always end with their own answer.
pub validate_dependencies-finishes :
    (default_branch : Text) (nodes : List DepNode)
    → validate_dependencies default_branch nodes ≢ some unfinished
unfolding validate_dependencies
validate_dependencies-finishes b nodes h = elim (Option-cases (edges_error b nodes nodes)) [
  | inl e ↦
      then_error-finishes unfinished _ _
        (cycle_search-finishes nodes (edges_error-closed b nodes e))
        (branches_error-finishes (branches_from b [] nodes) nodes) (ground arith)
  | inr (x, e) ↦ edges_error-finishes b nodes nodes (ground arith)
]

-- In an accepted plan of distinct nodes, the writers to each branch other than the default one have
-- exactly one execution order, in which every writer stands after its prerequisites.
pub validate_dependencies-IsOrder :
    (default_branch : Text) (nodes : List DepNode)
    → Distinct (node_ids nodes)
    → validate_dependencies default_branch nodes ≡ none
    → (n : DepNode) → Any (λ m. m ≡ n) nodes
    → (n.target == default_branch) ≡ false
    → (order : List Text) × IsOrder
        (members n.target nodes)
        (node_ids (members n.target nodes))
        order
      × ((other : List Text)
          → IsOrder (members n.target nodes) (node_ids (members n.target nodes)) other
          → other ≡ order)
unfolding validate_dependencies branch_error
validate_dependencies-IsOrder b nodes distinct h n occurs off =
    let writers = members n.target nodes in
    let ok =
      branches_error-contains (branches_from b [] nodes) nodes n.target (ground arith)
        (branches_from-contains b [] nodes n occurs off refl) in
    let (order, o) =
      order_error-IsOrder n.target writers (length writers) (node_ids writers)
        (members-Distinct n.target nodes distinct) ok in
    (
      order,
      o,
      λ other q.
          order_error_unique n.target writers (length writers) (node_ids writers) (λ id k. k) ok
            other order q o,
    )
