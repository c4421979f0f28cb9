-- ===== src/Engine/Plan/Dependencies.antt =====
-- internal/engine/plan_rules.go: validateDependencies. The maps over node identities are functions
-- or lists read by `contains`; the recursion of the cycle search is bounded by a number of calls
-- (Engine/Plan/Search shows that the number of nodes is enough), the loop over the remaining
-- writers of a branch by the number of writers (Engine/Plan/Order).
use octomus_agent.Base.{
  ℕ, zero, suc, Bool, false, not, ◌&&◌, ◌||◌, List, [], ◌∷◌, map, Option, none, some, if◌then◌else◌,
  Text, text_eq, nat_eq, ◌==◌, ◌!=◌, contains, length,
}

pub record DepNode : Type 0 where
  pub id : Text
  pub target : Text
  pub deps : List Text

-- The errors, and `unfinished` where the bound on the calls of a loop is reached.
pub data DepError : Type 0 where
  unknown_dependency default_branch_dependency crossing_dependency : Text → Text → DepError
  cycle unordered : Text → DepError
  unfinished : DepError

abbrev pub or_later {ℓ} : {A : Type ℓ} → Option A → Option A → Option A
or_later earlier (some later) = some later
or_later earlier none = earlier

-- byID: the last node of an identity.
unfoldable pub by_id : List DepNode → Text → Option DepNode
by_id [] id = none
by_id (n ∷ nodes) id = or_later (if n.id == id then some n else none) (by_id nodes id)

abbrev pub then_error {ℓ} : {E : Type ℓ} → Option E → Option E → Option E
then_error none next = next
then_error (some e) next = some e

abbrev pub dependency_error : Text → DepNode → Text → Option DepNode → Option DepError
dependency_error default_branch node id none = some (unknown_dependency node.id id)
dependency_error default_branch node id (some dependency) =
    if node.target == default_branch
    then some (default_branch_dependency node.id id)
    else if dependency.target != node.target
    then some (crossing_dependency node.id id)
    else none

-- The first loop's inner loop, for one node.
unfoldable pub dependencies_error : Text → List DepNode → DepNode → List Text → Option DepError
unfolding by_id
dependencies_error default_branch nodes node [] = none
dependencies_error default_branch nodes node (id ∷ deps) =
    then_error (dependency_error default_branch node id (by_id nodes id))
      (dependencies_error default_branch nodes node deps)

-- The first loop, over the nodes of the second list.
unfoldable pub edges_error : Text → List DepNode → List DepNode → Option DepError
unfolding dependencies_error
edges_error default_branch nodes [] = none
edges_error default_branch nodes (n ∷ rest) =
    then_error (dependencies_error default_branch nodes n n.deps)
      (edges_error default_branch nodes rest)

-- The map `state`: 0 where there is no entry.
abbrev pub State : Type 0
State = Text → ℕ

unfoldable pub set_state : State → Text → ℕ → State
set_state state id value other = if other == id then value else state other

pub data Visit : Type 0 where
  visited : State → Visit
  failed : DepError → Visit

abbrev pub and_visit : Visit → (State → Visit) → Visit
and_visit (failed e) next = failed e
and_visit (visited state) next = next state

-- The loop over the dependencies of a node, which are visited by `go`.
unfoldable pub visit_all : (State → Text → Visit) → State → List Text → Visit
visit_all go state [] = visited state
visit_all go state (id ∷ ids) = and_visit (go state id) (λ next. visit_all go next ids)

abbrev pub deps_of : Option DepNode → List Text
deps_of none = []
deps_of (some node) = node.deps

-- visit, with a bound on the depth of its calls.
unfoldable pub visit : List DepNode → ℕ → State → Text → Visit
unfolding by_id visit_all set_state
visit nodes zero state id = failed unfinished
visit nodes (suc calls) state id =
    if state id == 1
    then failed (cycle id)
    else if state id == 2
    then visited state
    else and_visit (visit_all (visit nodes calls) (set_state state id 1) (deps_of (by_id nodes id)))
        (λ done. visited (set_state done id 2))

unfoldable pub node_ids : List DepNode → List Text
node_ids nodes = map (λ n. n.id) nodes

unfoldable pub cycle_search : List DepNode → Visit
unfolding visit visit_all node_ids
cycle_search nodes = visit_all (visit nodes (suc (length nodes))) (λ id. 0) (node_ids nodes)

-- members[branch]
unfoldable pub members : Text → List DepNode → List DepNode
members branch [] = []
members branch (n ∷ nodes) =
    let rest = members branch nodes in if n.target == branch then n ∷ rest else rest

-- The list `branches`, with the branches known so far.
unfoldable pub branches_from : Text → List Text → List DepNode → List Text
branches_from default_branch known [] = []
branches_from default_branch known (n ∷ nodes) =
    let rest = branches_from default_branch known nodes in
    let more = branches_from default_branch (n.target ∷ known) nodes in
    if n.target == default_branch || contains known n.target then rest else n.target ∷ more

-- The innermost loop: some prerequisite remains.
unfoldable pub waits_for : List Text → List Text → Bool
waits_for remaining [] = false
waits_for remaining (d ∷ deps) = contains remaining d || waits_for remaining deps

-- The writers that remain with no prerequisite remaining, in order; `count` is their number.
unfoldable pub ready_writers : List Text → List DepNode → List Text
unfolding waits_for
ready_writers remaining [] = []
ready_writers remaining (n ∷ writers) =
    let rest = ready_writers remaining writers in
    if contains remaining n.id && not (waits_for remaining n.deps) then n.id ∷ rest else rest

unfoldable pub delete : Text → List Text → List Text
delete id [] = []
delete id (x ∷ xs) = let rest = delete id xs in if x == id then rest else x ∷ rest

abbrev pub only_one : List Text → Option Text
only_one (id ∷ []) = some id
only_one _ = none

abbrev pub with_ready : Option Text → Text → (Text → Option DepError) → Option DepError
with_ready none branch next = some (unordered branch)
with_ready (some id) branch next = next id

-- The loop while writers remain, with a bound on its rounds.
unfoldable pub order_error : Text → List DepNode → ℕ → List Text → Option DepError
unfolding ready_writers delete
order_error branch writers rounds [] = none
order_error branch writers zero (r ∷ rs) = some unfinished
order_error branch writers (suc rounds) (r ∷ rs) =
    with_ready (only_one (ready_writers (r ∷ rs) writers)) branch
      (λ ready. order_error branch writers rounds (delete ready (r ∷ rs)))

unfoldable pub branch_error : Text → List DepNode → Option DepError
unfolding order_error node_ids members
branch_error branch nodes =
    let writers = members branch nodes in
    order_error branch writers (length writers) (node_ids writers)

unfoldable pub branches_error : List Text → List DepNode → Option DepError
unfolding branch_error
branches_error [] nodes = none
branches_error (b ∷ branches) nodes =
    then_error (branch_error b nodes) (branches_error branches nodes)

abbrev pub visit_error : Visit → Option DepError
visit_error (visited state) = none
visit_error (failed e) = some e

unfoldable pub validate_dependencies : Text → List DepNode → Option DepError
unfolding edges_error cycle_search branches_error branches_from
validate_dependencies default_branch nodes = then_error (edges_error default_branch nodes nodes) (
    then_error (visit_error (cycle_search nodes))
      (branches_error (branches_from default_branch [] nodes) nodes))
