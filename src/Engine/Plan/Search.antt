-- ===== src/Engine/Plan/Search.antt =====
-- The cycle search of validateDependencies (internal/engine/plan_rules.go) within its bound.
use octomus_agent.Base.{
  ℕ, zero, suc, ◌≤◌, ◌<◌, Bool, true, false, not, ◌&&◌, List, [], ◌∷◌, none, some, Text, text_eq,
  nat_eq, if◌then◌else◌, ◌==◌, contains, length, Any, here, there, ◌≡◌, ◌≢◌, refl, sym, subst, ◌⊎◌,
  inl, inr, arith, Bool-cases, Option-cases, ==→≡, ==-refl,
}
use octomus_agent.Engine.Plan.Dependencies.{
  DepNode, DepError, unfinished, cycle, node_ids, State, set_state, Visit, visited, failed,
  visit_all, visit, and_visit, deps_of, by_id, cycle_search, edges_error, dependencies_error,
  visit_error,
}

-- The search has not entered the node.
unfoldable open_at : State → Text → Bool
open_at state id = not (state id == 1) && not (state id == 2)

unfoldable unvisited : State → List DepNode → ℕ
unvisited state [] = 0
unvisited state (n ∷ nodes) = elim (open_at state n.id) [
  | true ↦ suc (unvisited state nodes)
  | false ↦ unvisited state nodes
]

-- The search only goes on: what it has entered stays entered.
abbrev Later : State → State → Type 0
Later before after = (id : Text) → open_at after id ≡ true → open_at before id ≡ true

unvisited-Later :
    (before after : State) (nodes : List DepNode)
    → Later before after
    → unvisited after nodes ≤ unvisited before nodes
unfolding unvisited
unvisited-Later before after [] later = ground arith
unvisited-Later before after (n ∷ nodes) later =
    let rest = unvisited-Later before after nodes later in let head = later n.id in ground arith

set_state-Later :
    (state : State) (id : Text) (value : ℕ)
    → (value ≡ 1) ⊎ (value ≡ 2)
    → Later state (set_state state id value)
unfolding set_state open_at
set_state-Later state id value (inl e) other h = ground arith
set_state-Later state id value (inr e) other h = ground arith

closed_now : (state : State) (id : Text) → open_at (set_state state id 1) id ≡ false
unfolding set_state open_at
closed_now state id = let same = ==-refl id in ground arith

unvisited-set_state :
    (state : State) (nodes : List DepNode) (id : Text)
    → open_at state id ≡ true
    → contains (node_ids nodes) id ≡ true
    → unvisited (set_state state id 1) nodes < unvisited state nodes
unfolding unvisited node_ids
unvisited-set_state state [] id o h = absurd (cc)
unvisited-set_state state (n ∷ nodes) id o h =
    let now = set_state state id 1 in
    let later = set_state-Later state id 1 (inl refl) in
    elim (Bool-cases (n.id == id)) [
      | inl e ↦
          let at_n = subst (λ y. open_at state y ≡ true) (sym (==→≡ n.id id e)) o in
          let after_n =
            subst (λ y. open_at now y ≡ false) (sym (==→≡ n.id id e)) (closed_now state id) in
          let rest = unvisited-Later state now nodes later in ground arith
      | inr e ↦
          let rest = unvisited-set_state state nodes id o (ground arith) in
          let head = later n.id in ground arith
    ]

data Settles (state : State) : Visit → Type 0 where
  moves : {after : State} → Later state after → Settles state (visited after)
  stops : {e : DepError} → e ≢ unfinished → Settles state (failed e)

Settles-from :
    (start middle : State) (v : Visit) → Later start middle → Settles middle v → Settles start v
Settles-from start middle (failed e) later (stops n) = stops n
Settles-from start middle (visited after) later (moves more) = moves (λ id h. later id (more id h))

-- What goes on after a visit settles from where the visit began.
Settles-and_visit :
    (start : State) (v : Visit) (next : State → Visit)
    → Settles start v
    → ((after : State) → Later start after → Settles after (next after))
    → Settles start (and_visit v next)
Settles-and_visit start (failed e) next (stops n) h = stops n
Settles-and_visit start (visited after) next (moves later) h =
    Settles-from start after (next after) later (h after later)

visit_all-Settles :
    (go : State → Text → Visit) (known : List Text) (start : State)
    → ((state : State) (id : Text)
        → Later start state
        → contains known id ≡ true
        → Settles state (go state id))
    → (ids : List Text) → ((id : Text) → contains ids id ≡ true → contains known id ≡ true)
    → Settles start (visit_all go start ids)
unfolding visit_all
visit_all-Settles go known start each [] within = moves (λ id h. h)
visit_all-Settles go known start each (x ∷ ids) within =
    Settles-and_visit start (go start x) (λ next. visit_all go next ids)
      (each start x (λ id h. h) (within x (let same = ==-refl x in ground arith)))
      (λ after later.
        visit_all-Settles go known after
          (λ state id more k. each state id (λ y h. later y (more y h)) k) ids
          (λ id h. within id (ground arith)))

Settles-if :
    (start : State) (b : Bool) (v : Visit) {w : Visit}
    → (b ≡ true → Settles start v)
    → (b ≡ false → Settles start w)
    → Settles start (if b then v else w)
Settles-if start true v on off = on refl
Settles-if start false v on off = off refl

is_open :
    (state : State) (id : Text)
    → (state id == 1) ≡ false
    → (state id == 2) ≡ false
    → open_at state id ≡ true
unfolding open_at
is_open state id n m = ground arith

visit-Settles :
    (nodes : List DepNode)
    → ((id d : Text)
        → contains (deps_of (by_id nodes id)) d ≡ true
        → contains (node_ids nodes) d ≡ true)
    → (calls : ℕ) (state : State) (id : Text) → contains (node_ids nodes) id ≡ true
    → unvisited state nodes < calls
    → Settles state (visit nodes calls state id)
unfolding visit
visit-Settles nodes closed zero state id known enough = absurd (omega arith)
visit-Settles nodes closed (suc calls) state id known enough =
    Settles-if state (state id == 1) (failed (cycle id)) (λ e. stops (λ h. absurd (cc)))
      (λ n.
        Settles-if state (state id == 2) (visited state) (λ e. moves (λ x h. h))
          (λ m.
            let entered = set_state state id 1 in
            let fewer = unvisited-set_state state nodes id (is_open state id n m) known in
            Settles-from state entered _ (set_state-Later state id 1 (inl refl)) (
              Settles-and_visit entered _ (λ done. visited (set_state done id 2))
                (visit_all-Settles (visit nodes calls) (node_ids nodes) entered
                  (λ after x later k.
                    let bound = unvisited-Later entered after nodes later in
                    visit-Settles nodes closed calls after x k (omega arith))
                  (deps_of (by_id nodes id)) (closed id))
                (λ done later. moves (set_state-Later done id 2 (inr refl))))))

by_id-Occurs :
    (nodes : List DepNode) (id : Text) (n : DepNode)
    → by_id nodes id ≡ some n
    → Any (λ m. m ≡ n) nodes
unfolding by_id
by_id-Occurs [] id n h = absurd (cc)
by_id-Occurs (m ∷ nodes) id n h = elim (Option-cases (by_id nodes id)) [
  | inl e ↦ here (ground arith)
  | inr (k, e) ↦ there (by_id-Occurs nodes id n (ground arith))
]

by_id-known :
    (nodes : List DepNode) (id : Text) → by_id nodes id ≢ none → contains (node_ids nodes) id ≡ true
unfolding by_id node_ids
by_id-known [] id h = absurd (h refl)
by_id-known (m ∷ nodes) id h = elim (Option-cases (by_id nodes id)) [
  | inl e ↦ elim (Bool-cases (m.id == id)) [
    | inl f ↦ ground arith
    | inr f ↦ absurd (h (ground arith))
  ]
  | inr (k, e) ↦ let rest = by_id-known nodes id (λ f. absurd (cc)) in ground arith
]

dependencies_error-known :
    (default_branch : Text) (nodes : List DepNode) (node : DepNode) (deps : List Text)
    → dependencies_error default_branch nodes node deps ≡ none
    → (d : Text) → contains deps d ≡ true
    → by_id nodes d ≢ none
unfolding dependencies_error
dependencies_error-known b nodes node [] h d k = absurd (cc)
dependencies_error-known b nodes node (x ∷ deps) h d k = elim (Bool-cases (x == d)) [
  | inl e ↦ λ missing.
      let at_x = subst (λ y. by_id nodes y ≡ none) (sym (==→≡ x d e)) missing in
      absurd (ground arith)
  | inr e ↦ dependencies_error-known b nodes node deps (ground arith) d (ground arith)
]

edges_error-Occurs :
    (default_branch : Text) (nodes rest : List DepNode)
    → edges_error default_branch nodes rest ≡ none
    → (n : DepNode) → Any (λ m. m ≡ n) rest
    → dependencies_error default_branch nodes n n.deps ≡ none
unfolding edges_error
edges_error-Occurs b nodes [] h n o = elim o [ ]
edges_error-Occurs b nodes (m ∷ rest) h n (here e) =
    subst (λ k. dependencies_error b nodes k k.deps ≡ none) e (ground arith)
edges_error-Occurs b nodes (m ∷ rest) h n (there o) =
    edges_error-Occurs b nodes rest (ground arith) n o

-- Once every dependency names a node, the search stays among the nodes.
pub edges_error-closed :
    (default_branch : Text) (nodes : List DepNode)
    → edges_error default_branch nodes nodes ≡ none
    → (id d : Text) → contains (deps_of (by_id nodes id)) d ≡ true
    → contains (node_ids nodes) d ≡ true
edges_error-closed b nodes h id d k = elim (Option-cases (by_id nodes id)) [
  | inl e ↦ absurd (ground arith)
  | inr (n, e) ↦ by_id-known nodes d (
      dependencies_error-known b nodes n n.deps
        (edges_error-Occurs b nodes nodes h n (by_id-Occurs nodes id n e)) d (ground arith))
]

unvisited-length : (state : State) (nodes : List DepNode) → unvisited state nodes ≤ length nodes
unfolding unvisited
unvisited-length state [] = ground arith
unvisited-length state (n ∷ nodes) = let rest = unvisited-length state nodes in ground arith

Settles-error : (start : State) (v : Visit) → Settles start v → visit_error v ≢ some unfinished
Settles-error start (visited s) x h = absurd (cc)
Settles-error start (failed e) (stops n) h = n (ground arith)

pub cycle_search-finishes :
    (nodes : List DepNode)
    → ((id d : Text)
        → contains (deps_of (by_id nodes id)) d ≡ true
        → contains (node_ids nodes) d ≡ true)
    → visit_error (cycle_search nodes) ≢ some unfinished
unfolding cycle_search
cycle_search-finishes nodes closed =
    Settles-error (λ id. 0) _
      (visit_all-Settles (visit nodes (suc (length nodes))) (node_ids nodes) (λ id. 0)
        (λ after x later k.
          let bound = unvisited-length after nodes in
          visit-Settles nodes closed (suc (length nodes)) after x k (omega arith))
        (node_ids nodes) (λ id k. k))
