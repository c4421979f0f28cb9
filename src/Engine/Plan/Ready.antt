-- ===== src/Engine/Plan/Ready.antt =====
-- The writers of a branch that validateDependencies takes as ready (internal/engine/plan_rules.go).
use octomus_agent.Base.{
  ◌≤◌, ◌<◌, true, false, not, ◌&&◌, List, [], ◌∷◌, some, Text, text_eq, ◌==◌, contains, length, Any,
  here, there, Distinct, Distinct-head, Distinct-tail, ◌≡◌, refl, sym, subst, inl, inr, arith,
  Bool-cases, ==→≡, ==-refl,
}
use octomus_agent.Engine.Plan.Dependencies.{
  DepNode, node_ids, waits_for, ready_writers, delete, only_one,
}

pub Occurs : DepNode → List DepNode → Type 0
Occurs m writers = Any (λ n. n ≡ m) writers

pub contains-delete :
    (x : Text) (xs : List Text) (id : Text)
    → contains (delete x xs) id ≡ (contains xs id && not (x == id))
unfolding delete
contains-delete x [] id = refl
contains-delete x (y ∷ ys) id = elim (Bool-cases (y == x)) [
  | inl e ↦ let same = ==→≡ y x e in let rest = contains-delete x ys id in ground arith
  | inr e ↦ let rest = contains-delete x ys id in ground arith
]

pub length-delete : (x : Text) (xs : List Text) → length (delete x xs) ≤ length xs
unfolding delete
length-delete x [] = ground arith
length-delete x (y ∷ ys) = let rest = length-delete x ys in ground arith

pub length-delete_contained :
    (x : Text) (xs : List Text) → contains xs x ≡ true → length (delete x xs) < length xs
unfolding delete
length-delete_contained x [] m = absurd (cc)
length-delete_contained x (y ∷ ys) m = elim (Bool-cases (y == x)) [
  | inl e ↦ let rest = length-delete x ys in ground arith
  | inr e ↦ let rest = length-delete_contained x ys (ground arith) in ground arith
]

pub waits_for-false :
    (remaining deps : List Text)
    → ((d : Text) → contains deps d ≡ true → contains remaining d ≡ false)
    → waits_for remaining deps ≡ false
unfolding waits_for
waits_for-false remaining [] h = refl
waits_for-false remaining (d ∷ deps) h =
    let rest = waits_for-false remaining deps (λ x m. h x (ground arith)) in
    let first = h d (let same = ==-refl d in ground arith) in ground arith

pub false-waits_for :
    (remaining deps : List Text)
    → waits_for remaining deps ≡ false
    → (d : Text) → contains deps d ≡ true
    → contains remaining d ≡ false
unfolding waits_for
false-waits_for remaining [] h d m = absurd (cc)
false-waits_for remaining (x ∷ deps) h d m = elim (Bool-cases (x == d)) [
  | inl e ↦ subst (λ y. contains remaining y ≡ false) (==→≡ x d e) (ground arith)
  | inr e ↦ false-waits_for remaining deps (ground arith) d (ground arith)
]

pub ready_writers-contains :
    (remaining : List Text) (writers : List DepNode) (m : DepNode)
    → Occurs m writers
    → contains remaining m.id ≡ true
    → waits_for remaining m.deps ≡ false
    → contains (ready_writers remaining writers) m.id ≡ true
unfolding ready_writers Occurs
ready_writers-contains remaining [] m o present free = elim o [ ]
ready_writers-contains remaining (n ∷ writers) m (here e) present free =
    let same = ==-refl m.id in ground arith
ready_writers-contains remaining (n ∷ writers) m (there o) present free =
    let rest = ready_writers-contains remaining writers m o present free in ground arith

pub node_ids-Occurs :
    (writers : List DepNode) (id : Text)
    → contains (node_ids writers) id ≡ true
    → (m : DepNode) × Occurs m writers × (m.id ≡ id)
unfolding node_ids Occurs
node_ids-Occurs [] id h = absurd (cc)
node_ids-Occurs (n ∷ writers) id h = elim (Bool-cases (n.id == id)) [
  | inl e ↦ (n, here refl, ==→≡ n.id id e)
  | inr e ↦ let (m, o, same) = node_ids-Occurs writers id (ground arith) in (m, there o, same)
]

pub Occurs-node_ids :
    (writers : List DepNode) (m : DepNode)
    → Occurs m writers
    → contains (node_ids writers) m.id ≡ true
unfolding node_ids Occurs
Occurs-node_ids [] m o = elim o [ ]
Occurs-node_ids (n ∷ writers) m (here e) = let same = ==-refl m.id in ground arith
Occurs-node_ids (n ∷ writers) m (there o) = let rest = Occurs-node_ids writers m o in ground arith

pub ready_writers-known :
    (remaining : List Text) (writers : List DepNode) (id : Text)
    → contains (ready_writers remaining writers) id ≡ true
    → (contains (node_ids writers) id ≡ true) × (contains remaining id ≡ true)
unfolding ready_writers node_ids
ready_writers-known remaining [] id h = absurd (cc)
ready_writers-known remaining (n ∷ writers) id h = elim (Bool-cases (n.id == id)) [
  | inl e ↦
      let same = ==→≡ n.id id e in
      elim (Bool-cases (contains remaining n.id)) [
        | inl p ↦ (ground arith, subst (λ y. contains remaining y ≡ true) same p)
        | inr p ↦
            let (k, r) = ready_writers-known remaining writers id (ground arith) in
            (ground arith, r)
      ]
  | inr e ↦
      let (k, r) = ready_writers-known remaining writers id (ground arith) in (ground arith, r)
]

pub ready_writers-free :
    (remaining : List Text) (writers : List DepNode) (m : DepNode)
    → Distinct (node_ids writers)
    → Occurs m writers
    → contains (ready_writers remaining writers) m.id ≡ true
    → waits_for remaining m.deps ≡ false
unfolding ready_writers node_ids Occurs
ready_writers-free remaining [] m distinct o ready = elim o [ ]
ready_writers-free remaining (n ∷ writers) m distinct (here e) ready =
    elim (Bool-cases (contains (ready_writers remaining writers) n.id)) [
      | inl r ↦
          let (k, p) = ready_writers-known remaining writers n.id r in
          let fresh = Distinct-head distinct in absurd (cc)
      | inr r ↦
          let at_n =
            subst (λ k. contains (ready_writers remaining (n ∷ writers)) k.id ≡ true) (sym e)
              ready in
          subst (λ k. waits_for remaining k.deps ≡ false) e (ground arith)
    ]
ready_writers-free remaining (n ∷ writers) m distinct (there o) ready =
    elim (Bool-cases (n.id == m.id)) [
      | inl same ↦
          let fresh =
            subst (λ y. contains (node_ids writers) y ≡ false) (==→≡ n.id m.id same)
              (Distinct-head distinct) in
          let found = Occurs-node_ids writers m o in absurd (cc)
      | inr other ↦ ready_writers-free remaining writers m (Distinct-tail distinct) o (ground arith)
    ]

pub only_one-some : (ids : List Text) (x : Text) → only_one ids ≡ some x → ids ≡ x ∷ []
only_one-some [] x e = absurd (cc)
only_one-some (y ∷ []) x e = ground arith
only_one-some (y ∷ (z ∷ ids)) x e = absurd (cc)
