-- ===== src/Engine/Plan/Order.antt =====
-- The order in which validateDependencies takes the writers to a branch
-- (internal/engine/plan_rules.go).
use octomus_agent.Base.{
  ℕ, zero, suc, ◌≤◌, Bool, true, false, ◌&&◌, ◌||◌, List, [], ◌∷◌, none, some, Text, text_eq, ◌==◌,
  contains, length, Distinct, no_entries, new_entry, Distinct-head, Distinct-tail, ◌≡◌, ◌≢◌, refl,
  sym, subst, ◌∙◌, inl, inr, arith, Bool-cases, Option-cases, ==→≡, ==-refl,
}
use octomus_agent.Engine.Plan.Dependencies.{
  DepNode, unfinished, node_ids, ready_writers, delete, only_one, order_error,
}
use octomus_agent.Engine.Plan.Ready.{
  Occurs, contains-delete, length-delete_contained, waits_for-false, false-waits_for,
  ready_writers-contains, node_ids-Occurs, ready_writers-known, ready_writers-free, only_one-some,
}

-- `a` stands in the list before an occurrence of `b`.
abbrev pub before : List Text → Text → Text → Bool
before [] a b = false
before (x ∷ xs) a b = (x == a && contains xs b) || before xs a b

-- An execution order of the identities that remain: each once, every writer after its remaining
-- prerequisites.
pub record IsOrder (writers : List DepNode) (remaining order : List Text) : Type 0 where
  pub distinct : Distinct order
  pub covers : (id : Text) → contains order id ≡ contains remaining id
  pub respects :
      (m : DepNode)
      → Occurs m writers
      → (d : Text) → contains m.deps d ≡ true
      → contains order m.id ≡ true
      → contains order d ≡ true
      → before order d m.id ≡ true

before-contains : (xs : List Text) (a b : Text) → before xs a b ≡ true → contains xs b ≡ true
before-contains [] a b h = absurd (cc)
before-contains (x ∷ xs) a b h = elim (Bool-cases (before xs a b)) [
  | inl e ↦ let rest = before-contains xs a b e in ground arith
  | inr e ↦ ground arith
]

-- Nothing stands before the first entry of a list without repetition.
before_first :
    (x : Text) (xs : List Text) → Distinct (x ∷ xs) → (d : Text) → before (x ∷ xs) d x ≡ false
before_first x xs distinct d =
    let fresh = Distinct-head distinct in
    elim (Bool-cases (before xs d x)) [
      | inl e ↦ let late = before-contains xs d x e in absurd (cc)
      | inr e ↦ ground arith
    ]

-- The first of an order has no remaining prerequisite: it is ready.
first_ready :
    (writers : List DepNode) (remaining : List Text) (x : Text) (xs : List Text)
    → ((id : Text) → contains remaining id ≡ true → contains (node_ids writers) id ≡ true)
    → IsOrder writers remaining (x ∷ xs)
    → contains (ready_writers remaining writers) x ≡ true
first_ready writers remaining x xs within o =
    let head = ==-refl x in
    let present = sym (o.covers x) ∙ ground arith in
    let (m, occurs, same) = node_ids-Occurs writers x (within x present) in
    let free = waits_for-false remaining m.deps (λ d in_deps. free_at m occurs same d in_deps) in
    subst (λ y. contains (ready_writers remaining writers) y ≡ true) same
      (ready_writers-contains remaining writers m occurs
        (subst (λ y. contains remaining y ≡ true) (sym same) present) free)
  where
    free_at :
        (m : DepNode)
        → Occurs m writers
        → m.id ≡ x
        → (d : Text) → contains m.deps d ≡ true
        → contains remaining d ≡ false
    free_at m occurs same d in_deps = elim (Bool-cases (contains remaining d)) [
      | inl p ↦
          let head = ==-refl x in
          let at_x = subst (λ y. contains (x ∷ xs) y ≡ true) (sym same) (ground arith) in
          let early = o.respects m occurs d in_deps at_x (o.covers d ∙ p) in
          let early_x = subst (λ y. before (x ∷ xs) d y ≡ true) same early in
          let none_before = before_first x xs o.distinct d in absurd (cc)
      | inr n ↦ n
    ]

-- What follows the first of an order is an order of what remains after it.
IsOrder-tail :
    (writers : List DepNode) (remaining : List Text) (x : Text) (xs : List Text)
    → IsOrder writers remaining (x ∷ xs)
    → IsOrder writers (delete x remaining) xs
IsOrder-tail writers remaining x xs o = record {
  distinct = Distinct-tail o.distinct;
  covers = λ id.
      let all = o.covers id in
      let left = contains-delete x remaining id in
      elim (Bool-cases (x == id)) [
        | inl e ↦
            let fresh =
              subst (λ y. contains xs y ≡ false) (==→≡ x id e) (Distinct-head o.distinct) in
            ground arith
        | inr e ↦ ground arith
      ];
  respects = λ m occurs d in_deps at_m at_d.
      let early = o.respects m occurs d in_deps (ground arith) (ground arith) in
      elim (Bool-cases (x == d)) [
        | inl e ↦
            let fresh =
              subst (λ y. contains xs y ≡ false) (==→≡ x d e) (Distinct-head o.distinct) in
            absurd (cc)
        | inr e ↦ ground arith
      ];
}

IsOrder-cons :
    (writers : List DepNode) (remaining : List Text) (x : Text) (xs : List Text)
    → Distinct (node_ids writers)
    → contains (ready_writers remaining writers) x ≡ true
    → IsOrder writers (delete x remaining) xs
    → IsOrder writers remaining (x ∷ xs)
IsOrder-cons writers remaining x xs unique ready o =
    let (known, present) = ready_writers-known remaining writers x ready in
    let head = ==-refl x in
    let gone = o.covers x ∙ contains-delete x remaining x in
    record {
      distinct = new_entry (ground arith) o.distinct;
      covers = λ id.
          let rest = o.covers id ∙ contains-delete x remaining id in
          elim (Bool-cases (x == id)) [
            | inl e ↦
                let here = subst (λ y. contains remaining y ≡ true) (==→≡ x id e) present in
                ground arith
            | inr e ↦ ground arith
          ];
      respects = λ m occurs d in_deps at_m at_d. elim (Bool-cases (x == m.id)) [
        | inl e ↦
            let at_x =
              subst (λ y. contains (ready_writers remaining writers) y ≡ true) (==→≡ x m.id e)
                ready in
            let free = ready_writers-free remaining writers m unique occurs at_x in
            let absent = false-waits_for remaining m.deps free d in_deps in
            let left = o.covers d ∙ contains-delete x remaining d in
            let not_x = d_other x d present absent in absurd (ground arith)
        | inr e ↦ elim (Bool-cases (x == d)) [
          | inl first ↦ ground arith
          | inr later ↦
              let rest = o.respects m occurs d in_deps (ground arith) (ground arith) in ground arith
        ]
      ];
    }
  where
    d_other :
        (x d : Text) → contains remaining x ≡ true → contains remaining d ≡ false → (x == d) ≡ false
    d_other x d p a = elim (Bool-cases (x == d)) [
      | inl e ↦ let here = subst (λ y. contains remaining y ≡ true) (==→≡ x d e) p in absurd (cc)
      | inr e ↦ e
    ]

-- One accepted round: one writer is ready, and the rest is accepted without it.
round :
    (branch : Text) (writers : List DepNode) (rounds : ℕ) (r : Text) (rs : List Text)
    → order_error branch writers (suc rounds) (r ∷ rs) ≡ none
    → (x : Text) × (ready_writers (r ∷ rs) writers ≡ x ∷ [])
      × (order_error branch writers rounds (delete x (r ∷ rs)) ≡ none)
unfolding order_error
round branch writers rounds r rs h =
    elim (Option-cases (only_one (ready_writers (r ∷ rs) writers))) [
      | inl e ↦ absurd (ground arith)
      | inr (x, e) ↦ (x, only_one-some (ready_writers (r ∷ rs) writers) x e, ground arith)
    ]

pub order_error-IsOrder :
    (branch : Text) (writers : List DepNode) (rounds : ℕ) (remaining : List Text)
    → Distinct (node_ids writers)
    → order_error branch writers rounds remaining ≡ none
    → (order : List Text) × IsOrder writers remaining order
unfolding order_error
order_error-IsOrder branch writers rounds [] unique h = (
  [],
  record {
    distinct = no_entries;
    covers = λ id. refl;
    respects = λ m occurs d in_deps at_m at_d. absurd (cc);
  },
)
order_error-IsOrder branch writers zero (r ∷ rs) unique h = absurd (cc)
order_error-IsOrder branch writers (suc rounds) (r ∷ rs) unique h =
    let (x, ready, rest) = round branch writers rounds r rs h in
    let (order, o) = order_error-IsOrder branch writers rounds (delete x (r ∷ rs)) unique rest in
    (
      x ∷ order,
      IsOrder-cons writers (r ∷ rs) x order unique (let head = ==-refl x in ground arith) o,
    )

pub order_error_unique :
    (branch : Text) (writers : List DepNode) (rounds : ℕ) (remaining : List Text)
    → ((id : Text) → contains remaining id ≡ true → contains (node_ids writers) id ≡ true)
    → order_error branch writers rounds remaining ≡ none
    → (a b : List Text) → IsOrder writers remaining a
    → IsOrder writers remaining b
    → a ≡ b
unfolding order_error
order_error_unique branch writers rounds [] within h [] [] o q = refl
order_error_unique branch writers rounds [] within h (x ∷ a) b o q =
    let head = ==-refl x in let c = o.covers x in absurd (ground arith)
order_error_unique branch writers rounds [] within h [] (x ∷ b) o q =
    let head = ==-refl x in let c = q.covers x in absurd (ground arith)
order_error_unique branch writers zero (r ∷ rs) within h a b o q = absurd (cc)
order_error_unique branch writers (suc rounds) (r ∷ rs) within h [] b o q =
    let head = ==-refl r in let c = o.covers r in absurd (ground arith)
order_error_unique branch writers (suc rounds) (r ∷ rs) within h (x ∷ a) [] o q =
    let head = ==-refl r in let c = q.covers r in absurd (ground arith)
order_error_unique branch writers (suc rounds) (r ∷ rs) within h (x ∷ a) (y ∷ b) o q =
    let (z, ready, rest) = round branch writers rounds r rs h in
    let x_ready = first_ready writers (r ∷ rs) x a within o in
    let y_ready = first_ready writers (r ∷ rs) y b within q in
    let x_is = sym (==→≡ z x (ground arith)) in
    let y_is = sym (==→≡ z y (ground arith)) in
    let tails =
      order_error_unique branch writers rounds (delete z (r ∷ rs))
        (λ id p. within id (let left = contains-delete z (r ∷ rs) id in ground arith)) rest a b
        (subst (λ k. IsOrder writers (delete k (r ∷ rs)) a) x_is
          (IsOrder-tail writers (r ∷ rs) x a o))
        (subst (λ k. IsOrder writers (delete k (r ∷ rs)) b) y_is
          (IsOrder-tail writers (r ∷ rs) y b q)) in
    cc

-- The rounds are enough: a bound of the number of remaining writers is never reached.
pub order_error-finishes :
    (branch : Text) (writers : List DepNode) (rounds : ℕ) (remaining : List Text)
    → length remaining ≤ rounds
    → order_error branch writers rounds remaining ≢ some unfinished
unfolding order_error
order_error-finishes branch writers rounds [] enough h = absurd (cc)
order_error-finishes branch writers zero (r ∷ rs) enough h = absurd (omega arith)
order_error-finishes branch writers (suc rounds) (r ∷ rs) enough h =
    elim (Option-cases (only_one (ready_writers (r ∷ rs) writers))) [
      | inl e ↦ absurd (ground arith)
      | inr (x, e) ↦
          let one = only_one-some (ready_writers (r ∷ rs) writers) x e in
          let (known, present) =
            ready_writers-known (r ∷ rs) writers x (let head = ==-refl x in ground arith) in
          let less = length-delete_contained x (r ∷ rs) present in
          order_error-finishes branch writers rounds (delete x (r ∷ rs)) (omega arith)
            (ground arith)
    ]
