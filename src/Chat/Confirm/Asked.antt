-- ===== src/Chat/Confirm/Asked.antt =====
-- Where the actions that a click gets come from, and how many wait at once
-- (internal/chat/confirm.go).
use octomus_agent.Base.{
  ℕ, suc, ◌+◌, ◌≤◌, ◌<◌, Bool, true, false, List, [], ◌∷◌, some, if◌then◌else◌, ltb, leb, length,
  Text, text_eq, ◌==◌, ◌!=◌, ◌≡◌, sym, ap, subst, ◌⊎◌, inl, inr, arith, Bool-cases, Option-cases,
  ==→≡, Any, here, there,
}
use octomus_agent.Chat.Confirm.{
  PendingAction, Pending, pending_ttl, max_pending, find, delete, purge, put, confirm, take_pending,
  pending_owned_by_other, runs, handle_click,
}
use octomus_agent.Chat.Confirm.Once.{Event, asked, clicks, looked, step, run, Asks}

-- Dropping an entry or keeping it leaves nothing new.
Any-kept {ℓ κ} :
    {B : Type ℓ} {P : B → Type κ} (b : Bool) (x : B) (rest xs : List B)
    → (Any P rest → Any P xs)
    → Any P (if b then rest else x ∷ rest)
    → Any P (x ∷ xs)
Any-kept true x rest xs later o = there (later o)
Any-kept false x rest xs later (here e) = here e
Any-kept false x rest xs later (there o) = there (later o)

length-kept {ℓ} :
    {B : Type ℓ} (b : Bool) (x : B) (rest : List B)
    → length (if b then rest else x ∷ rest) ≤ suc (length rest)
length-kept true x rest = omega arith
length-kept false x rest = omega arith

module _ {ℓ} {A : Type ℓ} where
  abbrev Has : Pending A → Text → PendingAction A → Type ℓ
  Has s token p = Any (λ e. e ≡ (token, p)) s

  purge-Has :
      (now : ℕ) (s : Pending A) (token : Text) (p : PendingAction A)
      → Has (purge now s) token p
      → Has s token p
  unfolding purge
  purge-Has now [] token p o = o
  purge-Has now ((key, q) ∷ s) token p o =
      Any-kept (ltb q.expires now) (key, q) (purge now s) s (purge-Has now s token p) o

  delete-Has :
      (other : Text) (s : Pending A) (token : Text) (p : PendingAction A)
      → Has (delete other s) token p
      → Has s token p
  unfolding delete
  delete-Has other [] token p o = o
  delete-Has other ((key, q) ∷ s) token p o =
      Any-kept (key == other) (key, q) (delete other s) s (delete-Has other s token p) o

  find-Has :
      (s : Pending A) (token : Text) (p : PendingAction A) → find s token ≡ some p → Has s token p
  unfolding find
  find-Has [] token p h = absurd (cc)
  find-Has ((key, q) ∷ s) token p h = elim (Bool-cases (key == token)) [
    | inl e ↦ let same = ==→≡ key token e in let it : q ≡ p = ground arith in here (cc)
    | inr e ↦ there (find-Has s token p (ground arith))
  ]

  -- A click or a look leaves the map, or deletes its token.
  taken_state :
      (now : ℕ) (other user_id : Text) (s : Pending A)
      → ((take_pending now other user_id s).1 ≡ s)
        ⊎ ((take_pending now other user_id s).1 ≡ delete other s)
  unfolding take_pending
  taken_state now other user_id s = elim (Option-cases (find s other)) [
    | inl e ↦ inl (ground arith)
    | inr (q, e) ↦ elim (Bool-cases (ltb q.expires now)) [
      | inl late ↦ inr (ground arith)
      | inr live ↦ elim (Bool-cases (q.user_id != user_id)) [
        | inl f ↦ inl (ground arith)
        | inr f ↦ inr (ground arith)
      ]
    ]
  ]

  looked_state :
      (now : ℕ) (other user_id : Text) (s : Pending A)
      → ((pending_owned_by_other now other user_id s).1 ≡ s)
        ⊎ ((pending_owned_by_other now other user_id s).1 ≡ delete other s)
  unfolding pending_owned_by_other
  looked_state now other user_id s = elim (Option-cases (find s other)) [
    | inl e ↦ inl (ground arith)
    | inr (q, e) ↦ elim (Bool-cases (ltb q.expires now)) [
      | inl late ↦ inr (ground arith)
      | inr live ↦ inl (ground arith)
    ]
  ]

  abbrev entry : ℕ → Text → A → PendingAction A
  entry now user_id action = record {
    user_id = user_id;
    expires = now + pending_ttl;
    action = action;
  }

  -- A confirmation finds the map full, or adds its entry where there is room.
  confirm_state :
      (now : ℕ) (other user_id : Text) (action : A) (s : Pending A)
      → ((confirm now other user_id action s).1 ≡ purge now s)
        ⊎ (((confirm now other user_id action s).1
              ≡ (other, entry now user_id action) ∷ delete other (purge now s))
            × (length (purge now s) < max_pending))
  unfolding confirm put
  confirm_state now other user_id action s =
      elim (Bool-cases (leb max_pending (length (purge now s)))) [
        | inl e ↦ inl (ground arith)
        | inr e ↦ inr (ground arith, ground arith)
      ]

  left-Has :
      (other : Text) (s after : Pending A) (token : Text) (p : PendingAction A)
      → (after ≡ s) ⊎ (after ≡ delete other s)
      → Has after token p
      → Has s token p
  left-Has other s after token p (inl e) o = subst (λ m. Has m token p) e o
  left-Has other s after token p (inr e) o =
      delete-Has other s token p (subst (λ m. Has m token p) e o)

  added-Has :
      (now : ℕ) (other user_id : Text) (action : A) (s : Pending A) (token : Text)
      (p : PendingAction A)
      → Has ((other, entry now user_id action) ∷ delete other (purge now s)) token p
      → Has s token p ⊎ Asks token p (asked now other user_id action)
  added-Has now other user_id action s token p (here e) =
      let same_token = ap (λ x. x.0) e in
      let same_entry = ap (λ x. x.1) e in inr (now, cc, sym (ap (λ q. q.expires) same_entry))
  added-Has now other user_id action s token p (there x) =
      inl (purge-Has now s token p (delete-Has other (purge now s) token p x))

  step-Has :
      (e : Event A) (s : Pending A) (token : Text) (p : PendingAction A)
      → Has (step e s) token p
      → Has s token p ⊎ Asks token p e
  step-Has (asked now other user_id action) s token p o =
      elim (confirm_state now other user_id action s) [
        | inl f ↦ inl (purge-Has now s token p (subst (λ m. Has m token p) f o))
        | inr (f, room) ↦
            added-Has now other user_id action s token p (subst (λ m. Has m token p) f o)
      ]
  step-Has (clicks now cancels other user_id) s token p o =
      inl (left-Has other s _ token p (taken_state now other user_id s) (unfold handle_click in o))
  step-Has (looked now other user_id) s token p o =
      inl (left-Has other s _ token p (looked_state now other user_id s) o)

  run-Has :
      (events : List (Event A)) (s : Pending A) (token : Text) (p : PendingAction A)
      → Has (run events s) token p
      → Has s token p ⊎ Any (λ e. Asks token p e) events
  run-Has [] s token p o = inl o
  run-Has (e ∷ events) s token p o = elim (run-Has events (step e s) token p o) [
    | inr a ↦ inr (there a)
    | inl h ↦ elim (step-Has e s token p h) [ inl k ↦ inl k | inr a ↦ inr (here a) ]
  ]

  runs_inversion :
      (now : ℕ) (token user_id : Text) (s : Pending A) (action : A)
      → (handle_click now false token user_id s).0 ≡ runs action
      → (p : PendingAction A) × (find s token ≡ some p)
        × (p.action ≡ action)
        × (p.user_id ≡ user_id)
        × (now ≤ p.expires)
  unfolding handle_click take_pending
  runs_inversion now token user_id s action h = elim (Option-cases (find s token)) [
    | inl e ↦ absurd (ground arith)
    | inr (p, e) ↦ elim (Bool-cases (ltb p.expires now)) [
      | inl late ↦ absurd (ground arith)
      | inr live ↦ elim (Bool-cases (p.user_id == user_id)) [
        | inl own ↦ (p, e, ground arith, ==→≡ p.user_id user_id own, ground arith)
        | inr other ↦ absurd (ground arith)
      ]
    ]
  ]

  asked_of :
      (events : List (Event A)) (token user_id : Text) (action : A) (now : ℕ) (p : PendingAction A)
      → p.action ≡ action
      → p.user_id ≡ user_id
      → now ≤ p.expires
      → Any (λ e. Asks token p e) events
      → (at : ℕ) × Any (λ e. e ≡ asked at token user_id action) events × (now ≤ at + pending_ttl)
  asked_of [] token user_id action now p sa su live o = elim o [ ]
  asked_of (e ∷ events) token user_id action now p sa su live (here (at, shape, expires)) =
      (at, here (cc), omega arith)
  asked_of (e ∷ events) token user_id action now p sa su live (there o) =
      let (at, found, fits) = asked_of events token user_id action now p sa su live o in
      (at, there found, fits)

  length-purge : (now : ℕ) (s : Pending A) → length (purge now s) ≤ length s
  unfolding purge
  length-purge now [] = omega arith
  length-purge now ((key, p) ∷ s) =
      let rest = length-purge now s in
      let one = length-kept (ltb p.expires now) (key, p) (purge now s) in omega arith

  length-delete : (token : Text) (s : Pending A) → length (delete token s) ≤ length s
  unfolding delete
  length-delete token [] = omega arith
  length-delete token ((key, p) ∷ s) =
      let rest = length-delete token s in
      let one = length-kept (key == token) (key, p) (delete token s) in omega arith

  length-left :
      (other : Text) (s after : Pending A)
      → (after ≡ s) ⊎ (after ≡ delete other s)
      → length after ≤ length s
  length-left other s after (inl e) = let size = ap (λ m. length m) e in omega arith
  length-left other s after (inr e) =
      let size = ap (λ m. length m) e in let less = length-delete other s in omega arith

  step_bound :
      (e : Event A) (s : Pending A) → length s ≤ max_pending → length (step e s) ≤ max_pending
  step_bound (asked now other user_id action) s few =
      let less = length-purge now s in
      elim (confirm_state now other user_id action s) [
        | inl f ↦ let size = ap (λ m. length m) f in omega arith
        | inr (f, room) ↦
            let size = ap (λ m. length m) f in
            let left = length-delete other (purge now s) in omega arith
      ]
  step_bound (clicks now cancels other user_id) s few =
      let less = length-left other s _ (taken_state now other user_id s) in
      unfold handle_click in omega arith
  step_bound (looked now other user_id) s few =
      let less = length-left other s _ (looked_state now other user_id s) in omega arith

  run_bound :
      (events : List (Event A)) (s : Pending A)
      → length s ≤ max_pending
      → length (run events s) ≤ max_pending
  run_bound [] s few = few
  run_bound (e ∷ events) s few = run_bound events (step e s) (step_bound e s few)

  -- After any calls of a service that started with none waiting, at most a hundred actions wait.
  pub run-max_pending : (events : List (Event A)) → length (run events []) ≤ max_pending
  run-max_pending events = run_bound events [] (omega arith)

  -- After any calls of a service that started with none waiting, a click runs an action only where the
  -- same user has asked to confirm this very action under this token, at most five minutes before.
  pub handle_click-asked :
      (events : List (Event A)) (now : ℕ) (token user_id : Text) (action : A)
      → (handle_click now false token user_id (run events [])).0 ≡ runs action
      → (at : ℕ) × Any (λ e. e ≡ asked at token user_id action) events × (now ≤ at + pending_ttl)
  handle_click-asked events now token user_id action h =
      let (p, found, same_action, same_user, live) =
        runs_inversion now token user_id (run events []) action h in
      elim (run-Has events [] token p (find-Has (run events []) token p found)) [
        | inl o ↦ elim o [ ]
        | inr a ↦ asked_of events token user_id action now p same_action same_user live a
      ]
