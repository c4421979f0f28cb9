-- ===== src/Chat/Confirm/Once.antt =====
-- What becomes of a confirmation token after a click that used it (internal/chat/confirm.go).
use octomus_agent.Base.{
  ℕ, ◌+◌, Bool, false, List, [], ◌∷◌, none, ltb, Text, text_eq, ◌==◌, ◌!=◌, ◌≡◌, ◌≢◌, refl, inl,
  inr, arith, Bool-cases, Option-cases,
}
use octomus_agent.Chat.Confirm.{
  PendingAction, Pending, pending_ttl, find, delete, purge, put, confirm, take_pending,
  pending_owned_by_other, expired, handle_click,
}

-- The calls of the service: a confirmation is asked for, a button is clicked, an owner is looked up.
pub data Event {ℓ} (A : Type ℓ) : Type ℓ where
  asked : ℕ → Text → Text → A → Event A
  clicks : ℕ → Bool → Text → Text → Event A
  looked : ℕ → Text → Text → Event A

module _ {ℓ} {A : Type ℓ} where
  abbrev pub step : Event A → Pending A → Pending A
  step (asked now token user_id action) s = (confirm now token user_id action s).1
  step (clicks now cancels token user_id) s = (handle_click now cancels token user_id s).1
  step (looked now token user_id) s = (pending_owned_by_other now token user_id s).1

  abbrev pub run : List (Event A) → Pending A → Pending A
  run [] s = s
  run (e ∷ events) s = run events (step e s)

  -- No event asks for a confirmation with the token.
  abbrev pub NotAsked : Text → List (Event A) → Type 0
  NotAsked token [] = Unit {0}
  NotAsked token (asked now other user_id action ∷ events) =
      ((other == token) ≡ false) × NotAsked token events
  NotAsked token (clicks now cancels other user_id ∷ events) = NotAsked token events
  NotAsked token (looked now other user_id ∷ events) = NotAsked token events

  -- The event that asked for this entry.
  abbrev pub Asks : Text → PendingAction A → Event A → Type ℓ
  Asks token p e =
      (at : ℕ) × (e ≡ asked at token p.user_id p.action) × (p.expires ≡ at + pending_ttl)

  find-purge :
      (s : Pending A) (now : ℕ) (token : Text)
      → find s token ≡ none
      → find (purge now s) token ≡ none
  unfolding find purge
  find-purge [] now token h = refl
  find-purge ((key, p) ∷ s) now token h =
      let rest = find-purge s now token (ground arith) in ground arith

  find-delete :
      (s : Pending A) (other token : Text)
      → find s token ≡ none
      → find (delete other s) token ≡ none
  unfolding find delete
  find-delete [] other token h = refl
  find-delete ((key, p) ∷ s) other token h =
      let rest = find-delete s other token (ground arith) in ground arith

  find-delete_same : (s : Pending A) (token : Text) → find (delete token s) token ≡ none
  unfolding find delete
  find-delete_same [] token = refl
  find-delete_same ((key, p) ∷ s) token = let rest = find-delete_same s token in ground arith

  take_pending-none :
      (now : ℕ) (other user_id token : Text) (s : Pending A)
      → find s token ≡ none
      → find (take_pending now other user_id s).1 token ≡ none
  unfolding take_pending
  take_pending-none now other user_id token s h =
      let gone = find-delete s other token h in
      elim (Option-cases (find s other)) [ inl e ↦ ground arith | inr (p, e) ↦ ground arith ]

  owned-none :
      (now : ℕ) (other user_id token : Text) (s : Pending A)
      → find s token ≡ none
      → find (pending_owned_by_other now other user_id s).1 token ≡ none
  unfolding pending_owned_by_other
  owned-none now other user_id token s h =
      let gone = find-delete s other token h in
      elim (Option-cases (find s other)) [ inl e ↦ ground arith | inr (p, e) ↦ ground arith ]

  confirm-none :
      (now : ℕ) (other user_id token : Text) (action : A) (s : Pending A)
      → (other == token) ≡ false
      → find s token ≡ none
      → find (confirm now other user_id action s).1 token ≡ none
  unfolding confirm put find
  confirm-none now other user_id token action s differs h =
      let kept = find-purge s now token h in
      let gone = find-delete (purge now s) other token kept in ground arith

  run-none :
      (events : List (Event A)) (token : Text) (s : Pending A)
      → NotAsked token events
      → find s token ≡ none
      → find (run events s) token ≡ none
  run-none [] token s n h = h
  run-none (asked now other user_id action ∷ events) token s (d, n) h =
      run-none events token _ n (confirm-none now other user_id token action s d h)
  run-none (clicks now cancels other user_id ∷ events) token s n h =
      run-none events token _ n
        (unfold handle_click in take_pending-none now other user_id token s h)
  run-none (looked now other user_id ∷ events) token s n h =
      run-none events token _ n (owned-none now other user_id token s h)

  -- A click that gets an action or a cancellation has used its token up.
  clicked-used :
      (now : ℕ) (cancels : Bool) (token user_id : Text) (s : Pending A)
      → (handle_click now cancels token user_id s).0 ≢ expired
      → find (handle_click now cancels token user_id s).1 token ≡ none
  unfolding handle_click take_pending
  clicked-used now cancels token user_id s h =
      let gone = find-delete_same s token in
      elim (Option-cases (find s token)) [
        | inl e ↦ ground arith
        | inr (p, e) ↦ elim (Bool-cases (ltb p.expires now)) [
          | inl late ↦ ground arith
          | inr live ↦ elim (Bool-cases (p.user_id != user_id)) [
            | inl other ↦ absurd (h (ground arith))
            | inr own ↦ ground arith
          ]
        ]
      ]

  missing-expired :
      (now : ℕ) (cancels : Bool) (token user_id : Text) (s : Pending A)
      → find s token ≡ none
      → (handle_click now cancels token user_id s).0 ≡ expired
  unfolding handle_click take_pending
  missing-expired now cancels token user_id s e = ground arith

  -- A confirmation is good for one click: after a click that ran the action or cancelled it, every
  -- further click on its token finds it expired, whatever calls come between, as long as none of
  -- them draws the same token again.
  pub handle_click-once :
      (now later : ℕ) (cancels again : Bool) (token user_id other : Text) (s : Pending A)
      (events : List (Event A))
      → (handle_click now cancels token user_id s).0 ≢ expired
      → NotAsked token events
      → (handle_click later again token other
          (run events (handle_click now cancels token user_id s).1)).0
        ≡ expired
  handle_click-once now later cancels again token user_id other s events h n =
      missing-expired later again token other _
        (run-none events token _ n (clicked-used now cancels token user_id s h))
