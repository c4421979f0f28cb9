-- ===== src/Chat/Confirm.antt =====
-- internal/chat/confirm.go: actions that wait for a confirmation. The map `pending` is an association
-- list with one entry for a key; a token is drawn at random and is an argument here, as the time of
-- a call is, in nanoseconds; an action is a value that the caller runs once it has it.
use octomus_agent.Base.{
  ℕ, suc, ◌+◌, Bool, true, false, List, [], ◌∷◌, Option, none, some, if◌then◌else◌, ltb, leb,
  length, Text, text_eq, ◌==◌, ◌!=◌,
}
pub mod Once
mod Asked
mod Examples

abbrev pub pending_ttl : ℕ
pending_ttl = 300000000000

abbrev pub max_pending : ℕ
max_pending = 100

-- What an action answers to a click: an expired confirmation, a cancellation, or the action to run.
pub data Click {ℓ} (A : Type ℓ) : Type ℓ where
  expired cancelled : Click A
  runs : A → Click A

pub record PendingAction {ℓ} (A : Type ℓ) : Type ℓ where
  pub user_id : Text
  pub expires : ℕ
  pub action : A

abbrev pub Pending {ℓ} : Type ℓ → Type ℓ
Pending A = List (Text × PendingAction A)

module _ {ℓ} {A : Type ℓ} where
  unfoldable pub find : Pending A → Text → Option (PendingAction A)
  find [] token = none
  find ((key, p) ∷ pending) token =
      let rest = find pending token in if key == token then some p else rest

  unfoldable pub delete : Text → Pending A → Pending A
  delete token [] = []
  delete token ((key, p) ∷ pending) =
      let rest = delete token pending in if key == token then rest else (key, p) ∷ rest

  -- The loop that deletes what has expired.
  unfoldable pub purge : ℕ → Pending A → Pending A
  purge now [] = []
  purge now ((key, p) ∷ pending) =
      let rest = purge now pending in if ltb p.expires now then rest else (key, p) ∷ rest

  -- The map with the action of a new confirmation.
  unfoldable pub put : Text → PendingAction A → Pending A → Pending A
  unfolding delete
  put token p pending = (token, p) ∷ delete token pending

  -- Whether the confirmation is asked for, and the map after it.
  unfoldable pub confirm : ℕ → Text → Text → A → Pending A → Bool × Pending A
  unfolding purge put
  confirm now token user_id action pending =
      let kept = purge now pending in
      if leb max_pending (length kept) then (false, kept) else (
        true,
        put token (record { user_id = user_id; expires = now + pending_ttl; action = action }) kept,
      )

  abbrev pub take_found :
      ℕ → Text → Text → Pending A → Option (PendingAction A) → Option (PendingAction A) × Pending A
  take_found now token user_id pending none = (none, pending)
  take_found now token user_id pending (some p) =
      if ltb p.expires now
      then (none, delete token pending)
      else if p.user_id != user_id
      then (none, pending)
      else (some p, delete token pending)

  unfoldable pub take_pending : ℕ → Text → Text → Pending A → Option (PendingAction A) × Pending A
  unfolding find delete
  take_pending now token user_id pending = take_found now token user_id pending (find pending token)

  abbrev pub owner_found : ℕ → Text → Text → Pending A → Option (PendingAction A) → Bool × Pending A
  owner_found now token user_id pending none = (false, pending)
  owner_found now token user_id pending (some p) =
      if ltb p.expires now then (false, delete token pending) else (p.user_id != user_id, pending)

  unfoldable pub pending_owned_by_other : ℕ → Text → Text → Pending A → Bool × Pending A
  unfolding find delete
  pending_owned_by_other now token user_id pending =
      owner_found now token user_id pending (find pending token)

  abbrev pub clicked : Bool → Option (PendingAction A) → Click A
  clicked cancels none = expired
  clicked cancels (some p) = if cancels then cancelled else runs p.action

  -- handleAction on the kinds `confirm` and `cancel`.
  unfoldable pub handle_click : ℕ → Bool → Text → Text → Pending A → Click A × Pending A
  unfolding take_pending
  handle_click now cancels token user_id pending =
      let taken = take_pending now token user_id pending in (clicked cancels taken.0, taken.1)
