-- ===== src/Store/Records.antt =====
-- internal/store/records.go and store.go: the saved records that the operations here read and write.
-- Every statement of a transaction succeeds; a failing one rolls the transaction back, as an error
-- of the operation does. The event log, which none of these operations reads, is left out.
use octomus_agent.Base.{Text, Option, some, List, [], ◌∷◌, ◌==◌, text_eq, if◌then◌else◌}
use octomus_agent.Model.Task.{Task}
use octomus_agent.Model.PullRequests.{PrObservation}

-- Tasks and cancellation markers by task identity; a marker record of JSON null is no marker. Pull
-- requests are rows in the order of their first insertion.
pub record Database : Type 0 where
  pub tasks : Text → Option Task
  pub cancel_markers : Text → Option Text
  pub pull_requests : List (Text × PrObservation)

abbrev pub update {ℓ} : {A : Type ℓ} → (Text → Option A) → Text → Option A → Text → Option A
update m key value other = if other == key then value else m other

unfoldable pub put_task : Database → Task → Database
put_task db task = record db { tasks = update db.tasks task.id (some task) }

unfoldable pub put_marker : Database → Text → Option Text → Database
put_marker db id marker = record db { cancel_markers = update db.cancel_markers id marker }

-- INSERT ... ON CONFLICT DO UPDATE keeps the row's place.
unfoldable pub put_row :
    List (Text × PrObservation) → Text → PrObservation → List (Text × PrObservation)
put_row [] id value = (id, value) ∷ []
put_row ((key, old) ∷ rows) id value =
    if key == id then (key, value) ∷ rows else (key, old) ∷ put_row rows id value

pub data Result {ℓ κ} (E : Type ℓ) (A : Type κ) : Type (ℓ ⊔ κ) where
  ok : A → Result E A
  err : E → Result E A

-- runTx: what an operation that fails has written is rolled back.
abbrev pub transaction {ℓ κ} :
    {E : Type ℓ} {A : Type κ}
    → Database
    → (Database → Result E (A × Database))
    → Result E A × Database
transaction db f = elim (f db) [ ok (a, after) ↦ (ok a, after) | err e ↦ (err e, db) ]
