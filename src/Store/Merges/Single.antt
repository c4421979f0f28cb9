-- ===== src/Store/Merges/Single.antt =====
-- The claims of one pull request, one after another (internal/store/automerge.go).
use octomus_agent.Base.{
  ℕ, Text, Bool, true, false, ◌||◌, Option, none, some, ◌==◌, nat_eq, text_eq, ◌≡◌, refl, sym,
  subst, arith, inl, inr, List, [], ◌∷◌, Option-cases, Bool-cases,
}
use octomus_agent.Model.Enums.{merging, AutoMergeStatus-discrete}
use octomus_agent.Model.Types.{AutoMergeState}
use octomus_agent.Model.PullRequests.{PrObservation}
use octomus_agent.Store.Records.{Database, put_row}
use octomus_agent.Store.Merges.Observe.{
  in_flight, revoke, revocable, revoke_observation, revoke_task_merges,
}
use octomus_agent.Store.Merges.Claim.{
  observation_at, incomplete_intent, claimable, claim_observation, claim_found, claim_merge,
}

abbrev has_row : Text → List (Text × PrObservation) → Bool
has_row id [] = false
has_row id ((key, _) ∷ rows) = key == id || has_row id rows

-- The primary key of the records table.
abbrev pub IsKeyed : List (Text × PrObservation) → Type 0
IsKeyed [] = Unit {0}
IsKeyed ((key, _) ∷ rows) = (has_row key rows ≡ false) × IsKeyed rows

-- The same pull request of the same repository.
abbrev SameRow : PrObservation → PrObservation → Type 0
SameRow o o' = (o'.repository ≡ o.repository) × (o'.pr.number ≡ o.pr.number)

observation_at-has_row :
    (repository : Text) (number : ℕ) (rows : List (Text × PrObservation)) (id : Text)
    (o : PrObservation)
    → observation_at repository number rows ≡ some (id, o)
    → has_row id rows ≡ true
unfolding observation_at
observation_at-has_row repository number [] id o h = absurd (cc)
observation_at-has_row repository number ((key, r) ∷ rows) id o h =
    elim (Option-cases (observation_at repository number rows)) [
      | inl missing ↦ ground arith
      | inr ((k, later), e) ↦ ground (arith, observation_at-has_row repository number rows id o)
    ]

observation_at-put_row :
    (repository : Text) (number : ℕ) (rows : List (Text × PrObservation)) (id : Text)
    (o o' : PrObservation)
    → IsKeyed rows
    → SameRow o o'
    → observation_at repository number rows ≡ some (id, o)
    → observation_at repository number (put_row rows id o') ≡ some (id, o')
unfolding observation_at put_row
observation_at-put_row repository number [] id o o' u s h = absurd (cc)
observation_at-put_row repository number ((key, r) ∷ rows) id o o' u s h =
    elim (Option-cases (observation_at repository number rows)) [
      | inl missing ↦ ground arith
      | inr ((k, later), e) ↦ ground (
        arith,
        observation_at-put_row repository number rows id o o' u.1 s,
        observation_at-has_row repository number rows id o,
      )
    ]

claim_found_inversion :
    (db after : Database) (found : Option (Text × PrObservation)) (intent : AutoMergeState)
    (allow : Bool)
    → claim_found db found intent allow ≡ (true, after)
    → (id : Text) × (o : PrObservation) × (found ≡ some (id, o))
      × (after.pull_requests ≡ put_row db.pull_requests id (record o { auto_merge = some intent }))
unfolding claim_found claim_observation
claim_found_inversion db after none intent allow h = absurd (cc)
claim_found_inversion db after (some (id, o)) intent allow h = (id, o, refl, ground arith)

claim_inversion :
    (db after : Database) (repository : Text) (number : ℕ) (intent : AutoMergeState) (allow : Bool)
    → claim_merge db repository number intent allow ≡ (true, after)
    → (id : Text) × (o : PrObservation) × (observation_at repository number db.pull_requests
        ≡ some (id, o))
      × (after.pull_requests ≡ put_row db.pull_requests id (record o { auto_merge = some intent }))
      × (intent.status ≡ merging)
unfolding claim_merge incomplete_intent
claim_inversion db after repository number intent allow h =
    let (id, o, e, put) =
      claim_found_inversion db after (observation_at repository number db.pull_requests) intent
        allow (ground arith) in
    (id, o, e, put, ground arith)

-- The record of the pull request holds a merge that is under way.
abbrev UnderWay : Text → ℕ → Database → Type 0
UnderWay repository number db =
    (id : Text) × (o : PrObservation) × (m : AutoMergeState) × (observation_at repository number
        db.pull_requests
      ≡ some (id, o))
    × (o.auto_merge ≡ some m)
    × (in_flight m.status ≡ true)

claim_found-in_flight :
    (db : Database) (id : Text) (o : PrObservation) (m other : AutoMergeState) (allow : Bool)
    → o.auto_merge ≡ some m
    → in_flight m.status ≡ true
    → claim_found db (some (id, o)) other allow ≡ (false, db)
unfolding claim_found claim_observation claimable in_flight AutoMergeStatus-discrete
claim_found-in_flight db id o m other allow e s = ground arith

claim_merge-UnderWay :
    (db : Database) (repository : Text) (number : ℕ) (other : AutoMergeState) (allow : Bool)
    → UnderWay repository number db
    → claim_merge db repository number other allow ≡ (false, db)
unfolding claim_merge
claim_merge-UnderWay db repository number other allow (id, o, m, found, at, flying) =
    elim (Bool-cases (incomplete_intent other)) [
      | inl partial ↦ rw (partial, claim_merge)
      | inr whole ↦
          rw (whole, claim_merge, found) (claim_found-in_flight db id o m other allow at flying)
    ]

merging-in_flight : (m : AutoMergeState) → m.status ≡ merging → in_flight m.status ≡ true
unfolding in_flight AutoMergeStatus-discrete
merging-in_flight m e = ground arith

revoke-in_flight :
    (m : AutoMergeState) (why now : Text)
    → in_flight m.status ≡ true
    → in_flight (revoke m why now).status ≡ true
unfolding revoke
revoke-in_flight m why now s = ground arith

revoked_repository :
    (task why now : Text) (o : PrObservation)
    → (revoke_observation task why now o).repository ≡ o.repository
unfolding revoke_observation
revoked_repository task why now o = refl

revoked_number :
    (task why now : Text) (o : PrObservation)
    → (revoke_observation task why now o).pr.number ≡ o.pr.number
unfolding revoke_observation
revoked_number task why now o = refl

-- A revocation keeps the place of every row.
observation_at-missing :
    (repository : Text) (number : ℕ) (task why now : Text) (rows : List (Text × PrObservation))
    → observation_at repository number rows ≡ none
    → observation_at repository number (revoke_task_merges task why now rows) ≡ none
unfolding observation_at revoke_task_merges revoke_observation
observation_at-missing repository number task why now [] h = refl
observation_at-missing repository number task why now ((key, r) ∷ rows) h =
    elim (Option-cases (observation_at repository number rows)) [
      | inl missing ↦
          let rest = observation_at-missing repository number task why now rows missing in
          ground arith
      | inr ((k, later), e) ↦ absurd (ground arith)
    ]

observation_at-revoke :
    (repository : Text) (number : ℕ) (task why now : Text) (rows : List (Text × PrObservation))
    (id : Text) (o : PrObservation)
    → observation_at repository number rows ≡ some (id, o)
    → observation_at repository number (revoke_task_merges task why now rows)
      ≡ some (id, revoke_observation task why now o)
unfolding observation_at revoke_task_merges
observation_at-revoke repository number task why now [] id o h = absurd (cc)
observation_at-revoke repository number task why now ((key, r) ∷ rows) id o h =
    let same_repository = revoked_repository task why now r in
    let same_number = revoked_number task why now r in
    elim (Option-cases (observation_at repository number rows)) [
      | inl missing ↦
          let rest = observation_at-missing repository number task why now rows missing in
          ground arith
      | inr ((k, later), e) ↦
          let rest = observation_at-revoke repository number task why now rows k later e in
          ground arith
    ]

-- A merge that is under way stays so when its authority is revoked.
revoked-in_flight :
    (task why now : Text) (o : PrObservation) (m : AutoMergeState)
    → o.auto_merge ≡ some m
    → in_flight m.status ≡ true
    → (n : AutoMergeState) × ((revoke_observation task why now o).auto_merge ≡ some n)
      × (in_flight n.status ≡ true)
unfolding revoke_observation
revoked-in_flight task why now o m e s = elim (Bool-cases (revocable task m)) [
  | inl hit ↦ (revoke m why now, ground arith, revoke-in_flight m why now s)
  | inr miss ↦ (m, ground arith, s)
]

-- A call between two claims of one pull request: another claim of it, or a revocation of any task's
-- merges.
pub data Between : Type 0 where
  claims : (intent : AutoMergeState) (allow_manual : Bool) → Between
  revokes : (task why now : Text) → Between

abbrev pub perform_between : Text → ℕ → Database → List Between → Database
perform_between repository number db [] = db
perform_between repository number db (claims intent allow ∷ calls) =
    perform_between repository number (claim_merge db repository number intent allow).1 calls
perform_between repository number db (revokes task why now ∷ calls) =
    perform_between repository number
      (record db { pull_requests = revoke_task_merges task why now db.pull_requests }) calls

between-UnderWay :
    (repository : Text) (number : ℕ) (db : Database) (calls : List Between)
    → UnderWay repository number db
    → UnderWay repository number (perform_between repository number db calls)
between-UnderWay repository number db [] u = u
between-UnderWay repository number db (claims intent allow ∷ calls) u =
    between-UnderWay repository number (claim_merge db repository number intent allow).1 calls (
      subst (λ r. UnderWay repository number r.1)
        (sym (claim_merge-UnderWay db repository number intent allow u)) u)
between-UnderWay repository number db (revokes task why now ∷ calls) (id, o, m, found, at, flying) =
    let (n, saved, still) = revoked-in_flight task why now o m at flying in
    between-UnderWay repository number
      (record db { pull_requests = revoke_task_merges task why now db.pull_requests }) calls
      (
        id,
        revoke_observation task why now o,
        n,
        observation_at-revoke repository number task why now db.pull_requests id o found,
        saved,
        still,
      )

-- After a claim has succeeded, and then any further claims of the same pull request and any
-- revocations, but no observation or settlement, a claim of it fails and changes nothing, whatever
-- its intent.
pub claim_merge-once :
    (db after : Database) (repository : Text) (number : ℕ) (intent other : AutoMergeState)
    (allow allow' : Bool) (calls : List Between)
    → IsKeyed db.pull_requests
    → claim_merge db repository number intent allow ≡ (true, after)
    → claim_merge (perform_between repository number after calls) repository number other allow'
      ≡ (false, perform_between repository number after calls)
claim_merge-once db after repository number intent other allow allow' calls u h =
    let (id, o, at, put, status) = claim_inversion db after repository number intent allow h in
    let o' : PrObservation = record o { auto_merge = some intent } in
    let found : observation_at repository number after.pull_requests ≡ some (id, o') =
      rw put
        (observation_at-put_row repository number db.pull_requests id o o' u (refl, refl) at) in
    claim_merge-UnderWay (perform_between repository number after calls) repository number other
      allow'
      (between-UnderWay repository number after calls
        (id, o', intent, found, refl, merging-in_flight intent status))
