-- ===== src/Store/Capacity/Persist/Released.antt =====
-- What a saved observation releases, and what it leaves (internal/store/capacity.go).
use octomus_agent.Base.{
  ℕ, ◌≤◌, true, false, ◌&&◌, List, [], ◌∷◌, Option, none, some, Text, text_eq, ◌==◌, contains, ltb,
  is_some, Any, here, there, ◌≡◌, refl, sym, ap, subst, ◌⊎◌, inl, inr, arith, Bool-cases, ==→≡,
}
use octomus_agent.Config.Identity.{equal_ascii}
use octomus_agent.Model.Enums.{published, cancelled, status_eq}
use octomus_agent.Model.Task.{Task}
use octomus_agent.Model.PullRequests.{OpenPrInventory, owned_branches}
use octomus_agent.Store.Records.{Database}
use octomus_agent.Store.Capacity.{PrReservation, Capacity, reservation_rows}
use octomus_agent.Store.Capacity.Persist.{
  release_reservation, confirmed, is_published, settle_reservation, settle_from, persisted,
  and_newer, persisted_capacity, and_existing, persist_pr_inventory,
}

abbrev pub Has : PrReservation → List PrReservation → Type 0
Has r rows = Any (λ x. x ≡ r) rows

-- The saved task is published, or a cancelled one that the caller asked to release has its commit.
abbrev pub Finished : Database → List Text → Text → Type 0
Finished db released id =
    (t : Task) × (db.tasks id ≡ some t)
    × ((t.status ≡ published)
        ⊎ ((t.status ≡ cancelled)
            × (is_some t.output_commit ≡ true)
            × (contains released id ≡ true)))

kept_row :
    (x : PrReservation) (rows : List PrReservation) (id : Text)
    → (x.task_id == id) ≡ false
    → (x ∷ release_reservation rows id) ≡ release_reservation (x ∷ rows) id
unfolding release_reservation
kept_row x rows id e = ground arith

dropped_row :
    (x : PrReservation) (rows : List PrReservation) (id : Text)
    → (x.task_id == id) ≡ true
    → release_reservation rows id ≡ release_reservation (x ∷ rows) id
unfolding release_reservation
dropped_row x rows id e = ground arith

release-Has :
    (rows : List PrReservation) (id : Text) (r : PrReservation)
    → Has r rows
    → (r.task_id == id) ≡ false
    → Has r (release_reservation rows id)
unfolding release_reservation
release-Has [] id r m other = elim m [ ]
release-Has (x ∷ rows) id r (here e) other =
    let differs : (x.task_id == id) ≡ false = ground arith in
    subst (λ l. Has r l) (kept_row x rows id differs) (here e)
release-Has (x ∷ rows) id r (there m) other =
    let rest = release-Has rows id r m other in
    elim (Bool-cases (x.task_id == id)) [
      | inl e ↦ subst (λ l. Has r l) (dropped_row x rows id e) rest
      | inr e ↦ subst (λ l. Has r l) (kept_row x rows id e) (there rest)
    ]

confirmed-Finished :
    (db : Database) (released : List Text) (id : Text) (o : Option Task)
    → db.tasks id ≡ o
    → contains released id ≡ true
    → confirmed o ≡ true
    → Finished db released id
confirmed-Finished db released id none e wanted h = absurd (cc)
confirmed-Finished db released id (some t) e wanted h = elim (Bool-cases (t.status == published)) [
  | inl p ↦ (t, e, inl (==→≡ t.status published p))
  | inr p ↦ (t, e, inr (==→≡ t.status cancelled (ground arith), ground arith, wanted))
]

published-Finished :
    (db : Database) (released : List Text) (id : Text) (o : Option Task)
    → db.tasks id ≡ o
    → is_published o ≡ true
    → Finished db released id
published-Finished db released id none e h = absurd (cc)
published-Finished db released id (some t) e h = (t, e, inl (==→≡ t.status published h))

-- Releasing the reservation of a finished task keeps every other one.
release-keeps :
    (db : Database) (released : List Text) (rows : List PrReservation) (id : Text)
    (r : PrReservation)
    → Finished db released id
    → Has r rows
    → Has r (release_reservation rows id) ⊎ Finished db released r.task_id
release-keeps db released rows id r finished m = elim (Bool-cases (r.task_id == id)) [
  | inl e ↦ inr (subst (λ i. Finished db released i) (sym (==→≡ r.task_id id e)) finished)
  | inr e ↦ inl (release-Has rows id r m e)
]

confirmed_first :
    (db : Database) (represented released : List Text) (rows : List PrReservation)
    (s : PrReservation)
    → (contains released s.task_id && confirmed (db.tasks s.task_id)) ≡ true
    → settle_reservation db represented released rows s ≡ release_reservation rows s.task_id
unfolding settle_reservation
confirmed_first db represented released rows s e = ground arith

published_next :
    (db : Database) (represented released : List Text) (rows : List PrReservation)
    (s : PrReservation)
    → (contains released s.task_id && confirmed (db.tasks s.task_id)) ≡ false
    → (contains represented s.branch && is_published (db.tasks s.task_id)) ≡ true
    → settle_reservation db represented released rows s ≡ release_reservation rows s.task_id
unfolding settle_reservation
published_next db represented released rows s e f = ground arith

neither :
    (db : Database) (represented released : List Text) (rows : List PrReservation)
    (s : PrReservation)
    → (contains released s.task_id && confirmed (db.tasks s.task_id)) ≡ false
    → (contains represented s.branch && is_published (db.tasks s.task_id)) ≡ false
    → settle_reservation db represented released rows s ≡ rows
unfolding settle_reservation
neither db represented released rows s e f = ground arith

released_row :
    {A : Type 0} {r : PrReservation} {rows settled : List PrReservation}
    → settled ≡ rows
    → Has r rows ⊎ A
    → Has r settled ⊎ A
released_row {r} same (inl m) = inl (subst (λ l. Has r l) (sym same) m)
released_row same (inr a) = inr a

settle_reservation-keeps :
    (db : Database) (represented released : List Text) (rows : List PrReservation)
    (s r : PrReservation)
    → Has r rows
    → Has r (settle_reservation db represented released rows s) ⊎ Finished db released r.task_id
settle_reservation-keeps db represented released rows s r m =
    elim (Bool-cases (contains released s.task_id && confirmed (db.tasks s.task_id))) [
      | inl e ↦ released_row (confirmed_first db represented released rows s e) (
          release-keeps db released rows s.task_id r
            (confirmed-Finished db released s.task_id (db.tasks s.task_id) refl (ground arith)
              (ground arith))
            m)
      | inr e ↦
          elim (Bool-cases (contains represented s.branch && is_published (db.tasks s.task_id))) [
            | inl f ↦ released_row (published_next db represented released rows s e f) (
                release-keeps db released rows s.task_id r
                  (published-Finished db released s.task_id (db.tasks s.task_id) refl
                    (ground arith))
                  m)
            | inr f ↦
                inl (subst (λ l. Has r l) (sym (neither db represented released rows s e f)) m)
          ]
    ]

settle_from-keeps :
    (db : Database) (represented released : List Text) (rows reservations : List PrReservation)
    (r : PrReservation)
    → Has r rows
    → Has r (settle_from db represented released rows reservations) ⊎ Finished db released r.task_id
unfolding settle_from
settle_from-keeps db represented released rows [] r m = inl m
settle_from-keeps db represented released rows (s ∷ reservations) r m =
    elim (settle_reservation-keeps db represented released rows s r m) [
      | inl kept ↦
          settle_from-keeps db represented released
            (settle_reservation db represented released rows s) reservations r kept
      | inr finished ↦ inr finished
    ]

-- The saved observation was not made after the new one, where both are of one repository.
abbrev pub NotNewer : (Text → Option ℕ) → Option OpenPrInventory → OpenPrInventory → Type 0
NotNewer parse_time none inventory = Unit {0}
NotNewer parse_time (some existing) inventory =
    equal_ascii existing.repository inventory.repository ≡ true
    → (previous : ℕ) × (candidate : ℕ) × (parse_time existing.observed_at ≡ some previous)
      × (parse_time inventory.observed_at ≡ some candidate)
      × (previous ≤ candidate)

module _ (lower : Text → Text) (parse_time : Text → Option ℕ) where
  and_newer_inversion :
      (previous candidate : Option ℕ) (next after : Capacity)
      → and_newer previous candidate (persisted next) ≡ persisted after
      → (next ≡ after) × ((p : ℕ) × (c : ℕ) × (previous ≡ some p) × (candidate ≡ some c) × (p ≤ c))
  and_newer_inversion none candidate next after h = absurd (ground arith)
  and_newer_inversion (some p) none next after h = absurd (ground arith)
  and_newer_inversion (some p) (some c) next after h = elim (Bool-cases (ltb c p)) [
    | inl e ↦ absurd (ground arith)
    | inr e ↦ (ground arith, (p, c, refl, refl, ground arith))
  ]

  and_existing_inversion :
      (o : Option OpenPrInventory) (inventory : OpenPrInventory) (next after : Capacity)
      → and_existing lower parse_time o inventory (persisted next) ≡ persisted after
      → (next ≡ after) × NotNewer parse_time o inventory
  and_existing_inversion none inventory next after h = (ground arith, tt)
  and_existing_inversion (some existing) inventory next after h =
      elim (Bool-cases (equal_ascii existing.repository inventory.repository)) [
        | inl e ↦
            let (same, times) =
              and_newer_inversion (parse_time existing.observed_at)
                (parse_time inventory.observed_at) next after (ground arith) in
            (same, λ one. times)
        | inr e ↦ (ground arith, λ one. absurd (cc))
      ]

  persist_inversion :
      (c after : Capacity) (inventory : OpenPrInventory) (released : List Text)
      → persist_pr_inventory lower parse_time c inventory released ≡ persisted after
      → (persisted_capacity lower parse_time c inventory released ≡ after)
        × NotNewer parse_time c.inventory inventory
        × (equal_ascii inventory.repository c.config.github_repo ≡ true)
  unfolding persist_pr_inventory
  persist_inversion c after inventory released h =
      elim (Bool-cases (equal_ascii inventory.repository c.config.github_repo)) [
        | inl e ↦
            let (same, times) =
              and_existing_inversion c.inventory inventory
                (persisted_capacity lower parse_time c inventory released) after (ground arith) in
            (same, times, e)
        | inr e ↦ absurd (ground arith)
      ]

  -- An observation that is saved is of the policy's repository and not older than the one before it; the
  -- records and the policy stay, and a reservation is released only when its saved task is published, or
  -- cancelled with an output commit and named by the caller.
  pub persist_pr_inventory-Finished :
      (c after : Capacity) (inventory : OpenPrInventory) (released : List Text)
      → persist_pr_inventory lower parse_time c inventory released ≡ persisted after
      → (after.inventory ≡ some inventory)
        × (after.records ≡ c.records)
        × (after.config ≡ c.config)
        × (equal_ascii inventory.repository c.config.github_repo ≡ true)
        × NotNewer parse_time c.inventory inventory
        × ((r : PrReservation)
            → Has r c.reservations
            → Has r after.reservations ⊎ Finished c.records released r.task_id)
  persist_pr_inventory-Finished c after inventory released h =
      let (same, times, repository) = persist_inversion c after inventory released h in
      (
        ap (λ x. x.inventory) (sym same),
        ap (λ x. x.records) (sym same),
        ap (λ x. x.config) (sym same),
        repository,
        times,
        λ r m.
            subst (λ x. Has r x.reservations ⊎ Finished c.records released r.task_id) same
              (settle_from-keeps c.records (owned_branches inventory.prs) released c.reservations
                (reservation_rows lower c.reservations c.config.github_repo) r m),
      )
