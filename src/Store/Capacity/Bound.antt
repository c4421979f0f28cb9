-- ===== src/Store/Capacity/Bound.antt =====
-- The open pull requests after an admission (internal/store/capacity.go).
use octomus_agent.Base.{
  ℕ, suc, ◌≤◌, ◌<◌, true, List, [], ◌∷◌, ◌++◌, Option, none, some, Text, text_eq, nat_eq, option_eq,
  ◌==◌, ◌≡◌, sym, subst, arith, ==→≡, ==-refl,
}
use octomus_agent.Model.Task.{Task, task_eq}
use octomus_agent.Model.Enums.{queued, status_eq}
use octomus_agent.Model.PullRequests.{OpenPrInventory, inventory_eq, owned_branches}
use octomus_agent.Model.Lifecycle.Change.{admission}
use octomus_agent.Store.Records.{Database, Result, ok, err}
use octomus_agent.Store.Tasks.{TaskError, tx_commit_task}
use octomus_agent.Store.Capacity.{
  PrReservation, Capacity, unrepresented, taken, remaining, reservation_rows, admissible,
  admitted_task, reservation, admit_committed, admit_new_pr_task,
}

unrepresented-append :
    (branches : List Text) (rows : List PrReservation) (r : PrReservation)
    → unrepresented branches (rows ++ (r ∷ [])) ≤ suc (unrepresented branches rows)
unfolding unrepresented
unrepresented-append branches [] r = ground arith
unrepresented-append branches (q ∷ rows) r =
    let rest = unrepresented-append branches rows r in ground arith

taken-append :
    (inventory : OpenPrInventory) (rows : List PrReservation) (r : PrReservation) (limit : ℕ)
    → taken inventory rows < limit
    → taken inventory (rows ++ (r ∷ [])) ≤ limit
unfolding taken
taken-append inventory rows r limit room =
    let one = unrepresented-append (owned_branches inventory.prs) rows r in omega arith

module _ (lower : Text → Text) where
  reservation_rows-append :
      (rows : List PrReservation) (r : PrReservation) (repository : Text)
      → (r.repository == lower repository) ≡ true
      → reservation_rows lower (rows ++ (r ∷ [])) repository
        ≡ reservation_rows lower rows repository ++ (r ∷ [])
  unfolding reservation_rows
  reservation_rows-append [] r repository same = ground arith
  reservation_rows-append (q ∷ rows) r repository same =
      let rest = reservation_rows-append rows r repository same in ground arith

  admissible_inversion :
      (c : Capacity) (task : Task) (inventory : OpenPrInventory) (saved : Option Task)
      → admissible lower c task inventory saved ≡ true
      → (saved ≡ some task)
        × (task.status ≡ queued)
        × (taken inventory (reservation_rows lower c.reservations c.config.github_repo)
            < c.config.max_open_prs)
  unfolding admissible remaining
  admissible_inversion c task inventory none h = absurd (cc)
  admissible_inversion c task inventory (some canonical) h =
      let same = ==→≡ canonical task (ground arith) in
      let is_queued = ==→≡ canonical.status queued (ground arith) in
      (cc, subst (λ t. t.status ≡ queued) same is_queued, ground arith)

  admit_committed_inversion :
      (c after : Capacity) (next : Task) (now : Text) (r : Result TaskError (Task × Database))
      → admit_committed lower c now r ≡ some (next, after)
      → (after.config ≡ c.config)
        × (after.reservations ≡ c.reservations ++ (reservation lower c next now ∷ []))
  admit_committed_inversion c after next now (err e) h = absurd (cc)
  admit_committed_inversion c after next now (ok (t, records)) h = (ground arith, ground arith)

  -- An admission succeeds only for a queued task that is saved as given, and within the limit: the
  -- pull requests observed and the reservations without one, the new one included, are at most the
  -- open pull requests that the policy allows.
  pub admit_new_pr_task-taken :
      (c after : Capacity) (task next : Task) (inventory : OpenPrInventory) (now : Text)
      → admit_new_pr_task lower c task inventory now ≡ some (next, after)
      → (c.records.tasks task.id ≡ some task)
        × (task.status ≡ queued)
        × (taken inventory (reservation_rows lower after.reservations after.config.github_repo)
            ≤ after.config.max_open_prs)
  unfolding admit_new_pr_task
  admit_new_pr_task-taken c after task next inventory now h =
      let (saved, is_queued, room) =
        admissible_inversion c task inventory (c.records.tasks task.id) (ground arith) in
      let (same_config, added) =
        admit_committed_inversion c after next now
          (tx_commit_task c.records task (admitted_task lower task now) admission) (ground arith) in
      let rows = reservation_rows lower c.reservations c.config.github_repo in
      let new = reservation lower c next now in
      let listed =
        reservation_rows-append c.reservations new c.config.github_repo
          (==-refl (lower c.config.github_repo)) in
      let bound : taken inventory (rows ++ (new ∷ [])) ≤ c.config.max_open_prs =
        taken-append inventory rows new c.config.max_open_prs room in
      (
        saved,
        is_queued,
        subst
            (λ k.
              taken inventory (reservation_rows lower after.reservations k.github_repo)
              ≤ k.max_open_prs)
            (sym same_config)
            (subst
              (λ rs.
                taken inventory (reservation_rows lower rs c.config.github_repo)
                ≤ c.config.max_open_prs)
              (sym added)
              (subst (λ rs. taken inventory rs ≤ c.config.max_open_prs) (sym listed) bound)),
      )
