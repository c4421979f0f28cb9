-- ===== src/Model/Maintenance/Authorized.antt =====
-- What holds of a delivery that may be merged without a person (internal/model/maintenance.go).
use octomus_agent.Base.{
  ℕ, ◌≤◌, ◌<◌, Bool, true, false, ◌&&◌, List, [], ◌∷◌, Option, none, some, ◌==◌, text_eq, nat_eq,
  min, length, contains, Text, ◌≡◌, refl, subst, inl, inr, arith, Bool-cases, Option-cases, ==→≡,
}
use octomus_agent.Config.Types.{Config, maintenance, delivery_mode_eq}
use octomus_agent.Config.Identity.{effective_categories}
use octomus_agent.Config.Paths.{manual_merge_path}
use octomus_agent.Model.Types.{MaintenanceFootprint, Verification}
use octomus_agent.Model.Task.{Task}
use octomus_agent.Model.Sessions.{execution_config}
use octomus_agent.Model.Reviews.{review_authorizes, verification_for}
use octomus_agent.Model.Maintenance.{
  auto_merge_limits, footprint_sized, no_manual_path, within_limits, footprint_merges, result_holds,
  commands_hold, some_command, commit_merges, maintenance_merge_authorized,
}
use octomus_agent.Model.Maintenance.Evidence.{
  Verified, verification_from-latest, Small, same_delivery_inversion,
}

module _ (to_lower : ℕ → ℕ) where
  no_manual_path-contains :
      (names excluded : List Text)
      → no_manual_path to_lower names excluded ≡ true
      → (name : Text) → contains names name ≡ true
      → manual_merge_path to_lower name excluded ≡ false
  unfolding no_manual_path
  no_manual_path-contains [] excluded h name m = absurd (cc)
  no_manual_path-contains (n ∷ names) excluded h name m = elim (Bool-cases (n == name)) [
    | inl e ↦
        subst (λ x. manual_merge_path to_lower x excluded ≡ false) (==→≡ n name e) (ground arith)
    | inr e ↦ no_manual_path-contains names excluded (ground arith) name (ground arith)
  ]

  sized_inversion :
      (t : Task) (commit : Text) (f : MaintenanceFootprint) (lines files : ℕ)
      → footprint_sized t commit f lines files ≡ true
      → (f.complete ≡ true)
        × (f.comparison_base ≡ t.comparison_base)
        × (f.revision ≡ commit)
        × (0 < files)
        × (length f.paths ≡ files)
  unfolding footprint_sized
  sized_inversion t commit f lines files h = (
    ground arith,
    ==→≡ _ _ (ground arith),
    ==→≡ _ _ (ground arith),
    ground arith,
    ==→≡ _ _ (ground arith),
  )

  limits_inversion :
      (lines files : ℕ) (saved live : Config)
      → within_limits lines files (auto_merge_limits saved live) ≡ true
      → (lines ≤ saved.auto_merge_max_lines)
        × (lines ≤ live.auto_merge_max_lines)
        × (files ≤ saved.auto_merge_max_files)
        × (files ≤ live.auto_merge_max_files)
  unfolding auto_merge_limits
  limits_inversion lines files saved live h = (
    let x : lines ≤ min saved.auto_merge_max_lines live.auto_merge_max_lines = ground arith in
        omega arith,
    let x : lines ≤ min saved.auto_merge_max_lines live.auto_merge_max_lines = ground arith in
        omega arith,
    let x : files ≤ min saved.auto_merge_max_files live.auto_merge_max_files = ground arith in
        omega arith,
    let x : files ≤ min saved.auto_merge_max_files live.auto_merge_max_files = ground arith in
        omega arith,
  )

  and_true : (a b : Bool) → (a && b) ≡ true → (a ≡ true) × (b ≡ true)
  and_true a b h = (ground arith, ground arith)

  footprint_merges-Small :
      (t : Task) (live : Config) (commit : Text) (o : Option MaintenanceFootprint)
      → t.maintenance_footprint ≡ o
      → footprint_merges to_lower t live commit o ≡ true
      → Small to_lower t live commit
  unfolding footprint_merges
  footprint_merges-Small t live commit none e h = absurd (cc)
  footprint_merges-Small t live commit (some f) e h = elim (Option-cases f.changed_lines) [
    | inl el ↦ absurd (ground arith)
    | inr (lines, el) ↦ elim (Option-cases f.changed_files) [
      | inl ef ↦ absurd (ground arith)
      | inr (files, ef) ↦
          let all : (footprint_sized t commit f lines files
                && (no_manual_path to_lower f.paths live.auto_merge_excluded_paths
                    && within_limits lines files (auto_merge_limits t.config live)))
              ≡ true =
            ground arith in
          let (sized, rest) = and_true _ _ all in
          let (no_manual, limits) = and_true _ _ rest in
          let (complete, same_base, same_commit, some_path, all_paths) =
            sized_inversion t commit f lines files sized in
          let (ls, ll, fs, fl) = limits_inversion lines files t.config live limits in
          record {
            footprint = f;
            lines = lines;
            files = files;
            saved = e;
            changed_lines = el;
            changed_files = ef;
            complete = complete;
            same_base = same_base;
            same_commit = same_commit;
            all_paths = all_paths;
            some_path = some_path;
            lines_saved = ls;
            lines_live = ll;
            files_saved = fs;
            files_live = fl;
            no_manual = no_manual_path-contains f.paths live.auto_merge_excluded_paths no_manual;
          }
    ]
  ]

  result_inversion :
      (commit : Text) (o : Option Verification)
      → result_holds commit o ≡ true
      → (v : Verification) × (o ≡ some v) × (v.success ≡ true) × (v.revision ≡ commit)
  result_inversion commit none h = absurd (cc)
  result_inversion commit (some v) h =
      (v, refl, ground arith, ==→≡ v.revision commit (ground arith))

  holds-Verified :
      (t : Task) (commit command : Text)
      → result_holds commit (verification_for t command).latest ≡ true
      → Verified t commit command
  unfolding verification_for
  holds-Verified t commit command h =
      let (v, found, success, at_commit) = result_inversion commit _ h in
      elim (verification_from-latest command (record { latest = none; recorded = 0 }) t.verification
        v found) [
          | inl (e, none_later) ↦ absurd (cc)
          | inr (before, after, split, of_command, latest) ↦ record {
            before = before;
            result = v;
            after = after;
            recorded = split;
            of_command = of_command;
            latest = latest;
            success = success;
            at_commit = at_commit;
          }
        ]

  commands_hold-Verified :
      (t : Task) (commit : Text) (commands : List Text)
      → commands_hold t commit commands ≡ true
      → (command : Text) → contains commands command ≡ true
      → Verified t commit command
  unfolding commands_hold
  commands_hold-Verified t commit [] h command m = absurd (cc)
  commands_hold-Verified t commit (c ∷ commands) h command m = elim (Bool-cases (c == command)) [
    | inl e ↦
        subst (λ x. Verified t commit x) (==→≡ c command e)
          (holds-Verified t commit c (ground arith))
    | inr e ↦ commands_hold-Verified t commit commands (ground arith) command (ground arith)
  ]

  merge_inversion :
      (t : Task) (live : Config) (o : Option Text)
      → commit_merges to_lower t live o ≡ true
      → (commit : Text) × (o ≡ some commit)
        × (review_authorizes t commit ≡ true)
        × (footprint_merges to_lower t live commit t.maintenance_footprint ≡ true)
        × (some_command (execution_config t).verification_commands ≡ true)
        × (commands_hold t commit (execution_config t).verification_commands ≡ true)
  merge_inversion t live none h = absurd (cc)
  merge_inversion t live (some commit) h =
      (commit, refl, ground arith, ground arith, ground arith, ground arith)

  -- A delivery that may be merged without a person is unarchived, under maintenance delivery then and
  -- now, and of a category that is planned now; its output commit is authorized by its last review; its
  -- footprint is complete, of that commit, within the saved and the live limits and without a path
  -- that a person must merge; there is a verification command, and the last result of every one is a
  -- success at that commit.
  pub maintenance_merge_authorized-Verified :
      (t : Task) (live : Config)
      → maintenance_merge_authorized to_lower t live ≡ true
      → (live.delivery_mode ≡ maintenance)
        × (t.config.delivery_mode ≡ maintenance)
        × (t.lifecycle.archived_at ≡ none)
        × (contains (effective_categories live) t.proposal.category ≡ true)
        × ((commit : Text) × (t.output_commit ≡ some commit)
            × (review_authorizes t commit ≡ true)
            × Small to_lower t live commit
            × (some_command (execution_config t).verification_commands ≡ true)
            × ((command : Text)
                → contains (execution_config t).verification_commands command ≡ true
                → Verified t commit command))
  unfolding maintenance_merge_authorized
  maintenance_merge_authorized-Verified t live h =
      let (same, merges) = and_true _ _ h in
      let (live_mode, saved_mode, archived, category) = same_delivery_inversion t live same in
      let (commit, output, review, footprint, nonempty, hold) =
        merge_inversion t live t.output_commit merges in
      (
        live_mode,
        saved_mode,
        archived,
        category,
        (
          commit,
          output,
          review,
          footprint_merges-Small t live commit t.maintenance_footprint refl footprint,
          nonempty,
          commands_hold-Verified t commit (execution_config t).verification_commands hold,
        ),
      )
