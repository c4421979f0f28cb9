-- ===== src/Model/Maintenance/Evidence.antt =====
-- The evidence that an automatic merge rests on (internal/model/maintenance.go).
use octomus_agent.Base.{
  ℕ, ◌≤◌, ◌<◌, true, false, List, [], ◌∷◌, ◌++◌, none, some, ◌==◌, text_eq, nat_eq, length,
  contains, Text, ◌≡◌, sym, ap, ◌∙◌, ◌⊎◌, inl, inr, arith, Bool-cases, ==→≡,
}
use octomus_agent.Config.Types.{Config, maintenance, delivery_mode_eq}
use octomus_agent.Config.Identity.{effective_categories}
use octomus_agent.Config.Paths.{manual_merge_path}
use octomus_agent.Model.Types.{MaintenanceFootprint, Verification}
use octomus_agent.Model.Task.{Task}
use octomus_agent.Model.Reviews.{verification_from, record_result, VerificationHistory}
use octomus_agent.Model.Maintenance.{same_delivery}

-- No entry is a result of the command.
abbrev pub NoResult : Text → List Verification → Type 0
NoResult command [] = Unit {0}
NoResult command (v ∷ vs) = ((v.command == command) ≡ false) × NoResult command vs

-- The last result of the command is a success at the commit.
pub record Verified (t : Task) (commit command : Text) : Type 0 where
  pub before : List Verification
  pub result : Verification
  pub after : List Verification
  pub recorded : t.verification ≡ before ++ (result ∷ after)
  pub of_command : result.command ≡ command
  pub latest : NoResult command after
  pub success : result.success ≡ true
  pub at_commit : result.revision ≡ commit

-- The last result that the loop finds was there before, or stands in the list with none after it.
pub verification_from-latest :
    (command : Text) (h : VerificationHistory) (vs : List Verification) (v : Verification)
    → (verification_from command h vs).latest ≡ some v
    → ((h.latest ≡ some v) × NoResult command vs)
      ⊎ ((before : List Verification) × (after : List Verification) × (vs ≡ before ++ (v ∷ after))
          × (v.command ≡ command)
          × NoResult command after)
unfolding verification_from record_result
verification_from-latest command h [] v e = inl (e, tt)
verification_from-latest command h (w ∷ vs) v e =
    elim (verification_from-latest command (record_result command h w) vs v e) [
      | inr (before, after, split, is_command, none_after) ↦
          inr (w ∷ before, after, ap (λ l. w ∷ l) split, is_command, none_after)
      | inl (found, none_later) ↦ elim (Bool-cases (w.command == command)) [
        | inl same ↦
            let it : w ≡ v = ground arith in
            inr (
              [],
              vs,
              ap (λ x. x ∷ vs) it,
              ap (λ x. x.command) (sym it) ∙ ==→≡ w.command command same,
              none_later,
            )
        | inr other ↦ inl (ground arith, (other, none_later))
      ]
    ]

-- The footprint of a delivery that merges: complete, of this very diff, and small enough for the
-- saved and for the live policy.
pub record Small (to_lower : ℕ → ℕ) (t : Task) (live : Config) (commit : Text) : Type 0 where
  pub footprint : MaintenanceFootprint
  pub lines : ℕ
  pub files : ℕ
  pub saved : t.maintenance_footprint ≡ some footprint
  pub changed_lines : footprint.changed_lines ≡ some lines
  pub changed_files : footprint.changed_files ≡ some files
  pub complete : footprint.complete ≡ true
  pub same_base : footprint.comparison_base ≡ t.comparison_base
  pub same_commit : footprint.revision ≡ commit
  pub all_paths : length footprint.paths ≡ files
  pub some_path : 0 < files
  pub lines_saved : lines ≤ t.config.auto_merge_max_lines
  pub lines_live : lines ≤ live.auto_merge_max_lines
  pub files_saved : files ≤ t.config.auto_merge_max_files
  pub files_live : files ≤ live.auto_merge_max_files
  pub no_manual :
      (name : Text)
      → contains footprint.paths name ≡ true
      → manual_merge_path to_lower name live.auto_merge_excluded_paths ≡ false

pub same_delivery_inversion :
    (t : Task) (live : Config)
    → same_delivery t live ≡ true
    → (live.delivery_mode ≡ maintenance)
      × (t.config.delivery_mode ≡ maintenance)
      × (t.lifecycle.archived_at ≡ none)
      × (contains (effective_categories live) t.proposal.category ≡ true)
unfolding same_delivery
same_delivery_inversion t live h =
    (==→≡ _ _ (ground arith), ==→≡ _ _ (ground arith), ground arith, ground arith)
