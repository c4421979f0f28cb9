-- ===== src/Model/Maintenance.antt =====
-- internal/model/maintenance.go: which maintenance deliveries may be merged without a person. The
-- lower case of a rune is a parameter, as in Config/Paths.
mod Evidence
mod Authorized
mod Examples
use octomus_agent.Base.{
  ℕ, Bool, true, false, not, ◌&&◌, ◌||◌, List, [], ◌∷◌, Option, none, some, if◌then◌else◌, ◌==◌,
  ◌!=◌, text_eq, nat_eq, ltb, min, length, contains, last?, is_some, Text,
}
use octomus_agent.Config.Types.{Config, maintenance, delivery_mode_eq}
use octomus_agent.Config.Identity.{effective_categories, same_remote_identity}
use octomus_agent.Config.Paths.{manual_merge_path}
use octomus_agent.Model.Types.{ReviewRound, MaintenanceFootprint, Verification}
use octomus_agent.Model.Task.{Task}
use octomus_agent.Model.Sessions.{execution_config}
use octomus_agent.Model.Reviews.{review_authorizes, verification_for}

-- The largest numbers of lines and of files that are merged.
unfoldable pub auto_merge_limits : Config → Config → ℕ × ℕ
auto_merge_limits saved live = (
  min saved.auto_merge_max_lines live.auto_merge_max_lines,
  min saved.auto_merge_max_files live.auto_merge_max_files,
)

-- The modes, the remote, the lifecycle and the category.
unfoldable pub same_delivery : Task → Config → Bool
same_delivery t live =
    live.delivery_mode == maintenance
    && t.config.delivery_mode == maintenance
    && same_remote_identity live t.config
    && live.branch_prefix == t.config.branch_prefix
    && not (is_some t.lifecycle.archived_at)
    && contains (effective_categories live) t.proposal.category

-- The trusted diff and the reviewer's word; a review without an assessment authorizes nothing.
unfoldable pub round_merges : Option ReviewRound → Bool
round_merges none = false
round_merges (some round) = elim round.maintenance [
  | none ↦ false
  | some m ↦ round.trusted_diff_complete && not m.manual_merge_required
]

unfoldable pub footprint_sized : Task → Text → MaintenanceFootprint → ℕ → ℕ → Bool
footprint_sized t commit f lines files =
    f.complete
    && f.comparison_base == t.comparison_base
    && f.revision == commit
    && files != 0
    && length f.paths == files
    && length f.manual_reasons == 0

abbrev pub within_limits : ℕ → ℕ → ℕ × ℕ → Bool
within_limits lines files (max_lines, max_files) =
    not (max_lines == 0)
    && not (max_files == 0)
    && not (ltb max_lines lines)
    && not (ltb max_files files)

abbrev pub result_holds : Text → Option Verification → Bool
result_holds commit none = false
result_holds commit (some v) = v.success && v.revision == commit

unfoldable pub commands_hold : Task → Text → List Text → Bool
commands_hold t commit [] = true
commands_hold t commit (c ∷ commands) =
    result_holds commit (verification_for t c).latest && commands_hold t commit commands

abbrev pub some_command : List Text → Bool
some_command [] = false
some_command (_ ∷ _) = true

module _ (to_lower : ℕ → ℕ) where
  -- No path of the footprint is one that a person must merge.
  unfoldable pub no_manual_path : List Text → List Text → Bool
  no_manual_path [] excluded = true
  no_manual_path (name ∷ names) excluded =
      not (manual_merge_path to_lower name excluded) && no_manual_path names excluded

  unfoldable pub footprint_merges : Task → Config → Text → Option MaintenanceFootprint → Bool
  unfolding footprint_sized no_manual_path auto_merge_limits
  footprint_merges t live commit none = false
  footprint_merges t live commit (some f) = elim f.changed_lines [
    | none ↦ false
    | some lines ↦ elim f.changed_files [
      | none ↦ false
      | some files ↦
          footprint_sized t commit f lines files
          && no_manual_path f.paths live.auto_merge_excluded_paths
          && within_limits lines files (auto_merge_limits t.config live)
    ]
  ]

  abbrev pub commit_merges : Task → Config → Option Text → Bool
  commit_merges t live none = false
  commit_merges t live (some commit) =
      review_authorizes t commit
      && round_merges (last? t.reviews)
      && footprint_merges t live commit t.maintenance_footprint
      && some_command (execution_config t).verification_commands
      && commands_hold t commit (execution_config t).verification_commands

  unfoldable pub maintenance_merge_authorized : Task → Config → Bool
  unfolding same_delivery round_merges footprint_merges commands_hold
  maintenance_merge_authorized t live = same_delivery t live && commit_merges t live t.output_commit
