-- ===== src/Config/Types.antt =====
-- internal/config/types.go and enums.go: the saved policy and its routes. A map is an association
-- list in the order of its keys, as its encoding writes it; uint64 fields are numbers.
use octomus_agent.Base.{
  ℕ, Text, Text-discrete, ℕ_discrete, Option, List, DecEq, codes, [], ◌∷◌, map,
}

pub data Backend : Type 0 where
  codex opencode : Backend

pub data DeliveryMode : Type 0 where
  standard maintenance : DeliveryMode

pub record Route : Type 0 where
  pub backend : Backend
  pub model : Text
  pub effort : Text
  pub provider : Option Text
  pub variant : Option Text

pub record Config : Type 0 where
  pub repository : Text
  pub github_repo : Text
  pub default_branch : Text
  pub branch_prefix : Text
  pub codex_binary : Text
  pub opencode_binary : Text
  pub roles : List (Text × Route)
  pub tiers : List (Text × Route)
  pub repair_route : Route
  pub categories : List Text
  pub planning_guidance : Text
  pub delivery_mode : DeliveryMode
  pub auto_merge_max_lines : ℕ
  pub auto_merge_max_files : ℕ
  pub auto_merge_excluded_paths : List Text
  pub verification_commands : List Text
  pub discovery_agents : ℕ
  pub execution_concurrency : ℕ
  pub cycle_interval_seconds : ℕ
  pub maintenance_every_cycles : ℕ
  pub large_pr_lines : ℕ
  pub long_lived_pr_days : ℕ
  pub max_tasks_per_cycle : ℕ
  pub max_repair_rounds : ℕ
  pub max_no_progress_rounds : ℕ
  pub max_retries : ℕ
  pub session_timeout_seconds : ℕ
  pub task_timeout_seconds : ℕ
  pub command_timeout_seconds : ℕ
  pub max_sessions_per_day : ℕ
  pub max_open_prs : ℕ
  pub max_workspace_bytes : ℕ
  pub runner_storage_paths : List (Text × Text)
  pub retain_completed_days : ℕ
  pub retain_events : ℕ

unfoldable pub Backend-discrete : Discrete Backend
Backend-discrete = hlevel

unfoldable pub DeliveryMode-discrete : Discrete DeliveryMode
DeliveryMode-discrete = hlevel

unfoldable pub Route-discrete : Discrete Route
unfolding Text-discrete Backend-discrete
Route-discrete = hlevel (ℕ_discrete, Text-discrete, Backend-discrete)

unfoldable pub Config-discrete : Discrete Config
unfolding Text-discrete Route-discrete DeliveryMode-discrete ℕ_discrete
Config-discrete = hlevel (ℕ_discrete, Text-discrete, Route-discrete, DeliveryMode-discrete)

instance abbrev pub delivery_mode_eq : DecEq DeliveryMode
delivery_mode_eq = record { dec = DeliveryMode-discrete }

instance abbrev pub route_eq : DecEq Route
route_eq = record { dec = Route-discrete }

instance abbrev pub config_eq : DecEq Config
config_eq = record { dec = Config-discrete }

-- The name tables of enums.go.
abbrev pub backend_names : List Text
backend_names = map codes ("codex" ∷ "opencode" ∷ [])

abbrev pub delivery_mode_names : List Text
delivery_mode_names = map codes ("standard" ∷ "maintenance" ∷ [])
