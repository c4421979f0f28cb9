-- ===== src/Model/Samples.antt =====
-- The concrete records that the tests of every module share: one task from its plan to delivery.
use octomus_agent.Base.{codes, true, false, none, some, [], ◌∷◌}
use octomus_agent.Config.Types.{Config, Route, codex, standard}
use octomus_agent.Model.Enums.{queued, executing, reviewing, publishing, published, cancelled}
use octomus_agent.Model.Types.{Proposal, ReviewRound}
use octomus_agent.Model.Task.{Task}

abbrev pub route : Route
route = record {
  backend = codex;
  model = codes "m";
  effort = codes "low";
  provider = none;
  variant = none;
}

abbrev pub config : Config
config = record {
  repository = codes "/srv/repo";
  github_repo = codes "owner/name";
  default_branch = codes "main";
  branch_prefix = codes "octomus/";
  codex_binary = codes "codex";
  opencode_binary = codes "opencode";
  roles = [];
  tiers = [];
  repair_route = route;
  categories = codes "tests" ∷ [];
  planning_guidance = [];
  delivery_mode = standard;
  auto_merge_max_lines = 500;
  auto_merge_max_files = 10;
  auto_merge_excluded_paths = [];
  verification_commands = codes "make test" ∷ [];
  discovery_agents = 9;
  execution_concurrency = 2;
  cycle_interval_seconds = 1800;
  maintenance_every_cycles = 3;
  large_pr_lines = 1000;
  long_lived_pr_days = 7;
  max_tasks_per_cycle = 5;
  max_repair_rounds = 4;
  max_no_progress_rounds = 2;
  max_retries = 2;
  session_timeout_seconds = 1800;
  task_timeout_seconds = 14400;
  command_timeout_seconds = 600;
  max_sessions_per_day = 150;
  max_open_prs = 5;
  max_workspace_bytes = 20000000000;
  runner_storage_paths = [];
  retain_completed_days = 14;
  retain_events = 10000;
}

abbrev pub proposal : Proposal
proposal = record {
  id = codes "p1";
  title = codes "t";
  problem = codes "p";
  evidence = [];
  benefit = codes "b";
  category = codes "tests";
  target = codes "main";
  tier = codes "S";
  scope = codes "s";
  dependencies = [];
  prompt = codes "do";
  decision = codes "accepted";
  reason = codes "r";
  problem_key = [];
  relevant_paths = [];
  reconsiders = [];
}

abbrev pub planned : Task
planned = record {
  id = codes "task-1";
  cycle_id = codes "cycle-1";
  proposal = proposal;
  status = queued;
  route = route;
  config = config;
  source_revision = codes "base";
  comparison_base = codes "base";
  default_revision = codes "base";
  branch = codes "octomus/task-1";
  workspace = [];
  execution_session = none;
  repair_session = none;
  sessions = [];
  reviews = [];
  verification = [];
  output_commit = none;
  pr_number = none;
  pr_url = none;
  attempts = 0;
  error = none;
  created_at = codes "t0";
  updated_at = codes "t0";
  attempt_policy = none;
  review_baseline = 0;
  repair_rounds = none;
  repair_progress = none;
  blocked_reason = none;
  run_id = none;
  superseded_by = [];
  supersedes = [];
  rediscovery_requested = false;
  rediscovery_result = none;
  lifecycle = record { archived_at = none; discarded_at = none };
  maintenance_footprint = none;
  auto_merge_snapshot = none;
}

abbrev pub round : ReviewRound
round = record {
  session_id = codes "s1";
  revision = codes "c1";
  comparison_base = codes "base";
  result = record { completed = true; summary = codes "fine"; findings = [] };
  created_at = codes "t2";
  maintenance = none;
  trusted_diff_complete = true;
}

abbrev pub admitted : Task
admitted = record planned { status = executing; updated_at = codes "t1" }

abbrev pub reviewed : Task
reviewed = record admitted { status = reviewing; updated_at = codes "t2"; reviews = round ∷ [] }

abbrev pub authorized_task : Task
authorized_task = record reviewed { status = publishing; output_commit = some (codes "c1") }

abbrev pub delivered : Task
delivered = record authorized_task { status = published; pr_number = some 7 }

-- The admitted task as an operator's cancellation saves it.
abbrev pub cancelled_early : Task
cancelled_early = record admitted {
  status = cancelled;
  updated_at = codes "t3";
  error = some (codes "Cancelled by the operator");
}

abbrev pub archived : Task
archived = record delivered {
  lifecycle = record { archived_at = some (codes "t9"); discarded_at = none };
}

-- A delivery whose workspace retention discarded before anybody archived it.
abbrev pub expired : Task
expired = record delivered {
  lifecycle = record { archived_at = none; discarded_at = some (codes "t9") };
}
