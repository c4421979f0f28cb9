-- ===== src/Model/Sandbox/Examples.antt =====
-- Sandbox evidence of two small runs (internal/model/sandbox.go).
use octomus_agent.Base.{
  codes, false, some, [], ◌∷◌, refl, ◌≡◌, ◌+◌, ◌≤◌, u64, Option, arith, Text-discrete,
}
use octomus_agent.Model.Types.{SandboxRecord}
use octomus_agent.Model.Sandbox.{Counts, merge_sandbox, sandbox_host_limit}
use octomus_agent.Model.Sandbox.Totals.{counts_of, allowed, merge_sandbox-total}
use octomus_agent.Model.Sandbox.Hosts.{named_hosts, total}

abbrev record_of : Counts → SandboxRecord
record_of counts = record {
  image_id = codes "img";
  runtime = codes "runc";
  runs = 1;
  oom = false;
  incomplete = false;
  egress = record { allowed = counts; denied = []; failed = [] };
}

abbrev first : Option SandboxRecord
first = some (record_of ((codes "a.org", 2) ∷ (codes "other", 5) ∷ []))

abbrev second : Option SandboxRecord
second = some (record_of ((codes "a.org", 3) ∷ (codes "b.org", 4) ∷ []))

merged :
    counts_of allowed (merge_sandbox first second)
    ≡ (codes "a.org", 5) ∷ (codes "b.org", 4) ∷ (codes "other", 5) ∷ []
unfolding merge_sandbox Text-discrete
merged = refl

few_named : named_hosts (counts_of allowed first) ≤ sandbox_host_limit
unfolding named_hosts Text-discrete
few_named = omega arith

merge_sandbox-total_example :
    (u64 (total (counts_of allowed (merge_sandbox first second)))
      ≡ u64 (total (counts_of allowed first) + total (counts_of allowed second)))
    × (named_hosts (counts_of allowed (merge_sandbox first second)) ≤ sandbox_host_limit)
merge_sandbox-total_example = merge_sandbox-total allowed first second few_named
