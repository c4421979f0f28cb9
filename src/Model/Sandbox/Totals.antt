-- ===== src/Model/Sandbox/Totals.antt =====
-- The totals and the named hosts of merged sandbox evidence (internal/model/sandbox.go).
use octomus_agent.Base.{
  ◌+◌, ◌≤◌, [], Option, none, some, text_eq, nat_eq, u64, ◌≡◌, refl, sym, ap, subst, ◌∙◌, arith,
}
use octomus_agent.Model.Types.{SandboxRecord, SandboxEgress}
use octomus_agent.Model.Sandbox.{
  Counts, sandbox_host_limit, add_hosts, add_egress, merge_records, merge_sandbox,
}
use octomus_agent.Model.Sandbox.Hosts.{named_hosts, total, add_hosts_bound, total-add_hosts}

pub data Kind : Type 0 where
  allowed denied failed : Kind

abbrev egress_counts : Kind → SandboxEgress → Counts
egress_counts allowed e = e.allowed
egress_counts denied e = e.denied
egress_counts failed e = e.failed

-- The counts of one kind; no evidence counts nothing.
abbrev pub counts_of : Kind → Option SandboxRecord → Counts
counts_of kind none = []
counts_of kind (some r) = egress_counts kind r.egress

counts-merge :
    (kind : Kind) (into run : SandboxRecord)
    → counts_of kind (merge_sandbox (some into) (some run))
      ≡ add_hosts (counts_of kind (some into)) (counts_of kind (some run))
unfolding merge_sandbox merge_records add_egress
counts-merge allowed into run = refl
counts-merge denied into run = refl
counts-merge failed into run = refl

counts-first :
    (kind : Kind) (run : SandboxRecord)
    → counts_of kind (merge_sandbox none (some run)) ≡ add_hosts [] (counts_of kind (some run))
unfolding merge_sandbox add_egress
counts-first allowed run = refl
counts-first denied run = refl
counts-first failed run = refl

none_named : named_hosts [] ≤ sandbox_host_limit
unfolding named_hosts
none_named = omega arith

-- Merging the evidence of a run keeps every total up to the wrap of 64 bits, and never names more than
-- sixty-four hosts of a kind where no more were named before: the rest is counted as others.
pub merge_sandbox-total :
    (kind : Kind) (into run : Option SandboxRecord)
    → named_hosts (counts_of kind into) ≤ sandbox_host_limit
    → (u64 (total (counts_of kind (merge_sandbox into run)))
        ≡ u64 (total (counts_of kind into) + total (counts_of kind run)))
      × (named_hosts (counts_of kind (merge_sandbox into run)) ≤ sandbox_host_limit)
unfolding merge_sandbox
merge_sandbox-total kind into none few = (omega arith, few)
merge_sandbox-total kind none (some run) few = (
  ap (λ c. u64 (total c)) (counts-first kind run) ∙ total-add_hosts [] (counts_of kind (some run)),
  subst (λ c. named_hosts c ≤ sandbox_host_limit) (sym (counts-first kind run))
      (add_hosts_bound [] (counts_of kind (some run)) none_named),
)
merge_sandbox-total kind (some into) (some run) few = (
  ap (λ c. u64 (total c)) (counts-merge kind into run)
      ∙ total-add_hosts (counts_of kind (some into)) (counts_of kind (some run)),
  subst (λ c. named_hosts c ≤ sandbox_host_limit) (sym (counts-merge kind into run))
      (add_hosts_bound (counts_of kind (some into)) (counts_of kind (some run)) few),
)
