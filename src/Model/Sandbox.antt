-- ===== src/Model/Sandbox.antt =====
-- internal/model/sandbox.go: the evidence of several sandbox runs put together. The counts of the
-- hosts are an association list in the order of its keys; uint64 sums wrap.
mod Hosts
mod Totals
mod Examples
use octomus_agent.Base.{
  ℕ, suc, ◌+◌, ◌-◌, Bool, true, false, not, ◌&&◌, ◌||◌, List, [], ◌∷◌, Option, none, some,
  if◌then◌else◌, ◌==◌, ◌!=◌, text_eq, nat_eq, ltb, leb, u64, length, Text, codes,
}
use octomus_agent.Model.Types.{SandboxRecord, SandboxEgress}

abbrev pub Counts : Type 0
Counts = List (Text × ℕ)

abbrev pub sandbox_host_limit : ℕ
sandbox_host_limit = 64

abbrev pub other : Text
other = codes "other"

unfoldable pub known : Counts → Text → Bool
known [] host = false
known ((key, n) ∷ counts) host = key == host || known counts host

-- The order of Go's strings, on code points.
unfoldable pub before : Text → Text → Bool
before a [] = false
before [] (y ∷ b) = true
before (x ∷ a) (y ∷ b) = ltb x y || (x == y && before a b)

unfoldable pub raise : Counts → Text → ℕ → Counts
raise [] host n = []
raise ((key, m) ∷ counts) host n =
    let rest = raise counts host n in
    if key == host then (key, u64 (m + n)) ∷ counts else (key, m) ∷ rest

unfoldable pub insert : Counts → Text → ℕ → Counts
unfolding before
insert [] host n = (host, n) ∷ []
insert ((key, m) ∷ counts) host n =
    let rest = insert counts host n in
    if before host key then (host, n) ∷ (key, m) ∷ counts else (key, m) ∷ rest

-- into[key] += n
unfoldable pub add : Counts → Text → ℕ → Counts
unfolding known raise insert
add counts host n = if known counts host then raise counts host n else insert counts host (u64 n)

-- The key that a host is counted under, and the number of named hosts after it.
unfoldable pub counted_as : Counts → Text → ℕ → Text × ℕ
unfolding known
counted_as into host named =
    if not (known into host) && host != other
    then (if leb sandbox_host_limit named then (other, named) else (host, named + 1))
    else (host, named)

-- The loop over the hosts, which `from` holds in order.
unfoldable pub add_from : ℕ → Counts → Counts → Counts
unfolding counted_as add
add_from named into [] = into
add_from named into ((host, n) ∷ from) =
    let key = counted_as into host named in add_from key.1 (add into key.0 n) from

unfoldable pub add_hosts : Counts → Counts → Counts
unfolding add_from known
add_hosts into from = add_from (if known into other then length into - 1 else length into) into from

abbrev pub no_egress : SandboxEgress
no_egress = record { allowed = []; denied = []; failed = [] }

unfoldable pub add_egress : SandboxEgress → SandboxEgress → SandboxEgress
unfolding add_hosts
add_egress into run = record {
  allowed = add_hosts into.allowed run.allowed;
  denied = add_hosts into.denied run.denied;
  failed = add_hosts into.failed run.failed;
}

abbrev pub mixed : Text
mixed = codes "mixed"

unfoldable pub merge_records : SandboxRecord → SandboxRecord → SandboxRecord
unfolding add_egress
merge_records into run =
    let spans =
      into.image_id == mixed || into.image_id != run.image_id || into.runtime != run.runtime in
    record {
      image_id = if spans then mixed else run.image_id;
      runtime = if spans then [] else run.runtime;
      runs = u64 (into.runs + run.runs);
      oom = into.oom || run.oom;
      incomplete = into.incomplete || run.incomplete;
      egress = add_egress into.egress run.egress;
    }

unfoldable pub merge_sandbox : Option SandboxRecord → Option SandboxRecord → Option SandboxRecord
unfolding merge_records
merge_sandbox into none = into
merge_sandbox none (some run) = some (record run { egress = add_egress no_egress run.egress })
merge_sandbox (some into) (some run) = some (merge_records into run)
