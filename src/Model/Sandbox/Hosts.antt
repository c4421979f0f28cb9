-- ===== src/Model/Sandbox/Hosts.antt =====
-- How many hosts are named, and the total of their counts (internal/model/sandbox.go).
use octomus_agent.Base.{
  ℕ, suc, ◌+◌, ◌-◌, ◌≤◌, ◌<◌, Bool, true, false, ◌||◌, [], ◌∷◌, if◌then◌else◌, ◌==◌, text_eq,
  nat_eq, leb, u64, length, Text, ◌≡◌, refl, sym, subst, inl, inr, arith, Bool-cases, ==-refl,
}
use octomus_agent.Model.Sandbox.{
  Counts, sandbox_host_limit, other, known, before, raise, insert, add, counted_as, add_from,
  add_hosts,
}

-- The hosts that are named: every key but the one that the rest is counted under.
unfoldable pub named_hosts : Counts → ℕ
named_hosts [] = 0
named_hosts ((key, n) ∷ counts) =
    let rest = named_hosts counts in if key == other then rest else suc rest

abbrev pub total : Counts → ℕ
total [] = 0
total ((key, n) ∷ counts) = n + total counts

pub total-raise :
    (counts : Counts) (host : Text) (n : ℕ)
    → known counts host ≡ true
    → u64 (total (raise counts host n)) ≡ u64 (total counts + n)
unfolding raise known
total-raise [] host n k = absurd (cc)
total-raise ((key, m) ∷ counts) host n k = elim (Bool-cases (key == host)) [
  | inl e ↦ ground arith
  | inr e ↦ let rest = total-raise counts host n (ground arith) in ground arith
]

pub total-insert :
    (counts : Counts) (host : Text) (n : ℕ) → total (insert counts host n) ≡ total counts + n
unfolding insert
total-insert [] host n = omega arith
total-insert ((key, m) ∷ counts) host n = let rest = total-insert counts host n in ground arith

pub total-add :
    (counts : Counts) (host : Text) (n : ℕ)
    → u64 (total (add counts host n)) ≡ u64 (total counts + n)
unfolding add
total-add counts host n = elim (Bool-cases (known counts host)) [
  | inl k ↦ let sum = total-raise counts host n k in ground arith
  | inr k ↦ let sum = total-insert counts host (u64 n) in ground arith
]

pub named_hosts-raise :
    (counts : Counts) (host : Text) (n : ℕ) → named_hosts (raise counts host n) ≡ named_hosts counts
unfolding raise named_hosts
named_hosts-raise [] host n = refl
named_hosts-raise ((key, m) ∷ counts) host n =
    let rest = named_hosts-raise counts host n in ground arith

pub named_hosts-insert :
    (counts : Counts) (host : Text) (n : ℕ)
    → named_hosts (insert counts host n)
      ≡ (if host == other then named_hosts counts else suc (named_hosts counts))
unfolding insert named_hosts
named_hosts-insert [] host n = refl
named_hosts-insert ((key, m) ∷ counts) host n =
    let rest = named_hosts-insert counts host n in
    elim (Bool-cases (before host key)) [ inl e ↦ ground arith | inr e ↦ ground arith ]

-- Counting under a known key, or under the one for the rest, names no new host.
pub named_hosts-add :
    (counts : Counts) (host : Text) (n : ℕ)
    → named_hosts (add counts host n) ≡ (
        if known counts host || host == other then named_hosts counts else suc (named_hosts counts))
unfolding add
named_hosts-add counts host n =
    let raised = named_hosts-raise counts host n in
    let inserted = named_hosts-insert counts host (u64 n) in
    elim (Bool-cases (known counts host)) [ inl e ↦ ground arith | inr e ↦ ground arith ]

-- The loop: the running number of named hosts is never too small, and the limit is kept.
pub named_hosts-add_kept :
    (counts : Counts) (host : Text) (n : ℕ)
    → (known counts host || host == other) ≡ true
    → named_hosts (add counts host n) ≡ named_hosts counts
named_hosts-add_kept counts host n e = let all = named_hosts-add counts host n in ground arith

pub named_hosts-add_new :
    (counts : Counts) (host : Text) (n : ℕ)
    → (known counts host || host == other) ≡ false
    → named_hosts (add counts host n) ≡ suc (named_hosts counts)
named_hosts-add_new counts host n e = let all = named_hosts-add counts host n in ground arith

pub or_same : (b : Bool) (x : Text) → (b || x == x) ≡ true
or_same b x = let same = ==-refl x in ground arith

pub named_hosts-add-other :
    (counts : Counts) (n : ℕ) → named_hosts (add counts other n) ≡ named_hosts counts
named_hosts-add-other counts n =
    named_hosts-add_kept counts other n (or_same (known counts other) other)

pub full_key :
    (into : Counts) (host : Text) (named : ℕ)
    → (known into host || host == other) ≡ false
    → leb sandbox_host_limit named ≡ true
    → counted_as into host named ≡ (other, named)
unfolding counted_as
full_key into host named e g = ground arith

pub free_key :
    (into : Counts) (host : Text) (named : ℕ)
    → (known into host || host == other) ≡ false
    → leb sandbox_host_limit named ≡ false
    → counted_as into host named ≡ (host, named + 1)
unfolding counted_as
free_key into host named e g = ground arith

pub round_bound :
    (named : ℕ) (into : Counts) (host : Text) (n : ℕ)
    → named_hosts into ≤ named
    → named_hosts into ≤ sandbox_host_limit
    → (named_hosts (add into (counted_as into host named).0 n) ≤ (counted_as into host named).1)
      × (named_hosts (add into (counted_as into host named).0 n) ≤ sandbox_host_limit)
unfolding counted_as
round_bound named into host n fits few = elim (Bool-cases (known into host || host == other)) [
  | inl e ↦ let kept = named_hosts-add_kept into host n e in (ground arith, ground arith)
  | inr e ↦ elim (Bool-cases (leb sandbox_host_limit named)) [
    | inl g ↦
        let kept = named_hosts-add-other into n in
        let key = full_key into host named e g in
        (
          subst (λ k. named_hosts (add into k.0 n) ≤ k.1) (sym key) (omega arith),
          subst (λ k. named_hosts (add into k.0 n) ≤ sandbox_host_limit) (sym key) (omega arith),
        )
    | inr g ↦
        let more = named_hosts-add_new into host n e in
        let key = free_key into host named e g in
        (
          subst (λ k. named_hosts (add into k.0 n) ≤ k.1) (sym key) (omega arith),
          subst (λ k. named_hosts (add into k.0 n) ≤ sandbox_host_limit) (sym key) (ground arith),
        )
  ]
]

pub add_from_bound :
    (named : ℕ) (into from : Counts)
    → named_hosts into ≤ named
    → named_hosts into ≤ sandbox_host_limit
    → named_hosts (add_from named into from) ≤ sandbox_host_limit
unfolding add_from
add_from_bound named into [] fits few = few
add_from_bound named into ((host, n) ∷ from) fits few =
    let key = counted_as into host named in
    let (fits', few') = round_bound named into host n fits few in
    add_from_bound key.1 (add into key.0 n) from fits' few'

pub total-add_from :
    (named : ℕ) (into from : Counts)
    → u64 (total (add_from named into from)) ≡ u64 (total into + total from)
unfolding add_from
total-add_from named into [] = ground arith
total-add_from named into ((host, n) ∷ from) =
    let key = counted_as into host named in
    let one = total-add into key.0 n in
    let rest = total-add_from key.1 (add into key.0 n) from in omega arith

pub named_hosts-length : (counts : Counts) → named_hosts counts ≤ length counts
unfolding named_hosts
named_hosts-length [] = omega arith
named_hosts-length ((key, n) ∷ counts) = let rest = named_hosts-length counts in ground arith

pub known-length :
    (counts : Counts) → known counts other ≡ true → named_hosts counts < length counts
unfolding named_hosts known
known-length [] k = absurd (cc)
known-length ((key, n) ∷ counts) k =
    let all = named_hosts-length counts in
    elim (Bool-cases (key == other)) [
      | inl e ↦ ground arith
      | inr e ↦ let rest = known-length counts (ground arith) in ground arith
    ]

pub length-named_hosts :
    (counts : Counts)
    → named_hosts counts ≤ (if known counts other then length counts - 1 else length counts)
length-named_hosts counts = elim (Bool-cases (known counts other)) [
  | inl k ↦ let less = known-length counts k in ground arith
  | inr k ↦ let all = named_hosts-length counts in ground arith
]

pub add_hosts_bound :
    (into from : Counts)
    → named_hosts into ≤ sandbox_host_limit
    → named_hosts (add_hosts into from) ≤ sandbox_host_limit
unfolding add_hosts
add_hosts_bound into from few =
    add_from_bound (if known into other then length into - 1 else length into) into from
      (length-named_hosts into) few

pub total-add_hosts :
    (into from : Counts) → u64 (total (add_hosts into from)) ≡ u64 (total into + total from)
unfolding add_hosts
total-add_hosts into from =
    total-add_from (if known into other then length into - 1 else length into) into from
