-- ===== src/Egress/Policy/Probe.antt =====
-- The target of the containment probe under a policy that is read from the environment
-- (internal/egress/policy.go).
use octomus_agent.Base.{
  ℕ, zero, suc, ◌+◌, ◌≤◌, ◌<◌, Bool, true, false, List, [], ◌∷◌, ◌++◌, Option, none, some, length,
  Text, text_eq, nat_eq, ◌==◌, ◌≡◌, refl, sym, subst, ◌∙◌, inl, inr, arith, Bool-cases,
  Option-cases, ==→≡, ==-refl,
}
use octomus_agent.Sandbox.Wire.Hosts.{
  Host, host_name, no_host, normalize_host, check_host, trim_dot,
}
use octomus_agent.Egress.Policy.{
  Rule, Policy, rules_of, any_matches, allows, kind_runner, familiar, candidate, on_https,
  probe_from, probe_target, Parsed, parsed, bad_rule, named_rule, and_rule, port_of, ported_rule,
  parse_rule, parse_entries, parse_rules, fields_from, both_lists, policy_from_env, cut_wildcard,
  cut_colon,
}
use octomus_agent.Egress.Policy.Names.{dots, length-split}
use octomus_agent.Egress.Policy.Crowded.{
  AllDotted, hosts_of, length-hosts_of, any_matches-candidate, crowded,
}

-- The loop stops at the first candidate that is denied.
probe_from-none :
    (p : Policy) (rounds i : ℕ)
    → probe_from p rounds i ≡ none
    → (j : ℕ) → i ≤ j
    → j < i + rounds
    → allows p kind_runner (candidate j) 443 ≡ true
unfolding probe_from
probe_from-none p zero i h j low high = absurd (omega arith)
probe_from-none p (suc rounds) i h j low high =
    elim (Bool-cases (allows p kind_runner (candidate i) 443)) [
      | inl e ↦ elim (Bool-cases (i == j)) [
        | inl same ↦ subst (λ x. allows p kind_runner (candidate x) 443 ≡ true) (==→≡ i j same) e
        | inr other ↦ probe_from-none p rounds (suc i) (ground arith) j (ground arith) (omega arith)
      ]
      | inr e ↦ absurd (ground arith)
    ]

-- A host that the runners of the policy are denied, tried as the target.
abbrev pub DeniedTarget : Policy → Option Text → Type 0
DeniedTarget p found =
    (host : Text) × (found ≡ some (on_https host)) × (allows p kind_runner host 443 ≡ false)

probe_from-some :
    (p : Policy) (rounds i : ℕ) (t : Text)
    → probe_from p rounds i ≡ some t
    → DeniedTarget p (probe_from p rounds i)
unfolding probe_from
probe_from-some p zero i t h = absurd (cc)
probe_from-some p (suc rounds) i t h = elim (Bool-cases (allows p kind_runner (candidate i) 443)) [
  | inl e ↦
      let (host, found, denied) = probe_from-some p rounds (suc i) t (ground arith) in
      (host, ground arith, denied)
  | inr e ↦ (candidate i, ground arith, e)
]

AllDotted-append :
    (rules more : List Rule) → AllDotted rules → AllDotted more → AllDotted (rules ++ more)
AllDotted-append [] more dotted also = also
AllDotted-append (r ∷ rules) more (one, dotted) also =
    (one, AllDotted-append rules more dotted also)

length-append_hosts :
    (rules more : List Rule) → length (hosts_of (rules ++ more)) ≡ length rules + length more
length-append_hosts [] more = length-hosts_of more ∙ omega arith
length-append_hosts (r ∷ rules) more = let rest = length-append_hosts rules more in ground arith

-- A name that NormalizeHost accepts has two labels.
check_host-dots :
    (lower : Text → Text) (is_address : Text → Bool) (s name : Text)
    → check_host lower is_address s ≡ host_name name
    → 0 < dots name
unfolding check_host
check_host-dots lower is_address s name h =
    let labels = length-split s in
    let same : s ≡ name = ground arith in subst (λ x. 0 < dots x) same (ground arith)

and_rule_inversion :
    (x : Parsed Rule) (y : Parsed (List Rule)) (rules : List Rule)
    → and_rule x y ≡ parsed rules
    → (r : Rule) × (rest : List Rule) × (x ≡ parsed r) × (y ≡ parsed rest) × (rules ≡ r ∷ rest)
and_rule_inversion (bad_rule e) y rules h = absurd (ground arith)
and_rule_inversion (parsed r) (bad_rule e) rules h = absurd (ground arith)
and_rule_inversion (parsed r) (parsed rest) rules h = (r, rest, refl, refl, ground arith)

both_lists_inversion :
    (x y : Parsed (List Rule)) (p : Policy)
    → both_lists x y ≡ parsed p
    → (x ≡ parsed p.model) × (y ≡ parsed p.build)
both_lists_inversion (bad_rule e) y p h = absurd (ground arith)
both_lists_inversion (parsed rules) (bad_rule e) p h = absurd (ground arith)
both_lists_inversion (parsed rules) (parsed more) p h = (ground arith, ground arith)

module _ (lower : Text → Text) (is_address : Text → Bool) where
  named_rule-dots :
      (entry : Text) (wildcard : Bool) (port : ℕ) (s : Text) (found : Host) (r : Rule)
      → check_host lower is_address s ≡ found
      → named_rule entry wildcard port found ≡ parsed r
      → 0 < dots r.host
  named_rule-dots entry wildcard port s (no_host e) r eq h = absurd (ground arith)
  named_rule-dots entry wildcard port s (host_name name) r eq h =
      let dotted = check_host-dots lower is_address s name eq in
      subst (λ x. 0 < dots x) (ground arith) dotted

  ported_rule-dots :
      (entry host : Text) (port : Option ℕ) (r : Rule)
      → ported_rule lower is_address entry host port ≡ parsed r
      → 0 < dots r.host
  unfolding normalize_host
  ported_rule-dots entry host none r h = absurd (ground arith)
  ported_rule-dots entry host (some port) r h =
      let cut = cut_wildcard host in
      named_rule-dots entry cut.0 port (trim_dot (lower cut.1)) _ r refl h

  parse_rule-dots :
      (entry : Text) (r : Rule) → parse_rule lower is_address entry ≡ parsed r → 0 < dots r.host
  unfolding parse_rule
  parse_rule-dots entry r h =
      let cut = cut_colon entry in ported_rule-dots entry cut.0 (port_of cut.1) r h

  parse_entries-AllDotted :
      (entries : List Text) (rules : List Rule)
      → parse_entries lower is_address entries ≡ parsed rules
      → AllDotted rules
  unfolding parse_entries
  parse_entries-AllDotted [] [] h = tt
  parse_entries-AllDotted [] (r ∷ rules) h = absurd (ground arith)
  parse_entries-AllDotted (entry ∷ entries) rules h =
      let (r, rest, one, others, both) =
        and_rule_inversion (parse_rule lower is_address entry)
          (parse_entries lower is_address entries) rules h in
      subst AllDotted (sym both)
        (parse_rule-dots entry r one, parse_entries-AllDotted entries rest others)

runner_rules :
    (p : Policy) (i : ℕ)
    → allows p kind_runner (candidate i) 443 ≡ true
    → any_matches (p.model ++ p.build) (candidate i) 443 ≡ true
unfolding allows rules_of
runner_rules p i h = let same = ==-refl kind_runner in ground arith

-- The runners' rules of a policy with dotted hosts do not cover every candidate.
AllDotted-probe_target :
    (p : Policy) → AllDotted p.model → AllDotted p.build → DeniedTarget p (probe_target p)
unfolding probe_target
AllDotted-probe_target p model build = elim (Bool-cases (allows p kind_runner familiar 443)) [
  | inr e ↦ (familiar, ground arith, e)
  | inl e ↦ elim (Option-cases (probe_from p (suc (length p.model + length p.build)) 0)) [
    | inr (t, found) ↦
        let (host, same, denied) =
          probe_from-some p (suc (length p.model + length p.build)) 0 t found in
        (host, ground arith, denied)
    | inl exhausted ↦
        let many =
          crowded (suc (length p.model + length p.build)) 0 (hosts_of (p.model ++ p.build))
            (λ i low high.
              any_matches-candidate (p.model ++ p.build) i 443
                (AllDotted-append p.model p.build model build)
                (runner_rules p i (
                  probe_from-none p (suc (length p.model + length p.build)) 0 exhausted i low
                    high))) in
        let count = length-append_hosts p.model p.build in absurd (omega arith)
  ]
]

-- Every policy that is read from the environment's lists has a probe target on port 443: a host that
-- it denies to the runners, so the error of a policy without one never arises.
pub policy_from_env-DeniedTarget :
    (lower : Text → Text) (is_address : Text → Bool) (model build : Text) (p : Policy)
    → policy_from_env lower is_address model build ≡ parsed p
    → (host : Text) × (probe_target p ≡ some (on_https host))
      × (allows p kind_runner host 443 ≡ false)
unfolding policy_from_env parse_rules
policy_from_env-DeniedTarget lower is_address model build p h =
    let (models, builds) = both_lists_inversion _ _ p h in
    AllDotted-probe_target p
      (parse_entries-AllDotted lower is_address (fields_from [] model) p.model models)
      (parse_entries-AllDotted lower is_address (fields_from [] build) p.build builds)
