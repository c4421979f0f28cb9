-- ===== src/Egress/Policy.antt =====
-- internal/egress/policy.go: the allowlists of the gateway. The parameters are those of NormalizeHost;
-- the environment's two lists are arguments.
use octomus_agent.Base.{
  ℕ, zero, suc, ◌+◌, Bool, true, false, not, ◌&&◌, ◌||◌, List, [], ◌∷◌, ◌++◌, Option, none, some,
  if◌then◌else◌, ltb, length, Text, codes, text_eq, nat_eq, ◌==◌, ◌!=◌, decimal, all_digits,
  value_from,
}
use octomus_agent.Config.Paths.{ends_with}
use octomus_agent.Sandbox.Wire.Hosts.{Host, host_name, no_host, HostError, normalize_host}
mod Names
mod Crowded
pub mod Probe
pub mod RoundTrip
mod Examples

pub record Rule : Type 0 where
  pub host : Text
  pub wildcard : Bool
  pub port : ℕ

-- Rule.String
unfoldable pub rule_text : Rule → Text
unfolding decimal
rule_text r =
    let name = if r.wildcard then b'*' ∷ b'.' ∷ r.host else r.host in
    if r.port == 443 then name else name ++ (b':' ∷ decimal r.port)

unfoldable pub matches : Rule → Text → ℕ → Bool
unfolding ends_with
matches r host port =
    if port != r.port
    then false
    else if r.wildcard
    then ends_with (b'.' ∷ r.host) host
    else host == r.host

pub record Policy : Type 0 where
  pub model : List Rule
  pub build : List Rule

abbrev pub kind_runner : Text
kind_runner = codes "runner"

abbrev pub kind_verify : Text
kind_verify = codes "verify"

-- The rules of a kind of lease.
unfoldable pub rules_of : Policy → Text → List Rule
rules_of p kind =
    if kind == kind_runner then p.model ++ p.build else if kind == kind_verify then p.build else []

unfoldable pub any_matches : List Rule → Text → ℕ → Bool
unfolding matches
any_matches [] host port = false
any_matches (r ∷ rules) host port = matches r host port || any_matches rules host port

unfoldable pub allows : Policy → Text → Text → ℕ → Bool
unfolding rules_of any_matches
allows p kind host port = any_matches (rules_of p kind) host port

abbrev pub familiar : Text
familiar = codes "example.com"

-- fmt.Sprintf("octomus-probe-%d.invalid", i)
unfoldable pub candidate : ℕ → Text
unfolding decimal
candidate i = codes "octomus-probe-" ++ (decimal i ++ codes ".invalid")

-- host + ":443"
abbrev pub on_https : Text → Text
on_https host = host ++ codes ":443"

-- The loop from candidate i, with the rounds that are left.
unfoldable pub probe_from : Policy → ℕ → ℕ → Option Text
unfolding allows candidate
probe_from p zero i = none
probe_from p (suc rounds) i =
    let rest = probe_from p rounds (suc i) in
    if not (allows p kind_runner (candidate i) 443) then some (on_https (candidate i)) else rest

-- `none` is the error of a policy that allows every candidate.
unfoldable pub probe_target : Policy → Option Text
unfolding probe_from
probe_target p =
    if not (allows p kind_runner familiar 443)
    then some (on_https familiar)
    else probe_from p (suc (length p.model + length p.build)) 0

abbrev pub is_separator : ℕ → Bool
is_separator c = c == b',' || c == b' ' || c == 10 || c == 9

abbrev pub and_field : Text → List Text → List Text
and_field [] fields = fields
and_field (c ∷ part) fields = (c ∷ part) ∷ fields

-- strings.FieldsFunc on the separators
unfoldable pub fields_from : Text → Text → List Text
fields_from part [] = and_field part []
fields_from part (c ∷ s) = elim (is_separator c) [
  | true ↦ and_field part (fields_from [] s)
  | false ↦ fields_from (part ++ (c ∷ [])) s
]

-- strings.Cut(entry, ":")
unfoldable pub cut_colon : Text → Text × Option Text
cut_colon [] = ([], none)
cut_colon (c ∷ s) =
    let rest = cut_colon s in if c == b':' then ([], some s) else (c ∷ rest.0, rest.1)

-- strconv.ParseUint(s, 10, 16), and the refusal of port 0
unfoldable pub parse_port : Text → Option ℕ
unfolding value_from
parse_port s =
    if s == [] || not (all_digits s)
    then none
    else if ltb 65535 (value_from 0 s) || value_from 0 s == 0
    then none
    else some (value_from 0 s)

abbrev pub port_of : Option Text → Option ℕ
port_of none = some 443
port_of (some s) = parse_port s

-- strings.CutPrefix(host, "*.")
unfoldable pub cut_wildcard : Text → Bool × Text
cut_wildcard (c ∷ d ∷ s) = if c == b'*' && d == b'.' then (true, s) else (false, c ∷ d ∷ s)
cut_wildcard s = (false, s)

pub data RuleError : Type 0 where
  invalid_port : Text → RuleError
  not_host_name : Text → HostError → RuleError

pub data Parsed {ℓ} (A : Type ℓ) : Type ℓ where
  parsed : A → Parsed A
  bad_rule : RuleError → Parsed A

abbrev pub named_rule : Text → Bool → ℕ → Host → Parsed Rule
named_rule entry wildcard port (host_name name) =
    parsed (record { host = name; wildcard = wildcard; port = port })
named_rule entry wildcard port (no_host e) = bad_rule (not_host_name entry e)

abbrev pub and_rule : Parsed Rule → Parsed (List Rule) → Parsed (List Rule)
and_rule (bad_rule e) rest = bad_rule e
and_rule (parsed r) (bad_rule e) = bad_rule e
and_rule (parsed r) (parsed rules) = parsed (r ∷ rules)

abbrev pub both_lists : Parsed (List Rule) → Parsed (List Rule) → Parsed Policy
both_lists (bad_rule e) build = bad_rule e
both_lists (parsed model) (bad_rule e) = bad_rule e
both_lists (parsed model) (parsed build) = parsed (record { model = model; build = build })

module _ (lower : Text → Text) (is_address : Text → Bool) where
  abbrev pub ported_rule : Text → Text → Option ℕ → Parsed Rule
  ported_rule entry host none = bad_rule (invalid_port entry)
  ported_rule entry host (some port) =
      let cut = cut_wildcard host in
      named_rule entry cut.0 port (normalize_host lower is_address cut.1)

  -- One entry of ParseRules.
  unfoldable pub parse_rule : Text → Parsed Rule
  unfolding cut_colon parse_port cut_wildcard
  parse_rule entry = let cut = cut_colon entry in ported_rule entry cut.0 (port_of cut.1)

  unfoldable pub parse_entries : List Text → Parsed (List Rule)
  unfolding parse_rule
  parse_entries [] = parsed []
  parse_entries (entry ∷ entries) = and_rule (parse_rule entry) (parse_entries entries)

  unfoldable pub parse_rules : Text → Parsed (List Rule)
  unfolding fields_from parse_entries
  parse_rules list = parse_entries (fields_from [] list)

  -- PolicyFromEnv on the texts of OCTOMUS_EGRESS_MODEL_HOSTS and OCTOMUS_EGRESS_BUILD_HOSTS.
  unfoldable pub policy_from_env : Text → Text → Parsed Policy
  unfolding parse_rules
  policy_from_env model build = both_lists (parse_rules model) (parse_rules build)
