-- ===== src/Egress/Policy/Examples.antt =====
-- The allowlists of a small deployment (internal/egress/policy.go). Names are in lower case already,
-- and none is an address.
use octomus_agent.Base.{
  Bool, true, false, [], ◌∷◌, some, Text, codes, Text-discrete, byte_length, ◌≡◌, refl, arith,
}
use octomus_agent.Sandbox.Wire.{valid_label}
use octomus_agent.Sandbox.Wire.Hosts.{normalize_host, host_name}
use octomus_agent.Egress.Policy.{
  Rule, Policy, rule_text, allows, kind_runner, kind_verify, on_https, probe_target, parsed,
  bad_rule, invalid_port, parse_rule, policy_from_env,
}
use octomus_agent.Egress.Policy.Probe.{policy_from_env-DeniedTarget}
use octomus_agent.Egress.Policy.RoundTrip.{parse_rule-rule_text}

abbrev lower : Text → Text
lower s = s

abbrev no_address : Text → Bool
no_address s = false

abbrev registry : Rule
registry = record { host = codes "npmjs.org"; wildcard = true; port = 8443 }

abbrev policy : Policy
policy = record {
  model = record { host = codes "example.com"; wildcard = false; port = 443 } ∷ [];
  build = registry ∷ [];
}

read_policy :
    policy_from_env lower no_address (codes " example.com,") (codes "*.npmjs.org:8443")
    ≡ parsed policy
unfolding policy_from_env Text-discrete normalize_host valid_label byte_length
read_policy = refl

policy_from_env-DeniedTarget_example :
    (host : Text) × (probe_target policy ≡ some (on_https host))
    × (allows policy kind_runner host 443 ≡ false)
policy_from_env-DeniedTarget_example =
    policy_from_env-DeniedTarget lower no_address (codes " example.com,") (codes "*.npmjs.org:8443")
      policy read_policy

-- The familiar target is allowed here, so the first candidate is tried.
first_candidate : probe_target policy ≡ some (codes "octomus-probe-0.invalid:443")
unfolding probe_target Text-discrete
first_candidate = refl

subdomain_allowed : allows policy kind_verify (codes "registry.npmjs.org") 8443 ≡ true
unfolding allows Text-discrete
subdomain_allowed = refl

port_refused :
    parse_rule lower no_address (codes "npmjs.org:0")
    ≡ bad_rule (invalid_port (codes "npmjs.org:0"))
unfolding parse_rule Text-discrete
port_refused = refl

known : normalize_host lower no_address registry.host ≡ host_name registry.host
unfolding normalize_host Text-discrete valid_label byte_length
known = refl

parse_rule-rule_text_example : parse_rule lower no_address (rule_text registry) ≡ parsed registry
parse_rule-rule_text_example =
    parse_rule-rule_text lower no_address registry known (omega arith) (omega arith)
