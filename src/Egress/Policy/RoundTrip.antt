-- ===== src/Egress/Policy/RoundTrip.antt =====
-- The text of an egress rule and its reading (internal/egress/policy.go).
use octomus_agent.Base.{
  ℕ, suc, ◌+◌, ◌/◌, ◌%◌, ◌≤◌, ◌<◌, Bool, true, false, ◌&&◌, ◌||◌, [], ◌∷◌, ◌++◌, Option, none, some,
  if◌then◌else◌, Text, text_eq, nat_eq, ℕ_discrete, Text-discrete, ◌==◌, decimal, digits,
  all_digits-decimal, value_from-decimal, ◌≡◌, refl, sym, ap, subst, ◌∙◌, inl, inr, arith,
  Bool-cases, ==→≡,
}
use octomus_agent.Config.Identity.{split, split_from}
use octomus_agent.Sandbox.Wire.{valid_label, all_label, is_alphanumeric}
use octomus_agent.Sandbox.Wire.Hosts.{host_name, all_labels, normalize_host, check_host, trim_dot}
use octomus_agent.Egress.Policy.{
  Rule, rule_text, parsed, named_rule, port_of, parse_port, ported_rule, parse_rule, cut_wildcard,
  cut_colon,
}

-- The characters of a host name.
abbrev host_char : ℕ → Bool
host_char c = c == b'.' || is_alphanumeric c || c == b'-'

abbrev all_host : Text → Bool
all_host [] = true
all_host (c ∷ s) = host_char c && all_host s

all_label-snoc :
    (s : Text) (c : ℕ)
    → all_label (s ++ (c ∷ [])) ≡ true
    → (all_label s ≡ true) × (host_char c ≡ true)
all_label-snoc [] c h = (refl, ground arith)
all_label-snoc (x ∷ s) c h =
    let (rest, last) = all_label-snoc s c (ground arith) in (ground arith, last)

valid_label-all : (s : Text) → valid_label s ≡ true → all_label s ≡ true
unfolding valid_label
valid_label-all s h = ground arith

-- Labels that are valid are made of the characters of a host name.
all_labels-chars :
    (part s : Text)
    → all_labels (split_from b'.' part s) ≡ true
    → (all_label part ≡ true) × (all_host s ≡ true)
unfolding split_from
all_labels-chars part [] h = (valid_label-all part (ground arith), refl)
all_labels-chars part (c ∷ s) h = elim (Bool-cases (c == b'.')) [
  | inl e ↦
      let (none_yet, rest) = all_labels-chars [] s (ground arith) in
      (valid_label-all part (ground arith), ground arith)
  | inr e ↦
      let (first_part, rest) = all_labels-chars (part ++ (c ∷ [])) s (ground arith) in
      let (before_it, it) = all_label-snoc part c first_part in (before_it, ground arith)
]

check_host-chars :
    (lower : Text → Text) (is_address : Text → Bool) (s name : Text)
    → check_host lower is_address s ≡ host_name name
    → all_host name ≡ true
unfolding check_host split
check_host-chars lower is_address s name h =
    let same : s ≡ name = ground arith in
    let (nothing, all) = all_labels-chars [] s (ground arith) in
    subst (λ x. all_host x ≡ true) same all

-- No colon stands in a text before the port.
cut_colon-host : (s : Text) → all_host s ≡ true → cut_colon s ≡ (s, none)
unfolding cut_colon
cut_colon-host [] h = refl
cut_colon-host (c ∷ s) h = let rest = cut_colon-host s (ground arith) in ground arith

cut_colon-port :
    (s port : Text) → all_host s ≡ true → cut_colon (s ++ (b':' ∷ port)) ≡ (s, some port)
unfolding cut_colon ℕ_discrete
cut_colon-port [] port h = refl
cut_colon-port (c ∷ s) port h = let rest = cut_colon-port s port (ground arith) in ground arith

cut_wildcard-host : (s : Text) → all_host s ≡ true → cut_wildcard s ≡ (false, s)
unfolding cut_wildcard
cut_wildcard-host [] h = refl
cut_wildcard-host (c ∷ []) h = refl
cut_wildcard-host (c ∷ d ∷ s) h = ground arith

snoc-nonempty : (s : Text) (c : ℕ) → ((s ++ (c ∷ [])) == []) ≡ false
unfolding Text-discrete
snoc-nonempty [] c = refl
snoc-nonempty (x ∷ s) c = refl

digits-nonempty : (fuel n : ℕ) → (digits (suc fuel) n == []) ≡ false
unfolding digits
digits-nonempty fuel n =
    let one = snoc-nonempty [] (48 + n) in
    let more = snoc-nonempty (digits fuel (n / 10)) (48 + n % 10) in ground arith

decimal-nonempty : (n : ℕ) → (decimal n == []) ≡ false
unfolding decimal
decimal-nonempty n = digits-nonempty n n

parse_port-decimal : (n : ℕ) → 0 < n → n ≤ 65535 → parse_port (decimal n) ≡ some n
unfolding parse_port
parse_port-decimal n low high =
    let all = all_digits-decimal n in
    let back = value_from-decimal n in let some_digit = decimal-nonempty n in ground arith

named_again :
    (lower : Text → Text) (is_address : Text → Bool) (entry : Text) (r : Rule)
    → normalize_host lower is_address r.host ≡ host_name r.host
    → named_rule entry r.wildcard r.port (normalize_host lower is_address r.host) ≡ parsed r
named_again lower is_address entry r known =
    subst (λ x. named_rule entry r.wildcard r.port x ≡ parsed r) (sym known) refl

-- The name of a rule, with its wildcard.
abbrev written : Bool → Text → Text
written true host = b'*' ∷ b'.' ∷ host
written false host = host

cut_written :
    (wildcard : Bool) (host : Text)
    → all_host host ≡ true
    → cut_wildcard (written wildcard host) ≡ (wildcard, host)
unfolding cut_wildcard ℕ_discrete
cut_written true host h = refl
cut_written false host h = cut_wildcard-host host h

cut_colon-written :
    (wildcard : Bool) (host : Text)
    → all_host host ≡ true
    → cut_colon (written wildcard host) ≡ (written wildcard host, none)
unfolding cut_colon ℕ_discrete
cut_colon-written true host h = ap (λ c. (b'*' ∷ b'.' ∷ c.0, c.1)) (cut_colon-host host h)
cut_colon-written false host h = cut_colon-host host h

cut_colon-written_port :
    (wildcard : Bool) (host port : Text)
    → all_host host ≡ true
    → cut_colon (written wildcard host ++ (b':' ∷ port)) ≡ (written wildcard host, some port)
unfolding cut_colon ℕ_discrete
cut_colon-written_port true host port h =
    ap (λ c. (b'*' ∷ b'.' ∷ c.0, c.1)) (cut_colon-port host port h)
cut_colon-written_port false host port h = cut_colon-port host port h

rule_text-written :
    (r : Rule)
    → rule_text r ≡ (
        if r.port == 443
        then written r.wildcard r.host
        else written r.wildcard r.host ++ (b':' ∷ decimal r.port))
unfolding rule_text
rule_text-written r = elim (Bool-cases r.wildcard) [ inl e ↦ ground arith | inr e ↦ ground arith ]

module _ (lower : Text → Text) (is_address : Text → Bool) where
  ported_written :
      (entry : Text) (r : Rule)
      → all_host r.host ≡ true
      → normalize_host lower is_address r.host ≡ host_name r.host
      → ported_rule lower is_address entry (written r.wildcard r.host) (some r.port) ≡ parsed r
  ported_written entry r chars known =
      subst (λ c. named_rule entry c.0 r.port (normalize_host lower is_address c.1) ≡ parsed r)
        (sym (cut_written r.wildcard r.host chars)) (named_again lower is_address entry r known)

  -- An entry that is cut into the written name and a port denotes the rule.
  cut-parsed :
      (entry : Text) (port : Option Text) (r : Rule)
      → all_host r.host ≡ true
      → normalize_host lower is_address r.host ≡ host_name r.host
      → cut_colon entry ≡ (written r.wildcard r.host, port)
      → port_of port ≡ some r.port
      → parse_rule lower is_address entry ≡ parsed r
  unfolding parse_rule
  cut-parsed entry port r chars known cut_as port_as =
      subst (λ c. ported_rule lower is_address entry c.0 (port_of c.1) ≡ parsed r) (sym cut_as)
        (subst (λ o. ported_rule lower is_address entry (written r.wildcard r.host) o ≡ parsed r)
          (sym port_as) (ported_written entry r chars known))

  normalize_host-chars :
      (s name : Text) → normalize_host lower is_address s ≡ host_name name → all_host name ≡ true
  unfolding normalize_host
  normalize_host-chars s name h = check_host-chars lower is_address (trim_dot (lower s)) name h

-- The text of a rule with a normalized host and a port is read back as that rule.
pub parse_rule-rule_text :
    (lower : Text → Text) (is_address : Text → Bool) (r : Rule)
    → normalize_host lower is_address r.host ≡ host_name r.host
    → 0 < r.port
    → r.port ≤ 65535
    → parse_rule lower is_address (rule_text r) ≡ parsed r
parse_rule-rule_text lower is_address r known low high =
    let chars = normalize_host-chars lower is_address r.host r.host known in
    let text = rule_text-written r in
    elim (Bool-cases (r.port == 443)) [
      | inl e ↦
          let plain : rule_text r ≡ written r.wildcard r.host = ground arith in
          let same = ==→≡ r.port 443 e in
          cut-parsed lower is_address (rule_text r) none r chars known
            (ap cut_colon plain ∙ cut_colon-written r.wildcard r.host chars) (ap some (sym same))
      | inr e ↦
          let ported : rule_text r ≡ written r.wildcard r.host ++ (b':' ∷ decimal r.port) =
            ground arith in
          cut-parsed lower is_address (rule_text r) (some (decimal r.port)) r chars known
            (ap cut_colon ported ∙ cut_colon-written_port r.wildcard r.host (decimal r.port) chars)
            (parse_port-decimal r.port low high)
    ]
