-- ===== src/Sandbox/Wire/Hosts.antt =====
-- internal/sandbox/wire/wire.go: NormalizeHost. The lower case of a text
-- (strings.ToLower) and the recognition of an IP address (netip.ParseAddr) are parameters.
use octomus_agent.Base.{
  Bool, true, ◌&&◌, ◌||◌, List, [], ◌∷◌, if◌then◌else◌, ltb, length, Text, text_eq, nat_eq, ◌==◌,
  reverse, byte_length,
}
use octomus_agent.Config.Identity.{split}
use octomus_agent.Sandbox.Wire.{valid_label}

pub data HostError : Type 0 where
  host_length ip_literal single_label invalid_host : HostError

abbrev pub drop_dot : Text → Text
drop_dot [] = []
drop_dot (c ∷ s) = if c == b'.' then s else c ∷ s

-- strings.TrimSuffix(s, ".")
unfoldable pub trim_dot : Text → Text
trim_dot s = reverse (drop_dot (reverse s))

unfoldable pub trim_brackets_left : Text → Text
trim_brackets_left [] = []
trim_brackets_left (c ∷ s) =
    let rest = trim_brackets_left s in if c == b'[' || c == b']' then rest else c ∷ s

-- strings.Trim(s, "[]")
unfoldable pub trim_brackets : Text → Text
unfolding trim_brackets_left
trim_brackets s = reverse (trim_brackets_left (reverse (trim_brackets_left s)))

abbrev pub all_labels : List Text → Bool
all_labels [] = true
all_labels (l ∷ labels) = valid_label l && all_labels labels

pub data Host : Type 0 where
  host_name : Text → Host
  no_host : HostError → Host

module _ (lower : Text → Text) (is_address : Text → Bool) where
  -- The tests of NormalizeHost on the name in lower case, without the dot at its end.
  unfoldable pub check_host : Text → Host
  unfolding trim_brackets split
  check_host host =
      if host == [] || ltb 253 (byte_length host)
      then no_host host_length
      else if is_address (trim_brackets host)
      then no_host ip_literal
      else if ltb (length (split host b'.')) 2
      then no_host single_label
      else if all_labels (split host b'.')
      then host_name host
      else no_host invalid_host

  unfoldable pub normalize_host : Text → Host
  unfolding check_host trim_dot
  normalize_host host = check_host (trim_dot (lower host))
