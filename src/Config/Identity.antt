-- ===== src/Config/Identity.antt =====
-- internal/config/config.go: which categories a policy plans, and when two policies name the same
-- remote.
use octomus_agent.Base.{
  ℕ, ◌+◌, Text, Bool, true, false, ◌&&◌, List, [], ◌∷◌, ◌++◌, ◌==◌, ◌!=◌, leb, if◌then◌else◌,
  nat_eq, text_eq, codes, ◌||◌,
}
use octomus_agent.Config.Types.{Config, maintenance, delivery_mode_eq}

-- The loop of EffectiveCategories.
unfoldable pub non_features : List Text → List Text
non_features [] = []
non_features (c ∷ cs) =
    let rest = non_features cs in if c != codes "features" then c ∷ rest else rest

unfoldable pub effective_categories : Config → List Text
unfolding non_features
effective_categories c =
    if c.delivery_mode != maintenance then c.categories else non_features c.categories

unfoldable pub lower_ascii : ℕ → ℕ
lower_ascii c = if leb b'A' c && leb c b'Z' then c + 32 else c

-- The length test and the loop in one: two texts of different lengths never agree to the end.
unfoldable pub equal_ascii : Text → Text → Bool
unfolding lower_ascii
equal_ascii [] [] = true
equal_ascii (x ∷ a) (y ∷ b) = lower_ascii x == lower_ascii y && equal_ascii a b
equal_ascii _ _ = false

-- strings.Split(s, sep) for a separator of one byte.
unfoldable pub split_from : ℕ → Text → Text → List Text
split_from sep part [] = part ∷ []
split_from sep part (c ∷ s) = elim (c == sep) [
  | true ↦ part ∷ split_from sep [] s
  | false ↦ split_from sep (part ++ c ∷ []) s
]

unfoldable pub split : Text → ℕ → List Text
unfolding split_from
split s sep = split_from sep [] s

-- The loop of pathIdentity; the flag says that this is the first part.
unfoldable pub path_parts : Bool → List Text → List Text
path_parts first [] = []
path_parts first (p ∷ ps) =
    let rest = path_parts false ps in
    if p != [] && (p != codes "." || first) then p ∷ rest else rest

abbrev pub starts_with : Text → Text → Bool
starts_with [] s = true
starts_with (x ∷ p) [] = false
starts_with (x ∷ p) (y ∷ s) = x == y && starts_with p s

-- strings.Join(parts, "/")
unfoldable pub join_slash : List Text → Text
join_slash [] = []
join_slash (p ∷ []) = p
join_slash (p ∷ (q ∷ ps)) = p ++ (b'/' ∷ join_slash (q ∷ ps))

unfoldable pub path_identity : Text → Text
unfolding split path_parts join_slash
path_identity path =
    let parts = path_parts true (split path b'/') in
    join_slash (if starts_with (codes "/") path then codes "/" ∷ parts else parts)

unfoldable pub same_path : Text → Text → Bool
unfolding path_identity
same_path a b = path_identity a == path_identity b

unfoldable pub same_remote_identity : Config → Config → Bool
unfolding same_path equal_ascii
same_remote_identity c other =
    same_path c.repository other.repository
    && equal_ascii c.github_repo other.github_repo
    && c.default_branch == other.default_branch

unfoldable pub same_pr_policy : Config → Config → Bool
unfolding same_remote_identity
same_pr_policy a b = same_remote_identity a b && a.branch_prefix == b.branch_prefix
