-- ===== src/Config/Paths.antt =====
-- internal/config/maintenance_paths.go: the changed paths that a person must merge. The lower case
-- of a rune (the table of package unicode) is a parameter.
use octomus_agent.Base.{
  ℕ, Text, Bool, false, ◌&&◌, ◌||◌, List, [], ◌∷◌, ◌++◌, ◌==◌, not, if◌then◌else◌, text_eq, codes,
  contains, map, reverse, nat_eq,
}
use octomus_agent.Config.Identity.{split, starts_with}

abbrev pub manual_merge_names : List Text
manual_merge_names = map codes (
    ".github" ∷ ".circleci" ∷ ".buildkite" ∷ ".gitlab-ci.yml" ∷ ".travis.yml" ∷ "jenkinsfile"
    ∷ "azure-pipelines.yml" ∷ "makefile" ∷ "agents.md" ∷ "security.md" ∷ "codeowners" ∷ ".devin"
    ∷ ".agents" ∷ ".claude" ∷ ".cursor" ∷ "deploy" ∷ "deployment" ∷ "deployments" ∷ "migrations"
    ∷ "migration" ∷ "schema.sql" ∷ "dockerfile" ∷ "containerfile" ∷ ".dockerignore" ∷ "compose.yml"
    ∷ "compose.yaml" ∷ "docker-compose.yml" ∷ "docker-compose.yaml" ∷ ".gitmodules"
    ∷ ".gitattributes" ∷ [])

-- strings.HasSuffix
unfoldable pub ends_with : Text → Text → Bool
ends_with p s = starts_with (reverse p) (reverse s)

-- strings.TrimSuffix(entry, "/")
unfoldable pub trim_slash : Text → Text
trim_slash [] = []
trim_slash (c ∷ []) = if c == b'/' then [] else c ∷ []
trim_slash (c ∷ (d ∷ s)) = c ∷ trim_slash (d ∷ s)

abbrev has_slash : Text → Bool
has_slash [] = false
has_slash (c ∷ s) = c == b'/' || has_slash s

module _ (to_lower : ℕ → ℕ) where
  unfoldable pub manual_component : Text → Bool
  unfolding ends_with
  manual_component component =
      let lower = map to_lower component in
      contains manual_merge_names lower
      || starts_with (codes "dockerfile.") lower
      || ends_with (codes ".dockerfile") lower
      || starts_with (codes "containerfile.") lower
      || ends_with (codes ".containerfile") lower
      || ((starts_with (codes "compose.") lower || starts_with (codes "docker-compose.") lower)
          && (ends_with (codes ".yml") lower || ends_with (codes ".yaml") lower))

  unfoldable pub any_manual : List Text → Bool
  unfolding manual_component
  any_manual [] = false
  any_manual (c ∷ cs) = manual_component c || any_manual cs

  -- One entry of the second loop.
  unfoldable pub entry_excludes : Text → Text → Bool
  unfolding trim_slash split
  entry_excludes name configured =
      let entry = trim_slash configured in
      if not (has_slash entry)
      then contains (split name b'/') entry
      else (name == entry || starts_with (entry ++ b'/' ∷ []) name)

  unfoldable pub any_excludes : Text → List Text → Bool
  unfolding entry_excludes
  any_excludes name [] = false
  any_excludes name (e ∷ es) = entry_excludes name e || any_excludes name es

  unfoldable pub manual_merge_path : Text → List Text → Bool
  unfolding any_manual any_excludes
  manual_merge_path name excluded = any_manual (split name b'/') || any_excludes name excluded
