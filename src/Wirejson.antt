-- ===== src/Wirejson.antt =====
-- internal/wirejson/json.go: the wire names of an enumeration. A value is its number, as the
-- uint8 of the source.
mod RoundTrip
use octomus_agent.Base.{
  ℕ, zero, suc, ◌%◌, Text, Option, none, some, List, [], ◌∷◌, ◌==◌, if◌then◌else◌, text_eq,
}

abbrev pub get_elem? {ℓ} : {A : Type ℓ} → List A → ℕ → Option A
get_elem? [] i = none
get_elem? (x ∷ xs) zero = some x
get_elem? (x ∷ xs) (suc i) = get_elem? xs i

-- "" outside the names.
unfoldable pub enum_name : ℕ → List Text → Text
enum_name value names = elim (get_elem? names value) [ none ↦ [] | some name ↦ name ]

-- `none` is the error of an invalid value.
unfoldable pub enum_text : ℕ → List Text → Option Text
unfolding enum_name
enum_text value names = let name = enum_name value names in if name == [] then none else some name

-- The loop of ParseEnum from index i, which T(i) wraps at 256.
unfoldable pub parse_enum_from : ℕ → Text → List Text → Option ℕ
parse_enum_from i text [] = none
parse_enum_from i text (allowed ∷ names) =
    let rest = parse_enum_from (suc i) text names in
    if text == allowed then some (i % 256) else rest

unfoldable pub parse_enum : Text → List Text → Option ℕ
unfolding parse_enum_from
parse_enum text names = parse_enum_from 0 text names
