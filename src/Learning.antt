-- ===== src/Learning.antt =====
-- src/learning/store.rs: the scopes in which something was learned, and the paths that a learned
-- rule is about.
pub mod Scopes
pub mod Store
pub mod Promotion
pub mod Filter
pub mod Lookups
pub mod Suppressed
pub mod Dismissing
pub mod Isolated
pub mod Mined
use codasaurus.Exclude.{prepare_exclude_patterns, is_excluded_prepared}
use codasaurus.Prelude.{
  ◌+◌, ◌/◌, Text, codes, text_eq, strip_prefix, starts_with, trim_end_slashes, is_empty_text,
  before_char, List, [], ◌∷◌, ◌++◌, Option, none, some, Bool, true, false, ◌||◌, if◌then◌else◌,
}

abbrev pub slash : Text
slash = codes "/"

abbrev pub org_scope : Option (Text × Text) → List Text
org_scope none = []
org_scope (some (owner, name)) = if is_empty_text owner then [] else (owner ++ slash) ∷ []

-- Broadest first: of the instance, of the owner, of the repository.
unfoldable pub scope_chain : Option Text → List Text
scope_chain none = [] ∷ []
scope_chain (some repo) =
    if is_empty_text repo then [] ∷ [] else [] ∷ (org_scope (before_char b'/' repo) ++ repo ∷ [])

abbrev pub goes_on_with_slash : Option Text → Bool
goes_on_with_slash none = false
goes_on_with_slash (some rest) = starts_with slash rest

unfoldable pub path_matches_pattern : (Text → Text) → Text → Text → Bool
path_matches_pattern to_lowercase path pattern =
    let trimmed = trim_end_slashes pattern in
    if is_empty_text trimmed
    then true
    else if text_eq path trimmed || goes_on_with_slash (strip_prefix trimmed path)
    then true
    else is_excluded_prepared to_lowercase path
        (prepare_exclude_patterns to_lowercase (pattern ∷ (trimmed ++ slash) ∷ []))
