-- ===== src/Exclude.antt =====
-- src/detectors/mod.rs: the patterns that exclude paths. `str::to_lowercase` over all of Unicode is
-- an argument.
use codasaurus.Prelude.{
  Text, codes, strip_prefix, starts_with, ends_with, contains, trim, is_empty_text, List, [], ◌∷◌,
  ◌++◌, Option, none, some, Bool, false, ◌||◌, if◌then◌else◌, any,
}

pub record PreparedExclude : Type 0 where
  pub pattern : Text
  pub dir_contains : Option Text
  pub dir_ends : Option Text

abbrev pub slash : Text
slash = codes "/"

-- The pattern of a directory without its slash at the end.
abbrev pub without_last : Text → Text
without_last [] = []
without_last (c ∷ []) = []
without_last (c ∷ d ∷ s) = c ∷ without_last (d ∷ s)

abbrev pub prepared : Text → PreparedExclude
prepared pattern =
    if ends_with slash pattern
    then record {
      pattern = pattern;
      dir_contains = some (slash ++ (without_last pattern ++ slash));
      dir_ends = some (slash ++ without_last pattern);
    }
    else record { pattern = pattern; dir_contains = none; dir_ends = none }

abbrev pub ends_with_some : Option Text → Text → Bool
ends_with_some none path = false
ends_with_some (some ext) path = ends_with ext path

abbrev pub in_directory : Text → Option Text → Option Text → Text → Bool
in_directory pattern (some within) (some ends) path =
    starts_with pattern path || contains within path || ends_with ends path
in_directory pattern (some within) none path = false
in_directory pattern none ends path = false

abbrev pub excludes : Text → PreparedExclude → Bool
excludes path p =
    ends_with p.pattern path
    || ends_with_some (strip_prefix (codes "*") p.pattern) path
    || in_directory p.pattern p.dir_contains p.dir_ends path

module _ (to_lowercase : Text → Text) where
  unfoldable pub prepare_exclude_patterns : List Text → List PreparedExclude
  prepare_exclude_patterns [] = []
  prepare_exclude_patterns (p ∷ ps) =
      let rest = prepare_exclude_patterns ps in
      let pattern = to_lowercase (trim p) in
      if is_empty_text pattern then rest else prepared pattern ∷ rest

  unfoldable pub is_excluded_prepared : Text → List PreparedExclude → Bool
  is_excluded_prepared path patterns = any (excludes (to_lowercase path)) patterns

  unfoldable pub is_excluded : Text → List Text → Bool
  unfolding prepare_exclude_patterns is_excluded_prepared
  is_excluded path patterns = is_excluded_prepared path (prepare_exclude_patterns patterns)
