-- ===== src/Codeowners.antt =====
-- src/bot/codeowners.rs: the rules of a CODEOWNERS file, and the owners of the changed paths.
pub mod Owners
use codasaurus.Prelude.{
  ℕ, ◌+◌, ◌*◌, ◌/◌, Text, codes, text_eq, text_le, strip_prefix, strip_suffix, starts_with,
  ends_with, has_char, trim, trim_start_by, trim_start_slashes, trim_end_slashes, last_segment,
  split_whitespace, is_empty_text, lines, List, [], ◌∷◌, ◌++◌, map, Option, none, some, Bool, true,
  false, not, ◌&&◌, ◌||◌, ◌==◌, if◌then◌else◌, is_nil, retain,
}

pub record CodeOwnerRule : Type 0 where
  pub pattern : Text
  pub owners : List Text

abbrev pub is_at : ℕ → Bool
is_at c = c == b'@'

abbrev pub is_filled : Text → Bool
is_filled t = not (is_empty_text t)

abbrev pub owners_in : List Text → List Text
owners_in parts =
    retain is_filled (map (trim_start_by is_at) (retain (λ p. starts_with (codes "@") p) parts))

abbrev pub rule_of : List Text → List CodeOwnerRule
rule_of [] = []
rule_of (pattern ∷ parts) =
    if is_nil (owners_in parts)
    then []
    else record { pattern = pattern; owners = owners_in parts } ∷ []

unfoldable pub parse_line : Text → List CodeOwnerRule
parse_line raw =
    let line = trim raw in
    if is_empty_text line || starts_with (codes "#") line
    then []
    else rule_of (split_whitespace line)

abbrev pub rules_of : List Text → List CodeOwnerRule
rules_of [] = []
rules_of (l ∷ ls) = parse_line l ++ rules_of ls

unfoldable pub parse_codeowners : Text → List CodeOwnerRule
unfolding parse_line
parse_codeowners content = rules_of (lines content)

abbrev pub slash : Text
slash = codes "/"

abbrev pub one_segment : Option Text → Bool
one_segment none = false
one_segment (some rest) =
    let inner = trim_start_slashes rest in not (is_empty_text inner) && not (has_char b'/' inner)

-- The last branches of `path_matches`, in order.
abbrev pub match_plain : Text → Text → Bool
match_plain pat path =
    if ends_with slash pat
    then starts_with pat path || starts_with (trim_end_slashes pat) path
    else text_eq path pat || ends_with (slash ++ pat) path || starts_with (pat ++ slash) path

abbrev pub match_suffix : Option Text → Text → Text → Bool
match_suffix (some suffix) pat path =
    ends_with (codes "." ++ suffix) path || ends_with (codes "." ++ suffix) (last_segment path)
match_suffix none pat path = match_plain pat path

abbrev pub match_star : Option Text → Text → Text → Bool
match_star (some prefix) pat path = one_segment (strip_prefix prefix path)
match_star none pat path = match_suffix (strip_prefix (codes "*.") pat) pat path

abbrev pub match_tree : Option Text → Text → Text → Bool
match_tree (some dir) pat path = text_eq path dir || starts_with (dir ++ slash) path
match_tree none pat path = match_star (strip_suffix (codes "/*") pat) pat path

unfoldable pub path_matches : Text → Text → Bool
path_matches pattern given =
    let pat = trim_start_slashes pattern in
    let path = trim_start_slashes given in
    if text_eq pat (codes "*") || text_eq pat (codes "**")
    then true
    else match_tree (strip_suffix (codes "/**") pat) pat path

-- The inner loop: the owners of the last rule that matches.
unfoldable pub last_match : Text → List CodeOwnerRule → Option (List Text) → Option (List Text)
unfolding path_matches
last_match path [] matched = matched
last_match path (rule ∷ rules) matched =
    last_match path rules (if path_matches rule.pattern path then some rule.owners else matched)

-- `BTreeSet::insert`.
abbrev pub insert_owner : Text → List Text → List Text
insert_owner o [] = o ∷ []
insert_owner o (p ∷ ps) =
    let rest = insert_owner o ps in
    if text_eq o p then p ∷ ps else if text_le o p then o ∷ p ∷ ps else p ∷ rest

abbrev pub insert_all : List Text → List Text → List Text
insert_all [] set = set
insert_all (o ∷ os) set = insert_all os (insert_owner o set)

abbrev pub or_none : Option (List Text) → List Text
or_none none = []
or_none (some os) = os

unfoldable pub collect_owners : List CodeOwnerRule → List Text → List Text → List Text
unfolding last_match
collect_owners rules [] set = set
collect_owners rules (path ∷ paths) set =
    collect_owners rules paths (insert_all (or_none (last_match path rules none)) set)

unfoldable pub owners_for_paths : List CodeOwnerRule → List Text → List Text
unfolding collect_owners
owners_for_paths rules paths = collect_owners rules paths []
