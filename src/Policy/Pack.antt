-- ===== src/Policy/Pack.antt =====
-- src/bot/policy.rs: policy packs, and how a pack is put together from the settings.
use codasaurus.Prelude.{
  ℕ, String, Text, codes, str_eq, text_eq, starts_with, trim, to_ascii_lowercase, split_by,
  text_one_of, is_empty_text, parse_usize, List, [], ◌∷◌, map, Option, none, some, Bool, true,
  false, not, ◌||◌, ◌==◌, if◌then◌else◌, retain,
}

pub record PolicyPack : Type 0 where
  pub min_severity : String
  pub max_blocking : ℕ
  pub max_warnings : ℕ
  pub forbidden_paths : List Text
  pub request_reviewers : Bool
  pub create_check_run : Bool
  pub review_strictness : Option Text

unfoldable pub default : PolicyPack
default = record {
  min_severity = "info";
  max_blocking = 0;
  max_warnings = 50;
  forbidden_paths = [];
  request_reviewers = true;
  create_check_run = true;
  review_strictness = none;
}

pub record PolicyJson : Type 0 where
  pub max_blocking : Option ℕ
  pub max_warnings : Option ℕ
  pub forbidden_paths : Option (List Text)
  pub request_reviewers : Option Bool
  pub create_check_run : Option Bool
  pub min_severity : Option Text
  pub review_strictness : Option Text

-- What the JSON library reads from the repository's `config_json`: the value under `policy`, if it
-- is there and has the right shape, and the strings of the array under `forbidden_paths`.
pub record RepoConfig : Type 0 where
  pub policy : Option PolicyJson
  pub forbidden_paths : Option (List Text)

unfoldable pub parse_bool : Text → Bool → Bool
parse_bool v d =
    let w = to_ascii_lowercase v in
    if text_one_of w ("true" ∷ "1" ∷ "yes" ∷ "on" ∷ [])
    then true
    else if text_one_of w ("false" ∷ "0" ∷ "no" ∷ "off" ∷ [])
    then false
    else d

abbrev pub is_comma_or_newline : ℕ → Bool
is_comma_or_newline c = c == b',' || c == 10

abbrev pub is_filled : Text → Bool
is_filled s = not (is_empty_text s)

abbrev pub separated_paths : Text → List Text
separated_paths trimmed = retain is_filled (map trim (split_by is_comma_or_newline trimmed))

-- `json_list` is the JSON library's reading of an array of strings.
unfoldable pub parse_path_list : (Text → Option (List Text)) → Text → List Text
parse_path_list json_list v =
    let trimmed = trim v in
    if starts_with (codes "[") trimmed
    then elim (json_list trimmed) [ some arr ↦ arr | none ↦ separated_paths trimmed ]
    else separated_paths trimmed

-- The severities that a setting may name.
unfoldable pub severity_tag : Text → Option String
severity_tag v =
    if text_eq v (codes "blocking")
    then some "blocking"
    else if text_eq v (codes "warning")
    then some "warning"
    else if text_eq v (codes "info")
    then some "info"
    else none

-- `if let Some(x) = o { field = x }`.
abbrev pub or_keep {ℓ} : {A : Type ℓ} → Option A → A → A
or_keep none old = old
or_keep (some new) old = new

abbrev pub and_then {ℓ κ} : {A : Type ℓ} {B : Type κ} → Option A → (A → Option B) → Option B
and_then none f = none
and_then (some a) f = f a

abbrev pub map_some {ℓ κ} : {A : Type ℓ} {B : Type κ} → (A → B) → Option A → Option B
map_some f none = none
map_some f (some a) = some (f a)

-- The `HashMap` that is collected from the rows of the settings table: a later row wins.
unfoldable pub lookup : String → List (String × Text) → Option Text
lookup k [] = none
lookup k ((j, v) ∷ m) =
    let later = lookup k m in
    elim later [ some w ↦ some w | none ↦ if str_eq j k then some v else none ]

-- The rows of the settings table, over a pack.
unfoldable pub apply_entries :
    (Text → Option (List Text)) → List (String × Text) → PolicyPack → PolicyPack
unfolding severity_tag parse_bool parse_path_list
apply_entries json_list entries pack = record pack {
  min_severity =
      or_keep (and_then (lookup "default_severity" entries) severity_tag) pack.min_severity;
  max_warnings = or_keep (and_then (lookup "max_warnings" entries) parse_usize) pack.max_warnings;
  max_blocking = or_keep (and_then (lookup "max_blocking" entries) parse_usize) pack.max_blocking;
  forbidden_paths =
      or_keep (map_some (parse_path_list json_list) (lookup "forbidden_paths" entries))
        pack.forbidden_paths;
  request_reviewers =
      or_keep (map_some (λ v. parse_bool v true) (lookup "request_reviewers" entries))
        pack.request_reviewers;
  create_check_run =
      or_keep (map_some (λ v. parse_bool v true) (lookup "create_check_run" entries))
        pack.create_check_run;
}

abbrev pub some_filled : Text → Option (Option Text)
some_filled s = if is_empty_text (trim s) then none else some (some s)

unfoldable pub apply_json : PolicyJson → PolicyPack → PolicyPack
unfolding severity_tag
apply_json pj pack = record pack {
  max_blocking = or_keep pj.max_blocking pack.max_blocking;
  max_warnings = or_keep pj.max_warnings pack.max_warnings;
  forbidden_paths = or_keep pj.forbidden_paths pack.forbidden_paths;
  request_reviewers = or_keep pj.request_reviewers pack.request_reviewers;
  create_check_run = or_keep pj.create_check_run pack.create_check_run;
  min_severity = or_keep (and_then pj.min_severity severity_tag) pack.min_severity;
  review_strictness = or_keep (and_then pj.review_strictness some_filled) pack.review_strictness;
}

abbrev pub apply_policy : Option PolicyJson → PolicyPack → PolicyPack
apply_policy none pack = pack
apply_policy (some pj) pack = apply_json pj pack

unfoldable pub apply_repo_config : RepoConfig → PolicyPack → PolicyPack
unfolding apply_json
apply_repo_config c pack =
    let packed = apply_policy c.policy pack in
    record packed { forbidden_paths = or_keep c.forbidden_paths packed.forbidden_paths }

-- `entries` is `none` without a pool or when the query fails, `repo` is `none` without a
-- configuration or when it is no JSON.
unfoldable pub load :
    (Text → Option (List Text))
    → Option (List (String × Text))
    → Option RepoConfig
    → ℕ
    → ℕ
    → PolicyPack
unfolding default apply_entries apply_repo_config lookup
load json_list entries repo pre_merge_max_blocking pre_merge_max_warnings =
    let fresh = record default {
      max_blocking = pre_merge_max_blocking;
      max_warnings = pre_merge_max_warnings;
    } in
    let stored : PolicyPack = elim entries [
      | none ↦ fresh
      | some rows ↦ apply_entries json_list rows fresh
    ] in
    elim repo [ none ↦ stored | some c ↦ apply_repo_config c stored ]
