-- ===== src/Policy/Forbidden.antt =====
-- src/bot/policy.rs: blocking findings for paths that the policy forbids.
use codasaurus.Finding.{Finding}
use codasaurus.Prelude.{
  ℕ, Text, codes, text_eq, starts_with, ends_with, trim, trim_start_slashes, trim_end_slashes,
  last_segment, is_empty_text, List, [], ◌∷◌, ◌++◌, Option, none, some, Bool, ◌||◌, if◌then◌else◌,
  is_nil,
}

-- A rule as it is matched: trimmed, and without slashes in front.
abbrev pub normal_rule : Text → Text
normal_rule rule = trim_start_slashes (trim rule)

abbrev pub slash : Text
slash = b'/' ∷ []

-- The test `hit`, on a rule and a path that are both normalised.
unfoldable pub hit : Text → Text → Bool
hit rule path =
    if ends_with slash rule
    then starts_with rule path || text_eq path (trim_end_slashes rule)
    else text_eq path rule || (starts_with (rule ++ slash) path || text_eq (last_segment path) rule)

unfoldable pub policy_finding : Text → ℕ → Text → Text → Finding
policy_finding file line message suggestion = record {
  detector = "policy";
  severity = "blocking";
  file = file;
  line = line;
  column = 0;
  message = message;
  suggestion = some suggestion;
  evidence = none;
  codemod = none;
  confidence = none;
  judge_rationale = none;
  reachability = none;
}

unfoldable pub forbidden_finding : Text → Text → Finding
unfolding policy_finding
forbidden_finding path rule =
    policy_finding path 1
      (codes "Path `"
        ++ (path ++ (codes "` matches forbidden policy pattern `" ++ (rule ++ codes "`"))))
      (codes "Remove this file from the PR or update the org policy pack.")

-- The inner loop: the first rule that hits, and then `break`.
unfoldable pub first_hit : Text → List Text → Option Text
unfolding hit
first_hit path [] = none
first_hit path (rule ∷ rules) =
    let rest = first_hit path rules in
    if is_empty_text (normal_rule rule)
    then rest
    else if hit (normal_rule rule) (trim_start_slashes path)
    then some (normal_rule rule)
    else rest

abbrev pub found : Text → Option Text → List Finding → List Finding
found path none rest = rest
found path (some rule) rest = forbidden_finding path rule ∷ rest

unfoldable pub scan_paths : List Text → List Text → List Finding
unfolding first_hit
scan_paths [] forbidden = []
scan_paths (path ∷ paths) forbidden =
    found path (first_hit path forbidden) (scan_paths paths forbidden)

unfoldable pub forbidden_path_findings : List Text → List Text → List Finding
unfolding scan_paths
forbidden_path_findings changed_paths forbidden =
    if is_nil forbidden then [] else scan_paths changed_paths forbidden
