-- ===== src/Tests/Policies.antt =====
-- Policies at concrete inputs.
use codasaurus.Policy.Pack.{PolicyPack}
use codasaurus.Policy.Forbidden.{forbidden_path_findings, forbidden_finding}
use codasaurus.Policy.Titles.{is_conventional_title, PreMergeConfig}
use codasaurus.Policy.Enforced.{AnyRule, file_of, refused, forbidden_path_findings-files}
use codasaurus.Prelude.{
  Text, codes, List, [], ◌∷◌, map, none, true, false, retain, All, ◌↔◌, ◌≡◌, refl,
}

conventional_tests :
    (is_conventional_title (codes "fix(api): reject empty tokens") ≡ true)
    × (is_conventional_title (codes "feat!: x") ≡ true)
    × (is_conventional_title (codes "fix(: x") ≡ false)
    × (is_conventional_title (codes "random title") ≡ false)
unfolding is_conventional_title
conventional_tests = (refl, refl, refl, refl)

abbrev changed : List Text
changed = codes "tests/source.rs" ∷ codes "src/main.rs" ∷ []

abbrev forbidden : List Text
forbidden = codes "src" ∷ []

no_substring_match :
    map file_of (forbidden_path_findings changed forbidden) ≡ codes "src/main.rs" ∷ []
unfolding forbidden_path_findings forbidden_finding
no_substring_match = refl

forbidden_path_findings-files_example :
    (map file_of (forbidden_path_findings changed forbidden) ≡ retain (refused forbidden) changed)
    × ((path : Text) → (refused forbidden path ≡ true) ↔ AnyRule path forbidden)
    × All
        (λ f. (f.severity ≡ "blocking") × (f.detector ≡ "policy"))
        (forbidden_path_findings changed forbidden)
forbidden_path_findings-files_example = forbidden_path_findings-files changed forbidden

abbrev pub pack : PolicyPack
pack = record {
  min_severity = "info";
  max_blocking = 0;
  max_warnings = 0;
  forbidden_paths = [];
  request_reviewers = true;
  create_check_run = true;
  review_strictness = none;
}

abbrev pub gates : PreMergeConfig
gates = record {
  require_description = true;
  require_title_convention = true;
  max_blocking = 0;
  max_warnings = 10;
}
