-- ===== src/Tests/Findings.antt =====
-- Findings, confidence, ranking and presets at concrete inputs.
use codasaurus.Finding.{Finding, is_blocking, is_warning}
use codasaurus.Confidence.{base_confidence}
use codasaurus.Quality.{SignalBudget, rank_le, apply_signal_budget}
use codasaurus.Quality.Budget.{is_other, apply_signal_budget-keeps_first}
use codasaurus.Prelude.{
  ℕ, String, Text, codes, List, [], ◌∷◌, none, take, retain, sort_by, ◌≡◌, refl,
}

abbrev pub finding : String → String → Text → ℕ → Finding
finding detector severity file line = record {
  detector = detector;
  severity = severity;
  file = file;
  line = line;
  column = 0;
  message = codes "m";
  suggestion = none;
  evidence = none;
  codemod = none;
  confidence = none;
  judge_rationale = none;
  reachability = none;
}

abbrev pub secret : Finding
secret = finding "secrets" "blocking" (codes "src/a.rs") 3

abbrev pub style : Finding
style = finding "boilerplate" "info" (codes "src/b.rs") 9

abbrev pub todo : Finding
todo = finding "todo-leaks" "warning" (codes "src/a.rs") 7

abbrev pub three : List Finding
three = style ∷ todo ∷ secret ∷ []

base_confidence_tests :
    (base_confidence "secrets" ≡ 5)
    × (base_confidence "stale-api" ≡ 3)
    × (base_confidence "some-llm-prose" ≡ 4)
unfolding base_confidence
base_confidence_tests = (refl, refl, refl)

abbrev small : SignalBudget
small = record { max_blocking = 1; max_warning = 1; max_info = 0 }

apply_signal_budget-keeps_first_example :
    let sorted = sort_by rank_le three in
    let kept = apply_signal_budget three small in
    (retain is_blocking kept ≡ take 1 (retain is_blocking sorted))
    × (retain is_warning kept ≡ take 1 (retain is_warning sorted))
    × (retain is_other kept ≡ take 0 (retain is_other sorted))
apply_signal_budget-keeps_first_example = apply_signal_budget-keeps_first three small
