-- ===== src/Confidence.antt =====
-- src/confidence.rs: the confidence of a finding, and the floor that it has to reach.
pub mod Laws
use codasaurus.Prelude.{
  ℕ, String, Bool, List, [], ◌∷◌, map, Option, none, some, if◌then◌else◌, one_of, leb, retain,
}
use codasaurus.Finding.{Finding, is_blocking}

unfoldable pub base_confidence : String → ℕ
base_confidence detector =
    if one_of detector (
      "hallucinated-imports" ∷ "phantom-deps" ∷ "lockfile-drift" ∷ "license-drift" ∷ "secrets"
      ∷ "iac" ∷ "risky-patterns" ∷ [])
    then 5
    else if one_of detector ("vulnerabilities" ∷ [])
    then 3
    else if one_of detector (
        "boilerplate" ∷ "over-engineering" ∷ "slop-detection" ∷ "stale-api" ∷ "graph" ∷ "guidelines"
        ∷ "todo-leaks" ∷ "policy" ∷ [])
    then 3
    else 4

-- The body of the loop in `apply_base`, on one finding.
abbrev pub filled : ℕ → Option ℕ → Option ℕ
filled base none = some base
filled base (some c) = some c

unfoldable pub with_base : Finding → Finding
with_base f = record f { confidence = filled (base_confidence f.detector) f.confidence }

unfoldable pub apply_base : List Finding → List Finding
unfolding with_base
apply_base = map with_base

abbrev pub confidence_or_zero : Option ℕ → ℕ
confidence_or_zero none = 0
confidence_or_zero (some c) = c

unfoldable pub is_grounded : Finding → Bool
is_grounded f = leb (if is_blocking f then 3 else 2) (confidence_or_zero f.confidence)

unfoldable pub retain_grounded : List Finding → List Finding
unfolding is_grounded
retain_grounded = retain is_grounded
