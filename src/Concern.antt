-- ===== src/Concern.antt =====
-- src/bot/concern.rs: concerns, the confidence of a review, and the review event.
pub mod Verdict
use codasaurus.Finding.{Finding, is_blocking}
use codasaurus.Prelude.{
  ◌-◌, String, str_eq, List, [], ◌∷◌, Bool, true, false, ◌&&◌, ◌||◌, ltb, if◌then◌else◌, one_of,
  is_nil, all, count_if,
}

unfoldable pub concern_for_detector : String → String
concern_for_detector d =
    if one_of d ("secrets" ∷ "vulnerabilities" ∷ "iac" ∷ "risky-patterns" ∷ "risky_patterns" ∷ [])
    then "security"
    else if str_eq d "guidelines"
    then "docs"
    else if one_of d ("slop" ∷ "slop-detection" ∷ [])
    then "quality"
    else "quality"

unfoldable pub is_hard_tier1 : String → String → Bool
unfolding concern_for_detector
is_hard_tier1 detector severity =
    if str_eq severity "blocking"
    then true
    else str_eq severity "warning" && str_eq (concern_for_detector detector) "security"

pub data ReviewConfidence : Type 0 where
  high medium low : ReviewConfidence

abbrev pub is_hard : Finding → Bool
is_hard f = is_hard_tier1 f.detector f.severity

abbrev pub is_soft : Finding → Bool
is_soft f =
    one_of f.detector (
      "slop" ∷ "slop-detection" ∷ "guidelines" ∷ "boilerplate" ∷ "over-engineering" ∷ "todo-leaks"
      ∷ [])
    || str_eq f.severity "info"

unfoldable pub overall_confidence : List Finding → Bool → ReviewConfidence
unfolding is_hard_tier1
overall_confidence findings has_blocking =
    if has_blocking
    then high
    else if ltb 0 (count_if is_hard findings)
    then high
    else if is_nil findings
    then high
    else if all is_soft findings
    then low
    else medium

unfoldable pub review_event : Bool → Bool → Bool → String
review_event has_tier1_blocking findings_empty auto_approve =
    if has_tier1_blocking
    then "REQUEST_CHANGES"
    else if findings_empty && auto_approve
    then "APPROVE"
    else "COMMENT"

abbrev pub is_low : ReviewConfidence → Bool
is_low low = true
is_low medium = false
is_low high = false

unfoldable pub is_advisory_draft : List Finding → Bool → Bool
unfolding overall_confidence
is_advisory_draft findings has_blocking =
    if has_blocking
    then false
    else if is_nil findings
    then false
    else is_low (overall_confidence findings has_blocking)
