-- ===== src/Quality.antt =====
-- src/bot/quality.rs: which findings are surfaced, by rank and within a budget for each severity.
pub mod Order
pub mod Budget
use codasaurus.Prelude.{
  ℕ, ◌+◌, suc, String, Bool, List, [], ◌∷◌, if◌then◌else◌, one_of, str_eq, leb, ltb, ◌==◌, text_eq,
  text_le, sort_by, Text,
}
use codasaurus.Finding.{Finding, is_blocking, is_warning}

pub record SignalBudget : Type 0 where
  pub max_blocking : ℕ
  pub max_warning : ℕ
  pub max_info : ℕ

unfoldable pub default : SignalBudget
default = record { max_blocking = 12; max_warning = 5; max_info = 0 }

unfoldable pub severity_rank : String → ℕ
severity_rank s = if str_eq s "blocking" then 0 else if str_eq s "warning" then 10 else 20

unfoldable pub detector_rank : String → ℕ
detector_rank d =
    if str_eq d "secrets"
    then 0
    else if str_eq d "policy"
    then 1
    else if str_eq d "hallucinated-imports"
    then 2
    else if str_eq d "phantom-deps"
    then 3
    else if str_eq d "vulnerabilities"
    then 4
    else if str_eq d "todo-leaks"
    then 5
    else if str_eq d "stale-api"
    then 6
    else if str_eq d "guidelines"
    then 7
    else if str_eq d "slop"
    then 8
    else if one_of d ("over-engineering" ∷ "boilerplate" ∷ [])
    then 9
    else if str_eq d "graph"
    then 10
    else 11

unfoldable pub noise_rank : Finding → ℕ
unfolding severity_rank detector_rank
noise_rank f = severity_rank f.severity + detector_rank f.detector

-- The comparator of `sort_by`, as "at most": rank, then path, then line.
unfoldable pub key_le : ℕ → Text → ℕ → ℕ → Text → ℕ → Bool
key_le r s l r' s' l' =
    if r == r' then (if text_eq s s' then leb l l' else text_le s s') else ltb r r'

unfoldable pub rank_le : Finding → Finding → Bool
unfolding key_le
rank_le a b = key_le (noise_rank a) a.file a.line (noise_rank b) b.file b.line

-- The closure of `retain`, with its three counters.
unfoldable pub keep_within : SignalBudget → ℕ → ℕ → ℕ → List Finding → List Finding
keep_within budget blocking warning info [] = []
keep_within budget blocking warning info (f ∷ fs) =
    let as_blocking = keep_within budget (blocking + 1) warning info fs in
    let as_warning = keep_within budget blocking (warning + 1) info fs in
    let as_info = keep_within budget blocking warning (info + 1) fs in
    if is_blocking f
    then (if leb (blocking + 1) budget.max_blocking then f ∷ as_blocking else as_blocking)
    else if is_warning f
    then (if leb (warning + 1) budget.max_warning then f ∷ as_warning else as_warning)
    else if leb (info + 1) budget.max_info
    then f ∷ as_info
    else as_info

unfoldable pub apply_signal_budget : List Finding → SignalBudget → List Finding
unfolding keep_within
apply_signal_budget findings budget = keep_within budget 0 0 0 (sort_by rank_le findings)
