-- ===== src/Strictness/Presets.antt =====
-- src/bot/strictness.rs: what the presets change, and their names.
use codasaurus.Policy.Pack.{PolicyPack}
use codasaurus.Quality.{SignalBudget}
use codasaurus.Strictness.{
  ReviewStrictness, lenient, balanced, strict, nitpick, parse, as_str, apply_to_pack, signal_budget,
}
use codasaurus.Prelude.{◌≤◌, codes, str_eq_iff, ◌≡◌, refl, arith}

pub parse-as_str : (s : ReviewStrictness) → parse (codes (as_str s)) ≡ s
unfolding parse as_str
parse-as_str lenient = refl
parse-as_str balanced = refl
parse-as_str strict = refl
parse-as_str nitpick = refl

-- Applying a preset to a pack a second time changes nothing.
pub apply_to_pack_idem :
    (s : ReviewStrictness) (p : PolicyPack)
    → apply_to_pack s (apply_to_pack s p) ≡ apply_to_pack s p
unfolding apply_to_pack
apply_to_pack_idem lenient p = ground (arith, str_eq_iff p.min_severity "info")
apply_to_pack_idem balanced p = refl
apply_to_pack_idem strict p = ground (arith, str_eq_iff p.min_severity "blocking")
apply_to_pack_idem nitpick p = ground arith

-- One budget allows at most what another does, severity by severity.
pub record AtMost (a b : SignalBudget) : Type 0 where
  pub blocking : a.max_blocking ≤ b.max_blocking
  pub warning : a.max_warning ≤ b.max_warning
  pub info : a.max_info ≤ b.max_info

-- Over a budget that surfaces at most four info findings, the presets from lenient to nitpick each
-- allow at least what the one before allows.
pub signal_budget_mono :
    (b : SignalBudget)
    → b.max_info ≤ 4
    → AtMost (signal_budget lenient b) (signal_budget balanced b)
      × AtMost (signal_budget balanced b) (signal_budget strict b)
      × AtMost (signal_budget strict b) (signal_budget nitpick b)
unfolding signal_budget
signal_budget_mono b h = (omega arith, omega arith, omega arith)
