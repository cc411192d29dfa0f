-- ===== src/Strictness.antt =====
-- src/bot/strictness.rs: review presets, and what they do to a policy pack and a signal budget.
pub mod Presets
use codasaurus.Policy.Pack.{PolicyPack}
use codasaurus.Quality.{SignalBudget}
use codasaurus.Prelude.{
  min, max, String, Text, str_eq, trim, to_ascii_lowercase, text_one_of, is_empty_text, [], ◌∷◌,
  Option, none, some, Bool, if◌then◌else◌,
}

pub data ReviewStrictness : Type 0 where
  lenient balanced strict nitpick : ReviewStrictness

unfoldable pub parse : Text → ReviewStrictness
parse raw =
    let w = to_ascii_lowercase (trim raw) in
    if text_one_of w ("lenient" ∷ "quiet" ∷ "minimal" ∷ [])
    then lenient
    else if text_one_of w ("strict" ∷ [])
    then strict
    else if text_one_of w ("nitpick" ∷ "pedantic" ∷ "noisy" ∷ [])
    then nitpick
    else balanced

unfoldable pub as_str : ReviewStrictness → String
as_str lenient = "lenient"
as_str balanced = "balanced"
as_str strict = "strict"
as_str nitpick = "nitpick"

unfoldable pub apply_to_pack : ReviewStrictness → PolicyPack → PolicyPack
apply_to_pack lenient pack = record pack {
  min_severity = if str_eq pack.min_severity "info" then "warning" else pack.min_severity;
  max_warnings = min pack.max_warnings 12;
}
apply_to_pack balanced pack = pack
apply_to_pack strict pack = record pack {
  min_severity = if str_eq pack.min_severity "blocking" then "warning" else pack.min_severity;
  max_warnings = max pack.max_warnings 15;
}
apply_to_pack nitpick pack = record pack {
  min_severity = "info";
  max_warnings = max pack.max_warnings 40;
}

unfoldable pub signal_budget : ReviewStrictness → SignalBudget → SignalBudget
signal_budget lenient base = record base { max_warning = min base.max_warning 5; max_info = 0 }
signal_budget balanced base = base
signal_budget strict base = record base {
  max_warning = max base.max_warning 12;
  max_info = min (max base.max_info 2) 4;
}
signal_budget nitpick base = record base {
  max_warning = max base.max_warning 20;
  max_info = max base.max_info 15;
}

-- `stored` is the row `review_strictness`, `none` without a pool or a row.
unfoldable pub load : Option Text → Bool → Option Text → ReviewStrictness
unfolding parse
load (some v) toml_strict toml_strictness = parse v
load none toml_strict (some s) =
    if is_empty_text (trim s) then (if toml_strict then strict else balanced) else parse s
load none toml_strict none = if toml_strict then strict else balanced
