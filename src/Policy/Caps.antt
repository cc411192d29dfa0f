-- ===== src/Policy/Caps.antt =====
-- src/bot/policy.rs: synthetic blocking findings for exceeded caps and for missing PR metadata.
use codasaurus.Finding.{Finding, is_blocking, is_warning}
use codasaurus.Policy.Forbidden.{policy_finding}
use codasaurus.Policy.Pack.{PolicyPack}
use codasaurus.Prelude.{ℕ, Text, codes, decimal, List, [], ◌∷◌, ◌++◌, ltb, if◌then◌else◌, count_if}

abbrev pub policy_file : Text
policy_file = codes "POLICY"

unfoldable pub blocking_cap_finding : ℕ → ℕ → Finding
unfolding policy_finding
blocking_cap_finding blocking cap =
    policy_finding policy_file 0
      (codes "Policy: "
        ++ (decimal blocking ++ (codes " blocking findings exceed max_blocking=" ++ decimal cap)))
      (codes "Fix blocking issues or raise max_blocking in policy.")

unfoldable pub warning_cap_finding : ℕ → ℕ → Finding
unfolding policy_finding
warning_cap_finding warning cap =
    policy_finding policy_file 0
      (codes "Policy: "
        ++ (decimal warning ++ (codes " warnings exceed max_warnings=" ++ decimal cap)))
      (codes "Address warnings or raise max_warnings in policy.")

-- Both counts are taken before the first finding is pushed.
unfoldable pub enforce_count_caps : List Finding → PolicyPack → List Finding
unfolding blocking_cap_finding warning_cap_finding
enforce_count_caps findings pack =
    let blocking = count_if is_blocking findings in
    let warning = count_if is_warning findings in
    let over_blocking : List Finding =
      if ltb pack.max_blocking blocking
      then blocking_cap_finding blocking pack.max_blocking ∷ []
      else [] in
    let over_warning : List Finding =
      if ltb pack.max_warnings warning
      then warning_cap_finding warning pack.max_warnings ∷ []
      else [] in
    findings ++ (over_blocking ++ over_warning)
