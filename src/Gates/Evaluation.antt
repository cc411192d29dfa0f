-- ===== src/Gates/Evaluation.antt =====
-- src/gates.rs: when a gate passes.
use codasaurus.Finding.{Finding, is_blocking, is_warning, tally, get_count}
use codasaurus.Finding.Laws.{get_count-tally}
use codasaurus.Gates.{
  F64, GateMetric, new_issues, new_blocker_issues, new_high_issues, new_medium_issues,
  new_warning_issues, new_info_issues, measure, GateCondition, QualityGate, eval, failing,
  evaluate_gate, default,
}
use codasaurus.Prelude.{
  ℕ, ◌^◌, ◌≤◌, str_eq, List, [], ◌∷◌, Bool, true, false, ltb, Bool-cases, length, is_nil, count_if,
  All, count_if-le-length, ◌≡◌, refl, sym, ◌∙◌, ◌↔◌, inl, inr, arith,
}

-- What each metric counts, read off the findings themselves.
unfoldable pub counted : GateMetric → List Finding → ℕ
counted new_issues fs = length fs
counted new_blocker_issues fs = count_if is_blocking fs
counted new_high_issues fs = count_if is_blocking fs
counted new_medium_issues fs = count_if is_warning fs
counted new_warning_issues fs = count_if is_warning fs
counted new_info_issues fs = count_if (λ f. str_eq f.severity "info") fs

measure-counted :
    (m : GateMetric) (fs : List Finding) → measure m (tally [] fs) (length fs) ≡ counted m fs
unfolding measure counted get_count
measure-counted new_issues fs = refl
measure-counted new_blocker_issues fs = ground (arith, get_count-tally "blocking" [] fs)
measure-counted new_high_issues fs = ground (arith, get_count-tally "blocking" [] fs)
measure-counted new_medium_issues fs = ground (arith, get_count-tally "warning" [] fs)
measure-counted new_warning_issues fs = ground (arith, get_count-tally "warning" [] fs)
measure-counted new_info_issues fs = ground (arith, get_count-tally "info" [] fs)

true-ne-false : ◌≡◌ {A = Bool} true false → ⊥
true-ne-false e = cc

module _ (f64 : F64) where
  open f64 use {of_usize}

  abbrev pub fires : List Finding → GateCondition f64 → Bool
  fires fs c = eval f64 c.operator (of_usize (counted c.metric fs)) c.threshold

  -- A condition does not fire: its operator is false between the count and the threshold.
  abbrev pub Met : List Finding → GateCondition f64 → Type 0
  Met fs c = fires fs c ≡ false

  failing_iff :
      (fs : List Finding) (cs : List (GateCondition f64))
      → (is_nil (failing f64 (tally [] fs) (length fs) cs) ≡ true) ↔ All (Met fs) cs
  unfolding failing
  failing_iff fs [] = (λ e. tt, λ h. refl)
  failing_iff fs (c ∷ cs) = rw (measure-counted c.metric fs) (elim (Bool-cases (fires fs c)) [
    | inl e ↦ rw e (λ h. absurd (true-ne-false (sym h)), λ h. absurd (true-ne-false h.0))
    | inr e ↦ rw e (λ h. (refl, (failing_iff fs cs).0 h), λ h. (failing_iff fs cs).1 h.1)
  ])

  -- A gate passes exactly when no condition fires on the counts of the findings by severity.
  pub evaluate_gate-passed :
      (gate : QualityGate f64) (fs : List Finding)
      → ((evaluate_gate f64 gate fs).passed ≡ true) ↔ All (Met fs) gate.conditions
  unfolding evaluate_gate
  evaluate_gate-passed gate fs = failing_iff fs gate.conditions

  -- With comparisons that are exact on the integers up to 2 ^ 53, the default gate passes exactly
  -- when no finding is blocking and at most five are warnings.
  pub evaluate_gate-default :
      (fs : List Finding)
      → ((a b : ℕ) → a ≤ 2 ^ 53 → b ≤ 2 ^ 53 → f64.gt (of_usize a) (of_usize b) ≡ ltb b a)
      → length fs ≤ 2 ^ 53
      → ((evaluate_gate f64 (default f64) fs).passed ≡ true)
        ↔ ((count_if is_blocking fs ≡ 0) × (count_if is_warning fs ≤ 5))
  unfolding default eval counted
  evaluate_gate-default fs exact small =
      let blocking : count_if is_blocking fs ≤ 2 ^ 53 =
        omega (arith, count_if-le-length is_blocking fs) in
      let warning : count_if is_warning fs ≤ 2 ^ 53 =
        omega (arith, count_if-le-length is_warning fs) in
      let b = exact (count_if is_blocking fs) 0 blocking (omega arith) in
      let w = exact (count_if is_warning fs) 5 warning (omega arith) in
      let passed = evaluate_gate-passed (default f64) fs in
      (
        λ e.
            let none_blocking = sym b ∙ (passed.0 e).0 in
            let few_warnings = sym w ∙ (passed.0 e).1.0 in (ground arith, ground arith),
        λ h.
            let none_blocking : ltb 0 (count_if is_blocking fs) ≡ false = ground arith in
            let few_warnings : ltb 5 (count_if is_warning fs) ≡ false = ground arith in
            passed.1 (b ∙ none_blocking, (w ∙ few_warnings, tt)),
      )
