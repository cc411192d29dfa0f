-- ===== src/Gates.antt =====
-- src/gates.rs: the quality gate. Floats are a parameter: the type with the operations that the gate
-- uses, as `F64`.
pub mod Evaluation
use codasaurus.Finding.{Finding, bump, tally, get_count}
use codasaurus.Prelude.{
  ℕ, String, Text, codes, str_eq, List, [], ◌∷◌, map, Bool, if◌then◌else◌, length, is_nil,
}

-- `value > threshold` and so on are the IEEE comparisons; `near` is `(a - b).abs() < EPSILON`, and
-- `far` is `(a - b).abs() >= EPSILON`, which for a NaN is not the negation of `near`.
pub record F64 : Type 1 where
  pub Carrier : Type 0
  pub of_usize : ℕ → Carrier
  pub gt : Carrier → Carrier → Bool
  pub gte : Carrier → Carrier → Bool
  pub lt : Carrier → Carrier → Bool
  pub lte : Carrier → Carrier → Bool
  pub near : Carrier → Carrier → Bool
  pub far : Carrier → Carrier → Bool

pub data GateMetric : Type 0 where
  new_issues new_blocker_issues new_high_issues : GateMetric
  new_medium_issues new_warning_issues new_info_issues : GateMetric

pub data GateOperator : Type 0 where
  gt gte lt lte eq ne : GateOperator

unfoldable pub parse_metric : String → GateMetric
parse_metric s =
    if str_eq s "new_blocker_issues"
    then new_blocker_issues
    else if str_eq s "new_high_issues"
    then new_high_issues
    else if str_eq s "new_medium_issues"
    then new_medium_issues
    else if str_eq s "new_warning_issues"
    then new_warning_issues
    else if str_eq s "new_info_issues"
    then new_info_issues
    else new_issues

unfoldable pub parse_operator : String → GateOperator
parse_operator s =
    if str_eq s "gte"
    then gte
    else if str_eq s "lt"
    then lt
    else if str_eq s "lte"
    then lte
    else if str_eq s "eq"
    then eq
    else if str_eq s "ne"
    then ne
    else gt

-- The metric of a condition, on the counts by severity and the number of findings.
unfoldable pub measure : GateMetric → List (String × ℕ) → ℕ → ℕ
unfolding get_count
measure new_issues counts total = total
measure new_blocker_issues counts total = get_count "blocking" counts
measure new_high_issues counts total = get_count "blocking" counts
measure new_medium_issues counts total = get_count "warning" counts
measure new_warning_issues counts total = get_count "warning" counts
measure new_info_issues counts total = get_count "info" counts

module _ (f64 : F64) where
  open f64 use {Carrier, of_usize}

  pub record GateCondition : Type 0 where
    pub metric : GateMetric
    pub operator : GateOperator
    pub threshold : Carrier

  pub record QualityGate : Type 0 where
    pub name : Text
    pub conditions : List GateCondition

  pub record FailedCondition : Type 0 where
    pub metric : GateMetric
    pub operator : GateOperator
    pub threshold : Carrier
    pub actual : Carrier

  pub record GateResult : Type 0 where
    pub passed : Bool
    pub failed_conditions : List FailedCondition

  unfoldable pub default : QualityGate
  default = record {
    name = codes "codasaurus way";
    conditions =
        record { metric = new_blocker_issues; operator = gt; threshold = of_usize 0 }
        ∷ record { metric = new_medium_issues; operator = gt; threshold = of_usize 5 }
        ∷ [];
  }

  unfoldable pub eval : GateOperator → Carrier → Carrier → Bool
  eval gt value threshold = f64.gt value threshold
  eval gte value threshold = f64.gte value threshold
  eval lt value threshold = f64.lt value threshold
  eval lte value threshold = f64.lte value threshold
  eval eq value threshold = f64.near value threshold
  eval ne value threshold = f64.far value threshold

  -- The loop over the conditions.
  unfoldable pub failing : List (String × ℕ) → ℕ → List GateCondition → List FailedCondition
  unfolding measure eval
  failing counts total [] = []
  failing counts total (c ∷ cs) =
      let actual = of_usize (measure c.metric counts total) in
      let rest = failing counts total cs in
      if eval c.operator actual c.threshold
      then record {
        metric = c.metric;
        operator = c.operator;
        threshold = c.threshold;
        actual = actual;
      }
        ∷ rest
      else rest

  unfoldable pub evaluate_gate : QualityGate → List Finding → GateResult
  unfolding failing tally
  evaluate_gate gate findings =
      let failed = failing (tally [] findings) (length findings) gate.conditions in
      record { passed = is_nil failed; failed_conditions = failed }

  -- src/config.rs: the configuration of a gate, whose metrics and operators are still tags.
  pub record ConditionConfig : Type 0 where
    pub metric : String
    pub op : String
    pub threshold : Carrier

  pub record QualityGateConfig : Type 0 where
    pub name : Text
    pub conditions : List ConditionConfig

  unfoldable pub from_condition : ConditionConfig → GateCondition
  unfolding parse_metric parse_operator
  from_condition c = record {
    metric = parse_metric c.metric;
    operator = parse_operator c.op;
    threshold = c.threshold;
  }

  unfoldable pub from : QualityGateConfig → QualityGate
  unfolding from_condition
  from cfg = record { name = cfg.name; conditions = map from_condition cfg.conditions }
