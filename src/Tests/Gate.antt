-- ===== src/Tests/Gate.antt =====
-- src/gates.rs at concrete inputs, over whole numbers in place of floats.
use codasaurus.Finding.{is_blocking, is_warning}
use codasaurus.Gates.{F64, QualityGate, evaluate_gate}
use codasaurus.Gates as Gates
use codasaurus.Gates.Evaluation.{evaluate_gate-default}
use codasaurus.Tests.Findings.{three}
use codasaurus.Prelude.{ℕ, ◌≤◌, true, not, ltb, leb, ◌==◌, count_if, ◌≡◌, refl, ◌↔◌, arith}

abbrev whole : F64
whole = record {
  Carrier = ℕ;
  of_usize = λ n. n;
  gt = λ a b. ltb b a;
  gte = λ a b. leb b a;
  lt = ltb;
  lte = leb;
  near = ◌==◌;
  far = λ a b. not (a == b);
}

evaluate_gate-default_example :
    ((evaluate_gate whole (Gates.default whole) three).passed ≡ true)
    ↔ ((count_if is_blocking three ≡ 0) × (count_if is_warning three ≤ 5))
evaluate_gate-default_example = evaluate_gate-default whole three (λ a b p q. refl) (omega arith)
