-- ===== src/Tests/Posting.antt =====
-- The issues of a language model, at concrete ones.
use codasaurus.Provenance
use codasaurus.Provenance.{LlmIssue, reverify_llm_issues}
use codasaurus.Provenance.Vouched.{IsVouched, reverify_llm_issues-IsVouched}
use codasaurus.Provenance.Again.{reverify_llm_issues-twice}
use codasaurus.Prelude.{
  String, Text, codes, List, [], ◌∷◌, map, none, some, is_some, Bool, true, length, All, ◌≡◌, refl,
}

abbrev changed : List Text
changed = codes "src/a.rs" ∷ []

abbrev patches : List (Text × Text)
patches = (codes "src/a.rs", codes "let total = compute(price);") ∷ []

abbrev said : String → String → String → LlmIssue
said severity confidence description = record {
  severity = codes severity;
  category = codes "logic";
  file = codes "a.rs";
  line = 3;
  description = codes description;
  suggestion = none;
  confidence = codes confidence;
  rationale = none;
  replacement =
      some
        (record { original = codes "compute(price)"; replacement = codes "try_compute(price)?" });
}

abbrev spoken : List LlmIssue
spoken =
    said "critical" "medium" "this compute(price) may overflow"
    ∷ said "Critical" "HIGH" "nothing of the patch"
    ∷ said "warning" "low" "this compute(price) may overflow"
    ∷ []

abbrev heard : List LlmIssue → List (Text × Bool)
heard is =
    map (λ (i : LlmIssue). (i.severity, is_some i.replacement))
      (reverify_llm_issues length changed patches is)

spoken_heard : heard spoken ≡ (codes "warning", true) ∷ []
unfolding reverify_llm_issues Provenance.is_dropped Provenance.is_known Provenance.invented
    Provenance.content_of Provenance.tokens Provenance.rationale_of Provenance.confidence_rank
    Provenance.path_matches Provenance.relabel Provenance.keep_fix
spoken_heard = refl

-- The same words are dropped as `critical` and posted under that label as `blocking`.
blocking_heard :
    heard (said "blocking" "high" "nothing of the patch" ∷ []) ≡ (codes "critical", true) ∷ []
unfolding reverify_llm_issues Provenance.is_dropped Provenance.is_known Provenance.invented
    Provenance.content_of Provenance.tokens Provenance.rationale_of Provenance.confidence_rank
    Provenance.path_matches Provenance.relabel Provenance.keep_fix
blocking_heard = refl

reverify_llm_issues-IsVouched_example :
    All (IsVouched length changed patches) (reverify_llm_issues length changed patches spoken)
reverify_llm_issues-IsVouched_example = reverify_llm_issues-IsVouched length changed patches spoken

reverify_llm_issues-twice_example :
    reverify_llm_issues length changed patches (reverify_llm_issues length changed patches spoken)
    ≡ reverify_llm_issues length changed patches spoken
reverify_llm_issues-twice_example =
    reverify_llm_issues-twice length changed patches spoken (refl, (refl, (refl, tt)))
