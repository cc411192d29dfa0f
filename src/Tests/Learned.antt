-- ===== src/Tests/Learned.antt =====
-- What was learned, at concrete stores.
use codasaurus.Finding.{fingerprint}
use codasaurus.Learning.Store.{Rule, Store}
use codasaurus.Learning.Filter.{filter_findings_async}
use codasaurus.Learning.Promotion.{
  LearningConfig, dismiss_fingerprint_for_repo, mine_pr_comment_feedback, extract_detector_mention,
}
use codasaurus.Learning.Suppressed.{is_suppressed, adjusted_by, filter_findings_async-kept}
use codasaurus.Learning.Dismissing.{filter_findings_async-dismiss}
use codasaurus.Learning.Isolated.{at_home, filter_findings_async-isolated}
use codasaurus.Learning.Mined.{Harmless, mine_pr_comment_feedback-Harmless}
use codasaurus.Tests.Findings.{secret, three}
use codasaurus.Prelude.{
  String, Text, codes, text_eq, text_le, decimal, List, [], ◌∷◌, map, Option, none, some, true,
  false, not, length, retain, any, sort_by, ◌≡◌, refl,
}

-- Ids in the order of their code points, paths in lower case, and the bytes in place of a hash.
abbrev pub same : Text → Text
same t = t

abbrev pub fresh : Store → Text
fresh s = decimal (length s.learned_rules)

abbrev repo : Option Text
repo = some (codes "acme/api")

abbrev rule : String → String → String → Rule
rule name detector action = record {
  id = codes name;
  detector = detector;
  file_pattern = some (codes "src");
  message_pattern = none;
  action = action;
  reason = [];
  created_at = 0;
  match_count = 0;
  last_matched_at = none;
  repo_full_name = some (codes "acme/");
  status = "approved";
  source_count = 1;
  approved_at = none;
  archived_at = none;
}

abbrev pub store : Store
store = record {
  dismissed_findings = [];
  learned_rules =
      rule "r1" "secrets" "downgrade"
      ∷ rule "r2" "boilerplate" "ignore"
      ∷ record (rule "r3" "todo-leaks" "ignore") { repo_full_name = some (codes "globex/") }
      ∷ [];
}

abbrev pub config : LearningConfig
config = record {
  auto_approve_rules = false;
  min_dismissals_for_rule = 3;
  security_detectors = [];
  false_positive_hints = [];
  pushback_hints = [];
}

abbrev comments : List Text
comments =
    codes "secrets: false positive"
    ∷ codes "please fix the todo-leaks"
    ∷ codes "boilerplate is noise"
    ∷ []

longest_name_first :
    extract_detector_mention (codes "dependency-vulns is noise") ≡ some "dependency-vulns"
unfolding extract_detector_mention sort_by
longest_name_first = refl

filter_findings_async-kept_example :
    (filter_findings_async text_le same same 9 three repo store).0
    ≡ map
        (adjusted_by text_le same same repo store)
        (retain (λ f. not (is_suppressed text_le same same repo store f)) three)
filter_findings_async-kept_example = filter_findings_async-kept text_le same same 9 three repo store

filter_findings_async-dismiss_example :
    any
      (λ f. text_eq (fingerprint same f) (fingerprint same secret))
      (filter_findings_async text_le same same 9 three repo (
        dismiss_fingerprint_for_repo text_le same fresh config 5
          (fingerprint same secret)
          "secrets"
          (codes "src/a.rs")
          (codes "m")
          repo
          (some 7)
          none
          true
          store)).0
    ≡ false
filter_findings_async-dismiss_example =
    filter_findings_async-dismiss text_le same fresh same config 5 9 (fingerprint same secret)
      "secrets" (codes "src/a.rs") (codes "m") repo (some 7) none true store three

filter_findings_async-isolated_example :
    (filter_findings_async text_le same same 9 three repo store).0
    ≡ (filter_findings_async text_le same same 9 three repo (at_home (codes "acme") store)).0
filter_findings_async-isolated_example =
    filter_findings_async-isolated text_le same same (codes "acme") (codes "api") refl store 9 three

mine_pr_comment_feedback-Harmless_example :
    Harmless config store
      (mine_pr_comment_feedback text_le same fresh config 5
        (codes "acme/api")
        7
        comments
        []
        store).0
mine_pr_comment_feedback-Harmless_example =
    mine_pr_comment_feedback-Harmless config text_le same fresh 5 (codes "acme/api") 7 comments []
      store
