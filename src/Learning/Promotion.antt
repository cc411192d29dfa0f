-- ===== src/Learning/Promotion.antt =====
-- src/learning/mine.rs and `LearningConfig` of src/config.rs: when dismissals and comments become
-- rules.
use codasaurus.Finding.{utf8}
use codasaurus.Learning.Store.{
  Dismissed, Rule, Store, unwrap_or, upsert_dismissed, add_rule_async, archive_rule,
  count_distinct_prs_for_detector, count_maintainer_dismissals_for_detector,
  find_approved_rule_for_detector, first_of,
}
use codasaurus.Prelude.{
  ℕ, ◌+◌, max, String, Text, codes, str_eq, text_eq, contains, trim, to_ascii_lowercase, decimal,
  split_whitespace, is_empty_text, List, [], ◌∷◌, ◌++◌, map, Option, none, some, Bool, true, false,
  ◌&&◌, ◌||◌, ltb, leb, ◌==◌, if◌then◌else◌, one_of, length, take, is_nil, any, sort_by,
}

-- `DETECTOR_REGISTRY`: the names, and whether a detector is one for security.
abbrev pub detector_registry : List (String × Bool)
detector_registry =
    ("boilerplate", false)
    ∷ ("dependency-confusion", true)
    ∷ ("dependency-vulns", true)
    ∷ ("graph", false)
    ∷ ("guidelines", false)
    ∷ ("hallucinated-imports", true)
    ∷ ("iac", true)
    ∷ ("license-drift", false)
    ∷ ("lockfile-drift", true)
    ∷ ("over-engineering", false)
    ∷ ("phantom-deps", true)
    ∷ ("risky-patterns", true)
    ∷ ("secrets", true)
    ∷ ("slop-detection", false)
    ∷ ("stale-api", false)
    ∷ ("test-coverage", false)
    ∷ ("todo-leaks", false)
    ∷ ("vulnerabilities", true)
    ∷ []

pub record LearningConfig : Type 0 where
  pub auto_approve_rules : Bool
  pub min_dismissals_for_rule : ℕ
  pub security_detectors : List String
  pub false_positive_hints : List Text
  pub pushback_hints : List Text

unfoldable pub is_security_detector : LearningConfig → String → Bool
is_security_detector cfg detector =
    any (λ (d : String × Bool). str_eq d.0 detector && d.1) detector_registry
    || any (λ d. str_eq d detector) cfg.security_detectors

unfoldable pub min_dismissals : LearningConfig → ℕ
min_dismissals cfg = max cfg.min_dismissals_for_rule 1

-- `rsplit_once('/')`, the part before.
abbrev pub before_last_slash : Text → Option Text
before_last_slash [] = none
before_last_slash (c ∷ s) = elim (before_last_slash s) [
  | some dir ↦ some (c ∷ dir)
  | none ↦ if c == b'/' then some [] else none
]

unfoldable pub file_pattern_from_path : Text → Option Text
file_pattern_from_path file =
    if is_empty_text file || text_eq file (codes "unknown")
    then none
    else elim (before_last_slash file) [
      | none ↦ some file
      | some dir ↦ if is_empty_text dir then some file else some dir
    ]

abbrev pub join : Text → List Text → Text
join sep [] = []
join sep (t ∷ []) = t
join sep (t ∷ u ∷ ts) = t ++ (sep ++ join sep (u ∷ ts))

unfoldable pub message_pattern_hint : Text → Option Text
unfolding utf8
message_pattern_hint message =
    let m = trim message in
    let cleaned = join (codes " ") (take 5 (split_whitespace (take 48 m))) in
    if ltb (length (utf8 m)) 12
    then none
    else if leb 8 (length (utf8 cleaned))
    then some cleaned
    else none

-- `learning.min_dismissals_for_rule` distinct pull requests, or a maintainer; for a detector of
-- security only a maintainer.
abbrev pub allowed : LearningConfig → String → ℕ → ℕ → Bool
allowed cfg detector maintainer_hit distinct_prs =
    if is_security_detector cfg detector
    then leb 1 maintainer_hit
    else leb 1 maintainer_hit || leb (min_dismissals cfg) distinct_prs

abbrev pub is_unnamed : String → Bool
is_unnamed detector = one_of detector ("" ∷ "manual" ∷ "reaction" ∷ [])

-- `repo_full_name.filter(|r| !r.is_empty())`.
abbrev pub named_repo : Option Text → Option Text
named_repo none = none
named_repo (some r) = if is_empty_text r then none else some r

module _ (id_le : Text → Text → Bool) (to_lowercase : Text → Text) (uuid : Store → Text)
    (cfg : LearningConfig) (now : ℕ) where
  abbrev pub reason_for : String → ℕ → ℕ → Text
  reason_for detector maintainer_hit distinct_prs =
      if leb 1 maintainer_hit
      then codes "auto-learned after maintainer dismiss of `" ++ (codes detector ++ codes "`")
      else codes "auto-learned after dismissals of `"
        ++ (codes detector ++ (codes "` across " ++ (decimal distinct_prs ++ codes " PRs")))

  abbrev pub promoted : String → Text → Text → Option Text → Store → Rule
  promoted detector file message repo s =
      let maintainer_hit = count_maintainer_dismissals_for_detector detector repo s in
      let distinct_prs = count_distinct_prs_for_detector detector repo s in
      record {
        id = codes "auto-" ++ uuid s;
        detector = detector;
        file_pattern = file_pattern_from_path file;
        message_pattern = message_pattern_hint message;
        action = "ignore";
        reason = reason_for detector maintainer_hit distinct_prs;
        created_at = now;
        match_count = 0;
        last_matched_at = none;
        repo_full_name = named_repo repo;
        status = if cfg.auto_approve_rules then "approved" else "suggested";
        source_count = max (max maintainer_hit distinct_prs) 1;
        approved_at = none;
        archived_at = none;
      }

  abbrev pub decay_or_promote : Option Rule → String → Text → Text → Option Text → Store → Store
  decay_or_promote (some r) detector file message repo s = (archive_rule now r.id s).1
  decay_or_promote none detector file message repo s =
      if allowed cfg detector (count_maintainer_dismissals_for_detector detector repo s)
        (count_distinct_prs_for_detector detector repo s)
      then add_rule_async (promoted detector file message repo s) s
      else s

  unfoldable pub promote_dismissal_to_rule : String → Text → Text → Option Text → Store → Store
  promote_dismissal_to_rule detector file message repo s =
      if is_unnamed detector
      then s
      else decay_or_promote
          (find_approved_rule_for_detector id_le to_lowercase detector file repo s) detector file
          message repo s

  unfoldable pub dismiss_fingerprint_for_repo :
      Text → String → Text → Text → Option Text → Option ℕ → Option Text → Bool → Store → Store
  dismiss_fingerprint_for_repo fingerprint detector file message repo pr_number by is_maintainer s =
      let row : Dismissed = record {
        fingerprint = fingerprint;
        repo_full_name = unwrap_or [] repo;
        detector = detector;
        file = file;
        line = 0;
        message = message;
        dismissed_at = now;
        pr_number = pr_number;
        dismissed_by = by;
        is_maintainer = is_maintainer;
      } in
      promote_dismissal_to_rule detector file message repo
        (record s { dismissed_findings = upsert_dismissed row s.dismissed_findings })

-- `sort_by_key` by falling length, and the first name that the comment holds.
unfoldable pub extract_detector_mention : Text → Option String
extract_detector_mention lower =
    first_of (λ d. contains (codes d) lower)
      (sort_by (λ a b. leb (length (codes b)) (length (codes a)))
        (map (λ (d : String × Bool). d.0) detector_registry))

abbrev pub default_false_positive_hints : List Text
default_false_positive_hints =
    codes "false positive"
    ∷ codes "false-positive"
    ∷ codes "not a bug"
    ∷ codes "not an issue"
    ∷ codes "ignore this"
    ∷ codes "won't fix"
    ∷ codes "wont fix"
    ∷ codes "noise"
    ∷ codes "not relevant"
    ∷ []

abbrev pub default_pushback_hints : List Text
default_pushback_hints =
    codes "please fix"
    ∷ codes "must fix"
    ∷ codes "blocking"
    ∷ codes "do not merge"
    ∷ codes "request changes"
    ∷ codes "needs fix"
    ∷ []

module _ (id_le : Text → Text → Bool) (to_lowercase : Text → Text) (uuid : Store → Text)
    (cfg : LearningConfig) (now : ℕ) where
  abbrev pub lowercased_or_default : List Text → List Text → List Text
  lowercased_or_default configured fallback =
      if is_nil configured then map to_lowercase fallback else map to_lowercase configured

  abbrev pub mentions_any : List Text → Text → Bool
  mentions_any hints lower = any (λ h. contains h lower) hints

  -- Traffic of the bot's own commands.
  abbrev pub is_own_command : Text → Bool
  is_own_command lower =
      contains (codes "@codasaurus") lower
      && (contains (codes "help") lower || contains (codes "review") lower)

  abbrev pub false_positive : Text → ℕ → Option String → Store × ℕ → Store × ℕ
  false_positive repo pr none (s, learned) = (s, learned)
  false_positive repo pr (some det) (s, learned) =
      if is_security_detector cfg det then (s, learned) else (
        dismiss_fingerprint_for_repo id_le to_lowercase uuid cfg now
            (codes "mined-fp:" ++ (decimal pr ++ (codes ":" ++ codes det))) det []
            (codes "mined false-positive signal") (some repo) (some pr) none false s,
        learned + 1,
      )

  abbrev pub pushback : Text → ℕ → Option String → Store × ℕ → Store × ℕ
  pushback repo pr none (s, learned) = (s, learned)
  pushback repo pr (some det) (s, learned) =
      let rule : Rule = record {
        id = codes "pb-" ++ uuid s;
        detector = det;
        file_pattern = none;
        message_pattern = none;
        action = "always_warn";
        reason = codes "mined pushback signal on PR #" ++ decimal pr;
        created_at = now;
        match_count = 0;
        last_matched_at = none;
        repo_full_name = some repo;
        status = "approved";
        source_count = 1;
        approved_at = none;
        archived_at = none;
      } in
      (add_rule_async rule s, learned + 1)

  unfoldable pub mine_comment : Text → ℕ → Text → Store × ℕ → Store × ℕ
  mine_comment repo pr body state =
      let lower = to_ascii_lowercase body in
      if is_own_command lower
      then state
      else if mentions_any
          (lowercased_or_default cfg.false_positive_hints default_false_positive_hints) lower
      then false_positive repo pr (extract_detector_mention lower) state
      else if mentions_any (lowercased_or_default cfg.pushback_hints default_pushback_hints) lower
      then pushback repo pr (extract_detector_mention lower) state
      else state

  abbrev pub mine_all : Text → ℕ → List Text → Store × ℕ → Store × ℕ
  mine_all repo pr [] state = state
  mine_all repo pr (body ∷ bodies) state = mine_all repo pr bodies (mine_comment repo pr body state)

  -- The bodies are those of the comments on the issue, then of those on the review.
  unfoldable pub mine_pr_comment_feedback : Text → ℕ → List Text → List Text → Store → Store × ℕ
  mine_pr_comment_feedback repo pr issue_comments review_comments s =
      mine_all repo pr (issue_comments ++ review_comments) (s, 0)
