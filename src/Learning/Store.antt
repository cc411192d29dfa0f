-- ===== src/Learning/Store.antt =====
-- src/learning/store.rs and src/learning/mine.rs, with the tables of src/db/migrations.rs: what was
-- dismissed, the rules learned from it, and when a dismissal becomes a rule. A statement is a
-- function on the store and the time; a new id is a function of the store.
use codasaurus.Learning.{scope_chain, path_matches_pattern}
use codasaurus.Prelude.{
  ℕ, String, Text, str_eq, text_eq, List, [], ◌∷◌, map, Option, none, some, Bool, true, not, ◌&&◌,
  ◌||◌, ltb, ◌==◌, if◌then◌else◌, one_of, length, retain, any, count_if, sort_by,
}

pub record Dismissed : Type 0 where
  pub fingerprint : Text
  pub repo_full_name : Text
  pub detector : String
  pub file : Text
  pub line : ℕ
  pub message : Text
  pub dismissed_at : ℕ
  pub pr_number : Option ℕ
  pub dismissed_by : Option Text
  pub is_maintainer : Bool

pub record Rule : Type 0 where
  pub id : Text
  pub detector : String
  pub file_pattern : Option Text
  pub message_pattern : Option Text
  pub action : String
  pub reason : Text
  pub created_at : ℕ
  pub match_count : ℕ
  pub last_matched_at : Option ℕ
  pub repo_full_name : Option Text
  pub status : String
  pub source_count : ℕ
  pub approved_at : Option ℕ
  pub archived_at : Option ℕ

pub record Store : Type 0 where
  pub dismissed_findings : List Dismissed
  pub learned_rules : List Rule

-- `unwrap_or`, and `COALESCE` of a column and a value.
abbrev pub unwrap_or {ℓ} : {A : Type ℓ} → A → Option A → A
unwrap_or d none = d
unwrap_or d (some a) = a

-- `COALESCE` of two columns.
abbrev pub coalesce {ℓ} : {A : Type ℓ} → Option A → Option A → Option A
coalesce none b = b
coalesce (some a) b = some a

abbrev pub in_scopes : List Text → Text → Bool
in_scopes scopes repo = any (text_eq repo) scopes

abbrev pub rule_scope : Rule → Text
rule_scope r = unwrap_or [] r.repo_full_name

-- The primary key of `dismissed_findings`.
abbrev pub same_key : Dismissed → Dismissed → Bool
same_key a b = text_eq a.repo_full_name b.repo_full_name && text_eq a.fingerprint b.fingerprint

-- `ON CONFLICT … DO UPDATE`.
abbrev pub redismissed : Dismissed → Dismissed → Dismissed
redismissed old new = record old {
  detector = new.detector;
  file = new.file;
  message = new.message;
  pr_number = coalesce new.pr_number old.pr_number;
  dismissed_by = coalesce new.dismissed_by old.dismissed_by;
  is_maintainer = old.is_maintainer || new.is_maintainer;
}

unfoldable pub upsert_dismissed : Dismissed → List Dismissed → List Dismissed
upsert_dismissed row [] = row ∷ []
upsert_dismissed row (r ∷ rs) =
    if same_key r row then redismissed r row ∷ rs else r ∷ upsert_dismissed row rs

unfoldable pub un_dismiss_fingerprint : Text → Option Text → Store → Bool × Store
un_dismiss_fingerprint fingerprint repo_full_name s =
    let here = λ (d : Dismissed).
      text_eq d.fingerprint fingerprint && text_eq d.repo_full_name (unwrap_or [] repo_full_name) in
    (
      any here s.dismissed_findings,
      record s { dismissed_findings = retain (λ d. not (here d)) s.dismissed_findings },
    )

-- `COUNT(DISTINCT …)`, in which NULL does not count.
abbrev pub distinct_numbers : List (Option ℕ) → List ℕ
distinct_numbers [] = []
distinct_numbers (none ∷ ns) = distinct_numbers ns
distinct_numbers (some n ∷ ns) =
    let rest = distinct_numbers ns in if any (λ m. m == n) rest then rest else n ∷ rest

unfoldable pub count_distinct_prs_for_detector : String → Option Text → Store → ℕ
count_distinct_prs_for_detector detector repo s = length (
    distinct_numbers (
      map (λ (d : Dismissed). d.pr_number)
        (retain (λ d. str_eq d.detector detector && text_eq d.repo_full_name (unwrap_or [] repo))
          s.dismissed_findings)))

unfoldable pub count_maintainer_dismissals_for_detector : String → Option Text → Store → ℕ
count_maintainer_dismissals_for_detector detector repo s =
    count_if
      (λ d.
        str_eq d.detector detector
        && (d.is_maintainer && in_scopes (scope_chain repo) d.repo_full_name))
      s.dismissed_findings

abbrev pub rewritten : Rule → Rule → Rule
rewritten old new = record old {
  detector = new.detector;
  file_pattern = new.file_pattern;
  message_pattern = new.message_pattern;
  action = new.action;
  reason = new.reason;
  repo_full_name = coalesce new.repo_full_name old.repo_full_name;
  status = new.status;
  source_count = new.source_count;
}

abbrev pub upsert_rule : Rule → List Rule → List Rule
upsert_rule rule [] = rule ∷ []
upsert_rule rule (r ∷ rs) =
    if text_eq r.id rule.id then rewritten r rule ∷ rs else r ∷ upsert_rule rule rs

unfoldable pub add_rule_async : Rule → Store → Store
add_rule_async rule s = record s { learned_rules = upsert_rule rule s.learned_rules }

-- `UPDATE learned_rules … WHERE …`: whether a row changed, and the table.
abbrev pub update_rules : (Rule → Bool) → (Rule → Rule) → Store → Bool × Store
update_rules p f s = (
  any p s.learned_rules,
  record s { learned_rules = map (λ r. if p r then f r else r) s.learned_rules },
)

unfoldable pub approve_rule : ℕ → Text → Store → Bool × Store
approve_rule now id =
    update_rules (λ r. text_eq r.id id && str_eq r.status "suggested")
      (λ r. record r { status = "approved"; approved_at = some now })

unfoldable pub archive_rule : ℕ → Text → Store → Bool × Store
archive_rule now id =
    update_rules (λ r. text_eq r.id id && one_of r.status ("suggested" ∷ "approved" ∷ []))
      (λ r. record r { status = "archived"; archived_at = some now })

unfoldable pub delete_rule : Text → Store → Bool × Store
delete_rule id s = (
  any (λ (r : Rule). text_eq r.id id) s.learned_rules,
  record s { learned_rules = retain (λ r. not (text_eq r.id id)) s.learned_rules },
)

-- `ORDER BY length(scope) DESC, source_count DESC, id`; the order of ids is that of the database.
abbrev pub precedes : (Text → Text → Bool) → Rule → Rule → Bool
precedes id_le a b =
    let la = length (rule_scope a) in
    let lb = length (rule_scope b) in
    ltb lb la
    || (la == lb
        && (ltb b.source_count a.source_count
            || (a.source_count == b.source_count && id_le a.id b.id)))

abbrev pub first_of {ℓ} : {A : Type ℓ} → (A → Bool) → List A → Option A
first_of p [] = none
first_of p (x ∷ xs) = if p x then some x else first_of p xs

abbrev pub none_or : (Text → Bool) → Option Text → Bool
none_or p none = true
none_or p (some t) = p t

abbrev pub file_matches : (Text → Text) → Text → Rule → Bool
file_matches to_lowercase file r = none_or (path_matches_pattern to_lowercase file) r.file_pattern

unfoldable pub find_approved_rule_for_detector :
    (Text → Text → Bool) → (Text → Text) → String → Text → Option Text → Store → Option Rule
find_approved_rule_for_detector id_le to_lowercase detector file repo s =
    first_of (file_matches to_lowercase file) (
      sort_by (precedes id_le) (
        retain
          (λ r.
            str_eq r.detector detector
            && (str_eq r.status "approved" && in_scopes (scope_chain repo) (rule_scope r)))
          s.learned_rules))
