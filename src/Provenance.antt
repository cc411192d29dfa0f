-- ===== src/Provenance.antt =====
-- src/bot/provenance.rs: which issues of a language model are posted, and how they are labelled. The
-- length in bytes of a word is an argument.
pub mod Vouched
pub mod Again
use codasaurus.Prelude.{
  ℕ, ◌+◌, ◌/◌, Text, codes, text_eq, ends_with, contains, trim, to_ascii_lowercase, text_one_of,
  split_whitespace, is_empty_text, List, [], ◌∷◌, ◌++◌, Option, none, some, Bool, false, not, ◌&&◌,
  ◌||◌, ltb, leb, ◌==◌, if◌then◌else◌, length, take, is_nil, retain, any,
}

-- src/llm/mod.rs.
pub record LlmReplacement : Type 0 where
  pub original : Text
  pub replacement : Text

pub record LlmIssue : Type 0 where
  pub severity : Text
  pub category : Text
  pub file : Text
  pub line : ℕ
  pub description : Text
  pub suggestion : Option Text
  pub confidence : Text
  pub rationale : Option Text
  pub replacement : Option LlmReplacement

unfoldable pub path_matches : Text → Text → Bool
path_matches known candidate =
    text_eq known candidate
    || (ends_with (b'/' ∷ candidate) known || ends_with (b'/' ∷ known) candidate)

unfoldable pub confidence_rank : Text → ℕ
confidence_rank conf =
    let c = to_ascii_lowercase conf in
    if text_eq c (codes "high")
    then 3
    else if text_eq c (codes "medium")
    then 2
    else if text_eq c (codes "low")
    then 1
    else 0

abbrev pub lower_severity : LlmIssue → Text
lower_severity i = to_ascii_lowercase i.severity

-- `critical` or `blocking`.
abbrev pub merge_blocking : Text → Bool
merge_blocking severity = text_one_of (to_ascii_lowercase severity) ("critical" ∷ "blocking" ∷ [])

-- Below a high confidence such a severity becomes a warning, and `blocking` itself is renamed.
unfoldable pub relabel : Text → ℕ → Text
relabel severity conf =
    let sev = to_ascii_lowercase severity in
    let label = if merge_blocking severity && ltb conf 3 then codes "warning" else severity in
    if text_eq sev (codes "blocking") && text_eq label (codes "blocking")
    then codes "critical"
    else label

abbrev pub text_or : Text → Option Text → Text
text_or d none = d
text_or d (some t) = t

unfoldable pub rationale_of : LlmIssue → Text
rationale_of i = trim (text_or i.description i.rationale)

-- A fix is kept only if its original text stands in the file.
unfoldable pub keep_fix : Option Text → Option LlmReplacement → Option LlmReplacement
keep_fix content none = none
keep_fix none (some r) = none
keep_fix (some content) (some r) = if contains r.original content then some r else none

module _ (byte_len : Text → ℕ) (known_paths : List Text) (file_contents : List (Text × Text)) where
  unfoldable pub tokens : LlmIssue → List Text
  tokens i = take 8 (
      retain (λ w. leb 6 (byte_len w))
        (split_whitespace i.description ++ split_whitespace (text_or [] i.rationale)))

  abbrev pub content_in : List (Text × Text) → Text → Option Text
  content_in [] file = none
  content_in ((path, content) ∷ rest) file =
      if path_matches path file then some content else content_in rest file

  unfoldable pub content_of : LlmIssue → Option Text
  content_of i = content_in file_contents i.file

  abbrev pub invented_in : LlmIssue → Option Text → Bool
  invented_in i none = false
  invented_in i (some content) =
      let words = tokens i in
      not (is_nil words)
      && (not (any (λ t. contains (to_ascii_lowercase t) (to_ascii_lowercase content)) words)
          && (i.line == 0 || text_eq (lower_severity i) (codes "critical")))

  unfoldable pub invented : LlmIssue → Bool
  invented i = invented_in i (content_of i)

  unfoldable pub is_known : LlmIssue → Bool
  is_known i = any (λ p. path_matches p i.file) known_paths

  unfoldable pub is_dropped : LlmIssue → Bool
  is_dropped i =
      (is_empty_text i.file || text_eq i.file (codes "?"))
      || (not (is_known i)
          || (ltb (confidence_rank i.confidence) 2
              || (ltb (length (rationale_of i)) 16
                  || ((i.line == 0 && not (text_eq (lower_severity i) (codes "info")))
                      || invented i))))

  abbrev pub posted : LlmIssue → LlmIssue
  posted i = record i {
    severity = relabel i.severity (confidence_rank i.confidence);
    replacement = keep_fix (content_of i) i.replacement;
  }

  unfoldable pub reverify_llm_issues : List LlmIssue → List LlmIssue
  reverify_llm_issues [] = []
  reverify_llm_issues (i ∷ is) =
      let rest = reverify_llm_issues is in if is_dropped i then rest else posted i ∷ rest
