-- ===== src/Baseline.antt =====
-- src/baseline.rs: the lines that a pull request changes, and the filter that keeps the findings on
-- them. The tables are lists of rows; a column of type INTEGER holds 32 bits.
pub mod Filtered
pub mod Saved
use codasaurus.Finding.{Finding}
use codasaurus.Prelude.{
  ℕ, ◌+◌, ◌-◌, ◌%◌, ◌^◌, Text, codes, text_eq, strip_prefix, starts_with, trim, parse_usize, lines,
  before_char, List, [], ◌∷◌, ◌++◌, map, Option, none, some, Bool, not, ◌&&◌, ltb, ◌==◌,
  if◌then◌else◌, is_nil, retain, any, all,
}

-- `split_once` at a text.
abbrev pub split_once : Text → Text → Option (Text × Text)
split_once sep s = at (strip_prefix sep s) s
  where
    more : ℕ → Option (Text × Text) → Option (Text × Text)
    more c none = none
    more c (some (a, b)) = some (c ∷ a, b)

    at : Option Text → Text → Option (Text × Text)
    at (some r) t = some ([], r)
    at none [] = none
    at none (c ∷ t) = more c (at (strip_prefix sep t) t)

abbrev pub parsed_or_one : Text → ℕ
parsed_or_one s = elim (parse_usize s) [ none ↦ 1 | some n ↦ n ]

unfoldable pub parse_hunk_start_count : Text → ℕ × ℕ
parse_hunk_start_count text = elim (before_char b',' (trim text)) [
  | some (start, count) ↦ (parsed_or_one start, parsed_or_one count)
  | none ↦ (parsed_or_one (trim text), 1)
]

-- The variables of the loop over the lines of a patch.
pub record Scan : Type 0 where
  pub lines : List ℕ
  pub new_line : ℕ

-- A hunk header sets the line, if it has the shape of one.
unfoldable pub hunk_start : Text → ℕ → ℕ
unfolding parse_hunk_start_count
hunk_start header n = elim (split_once (codes " +") header) [
  | none ↦ n
  | some (a, rest) ↦ elim (split_once (codes " @@") rest) [
    | none ↦ (parse_hunk_start_count rest).0
    | some (rhs, b) ↦ (parse_hunk_start_count rhs).0
  ]
]

unfoldable pub scan_line : Scan → Text → Scan
unfolding hunk_start
scan_line s line = elim (strip_prefix (codes "@@") line) [
  | some header ↦ record s { new_line = hunk_start header s.new_line }
  | none ↦
      if starts_with (codes "+") line
      then record { lines = s.new_line ∷ s.lines; new_line = s.new_line + 1 }
      else if starts_with (codes "-") line
      then s
      else if starts_with (codes " ") line
      then record s { new_line = s.new_line + 1 }
      else s
]

unfoldable pub scan_all : Scan → List Text → Scan
unfolding scan_line
scan_all s [] = s
scan_all s (l ∷ ls) = scan_all (scan_line s l) ls

unfoldable pub parse_patch_changed_lines : Text → List ℕ
unfolding scan_all
parse_patch_changed_lines patch =
    (scan_all (record { lines = []; new_line = 0 }) (lines patch)).lines

-- Rows of `pr_diff_lines` and of `finding_baseline`.
pub record DiffLine : Type 0 where
  pub repo : Text
  pub pr : ℕ
  pub file : Text
  pub line : ℕ

pub record Known : Type 0 where
  pub repo : Text
  pub fingerprint : Text

pub record Tables : Type 0 where
  pub diff_lines : List DiffLine
  pub baseline : List Known

abbrev pub is_row : Text → ℕ → Text → ℕ → DiffLine → Bool
is_row repo pr file line r =
    text_eq r.repo repo && (r.pr == pr && (text_eq r.file file && r.line == line))

-- `INSERT … ON CONFLICT DO NOTHING`, line by line.
unfoldable pub insert_lines : Text → ℕ → Text → List ℕ → List DiffLine → List DiffLine
insert_lines repo pr file [] rows = rows
insert_lines repo pr file (l ∷ ls) rows = insert_lines repo pr file ls (
    if any (is_row repo pr file l) rows
    then rows
    else record { repo = repo; pr = pr; file = file; line = l } ∷ rows)

-- A line that does not fit in the column is an error of the statement, which then does nothing.
unfoldable pub save_pr_diff_lines : Text → ℕ → Text → List ℕ → Tables → Option Tables
unfolding insert_lines
save_pr_diff_lines repo pr file changed t =
    if is_nil changed
    then some t
    else if all (λ l. ltb l (2 ^ 31)) changed
    then some (record t { diff_lines = insert_lines repo pr file changed t.diff_lines })
    else none

unfoldable pub clear_pr_diff_lines : Text → ℕ → Tables → Tables
clear_pr_diff_lines repo pr t = record t {
  diff_lines = retain (λ r. not (text_eq r.repo repo && r.pr == pr)) t.diff_lines;
}

abbrev pub is_known : Text → Text → Known → Bool
is_known repo fp k = text_eq k.repo repo && text_eq k.fingerprint fp

-- `new_by_file`, asked for the line of a finding `as i32`.
unfoldable pub is_new : Text → ℕ → List DiffLine → Finding → Bool
is_new repo pr rows f = any (is_row repo pr f.file (f.line % 2 ^ 32)) rows

unfoldable pub record_baselines : Text → List Text → List Known → List Known
record_baselines repo [] known = known
record_baselines repo (fp ∷ fps) known = record_baselines repo fps (
    if any (is_known repo fp) known
    then known
    else record { repo = repo; fingerprint = fp } ∷ known)

-- The variables of the loop over the findings; `known` is the set of fingerprints.
pub record Filter : Type 0 where
  pub out : List Finding
  pub known : List Text
  pub new_baselines : List Text

module _ (fingerprint : Finding → Text) (repo : Text) (pr : ℕ) where
  unfoldable pub filter_one : List DiffLine → Filter → Finding → Filter
  unfolding is_new
  filter_one rows s f =
      if is_new repo pr rows f
      then record s { out = s.out ++ f ∷ [] }
      else if any (text_eq (fingerprint f)) s.known
      then s
      else record s {
        known = fingerprint f ∷ s.known;
        new_baselines = s.new_baselines ++ fingerprint f ∷ [];
      }

  unfoldable pub filter_all : List DiffLine → Filter → List Finding → Filter
  unfolding filter_one
  filter_all rows s [] = s
  filter_all rows s (f ∷ fs) = filter_all rows (filter_one rows s f) fs

  unfoldable pub filter_new_code_findings : List Finding → Tables → Tables × List Finding
  unfolding filter_all record_baselines
  filter_new_code_findings findings t =
      let known =
        map (λ (k : Known). k.fingerprint) (retain (λ k. text_eq k.repo repo) t.baseline) in
      let s =
        filter_all t.diff_lines (record { out = []; known = known; new_baselines = [] }) findings in
      (record t { baseline = record_baselines repo s.new_baselines t.baseline }, s.out)
