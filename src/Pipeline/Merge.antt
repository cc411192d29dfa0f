-- ===== src/Pipeline/Merge.antt =====
-- src/bot/review/findings.rs: the merge of the vulnerability findings of one line, and the floor of
-- severities.
use codasaurus.Finding.{Finding}
use codasaurus.Prelude.{
  ℕ, String, Text, codes, str_eq, text_eq, text_le, decimal, before_char, List, [], ◌∷◌, ◌++◌, map,
  Option, none, some, Bool, not, ◌&&◌, ltb, leb, ◌==◌, if◌then◌else◌, length, retain,
}

unfoldable pub severity_at_least : String → String → Bool
severity_at_least sev least = leb (floor_rank least) (floor_rank sev)
  where
    floor_rank : String → ℕ
    floor_rank s = if str_eq s "blocking" then 3 else if str_eq s "warning" then 2 else 1

abbrev pub is_vulnerability : Finding → Bool
is_vulnerability f = str_eq f.detector "vulnerabilities" && ltb 0 f.line

-- An entry of the `BTreeMap`.
pub record Group : Type 0 where
  pub file : Text
  pub line : ℕ
  pub members : List Finding

abbrev pub is_of : Finding → Group → Bool
is_of f g = text_eq f.file g.file && f.line == g.line

-- The order of the keys: by file, and then by line.
abbrev pub goes_before : Finding → Group → Bool
goes_before f g = if text_eq f.file g.file then ltb f.line g.line else text_le f.file g.file

abbrev pub join : Text → List Text → Text
join sep [] = []
join sep (t ∷ []) = t
join sep (t ∷ u ∷ us) = t ++ (sep ++ join sep (u ∷ us))

unfoldable pub add_to_group : Finding → List Group → List Group
add_to_group f [] = record { file = f.file; line = f.line; members = f ∷ [] } ∷ []
add_to_group f (g ∷ gs) =
    let rest = add_to_group f gs in
    if is_of f g
    then record g { members = g.members ++ f ∷ [] } ∷ gs
    else if goes_before f g
    then record { file = f.file; line = f.line; members = f ∷ [] } ∷ g ∷ gs
    else g ∷ rest

unfoldable pub group_all : List Finding → List Group → List Group
unfolding add_to_group
group_all [] gs = gs
group_all (f ∷ fs) gs = group_all fs (add_to_group f gs)

unfoldable pub severity_weight : String → ℕ
severity_weight s = if str_eq s "blocking" then 3 else if str_eq s "warning" then 2 else 1

-- `max_by_key` keeps the last of the greatest.
unfoldable pub max_severity : String → List Finding → String
unfolding severity_weight
max_severity best [] = best
max_severity best (f ∷ fs) =
    max_severity
      (if leb (severity_weight best) (severity_weight f.severity) then f.severity else best) fs

unfoldable pub group_severity : List Finding → String
unfolding max_severity
group_severity [] = "info"
group_severity (f ∷ fs) = max_severity f.severity fs

abbrev pub shown_severity : String → String
shown_severity s =
    if str_eq s "blocking" then "blocking" else if str_eq s "warning" then "warning" else "info"

abbrev pub before_colon : Text → Text
before_colon t = until (before_char b':' t)
  where
    until : Option (Text × Text) → Text
    until none = t
    until (some (a, b)) = a

abbrev pub first_suggestion : List Finding → Option Text
first_suggestion [] = none
first_suggestion (f ∷ fs) = f.suggestion

unfoldable pub merged_finding : Group → Finding
unfolding group_severity
merged_finding g =
    let count = length g.members in
    record {
      detector = "vulnerabilities";
      severity = shown_severity (group_severity g.members);
      file = g.file;
      line = g.line;
      column = 0;
      message =
          decimal count
          ++ (codes " known CVE"
              ++ ((if count == 1 then [] else codes "s")
                  ++ (codes ": "
                      ++ join (codes ", ") (map (λ f. before_colon f.message) g.members))));
      suggestion = first_suggestion g.members;
      evidence = none;
      codemod = none;
      confidence = none;
      judge_rationale = none;
      reachability = none;
    }

unfoldable pub emit_group : Group → List Finding
unfolding merged_finding
emit_group g = if leb (length g.members) 1 then g.members else merged_finding g ∷ []

unfoldable pub emit_all : List Group → List Finding
unfolding emit_group
emit_all [] = []
emit_all (g ∷ gs) = emit_group g ++ emit_all gs

unfoldable pub merge_vulnerability_findings : List Finding → List Finding
unfolding emit_all group_all
merge_vulnerability_findings findings =
    retain (λ f. not (is_vulnerability f)) findings
    ++ emit_all (group_all (retain is_vulnerability findings) [])
