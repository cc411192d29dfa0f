-- ===== src/Pipeline/Comments.antt =====
-- src/bot/review/pipeline.rs: the loop that chooses which findings get a comment in the diff, and
-- sees whether one blocks.
use codasaurus.Finding.{Finding, is_blocking, is_warning}
use codasaurus.Pipeline.Merge.{merge_vulnerability_findings}
use codasaurus.Prelude.{
  ℕ, String, Text, codes, str_eq, text_eq, starts_with, contains, to_ascii_lowercase, List, [], ◌∷◌,
  ◌++◌, map, Bool, true, false, ◌&&◌, ◌||◌, leb, ◌==◌, if◌then◌else◌, length, any, sort_by,
}

-- `to_ascii_lowercase().replace('\\', "/")`.
abbrev pub normal_path : Text → Text
normal_path path = map (λ c. if c == 92 then 47 else c) (to_ascii_lowercase path)

unfoldable pub is_golden_fixture_path : Text → Bool
is_golden_fixture_path path =
    let lower = normal_path path in
    contains (codes "/fixtures/golden/") lower
    || starts_with (codes "golden/") lower
    || (contains (codes "/golden/") lower && contains (codes "/input.") lower)

unfoldable pub severity_order : Finding → ℕ
severity_order f = if is_blocking f then 0 else if is_warning f then 1 else 2

abbrev pub severity_le : Finding → Finding → Bool
severity_le a b = leb (severity_order a) (severity_order b)

-- The variables of the loop: the findings that get a comment, the pairs of file and detector that
-- had one, whether something blocks, and whether the loop was left.
pub record Choice : Type 0 where
  pub posted : List Finding
  pub seen : List (Text × String)
  pub has_blocking : Bool
  pub left : Bool

abbrev pub start : Choice
start = record { posted = []; seen = []; has_blocking = false; left = false }

abbrev pub is_seen : Finding → List (Text × String) → Bool
is_seen f seen = any (λ k. text_eq k.0 f.file && str_eq k.1 f.detector) seen

module _ (max_inline_comments : ℕ) (already_commented : Finding → Bool) where
  -- The body of the loop; `already_commented` looks the short fingerprint of a finding up among the
  -- comments on the pull request.
  unfoldable pub visit : Choice → Finding → Choice
  visit c f =
      if c.left
      then c
      else (let c = record c { has_blocking = c.has_blocking || is_blocking f } in
          if f.line == 0
          then c
          else if is_golden_fixture_path f.file
          then c
          else if leb max_inline_comments (length c.posted)
          then record c { left = true }
          else if is_seen f c.seen
          then c
          else (let c = record c { seen = (f.file, f.detector) ∷ c.seen } in
              if already_commented f then c else record c { posted = c.posted ++ f ∷ [] }))

  unfoldable pub visit_all : Choice → List Finding → Choice
  unfolding visit
  visit_all c [] = c
  visit_all c (f ∷ fs) = visit_all (visit c f) fs

  unfoldable pub choose_comments : List Finding → Choice
  unfolding visit_all
  choose_comments findings =
      visit_all start (sort_by severity_le (merge_vulnerability_findings findings))
