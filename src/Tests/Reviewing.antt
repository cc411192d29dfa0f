-- ===== src/Tests/Reviewing.antt =====
-- The pipeline of a review at concrete inputs.
use codasaurus.Finding.{Finding, is_blocking}
use codasaurus.Strictness.{balanced}
use codasaurus.Baseline.{
  Tables, is_new, is_known, is_row, filter_new_code_findings, save_pr_diff_lines,
  clear_pr_diff_lines, parse_patch_changed_lines,
}
use codasaurus.Baseline.Filtered.{filter_new_code_findings-out}
use codasaurus.Baseline.Saved.{save-clear}
use codasaurus.Pipeline.Comments.{choose_comments}
use codasaurus.Pipeline.Verdict.{choose_comments-has_blocking}
use codasaurus.Pipeline.Chosen.{choose_comments-posted, Commentable, pair_of}
use codasaurus.Pipeline.Stages.{PullRequest, ReviewConfig, review_findings, gated_findings}
use codasaurus.Pipeline.Reviewed.{review_findings-blocking}
use codasaurus.Tests.Findings.{three, secret, finding}
use codasaurus.Tests.Policies.{pack, gates}
use codasaurus.Prelude.{
  ℕ, ◌≤◌, Text, codes, text_eq, List, [], ◌∷◌, map, none, some, Bool, true, false, ◌&&◌, ◌==◌,
  length, retain, any, All, Distinct, ◌≡◌, refl,
}

changed_lines :
    parse_patch_changed_lines
      (codes "@@ -1,3 +1,5 @@\n line1\n-line2\n+line2new\n+line3new\n line4\n")
    ≡ 3 ∷ 2 ∷ []
unfolding parse_patch_changed_lines
changed_lines = refl

abbrev cve : List Finding
cve =
    finding "vulnerabilities" "info" (codes "Cargo.toml") 4
    ∷ secret
    ∷ finding "vulnerabilities" "blocking" (codes "Cargo.toml") 4
    ∷ []

abbrev never : Finding → Bool
never f = false

choose_comments-has_blocking_example :
    (choose_comments 1 never three).has_blocking ≡ any is_blocking three
choose_comments-has_blocking_example = choose_comments-has_blocking 1 never three

choose_comments-posted_example :
    let posted = (choose_comments 1 never three).posted in
    (length posted ≤ 1) × All (Commentable 1 never) posted × Distinct (map (pair_of) posted)
choose_comments-posted_example = choose_comments-posted 1 never three

abbrev tables : Tables
tables = record {
  diff_lines = record { repo = codes "o/r"; pr = 7; file = codes "src/a.rs"; line = 3 } ∷ [];
  baseline = [];
}

abbrev by_message : Finding → Text
by_message f = f.message

filter_new_code_findings-out_example :
    let (after, out) = filter_new_code_findings by_message (codes "o/r") 7 three tables in
    (out ≡ retain (is_new (codes "o/r") 7 tables.diff_lines) three)
    × All
        (λ f.
          is_new (codes "o/r") 7 tables.diff_lines f ≡ false
          → any (is_known (codes "o/r") (by_message f)) after.baseline ≡ true)
        three
filter_new_code_findings-out_example =
    filter_new_code_findings-out by_message (codes "o/r") 7 three tables

save-clear_example :
    (u : Tables) × (save_pr_diff_lines
        (codes "o/r")
        7
        (codes "src/b.rs")
        (2 ∷ 9 ∷ [])
        (clear_pr_diff_lines (codes "o/r") 7 tables)
      ≡ some u)
    × ((f : Text) (l : ℕ)
        → any (is_row (codes "o/r") 7 f l) u.diff_lines
          ≡ (text_eq (codes "src/b.rs") f && any (λ x. x == l) (2 ∷ 9 ∷ [])))
save-clear_example = save-clear (codes "o/r") 7 (codes "src/b.rs") (2 ∷ 9 ∷ []) tables refl

abbrev pull : PullRequest
pull = record {
  repo = codes "o/r";
  number = 7;
  title = codes "wip";
  body = [];
  commit_messages = [];
  author = codes "ada";
  changed_paths = codes "src/a.rs" ∷ [];
}

abbrev config : ReviewConfig
config = record {
  pack = pack;
  pre_merge = gates;
  strictness = balanced;
  drop_ungrounded = false;
  judge = none;
}

review_findings-blocking_example :
    any is_blocking (review_findings by_message pull config none three).1
    ≡ any is_blocking (gated_findings pull config three)
review_findings-blocking_example = review_findings-blocking by_message pull config three refl refl
