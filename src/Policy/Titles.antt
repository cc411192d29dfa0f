-- ===== src/Policy/Titles.antt =====
-- src/bot/title_fix.rs: is a title a conventional commit? And src/bot/policy.rs: the gates on the
-- title and the description of a PR.
use codasaurus.Finding.{Finding}
use codasaurus.Policy.Forbidden.{policy_finding}
use codasaurus.Policy.Caps.{policy_file}
use codasaurus.Prelude.{
  ℕ, String, Text, codes, strip_prefix, trim, is_empty_text, List, [], ◌∷◌, ◌++◌, Option, none,
  some, Bool, true, false, not, ◌&&◌, ◌==◌, if◌then◌else◌,
}

-- src/config.rs
pub record PreMergeConfig : Type 0 where
  pub require_description : Bool
  pub require_title_convention : Bool
  pub max_blocking : ℕ
  pub max_warnings : ℕ

-- `^(feat|fix|...)`: no word is a prefix of another, so the first that fits is the only one.
unfoldable pub after_word : List String → Text → Option Text
after_word [] s = none
after_word (w ∷ ws) s =
    let rest = after_word ws s in elim (strip_prefix (codes w) s) [ some r ↦ some r | none ↦ rest ]

-- `[^)]+\)`: what follows the first closing parenthesis, if something stands in front of it.
unfoldable pub after_scope : Bool → Text → Option Text
after_scope seen [] = none
after_scope seen (c ∷ s) =
    let rest = after_scope true s in if c == b')' then (if seen then some s else none) else rest

-- `(\([^)]+\))?`: a scope that opens has to close, since `!` or `:` must follow.
unfoldable pub skip_scope : Text → Option Text
unfolding after_scope
skip_scope [] = some []
skip_scope (c ∷ s) = let inside = after_scope false s in if c == b'(' then inside else some (c ∷ s)

-- `!?`.
unfoldable pub skip_bang : Text → Text
skip_bang [] = []
skip_bang (c ∷ s) = if c == b'!' then s else c ∷ s

-- `: .+`, where a dot takes any character but a line feed.
unfoldable pub is_subject : Text → Bool
is_subject (a ∷ b ∷ c ∷ s) = a == b':' && (b == b' ' && not (c == 10))
is_subject s = false

unfoldable pub is_conventional_title : Text → Bool
unfolding after_word skip_scope skip_bang is_subject
is_conventional_title title =
    elim (after_word
      ("feat" ∷ "fix" ∷ "chore" ∷ "docs" ∷ "style" ∷ "refactor" ∷ "perf" ∷ "test" ∷ "build" ∷ "ci"
        ∷ "revert" ∷ [])
      (trim title)) [
        | none ↦ false
        | some r ↦ elim (skip_scope r) [ none ↦ false | some q ↦ is_subject (skip_bang q) ]
      ]

unfoldable pub no_description_finding : Finding
unfolding policy_finding
no_description_finding =
    policy_finding policy_file 0
      (codes "Policy: pull request has no description (require_description)")
      (codes "Describe what changed and why in the PR body.")

unfoldable pub title_finding : Text → Finding
unfolding policy_finding
title_finding pr_title =
    policy_finding policy_file 0
      (codes "Policy: PR title \""
        ++ (pr_title ++ codes "\" is not a conventional commit (require_title_convention)"))
      (codes "Use `type(scope): subject`, e.g. `fix(api): reject empty tokens`.")

unfoldable pub enforce_pr_metadata : List Finding → PreMergeConfig → Text → Text → List Finding
unfolding is_conventional_title no_description_finding title_finding
enforce_pr_metadata findings cfg pr_title pr_body =
    let missing : List Finding =
      if cfg.require_description && is_empty_text (trim pr_body)
      then no_description_finding ∷ []
      else [] in
    let untidy : List Finding =
      if cfg.require_title_convention && not (is_conventional_title pr_title)
      then title_finding pr_title ∷ []
      else [] in
    findings ++ (missing ++ untidy)
