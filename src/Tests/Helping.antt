-- ===== src/Tests/Helping.antt =====
-- Retries and code owners at concrete inputs.
use codasaurus.Retry.{Attempt, done, broke, retry_async, api_default}
use codasaurus.Retry.Attempts.{Reaches, retry_async-done}
use codasaurus.Exclude.{prepare_exclude_patterns, is_excluded_prepared}
use codasaurus.Learning.{path_matches_pattern}
use codasaurus.Codeowners.{CodeOwnerRule, owners_for_paths, path_matches}
use codasaurus.Codeowners.Owners.{owners_of, owners_for_paths-last}
use codasaurus.Prelude.{
  ℕ, zero, suc, ◌≤◌, codes, text_eq, text_eq_iff, List, [], ◌∷◌, Bool, true, false, length, any,
  All, ◌≡◌, refl, ◌≢◌, ◌↔◌,
}

-- Fails once with an error that is retried.
abbrev flaky : ℕ → Attempt ℕ Bool
flaky zero = broke true
flaky (suc n) = done 7

retry_async-done_example :
    let o = retry_async ℕ Bool api_default (λ e. e) flaky in
    ((o.result ≡ done 7) ↔ Reaches api_default (λ e. e) flaky 0 api_default.max_retries 7)
    × (length o.slept ≤ api_default.max_retries)
    × All (λ ms. ms ≤ 30_000) o.slept
retry_async-done_example = retry_async-done api_default (λ e. e) flaky 7

-- A pattern for a directory also matches a directory whose name only starts with it.
partial_segment : path_matches (codes "docs/") (codes "docs-old/a.md") ≡ true
unfolding path_matches
partial_segment = refl

abbrev rules : List CodeOwnerRule
rules =
    record { pattern = codes "*"; owners = codes "all" ∷ [] }
    ∷ record { pattern = codes "src/"; owners = codes "bob" ∷ codes "amy" ∷ [] }
    ∷ []

last_rule_wins : owners_for_paths rules (codes "src/a.rs" ∷ []) ≡ codes "amy" ∷ codes "bob" ∷ []
unfolding owners_for_paths path_matches
last_rule_wins = refl

owners_for_paths-last_example :
    any (text_eq (codes "amy")) (owners_for_paths rules (codes "src/a.rs" ∷ []))
    ≡ any (λ path. any (text_eq (codes "amy")) (owners_of path rules)) (codes "src/a.rs" ∷ [])
owners_for_paths-last_example = owners_for_paths-last (codes "amy") rules (codes "src/a.rs" ∷ [])

learned_directory : path_matches_pattern (λ t. t) (codes "src/api/auth.rs") (codes "src/api") ≡ true
unfolding path_matches_pattern
learned_directory = refl

-- A pattern without a slash also matches the end of a longer name.
learned_suffix :
    path_matches_pattern (λ t. t) (codes "db/premigrations") (codes "migrations") ≡ true
unfolding path_matches_pattern is_excluded_prepared prepare_exclude_patterns
learned_suffix = refl

ada_not_bob : codes "ada" ≢ codes "bob"
ada_not_bob e = not_true ((text_eq_iff (codes "ada") (codes "bob")).1 e)
  where
    not_true : ◌≡◌ {A = Bool} false true → ⊥
    not_true h = cc
