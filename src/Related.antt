-- ===== src/Related.antt =====
-- src/bot/related_prs.rs and src/llm/cost.rs: which changed paths are worth a look at their history.
pub mod Chosen
use codasaurus.Prelude.{
  ℕ, ◌+◌, ◌-◌, ◌*◌, ◌/◌, min, max, String, Text, codes, text_eq, text_le, starts_with, ends_with,
  contains, to_ascii_lowercase, split_by, last_segment, last_piece, text_one_of, is_empty_text,
  is_slash, List, [], ◌∷◌, ◌++◌, map, Bool, false, not, ◌&&◌, ◌||◌, ltb, leb, ◌==◌, if◌then◌else◌,
  length, any, count_if, sort_by,
}

abbrev pub slashed : Text → Text
slashed path = map (λ ch. if ch == b'\\' then b'/' else ch) (to_ascii_lowercase path)

abbrev pub any_in : List String → Text → Bool
any_in [] s = false
any_in (t ∷ ts) s = contains (codes t) s || any_in ts s

abbrev pub starts_in : List String → Text → Bool
starts_in [] s = false
starts_in (t ∷ ts) s = starts_with (codes t) s || starts_in ts s

abbrev pub ends_in : List String → Text → Bool
ends_in [] s = false
ends_in (t ∷ ts) s = ends_with (codes t) s || ends_in ts s

unfoldable pub is_low_signal_path : Text → Bool
is_low_signal_path path =
    let lower = slashed path in
    text_one_of (last_segment lower) (
      "package-lock.json" ∷ "yarn.lock" ∷ "pnpm-lock.yaml" ∷ "bun.lock" ∷ "bun.lockb" ∷ "cargo.lock"
      ∷ "poetry.lock" ∷ "composer.lock" ∷ "gemfile.lock" ∷ "go.sum" ∷ "pipfile.lock" ∷ "uv.lock"
      ∷ [])
    || (any_in
          ("/dist/" ∷ "/build/" ∷ "/.next/" ∷ "/target/" ∷ "/vendor/" ∷ "/node_modules/"
            ∷ "/__generated__/" ∷ "/generated/" ∷ [])
          lower
        || (ends_in (".min.js" ∷ ".min.css" ∷ ".map" ∷ ".pb.go" ∷ "_pb2.py" ∷ ".snap" ∷ []) lower
            || ends_in
                (".png" ∷ ".jpg" ∷ ".jpeg" ∷ ".gif" ∷ ".webp" ∷ ".ico" ∷ ".pdf" ∷ ".woff" ∷ ".woff2"
                  ∷ ".ttf" ∷ [])
                lower))

abbrev pub depth : Text → ℕ
depth lower = count_if is_slash lower

unfoldable pub is_meta_churn_path : Text → Text → Bool
is_meta_churn_path lower file =
    starts_in ("docs/" ∷ ".github/" ∷ []) lower
    || ((depth lower == 0 && (ends_with (codes ".md") file || starts_with (codes ".") file))
        || text_one_of file (
            "changelog.md" ∷ "readme.md" ∷ "license" ∷ "license.md" ∷ "licence" ∷ "licence.md"
            ∷ "contributing.md" ∷ "code_of_conduct.md" ∷ "security.md" ∷ "authors" ∷ "notice"
            ∷ ".gitignore" ∷ ".dockerignore" ∷ ".editorconfig" ∷ ".gitattributes" ∷ "dockerfile"
            ∷ "makefile" ∷ ".env" ∷ ".env.example" ∷ ".env.sample" ∷ "cargo.toml" ∷ "package.json"
            ∷ "pnpm-workspace.yaml" ∷ "go.mod" ∷ "pyproject.toml" ∷ "gemfile" ∷ "composer.json"
            ∷ []))

unfoldable pub looks_security_sensitive : Text → Bool
looks_security_sensitive path =
    let lower = to_ascii_lowercase path in
    any_in
      ("auth" ∷ "crypto" ∷ "secret" ∷ "password" ∷ "middleware" ∷ "rbac" ∷ "permission" ∷ "/k8s/"
        ∷ "/kubernetes/" ∷ "/helm/" ∷ [])
      lower
    || ends_in (".tf" ∷ ".tfvars" ∷ []) lower

abbrev pub meta_score : ℕ
meta_score = 1

abbrev pub extension : Text → Text
extension file = last_piece [] (split_by (λ ch. ch == b'.') file)

abbrev pub looks_like_test : Text → Text → Bool
looks_like_test lower file =
    any_in ("/test/" ∷ "/tests/" ∷ "/__tests__/" ∷ []) lower
    || (contains (codes "_test.") file
        || (ends_in (".test.ts" ∷ ".test.js" ∷ ".spec.ts" ∷ ".spec.js" ∷ []) file
            || ends_with (codes ".md") lower))

abbrev pub source_score : Text → Text → ℕ
source_score path lower =
    let file = last_segment lower in
    let score =
      10
      + (if starts_in
            ("src/" ∷ "lib/" ∷ "app/" ∷ "packages/" ∷ "crates/" ∷ "svelte-dashboard/src/"
              ∷ "frontend/" ∷ "backend/" ∷ [])
            lower
          then 20
          else 0) in
    let score = score + (if looks_security_sensitive path then 15 else 0) in
    let score = score + min (depth lower) 4 * 2 in
    let score =
      score
      + (if text_one_of (extension file) (
            "rs" ∷ "ts" ∷ "tsx" ∷ "js" ∷ "jsx" ∷ "py" ∷ "go" ∷ "java" ∷ "kt" ∷ "rb" ∷ "php" ∷ "c"
            ∷ "cc" ∷ "cpp" ∷ "h" ∷ "hpp" ∷ "svelte" ∷ "vue" ∷ "cs" ∷ "swift" ∷ [])
          then 8
          else 0) in
    max (if looks_like_test lower file then score - 8 else score) 1

-- The score is at least ten before eight is taken off, so it does not go below zero.
unfoldable pub path_signal_score : Text → ℕ
path_signal_score path =
    let lower = slashed path in
    if is_empty_text path || is_low_signal_path path
    then 0
    else if is_meta_churn_path lower (last_segment lower)
    then meta_score
    else source_score path lower

abbrev pub first_piece : List Text → Text
first_piece [] = []
first_piece (w ∷ ws) = w

unfoldable pub top_level_root : Text → Text
top_level_root path = first_piece (split_by is_slash path)

abbrev pub Scored : Type 0
Scored = ℕ × Text

abbrev pub scored_of : List Text → List Scored
scored_of [] = []
scored_of (p ∷ ps) =
    let rest = scored_of ps in
    if is_empty_text p || not (ltb 0 (path_signal_score p))
    then rest
    else (path_signal_score p, p) ∷ rest

abbrev pub goes_first : Scored → Scored → Bool
goes_first a b = ltb b.0 a.0 || (a.0 == b.0 && text_le a.1 b.1)

abbrev pub dedup_after : Text → List Scored → List Scored
dedup_after last [] = []
dedup_after last (e ∷ es) =
    let rest = dedup_after e.1 es in if text_eq e.1 last then rest else e ∷ rest

abbrev pub dedup_by_path : List Scored → List Scored
dedup_by_path [] = []
dedup_by_path (e ∷ es) = e ∷ dedup_after e.1 es

abbrev pub is_in : List Text → Text → Bool
is_in ts t = any (λ s. text_eq s t) ts

-- One path for each root, the rest of the loop doing nothing when the slots are filled.
abbrev pub first_pass : ℕ → List Scored → List Text → List Text → List Text
first_pass max [] used selected = selected
first_pass max ((score, path) ∷ es) used selected =
    let passed =
      leb max (length selected) || (leb score meta_score || is_in used (top_level_root path)) in
    first_pass max es (if passed then used else top_level_root path ∷ used)
      (if passed then selected else selected ++ path ∷ [])

abbrev pub second_pass : ℕ → List Scored → List Text → List Text
second_pass max [] selected = selected
second_pass max ((score, path) ∷ es) selected =
    second_pass max es
      (if leb max (length selected) || is_in selected path then selected else selected ++ path ∷ [])

unfoldable pub select_paths_for_related : List Text → ℕ → List Text
select_paths_for_related changed_paths max =
    let scored = dedup_by_path (sort_by goes_first (scored_of changed_paths)) in
    if max == 0 then [] else second_pass max scored (first_pass max scored [] [])
