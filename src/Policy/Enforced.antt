-- ===== src/Policy/Enforced.antt =====
-- src/bot/policy.rs: which paths are refused, and when a cap or a metadata gate adds a finding.
use codasaurus.Finding.{Finding, is_blocking, is_warning}
use codasaurus.Policy.Pack.{PolicyPack}
use codasaurus.Policy.Forbidden.{
  normal_rule, slash, hit, first_hit, scan_paths, forbidden_finding, forbidden_path_findings,
  policy_finding,
}
use codasaurus.Policy.Caps.{enforce_count_caps, blocking_cap_finding, warning_cap_finding}
use codasaurus.Policy.Titles.{
  PreMergeConfig, enforce_pr_metadata, is_conventional_title, no_description_finding, title_finding,
}
use codasaurus.Prelude.{
  ◌+◌, ◌<◌, Text, text_eq_iff, strip_prefix, starts_with, ends_with, trim, trim_start_slashes,
  trim_end_slashes, last_segment, is_empty_text, strip_prefix→append, strip_prefix-append, List, [],
  ◌∷◌, ◌++◌, map, is_some, Bool, true, false, not, ◌&&◌, ◌||◌, ltb, if◌then◌else◌, Option-cases,
  Bool-cases, length, retain, any, count_if, All, length-append, any-append, any_iff_count, ◌≡◌,
  refl, sym, ap, ◌↔◌, ◌⊎◌, inl, inr, arith,
}

starts_with_iff : (p s : Text) → (starts_with p s ≡ true) ↔ ((r : Text) × (s ≡ p ++ r))
starts_with_iff p s = (to, from)
  where
    to : starts_with p s ≡ true → (r : Text) × (s ≡ p ++ r)
    to e = elim (Option-cases (strip_prefix p s)) [
      | inl h ↦ cc
      | inr (r, h) ↦ (r, strip_prefix→append p s r h)
    ]

    from : (r : Text) × (s ≡ p ++ r) → starts_with p s ≡ true
    from (r, e) = rw (e, strip_prefix-append p r)

-- A rule with no slash at its end hits a path in three ways: it is the path, or a directory above
-- it, or the name of the file. It never hits inside a path segment.
pub hit_iff :
    (rule path : Text)
    → ends_with slash rule ≡ false
    → (hit rule path ≡ true) ↔ (
        (path ≡ rule)
        ⊎ ((rest : Text) × (path ≡ (rule ++ slash) ++ rest))
        ⊎ (last_segment path ≡ rule))
unfolding hit
hit_iff rule path e = ground (
  arith,
  text_eq_iff path rule,
  starts_with_iff (rule ++ slash) path,
  text_eq_iff (last_segment path) rule,
)

-- What a rule means. With a slash at its end it covers a directory and what is below it. Without one
-- it covers the path itself, what is below it, and every file of that name. It never stops inside a
-- segment.
abbrev pub Covers : Text → Text → Type 0
Covers rule path =
    ((ends_with slash rule ≡ true)
      × (((rest : Text) × (path ≡ rule ++ rest)) ⊎ (path ≡ trim_end_slashes rule)))
    ⊎ ((ends_with slash rule ≡ false)
        × ((path ≡ rule)
            ⊎ ((rest : Text) × (path ≡ (rule ++ slash) ++ rest))
            ⊎ (last_segment path ≡ rule)))

hit-Covers : (rule path : Text) → (hit rule path ≡ true) ↔ Covers rule path
unfolding hit
hit-Covers rule path = elim (Bool-cases (ends_with slash rule)) [
  | inl e ↦
      rw e (ground (arith, starts_with_iff rule path, text_eq_iff path (trim_end_slashes rule)))
  | inr e ↦ rw e (
      ground (
        arith,
        text_eq_iff path rule,
        starts_with_iff (rule ++ slash) path,
        text_eq_iff (last_segment path) rule,
      ))
]

-- A rule refuses a path: it is not blank, and covers the path, both without slashes in front.
abbrev pub Refuses : Text → Text → Type 0
Refuses path rule =
    (is_empty_text (normal_rule rule) ≡ false) × Covers (normal_rule rule) (trim_start_slashes path)

abbrev pub AnyRule : Text → List Text → Type 0
AnyRule path [] = ⊥
AnyRule path (rule ∷ rules) = Refuses path rule ⊎ AnyRule path rules

pub first_hit_iff :
    (path : Text) (rules : List Text) → (is_some (first_hit path rules) ≡ true) ↔ AnyRule path rules
unfolding first_hit
first_hit_iff path [] = (λ e. cc, λ h. absurd h)
first_hit_iff path (rule ∷ rules) = elim (Bool-cases (is_empty_text (normal_rule rule))) [
  | inl e ↦ rw e (ground (arith, first_hit_iff path rules))
  | inr e ↦ elim (Bool-cases (hit (normal_rule rule) (trim_start_slashes path))) [
    | inl h ↦ rw (e, h) (λ q. inl (refl, (hit-Covers _ _).0 h), λ q. refl)
    | inr h ↦
        rw (e, h)
          (
            λ q. inr ((first_hit_iff path rules).0 q),
            λ q. elim q [
              | inl (named, c) ↦
                  absurd (cc (h, (hit-Covers (normal_rule rule) (trim_start_slashes path)).1 c))
              | inr rest ↦ (first_hit_iff path rules).1 rest
            ],
          )
  ]
]

abbrev pub file_of : Finding → Text
file_of f = f.file

-- What the inner loop says of a path.
abbrev pub refused : List Text → Text → Bool
refused rules path = is_some (first_hit path rules)

scan_paths-files :
    (paths rules : List Text) → map file_of (scan_paths paths rules) ≡ retain (refused rules) paths
unfolding scan_paths forbidden_finding policy_finding
scan_paths-files [] rules = refl
scan_paths-files (path ∷ paths) rules = elim (Option-cases (first_hit path rules)) [
  | inl e ↦ rw e (scan_paths-files paths rules)
  | inr (rule, e) ↦ rw e (ap (◌∷◌ path) (scan_paths-files paths rules))
]

scan_paths-blocking :
    (paths rules : List Text)
    → All (λ f. (f.severity ≡ "blocking") × (f.detector ≡ "policy")) (scan_paths paths rules)
unfolding scan_paths forbidden_finding policy_finding
scan_paths-blocking [] rules = tt
scan_paths-blocking (path ∷ paths) rules = elim (Option-cases (first_hit path rules)) [
  | inl e ↦ rw e (scan_paths-blocking paths rules)
  | inr (rule, e) ↦ rw e ((refl, refl), scan_paths-blocking paths rules)
]

none_refused : (paths : List Text) → retain (refused []) paths ≡ []
unfolding first_hit
none_refused [] = refl
none_refused (path ∷ paths) = none_refused paths

-- The files that are reported are the changed paths that are refused, in their order and once for
-- each. A path is refused exactly when some rule that is not blank covers it. Every report is a
-- blocking finding of the policy.
pub forbidden_path_findings-files :
    (changed forbidden : List Text)
    → (map file_of (forbidden_path_findings changed forbidden) ≡ retain (refused forbidden) changed)
      × ((path : Text) → (refused forbidden path ≡ true) ↔ AnyRule path forbidden)
      × All
          (λ f. (f.severity ≡ "blocking") × (f.detector ≡ "policy"))
          (forbidden_path_findings changed forbidden)
unfolding forbidden_path_findings
forbidden_path_findings-files changed [] =
    (sym (none_refused changed), λ path. first_hit_iff path [], tt)
forbidden_path_findings-files changed (r ∷ rs) = (
  scan_paths-files changed (r ∷ rs),
  λ path. first_hit_iff path (r ∷ rs),
  scan_paths-blocking changed (r ∷ rs),
)

added :
    (b : Bool) (f : Finding) → is_blocking f ≡ true → any is_blocking (if b then f ∷ [] else []) ≡ b
added true f e = rw e
added false f e = refl

-- With the caps enforced some finding blocks exactly when one blocked before or the warnings are
-- more than their cap.
pub enforce_count_caps-blocking :
    (fs : List Finding) (pack : PolicyPack)
    → (any is_blocking (enforce_count_caps fs pack) ≡ true)
      ↔ ((any is_blocking fs ≡ true) ⊎ (pack.max_warnings < count_if is_warning fs))
unfolding enforce_count_caps
enforce_count_caps-blocking fs pack =
    let blocks = blocking_cap_finding (count_if is_blocking fs) pack.max_blocking in
    let warns = warning_cap_finding (count_if is_warning fs) pack.max_warnings in
    rw (any-append, any-append, added _ blocks refl, added _ warns refl)
      (ground (arith, any_iff_count is_blocking fs))

one_more : (b : Bool) (f : Finding) → length (if b then f ∷ [] else []) ≡ (if b then 1 else 0)
one_more true f = refl
one_more false f = refl

-- Each exceeded cap adds one finding, and a cap that is kept adds none.
pub enforce_count_caps-length :
    (fs : List Finding) (pack : PolicyPack)
    → length (enforce_count_caps fs pack)
      ≡ length fs
        + ((if ltb pack.max_blocking (count_if is_blocking fs) then 1 else 0)
            + (if ltb pack.max_warnings (count_if is_warning fs) then 1 else 0))
unfolding enforce_count_caps
enforce_count_caps-length fs pack = rw (length-append, length-append, one_more, one_more)

gates :
    (before described blank titled proper : Bool)
    → ((before || (described && blank || titled && not proper)) ≡ true) ↔ (
        (before ≡ true)
        ⊎ ((described ≡ true) × (blank ≡ true))
        ⊎ ((titled ≡ true) × (proper ≡ false)))
gates before described blank titled proper = ground arith

-- After the metadata gates some finding blocks exactly when one blocked before, or a description is
-- required and the body is blank, or a conventional title is required and the title is not one.
pub enforce_pr_metadata-blocking :
    (fs : List Finding) (cfg : PreMergeConfig) (title body : Text)
    → (any is_blocking (enforce_pr_metadata fs cfg title body) ≡ true) ↔ (
        (any is_blocking fs ≡ true)
        ⊎ ((cfg.require_description ≡ true) × (is_empty_text (trim body) ≡ true))
        ⊎ ((cfg.require_title_convention ≡ true) × (is_conventional_title title ≡ false)))
unfolding enforce_pr_metadata
enforce_pr_metadata-blocking fs cfg title body =
    rw
      (
        any-append,
        any-append,
        added _ no_description_finding refl,
        added _ (title_finding title) refl,
      )
      (gates _ _ _ _ _)
