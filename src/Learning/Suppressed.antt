-- ===== src/Learning/Suppressed.antt =====
-- src/learning/store.rs: what the filter drops and keeps, against a plain description that knows
-- neither buckets nor an order of the rules.
use codasaurus.Finding.{Finding, fingerprint}
use codasaurus.Learning.{scope_chain}
use codasaurus.Learning.Store.{Rule, Store, precedes, first_of}
use codasaurus.Learning.Filter.{
  buckets, dismissed_set, prefixes, applies, is_ignore, adjusted, Judged, matches, candidates,
  after_ignore, judge, kept_of, filter_findings_async,
}
use mathlib.Core.List.{append_assoc}
use codasaurus.Learning.Lookups.{any-retain, first_of-any, lookups, dismissed_in}
use codasaurus.Prelude.{
  ℕ, Text, str_eq, text_eq, text_eq_refl, List, [], ◌∷◌, ◌++◌, map, Option, none, some, is_some,
  Bool, true, false, not, ◌&&◌, ◌||◌, if◌then◌else◌, Bool-cases, retain, any, All, any-sort_by,
  sort_by, ◌≡◌, refl, ap, ◌∙◌, subst, inl, inr, arith,
}

module _ (id_le : Text → Text → Bool) (to_lowercase : Text → Text)
    (sha256_hex : List ℕ → Text) where
  abbrev pub ignored_by : List Text → Finding → Rule → Bool
  ignored_by scopes f r =
      applies scopes r
      && (str_eq r.detector f.detector
          && (matches id_le to_lowercase sha256_hex f r && is_ignore r))

  -- Dismissed in one of the scopes, or under an approved rule to ignore.
  abbrev pub is_suppressed : Option Text → Store → Finding → Bool
  is_suppressed repo s f =
      dismissed_in (scope_chain repo) (fingerprint sha256_hex f) s.dismissed_findings
      || any (ignored_by (scope_chain repo) f) s.learned_rules

  -- The approved rules in scope for a finding, the one with precedence first.
  abbrev pub rules_for : Option Text → Store → Finding → List Rule
  rules_for repo s f =
      candidates id_le to_lowercase sha256_hex f
        (sort_by (precedes id_le) (retain (applies (scope_chain repo)) s.learned_rules))

  abbrev pub adjusted_by : Option Text → Store → Finding → Finding
  adjusted_by repo s f = adjusted (first_of (λ (r : Rule). true) (rules_for repo s f)) f

  ignored-any :
      (repo : Option Text) (s : Store) (f : Finding)
      → any is_ignore (rules_for repo s f) ≡ any (ignored_by (scope_chain repo) f) s.learned_rules
  ignored-any repo s f =
      let m = matches id_le to_lowercase sha256_hex f in
      let sorted = sort_by (precedes id_le) (retain (applies (scope_chain repo)) s.learned_rules) in
      let own = λ (r : Rule). str_eq r.detector f.detector in
      let test = λ (r : Rule). own r && (m r && is_ignore r) in
      any-retain is_ignore m (retain own sorted)
      ∙ any-retain (λ r. m r && is_ignore r) own sorted
      ∙ any-sort_by (precedes id_le) test (retain (applies (scope_chain repo)) s.learned_rules)
      ∙ any-retain test (applies (scope_chain repo)) s.learned_rules

  branches :
      (a b : Bool) (o : Option Rule) (rs : List Rule) (f : Finding)
      → (if a
          then record { kept = none; fired = none }
          else if b
          then record { kept = none; fired = none }
          else after_ignore id_le to_lowercase sha256_hex o rs f).kept
        ≡ (if (a || b) || is_some o
            then none
            else some (adjusted (first_of (λ (r : Rule). true) rs) f))
  branches true b o rs f = refl
  branches false true o rs f = refl
  branches false false none rs f = refl
  branches false false (some r) rs f = refl

  module _ (repo : Option Text) (s : Store) (fps : List Text) where
    abbrev verdict : Finding → Judged
    verdict =
        judge id_le to_lowercase sha256_hex
          (dismissed_set fps (scope_chain repo) s.dismissed_findings)
          (buckets (prefixes (scope_chain repo) s.dismissed_findings))
          (sort_by (precedes id_le) (retain (applies (scope_chain repo)) s.learned_rules))

    judge-kept :
        (f : Finding)
        → any (text_eq (fingerprint sha256_hex f)) fps ≡ true
        → (verdict f).kept ≡ (if is_suppressed repo s f then none else some (adjusted_by repo s f))
    unfolding judge
    judge-kept f asked =
        let fp = fingerprint sha256_hex f in
        let looked = lookups fp fps (scope_chain repo) s.dismissed_findings asked in
        let rules = first_of-any is_ignore (rules_for repo s f) ∙ ignored-any repo s f in
        branches _ _ (first_of is_ignore (rules_for repo s f)) (rules_for repo s f) f
        ∙ ap (λ b. if b then none else some (adjusted_by repo s f))
            (ap (λ b. b || is_some (first_of is_ignore (rules_for repo s f))) looked
              ∙ ap (λ b. dismissed_in (scope_chain repo) fp s.dismissed_findings || b) rules)

    verdicts :
        (fs : List Finding)
        → All (λ f. any (text_eq (fingerprint sha256_hex f)) fps ≡ true) fs
        → kept_of id_le to_lowercase sha256_hex (map verdict fs)
          ≡ map (adjusted_by repo s) (retain (λ f. not (is_suppressed repo s f)) fs)
    verdicts [] h = refl
    verdicts (f ∷ fs) h = elim (Bool-cases (is_suppressed repo s f)) [
      | inl e ↦ rw (judge-kept f h.0, e) (verdicts fs h.1)
      | inr e ↦ rw (judge-kept f h.0, e) (ap (◌∷◌ (adjusted_by repo s f)) (verdicts fs h.1))
    ]

  asked_for :
      (fs more : List Finding)
      → All
          (λ f.
            any (text_eq (fingerprint sha256_hex f)) (map (fingerprint sha256_hex) (more ++ fs))
            ≡ true)
          fs
  asked_for [] more = tt
  asked_for (f ∷ fs) more = (
    found more,
    subst
        (λ gs.
          All
            (λ g. any (text_eq (fingerprint sha256_hex g)) (map (fingerprint sha256_hex) gs) ≡ true)
            fs)
        (append_assoc more (f ∷ []) fs) (asked_for fs (more ++ f ∷ [])),
  )
    where
      found :
          (gs : List Finding)
          → any (text_eq (fingerprint sha256_hex f)) (map (fingerprint sha256_hex) (gs ++ f ∷ fs))
            ≡ true
      found [] = rw (text_eq_refl (fingerprint sha256_hex f))
      found (g ∷ gs) = rw (found gs) (ground arith)

  -- Exactly the findings that are not suppressed are kept, in their order, each with its severity
  -- changed by at most the rule that has precedence.
  pub filter_findings_async-kept :
      (now : ℕ) (findings : List Finding) (repo : Option Text) (s : Store)
      → (filter_findings_async id_le to_lowercase sha256_hex now findings repo s).0
        ≡ map (adjusted_by repo s) (retain (λ f. not (is_suppressed repo s f)) findings)
  unfolding filter_findings_async
  filter_findings_async-kept now [] repo s = refl
  filter_findings_async-kept now (f ∷ fs) repo s =
      verdicts repo s (map (fingerprint sha256_hex) (f ∷ fs)) (f ∷ fs) (asked_for (f ∷ fs) [])
