-- ===== src/Learning/Dismissing.antt =====
-- src/learning/store.rs: a dismissal, and the reviews after it.
use codasaurus.Finding.{Finding, fingerprint, fingerprint_input}
use codasaurus.Learning.{scope_chain, org_scope}
use codasaurus.Learning.Store.{
  Dismissed, Rule, Store, in_scopes, same_key, upsert_dismissed, unwrap_or, archive_rule,
  add_rule_async, first_of, find_approved_rule_for_detector,
  count_maintainer_dismissals_for_detector, count_distinct_prs_for_detector,
}
use codasaurus.Learning.Filter.{adjusted, filter_findings_async}
use codasaurus.Learning.Promotion.{
  LearningConfig, promote_dismissal_to_rule, decay_or_promote, allowed, is_unnamed,
  dismiss_fingerprint_for_repo,
}
use codasaurus.Learning.Lookups.{any-map, any-retain, dismissed_in}
use codasaurus.Learning.Suppressed.{
  is_suppressed, adjusted_by, rules_for, filter_findings_async-kept,
}
use codasaurus.Prelude.{
  ℕ, String, Text, str_eq, text_eq, text_eq_iff, text_eq_refl, is_empty_text, before_char, List, [],
  ◌∷◌, ◌++◌, Option, none, some, Bool, true, false, not, ◌&&◌, Bool-cases, any, ◌≡◌, refl, ◌∙◌, inl,
  inr, arith,
}

-- The scope of a repository is one of its own scopes.
own_scope : (repo : Option Text) → in_scopes (scope_chain repo) (unwrap_or [] repo) ≡ true
unfolding scope_chain
own_scope none = refl
own_scope (some r) = elim (Bool-cases (is_empty_text r)) [
  | inl e ↦ rw e (blank r e)
  | inr e ↦ rw e (last r (before_char b'/' r))
]
  where
    blank : (t : Text) → is_empty_text t ≡ true → in_scopes ([] ∷ []) t ≡ true
    blank [] e = refl
    blank (c ∷ t) e = absurd (cc e)

    last :
        (t : Text) (parts : Option (Text × Text))
        → in_scopes ([] ∷ (org_scope parts ++ t ∷ [])) t ≡ true
    last t none = rw (text_eq_refl t) (ground arith)
    last t (some (owner, name)) = elim (Bool-cases (is_empty_text owner)) [
      | inl e ↦ rw (e, text_eq_refl t) (ground arith)
      | inr e ↦ rw (e, text_eq_refl t) (ground arith)
    ]

upsert_dismissed-names :
    (scopes : List Text) (row : Dismissed) (rows : List Dismissed)
    → in_scopes scopes row.repo_full_name ≡ true
    → dismissed_in scopes row.fingerprint (upsert_dismissed row rows) ≡ true
unfolding upsert_dismissed
upsert_dismissed-names scopes row [] h = rw (h, text_eq_refl row.fingerprint)
upsert_dismissed-names scopes row (r ∷ rs) h = elim (Bool-cases (same_key r row)) [
  | inl e ↦ merged e
  | inr e ↦ rw (e, upsert_dismissed-names scopes row rs h) (ground arith)
]
  where
    merged :
        same_key r row ≡ true
        → dismissed_in scopes row.fingerprint (upsert_dismissed row (r ∷ rs)) ≡ true
    merged e =
        let repo : text_eq r.repo_full_name row.repo_full_name ≡ true = ground arith in
        let print : text_eq r.fingerprint row.fingerprint ≡ true = ground arith in
        let scoped : in_scopes scopes r.repo_full_name ≡ true =
          rw ((text_eq_iff r.repo_full_name row.repo_full_name).0 repo) h in
        let same : text_eq row.fingerprint r.fingerprint ≡ true =
          rw ((text_eq_iff r.fingerprint row.fingerprint).0 print) (text_eq_refl row.fingerprint) in
        rw (e, scoped, same)

-- A severity is no part of a fingerprint.
fingerprint-adjusted :
    (sha256_hex : List ℕ → Text) (o : Option Rule) (f : Finding)
    → fingerprint sha256_hex (adjusted o f) ≡ fingerprint sha256_hex f
unfolding fingerprint fingerprint_input
fingerprint-adjusted sha256_hex none f = refl
fingerprint-adjusted sha256_hex (some r) f = elim (Bool-cases (str_eq r.action "downgrade")) [
  | inl e ↦ rw e
  | inr e ↦ elim (Bool-cases (str_eq r.action "always_warn")) [
    | inl q ↦ rw (e, q)
    | inr q ↦ rw (e, q)
  ]
]

any_none {ℓ} :
    {A : Type ℓ} (p : A → Bool) (xs : List A) → ((x : A) → p x ≡ false) → any p xs ≡ false
any_none p [] h = refl
any_none p (x ∷ xs) h = rw (h x, any_none p xs h)

module _ (id_le : Text → Text → Bool) (to_lowercase : Text → Text) (uuid : Store → Text)
    (sha256_hex : List ℕ → Text) (cfg : LearningConfig) (now : ℕ) where
  -- Promotion changes rules only.
  pub promote-dismissed_findings :
      (detector : String) (file message : Text) (repo : Option Text) (s : Store)
      → (promote_dismissal_to_rule id_le to_lowercase uuid cfg now detector file message repo
          s).dismissed_findings
        ≡ s.dismissed_findings
  unfolding promote_dismissal_to_rule archive_rule add_rule_async
  promote-dismissed_findings detector file message repo s =
      elim (Bool-cases (is_unnamed detector)) [
        | inl e ↦ rw e
        | inr e ↦
            rw e (each (find_approved_rule_for_detector id_le to_lowercase detector file repo s))
      ]
    where
      each :
          (o : Option Rule)
          → (decay_or_promote id_le to_lowercase uuid cfg now o detector file message repo
              s).dismissed_findings
            ≡ s.dismissed_findings
      each (some r) = refl
      each none =
          elim (Bool-cases (
            allowed cfg detector (count_maintainer_dismissals_for_detector detector repo s)
              (count_distinct_prs_for_detector detector repo s))) [ inl e ↦ rw e | inr e ↦ rw e ]

  -- After a dismissal in a repository the learned filter of that repository, run directly after it on
  -- any findings, keeps none with that fingerprint. It says nothing of the findings that a review adds
  -- behind the filter.
  pub filter_findings_async-dismiss :
      (later : ℕ) (fp : Text) (detector : String) (file message : Text) (repo : Option Text)
      (pr_number : Option ℕ) (by : Option Text) (is_maintainer : Bool) (s : Store)
      (findings : List Finding)
      → any
          (λ f. text_eq (fingerprint sha256_hex f) fp)
          (filter_findings_async id_le to_lowercase sha256_hex later findings repo (
            dismiss_fingerprint_for_repo id_le to_lowercase uuid cfg now fp detector file message
              repo pr_number by is_maintainer s)).0
        ≡ false
  unfolding dismiss_fingerprint_for_repo
  filter_findings_async-dismiss later fp detector file message repo pr_number by is_maintainer s
        findings =
      rw (filter_findings_async-kept id_le to_lowercase sha256_hex later findings repo after) (
        any-map p (adjusted_by id_le to_lowercase sha256_hex repo after) _
        ∙ any-retain _ (λ f. not (is_suppressed id_le to_lowercase sha256_hex repo after f))
            findings
        ∙ any_none _ findings gone)
    where
      row : Dismissed
      row = record {
        fingerprint = fp;
        repo_full_name = unwrap_or [] repo;
        detector = detector;
        file = file;
        line = 0;
        message = message;
        dismissed_at = now;
        pr_number = pr_number;
        dismissed_by = by;
        is_maintainer = is_maintainer;
      }

      s' : Store
      s' = record s { dismissed_findings = upsert_dismissed row s.dismissed_findings }

      after : Store
      after =
          promote_dismissal_to_rule id_le to_lowercase uuid cfg now detector file message repo s'

      p : Finding → Bool
      p f = text_eq (fingerprint sha256_hex f) fp

      named : dismissed_in (scope_chain repo) fp after.dismissed_findings ≡ true
      named =
          rw (promote-dismissed_findings detector file message repo s')
            (upsert_dismissed-names (scope_chain repo) row s.dismissed_findings (own_scope repo))

      gone :
          (f : Finding)
          → (not (is_suppressed id_le to_lowercase sha256_hex repo after f)
              && p (adjusted_by id_le to_lowercase sha256_hex repo after f))
            ≡ false
      gone f = elim (Bool-cases (p f)) [
        | inl e ↦
            let hit : dismissed_in (scope_chain repo) (fingerprint sha256_hex f)
                  after.dismissed_findings
                ≡ true =
              rw ((text_eq_iff (fingerprint sha256_hex f) fp).0 e) named in
            rw hit
        | inr e ↦
            let other : p (adjusted_by id_le to_lowercase sha256_hex repo after f) ≡ false =
              rw
                (fingerprint-adjusted sha256_hex
                  (first_of (λ (r : Rule). true)
                    (rules_for id_le to_lowercase sha256_hex repo after f))
                  f)
                e in
            rw other (ground arith)
      ]
