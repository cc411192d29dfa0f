-- ===== src/Learning/Mined.antt =====
-- src/learning/mine.rs: what comments on a pull request, which anybody can write, can do to the
-- detectors of security.
use codasaurus.Learning.Store.{
  Dismissed, Rule, Store, same_key, redismissed, upsert_dismissed, upsert_rule, rewritten,
  add_rule_async, archive_rule, find_approved_rule_for_detector,
  count_maintainer_dismissals_for_detector, count_distinct_prs_for_detector,
}
use codasaurus.Learning.Filter.{is_ignore}
use codasaurus.Learning.Promotion.{
  LearningConfig, is_security_detector, allowed, is_unnamed, decay_or_promote,
  promote_dismissal_to_rule, dismiss_fingerprint_for_repo, extract_detector_mention, false_positive,
  pushback, mine_comment, mine_all, mine_pr_comment_feedback,
}
use codasaurus.Prelude.{
  ℕ, String, Text, str_eq, text_eq, to_ascii_lowercase, List, [], ◌∷◌, ◌++◌, map, Memᴰ, Option,
  none, some, Bool, true, false, ◌&&◌, if◌then◌else◌, Bool-cases, one_of, ◌≡◌, sym, ◌∙◌, subst, inl,
  inr, arith,
}

-- A rule that suppresses findings of a detector of security, or a dismissal of one.
abbrev pub silences : LearningConfig → Rule → Bool
silences cfg r = is_security_detector cfg r.detector && (str_eq r.status "approved" && is_ignore r)

abbrev pub hides : LearningConfig → Dismissed → Bool
hides cfg d = is_security_detector cfg d.detector

-- Whatever silences or hides such a detector afterwards did so before.
pub record Harmless (cfg : LearningConfig) (s t : Store) : Type 0 where
  pub rules : (r : Rule) → Memᴰ r t.learned_rules → silences cfg r ≡ true → Memᴰ r s.learned_rules
  pub dismissals :
      (d : Dismissed)
      → Memᴰ d t.dismissed_findings
      → hides cfg d ≡ true
      → Memᴰ d s.dismissed_findings

Harmless-refl : (cfg : LearningConfig) (s : Store) → Harmless cfg s s
Harmless-refl cfg s = record { rules = λ r m e. m; dismissals = λ d m e. m }

Harmless-trans :
    (cfg : LearningConfig) (s t u : Store) → Harmless cfg s t → Harmless cfg t u → Harmless cfg s u
Harmless-trans cfg s t u h k = record {
  rules = λ r m e. h.rules r (k.rules r m e) e;
  dismissals = λ d m e. h.dismissals d (k.dismissals d m e) e;
}

clash : {b : Bool} → b ≡ false → b ≡ true → ⊥
clash e q = cc (sym e ∙ q)

module _ (cfg : LearningConfig) where
  mem-upsert_dismissed :
      (row : Dismissed)
      → hides cfg row ≡ false
      → (rows : List Dismissed) (d : Dismissed) → Memᴰ d (upsert_dismissed row rows)
      → hides cfg d ≡ true
      → Memᴰ d rows
  unfolding upsert_dismissed
  mem-upsert_dismissed row h [] d (Memᴰ.head e) k =
      absurd (clash h (subst (λ (x : Dismissed). hides cfg x ≡ true) e k))
  mem-upsert_dismissed row h [] d (Memᴰ.tail m) k = m
  mem-upsert_dismissed row h (r ∷ rs) d m k = elim (Bool-cases (same_key r row)) [
    | inl e ↦ merged (rw e at m)
    | inr e ↦ other (mem-upsert_dismissed row h rs d) (rw e at m)
  ]
    where
      merged : Memᴰ d (redismissed r row ∷ rs) → Memᴰ d (r ∷ rs)
      merged (Memᴰ.head e) = absurd (clash h (subst (λ (x : Dismissed). hides cfg x ≡ true) e k))
      merged (Memᴰ.tail m) = Memᴰ.tail m

      other :
          (Memᴰ d (upsert_dismissed row rs) → hides cfg d ≡ true → Memᴰ d rs)
          → Memᴰ d (r ∷ upsert_dismissed row rs)
          → Memᴰ d (r ∷ rs)
      other ih (Memᴰ.head e) = Memᴰ.head e
      other ih (Memᴰ.tail m) = Memᴰ.tail (ih m k)

  mem-upsert_rule :
      (rule : Rule)
      → silences cfg rule ≡ false
      → (rs : List Rule) (r : Rule) → Memᴰ r (upsert_rule rule rs)
      → silences cfg r ≡ true
      → Memᴰ r rs
  mem-upsert_rule rule h [] r (Memᴰ.head e) k =
      absurd (clash h (subst (λ (x : Rule). silences cfg x ≡ true) e k))
  mem-upsert_rule rule h [] r (Memᴰ.tail m) k = m
  mem-upsert_rule rule h (q ∷ qs) r m k = elim (Bool-cases (text_eq q.id rule.id)) [
    | inl e ↦ merged (rw e at m)
    | inr e ↦ other (mem-upsert_rule rule h qs r) (rw e at m)
  ]
    where
      merged : Memᴰ r (rewritten q rule ∷ qs) → Memᴰ r (q ∷ qs)
      merged (Memᴰ.head e) = absurd (clash h (subst (λ (x : Rule). silences cfg x ≡ true) e k))
      merged (Memᴰ.tail m) = Memᴰ.tail m

      other :
          (Memᴰ r (upsert_rule rule qs) → silences cfg r ≡ true → Memᴰ r qs)
          → Memᴰ r (q ∷ upsert_rule rule qs)
          → Memᴰ r (q ∷ qs)
      other ih (Memᴰ.head e) = Memᴰ.head e
      other ih (Memᴰ.tail m) = Memᴰ.tail (ih m k)

  mem-changed :
      (p : Rule → Bool) (f : Rule → Rule)
      → ((q : Rule) → silences cfg (f q) ≡ false)
      → (rs : List Rule) (r : Rule) → Memᴰ r (map (λ q. if p q then f q else q) rs)
      → silences cfg r ≡ true
      → Memᴰ r rs
  mem-changed p f h [] r m k = elim m [ ]
  mem-changed p f h (q ∷ qs) r (Memᴰ.head e) k = elim (Bool-cases (p q)) [
    | inl t ↦
        let e' : r ≡ f q = rw t at e in
        absurd (clash (h q) (subst (λ (x : Rule). silences cfg x ≡ true) e' k))
    | inr t ↦ let e' : r ≡ q = rw t at e in Memᴰ.head e'
  ]
  mem-changed p f h (q ∷ qs) r (Memᴰ.tail m) k = Memᴰ.tail (mem-changed p f h qs r m k)

  module _ (id_le : Text → Text → Bool) (to_lowercase : Text → Text) (uuid : Store → Text)
      (now : ℕ) where
    archive_rule-Harmless : (id : Text) (s : Store) → Harmless cfg s (archive_rule now id s).1
    unfolding archive_rule
    archive_rule-Harmless id s = record {
      rules =
          mem-changed (λ r. text_eq r.id id && one_of r.status ("suggested" ∷ "approved" ∷ []))
            (λ r. record r { status = "archived"; archived_at = some now }) archived
            s.learned_rules;
      dismissals = λ d m e. m;
    }
      where
        archived :
            (q : Rule)
            → silences cfg (record q { status = "archived"; archived_at = some now }) ≡ false
        archived q = ground arith

    add_rule_async-Harmless :
        (rule : Rule) (s : Store)
        → silences cfg rule ≡ false
        → Harmless cfg s (add_rule_async rule s)
    unfolding add_rule_async
    add_rule_async-Harmless rule s h = record {
      rules = mem-upsert_rule rule h s.learned_rules;
      dismissals = λ d m e. m;
    }

    promote-Harmless :
        (detector : String) (file message : Text) (repo : Option Text) (s : Store)
        → is_security_detector cfg detector ≡ false
        → Harmless cfg s
            (promote_dismissal_to_rule id_le to_lowercase uuid cfg now detector file message repo s)
    unfolding promote_dismissal_to_rule
    promote-Harmless detector file message repo s h = elim (Bool-cases (is_unnamed detector)) [
      | inl e ↦ rw e (Harmless-refl cfg s)
      | inr e ↦
          rw e (each (find_approved_rule_for_detector id_le to_lowercase detector file repo s))
    ]
      where
        each :
            (o : Option Rule)
            → Harmless cfg s
                (decay_or_promote id_le to_lowercase uuid cfg now o detector file message repo s)
        each (some r) = archive_rule-Harmless r.id s
        each none =
            elim (Bool-cases (
              allowed cfg detector (count_maintainer_dismissals_for_detector detector repo s)
                (count_distinct_prs_for_detector detector repo s))) [
                  | inl e ↦ rw e (add_rule_async-Harmless _ s (rw h))
                  | inr e ↦ rw e (Harmless-refl cfg s)
                ]

    dismiss-Harmless :
        (fp : Text) (detector : String) (file message : Text) (repo : Option Text) (pr : Option ℕ)
        (by : Option Text) (is_maintainer : Bool) (s : Store)
        → is_security_detector cfg detector ≡ false
        → Harmless cfg s (
            dismiss_fingerprint_for_repo id_le to_lowercase uuid cfg now fp detector file message
              repo pr by is_maintainer s)
    unfolding dismiss_fingerprint_for_repo
    dismiss-Harmless fp detector file message repo pr by is_maintainer s h =
        Harmless-trans cfg s _ _
          (record {
            rules = λ r m e. m;
            dismissals = mem-upsert_dismissed _ h s.dismissed_findings;
          })
          (promote-Harmless detector file message repo _ h)

    abbrev step : Text → ℕ → Text → Store × ℕ → Store × ℕ
    step = mine_comment id_le to_lowercase uuid cfg now

    mine_comment-Harmless :
        (repo : Text) (pr : ℕ) (body : Text) (s : Store) (n : ℕ)
        → Harmless cfg s (step repo pr body (s, n)).0
    unfolding mine_comment
    mine_comment-Harmless repo pr body s n =
        either _ _ _ _ _ (excused (extract_detector_mention lower))
          (warned (extract_detector_mention lower))
      where
        lower : Text
        lower = to_ascii_lowercase body

        either :
            (a b c : Bool) (x y : Store × ℕ)
            → Harmless cfg s x.0
            → Harmless cfg s y.0
            → Harmless cfg s (if a then (s, n) else if b then x else if c then y else (s, n)).0
        either true b c x y h k = Harmless-refl cfg s
        either false true c x y h k = h
        either false false true x y h k = k
        either false false false x y h k = Harmless-refl cfg s

        excused :
            (o : Option String)
            → Harmless cfg s (false_positive id_le to_lowercase uuid cfg now repo pr o (s, n)).0
        excused none = Harmless-refl cfg s
        excused (some det) = elim (Bool-cases (is_security_detector cfg det)) [
          | inl e ↦ rw e (Harmless-refl cfg s)
          | inr e ↦ rw e (dismiss-Harmless _ det [] _ (some repo) (some pr) none false s e)
        ]

        warned :
            (o : Option String)
            → Harmless cfg s (pushback id_le to_lowercase uuid cfg now repo pr o (s, n)).0
        warned none = Harmless-refl cfg s
        warned (some det) = add_rule_async-Harmless _ s (ground arith)

    mine_all-Harmless :
        (repo : Text) (pr : ℕ) (bodies : List Text) (s : Store) (n : ℕ)
        → Harmless cfg s (mine_all id_le to_lowercase uuid cfg now repo pr bodies (s, n)).0
    mine_all-Harmless repo pr [] s n = Harmless-refl cfg s
    mine_all-Harmless repo pr (body ∷ bodies) s n =
        Harmless-trans cfg s (step repo pr body (s, n)).0 _ (mine_comment-Harmless repo pr body s n)
          (mine_all-Harmless repo pr bodies (step repo pr body (s, n)).0
            (step repo pr body (s, n)).1)

    -- However many comments are mined, and whatever they say: no approved rule then ignores findings
    -- of a detector of security and no dismissal names one, unless it stood in the store before.
    pub mine_pr_comment_feedback-Harmless :
        (repo : Text) (pr : ℕ) (issue_comments review_comments : List Text) (s : Store)
        → Harmless cfg s
            (mine_pr_comment_feedback id_le to_lowercase uuid cfg now repo pr issue_comments
              review_comments s).0
    unfolding mine_pr_comment_feedback
    mine_pr_comment_feedback-Harmless repo pr issue_comments review_comments s =
        mine_all-Harmless repo pr (issue_comments ++ review_comments) s 0
