-- ===== src/Pipeline/Verdict.antt =====
-- src/bot/review/pipeline.rs: the verdict of the loop over the findings, which may be left early.
use codasaurus.Finding.{Finding, is_blocking}
use codasaurus.Pipeline.Merge.{merge_vulnerability_findings}
use codasaurus.Pipeline.Merged.{merge_vulnerability_findings-blocking}
use codasaurus.Pipeline.Comments.{
  Choice, start, visit, visit_all, choose_comments, severity_order, severity_le,
  is_golden_fixture_path, is_seen,
}
use codasaurus.Prelude.{
  if_true, if_false, ℕ, List, [], ◌∷◌, ◌++◌, Bool, true, false, ◌||◌, leb, ◌==◌, Bool-cases, length,
  any, All, any-sort_by, sort_by-IsSorted, IsSorted, ◌≡◌, refl, sym, ap, ◌∙◌, inl, inr, arith,
}

severity_le_total : (a b : Finding) → severity_le a b ≡ false → severity_le b a ≡ true
severity_le_total a b e = ground arith

severity_le_trans :
    (a b c : Finding) → severity_le a b ≡ true → severity_le b c ≡ true → severity_le a c ≡ true
severity_le_trans a b c h k = ground arith

blocks_first :
    (f g : Finding) → severity_le f g ≡ true → is_blocking g ≡ true → is_blocking f ≡ true
unfolding severity_order
blocks_first f g h k = ground arith

-- Once a finding does not block, none after it in the order does.
none_later :
    (f : Finding) (fs : List Finding)
    → All (λ g. severity_le f g ≡ true) fs
    → (is_blocking f || any is_blocking fs) ≡ is_blocking f
none_later f [] h = ground arith
none_later f (g ∷ gs) h =
    let b = blocks_first f g h.0 in let rest = none_later f gs h.1 in ground arith

-- The state after the first statement of the body.
abbrev pub blocked : Choice → Finding → Choice
blocked c f = record c { has_blocking = c.has_blocking || is_blocking f }

module _ (cap : ℕ) (commented : Finding → Bool) where
  -- What the body of the loop does with a finding.
  pub data Visit (c : Choice) (f : Finding) (d : Choice) : Type 0 where
    skipped : d ≡ blocked c f → Visit c f d
    stopped : d ≡ record (blocked c f) { left = true } → Visit c f d
    repeated : d ≡ record (blocked c f) { seen = (f.file, f.detector) ∷ c.seen } → Visit c f d
    chosen :
        (f.line == 0) ≡ false
        → is_golden_fixture_path f.file ≡ false
        → leb cap (length c.posted) ≡ false
        → is_seen f c.seen ≡ false
        → commented f ≡ false
        → d ≡ record (blocked c f) {
          seen = (f.file, f.detector) ∷ c.seen;
          posted = c.posted ++ f ∷ [];
        }
        → Visit c f d

  pub visit-Visit :
      (c : Choice) (f : Finding) → c.left ≡ false → Visit c f (visit cap commented c f)
  unfolding visit
  visit-Visit c f h = elim (Bool-cases (f.line == 0)) [
    | inl l ↦ skipped (if_false c.left _ _ h ∙ if_true _ _ _ l)
    | inr l ↦ elim (Bool-cases (is_golden_fixture_path f.file)) [
      | inl g ↦ skipped (if_false c.left _ _ h ∙ if_false _ _ _ l ∙ if_true _ _ _ g)
      | inr g ↦ elim (Bool-cases (leb cap (length c.posted))) [
        | inl r ↦
            stopped (if_false c.left _ _ h ∙ if_false _ _ _ l ∙ if_false _ _ _ g ∙ if_true _ _ _ r)
        | inr r ↦ elim (Bool-cases (is_seen f c.seen)) [
          | inl s ↦ skipped (
              if_false c.left _ _ h
              ∙ if_false _ _ _ l
              ∙ if_false _ _ _ g
              ∙ if_false _ _ _ r
              ∙ if_true _ _ _ s)
          | inr s ↦ elim (Bool-cases (commented f)) [
            | inl k ↦ repeated (
                if_false c.left _ _ h
                ∙ if_false _ _ _ l
                ∙ if_false _ _ _ g
                ∙ if_false _ _ _ r
                ∙ if_false _ _ _ s
                ∙ if_true _ _ _ k)
            | inr k ↦ chosen l g r s k (
                if_false c.left _ _ h
                ∙ if_false _ _ _ l
                ∙ if_false _ _ _ g
                ∙ if_false _ _ _ r
                ∙ if_false _ _ _ s
                ∙ if_false _ _ _ k)
          ]
        ]
      ]
    ]
  ]

  pub visit_all-left :
      (c : Choice) (fs : List Finding) → c.left ≡ true → visit_all cap commented c fs ≡ c
  unfolding visit_all visit
  visit_all-left c [] h = refl
  visit_all-left c (f ∷ fs) h =
      ap (λ d. visit_all cap commented d fs) (if_true c.left c _ h) ∙ visit_all-left c fs h

  visit_all-has_blocking :
      (c : Choice) (fs : List Finding)
      → c.left ≡ false
      → IsSorted severity_le fs
      → (visit_all cap commented c fs).has_blocking ≡ (c.has_blocking || any is_blocking fs)
  unfolding visit_all
  visit_all-has_blocking c [] h s = ground arith
  visit_all-has_blocking c (f ∷ fs) h s =
      next (visit-Visit c f h) (λ d e l. visit_all-has_blocking d fs l s.1 ∙ rw e (ground arith))
    where
      Told : Choice → Type 0
      Told d =
          (visit_all cap commented d fs).has_blocking
          ≡ (c.has_blocking || (is_blocking f || any is_blocking fs))

      next :
          Visit c f (visit cap commented c f)
          → ((d : Choice)
              → d.has_blocking ≡ (c.has_blocking || is_blocking f)
              → d.left ≡ false
              → Told d)
          → Told (visit cap commented c f)
      next (skipped e) through = rw e (through (blocked c f) refl h)
      next (stopped e) through =
          rw (e, visit_all-left (record (blocked c f) { left = true }) fs refl)
            (ap (λ b. c.has_blocking || b) (sym (none_later f fs s.0)))
      next (repeated e) through = rw e (through _ refl h)
      next (chosen l g r n k e) through = rw e (through _ refl h)

  -- The loop sees that something blocks exactly when one of the findings blocks, however many
  -- comments are allowed and were made before, and wherever the loop is left.
  pub choose_comments-has_blocking :
      (fs : List Finding) → (choose_comments cap commented fs).has_blocking ≡ any is_blocking fs
  unfolding choose_comments
  choose_comments-has_blocking fs =
      visit_all-has_blocking start _ refl (
        sort_by-IsSorted severity_le severity_le_total severity_le_trans
          (merge_vulnerability_findings fs))
      ∙ any-sort_by severity_le is_blocking (merge_vulnerability_findings fs)
      ∙ merge_vulnerability_findings-blocking fs
