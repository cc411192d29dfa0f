-- ===== src/Pipeline/Chosen.antt =====
-- src/bot/review/pipeline.rs: which findings get a comment in the diff.
use codasaurus.Finding.{Finding}
use codasaurus.Pipeline.Merge.{merge_vulnerability_findings}
use codasaurus.Pipeline.Comments.{
  Choice, start, visit, visit_all, choose_comments, severity_le, is_golden_fixture_path, is_seen,
}
use codasaurus.Pipeline.Verdict.{
  Visit, skipped, stopped, repeated, chosen, visit-Visit, visit_all-left,
}
use codasaurus.Prelude.{
  ℕ, ◌≤◌, String, Text, str_eq, str_eq_iff, text_eq, text_eq_refl, List, [], ◌∷◌, map, Bool, true,
  false, ◌&&◌, ◌==◌, Bool-cases, length, any, All, length-append, All-append, All_mono, Distinct,
  Distinct-snoc, map-snoc, sort_by, ◌≡◌, ap, ◌≢◌, inl, inr, arith,
}

abbrev pub pair_of : Finding → Text × String
pair_of f = (f.file, f.detector)

module _ (cap : ℕ) (commented : Finding → Bool) where
  -- A finding that may get a comment: it stands on a line, outside the golden fixtures, and has no
  -- comment yet.
  abbrev pub Commentable : Finding → Type 0
  Commentable f =
      ((f.line == 0) ≡ false) × (is_golden_fixture_path f.file ≡ false) × (commented f ≡ false)

  -- What holds of the variables of the loop all along.
  record Kept (c : Choice) : Type 0 where
    few : length c.posted ≤ cap
    fit : All Commentable c.posted
    once : Distinct (map pair_of c.posted)
    noted : All (λ f. is_seen f c.seen ≡ true) c.posted

  pairs_differ :
      (f : Finding) (seen : List (Text × String)) (fs : List Finding)
      → is_seen f seen ≡ false
      → All (λ g. is_seen g seen ≡ true) fs
      → All (λ k. k ≢ pair_of f) (map pair_of fs)
  pairs_differ f seen [] h k = tt
  pairs_differ f seen (g ∷ gs) h k = ((λ e. differ e), pairs_differ f seen gs h k.1)
    where
      differ : pair_of g ≢ pair_of f
      differ e = cc (h, k.0, same seen)
        where
          same : (ks : List (Text × String)) → is_seen g ks ≡ is_seen f ks
          same ks =
              ap
                (λ (p : Text × String).
                  any (λ (q : Text × String). text_eq q.0 p.0 && str_eq q.1 p.1) ks)
                e

  still_noted :
      (key : Text × String) (seen : List (Text × String)) (fs : List Finding)
      → All (λ f. is_seen f seen ≡ true) fs
      → All (λ f. is_seen f (key ∷ seen) ≡ true) fs
  still_noted key seen fs h = All_mono (λ f e. rw e (ground arith)) fs h

  own_pair : (f : Finding) (seen : List (Text × String)) → is_seen f (pair_of f ∷ seen) ≡ true
  own_pair f seen = rw (text_eq_refl f.file) (ground (arith, str_eq_iff f.detector f.detector))

  visit-Kept : (c : Choice) (f : Finding) → Kept c → c.left ≡ false → Kept (visit cap commented c f)
  visit-Kept c f k h = next (visit-Visit cap commented c f h)
    where
      next : Visit cap commented c f (visit cap commented c f) → Kept (visit cap commented c f)
      next (skipped e) = rw e (record { few = k.few; fit = k.fit; once = k.once; noted = k.noted })
      next (stopped e) = rw e (record { few = k.few; fit = k.fit; once = k.once; noted = k.noted })
      next (repeated e) = rw e (record {
        few = k.few;
        fit = k.fit;
        once = k.once;
        noted = still_noted (f.file, f.detector) c.seen c.posted k.noted;
      })
      next (chosen l g r n m e) = rw e (record {
        few = rw (length-append c.posted (f ∷ [])) (ground arith);
        fit = All-append Commentable c.posted (f ∷ []) k.fit ((l, g, m), tt);
        once = rw (map-snoc pair_of c.posted f) (
            Distinct-snoc (map pair_of c.posted) (pair_of f) k.once
              (pairs_differ f c.seen c.posted n k.noted));
        noted =
            All-append (λ x. is_seen x (pair_of f ∷ c.seen) ≡ true) c.posted (f ∷ [])
              (still_noted (pair_of f) c.seen c.posted k.noted) (own_pair f c.seen, tt);
      })

  visit_all-Kept : (c : Choice) (fs : List Finding) → Kept c → Kept (visit_all cap commented c fs)
  unfolding visit_all
  visit_all-Kept c [] k = k
  visit_all-Kept c (f ∷ fs) k = elim (Bool-cases c.left) [
    | inl l ↦ rw (visit_all-left cap commented c (f ∷ fs) l) k
    | inr l ↦ visit_all-Kept (visit cap commented c f) fs (visit-Kept c f k l)
  ]

  -- The findings that get a comment are at most as many as allowed; each stands on a line, outside
  -- the golden fixtures, and has no comment from an earlier push; and no two are of the same
  -- detector in the same file.
  pub choose_comments-posted :
      (fs : List Finding)
      → let posted = (choose_comments cap commented fs).posted in
        (length posted ≤ cap) × All Commentable posted × Distinct (map pair_of posted)
  unfolding choose_comments
  choose_comments-posted fs =
      let k =
        visit_all-Kept start (sort_by severity_le (merge_vulnerability_findings fs))
          (record { few = omega arith; fit = tt; once = tt; noted = tt }) in
      (k.few, k.fit, k.once)
