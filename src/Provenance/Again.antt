-- ===== src/Provenance/Again.antt =====
-- src/bot/provenance.rs: checking issues that were checked before.
use codasaurus.Provenance.{
  LlmReplacement, LlmIssue, confidence_rank, lower_severity, merge_blocking, relabel, tokens,
  rationale_of, keep_fix, content_of, is_known, is_dropped, posted, invented, invented_in,
  reverify_llm_issues,
}
use codasaurus.Provenance.Vouched.{
  is_renamed, relabel-warning, relabel-other, Passes, is_dropped-Passes, cited-merge_blocking,
}
use codasaurus.Prelude.{
  ℕ, Text, codes, text_eq, contains, List, [], ◌∷◌, Option, none, some, Bool, true, false, ◌&&◌,
  ltb, ◌==◌, Bool-cases, All, ◌≡◌, refl, sym, ap, ◌∙◌, ◌⊎◌, inl, inr,
}

-- A severity other than `blocking` is kept, or becomes a warning.
relabel_cases :
    (s : Text) (n : ℕ)
    → is_renamed s ≡ false
    → (relabel s n ≡ s) ⊎ ((merge_blocking s ≡ true) × (relabel s n ≡ codes "warning"))
unfolding relabel
relabel_cases s n plain = elim (Bool-cases (merge_blocking s)) [
  | inr b ↦ inl (relabel-other s n b)
  | inl b ↦ elim (Bool-cases (ltb n 3)) [
    | inl l ↦ inr (b, relabel-warning s n b l)
    | inr l ↦ inl (rw (b, l, plain) refl)
  ]
]

and_and_false : (x y : Bool) → (x && (y && false)) ≡ false
and_and_false false y = refl
and_and_false true false = refl
and_and_false true true = refl

relabel_twice : (s : Text) (n : ℕ) → is_renamed s ≡ false → relabel (relabel s n) n ≡ relabel s n
unfolding relabel
relabel_twice s n plain = elim (relabel_cases s n plain) [
  | inl e ↦ ap (λ x. relabel x n) e
  | inr (b, e) ↦ ap (λ x. relabel x n) e ∙ sym e
]

keep_fix-keep_fix :
    (o : Option Text) (r : Option LlmReplacement) → keep_fix o (keep_fix o r) ≡ keep_fix o r
unfolding keep_fix
keep_fix-keep_fix o none = refl
keep_fix-keep_fix none (some r) = refl
keep_fix-keep_fix (some content) (some r) = elim (Bool-cases (contains r.original content)) [
  | inl q ↦ rw (q, q) refl
  | inr q ↦ rw q refl
]

module _ (byte_len : Text → ℕ) (known_paths : List Text) (file_contents : List (Text × Text)) where
  abbrev vetted : LlmIssue → LlmIssue
  vetted = posted byte_len known_paths file_contents

  warned_real :
      (i : LlmIssue) (o : Option Text)
      → (i.line == 0) ≡ false
      → text_eq (lower_severity i) (codes "critical") ≡ false
      → invented_in byte_len known_paths file_contents i o ≡ false
  warned_real i none z w = refl
  warned_real i (some content) z w = rw (z, w) (and_and_false _ _)

  still_real :
      (i : LlmIssue)
      → Passes byte_len known_paths file_contents i
      → is_renamed i.severity ≡ false
      → invented byte_len known_paths file_contents (vetted i) ≡ false
  unfolding invented content_of tokens
  still_real i p plain = elim (relabel_cases i.severity (confidence_rank i.confidence) plain) [
    | inl e ↦ rw e p.real
    | inr (b, e) ↦
        warned_real (vetted i) (content_of byte_len known_paths file_contents (vetted i))
          (cited-merge_blocking byte_len known_paths file_contents i p b) (rw e refl)
  ]

  vetted-Passes :
      (i : LlmIssue)
      → Passes byte_len known_paths file_contents i
      → is_renamed i.severity ≡ false
      → Passes byte_len known_paths file_contents (vetted i)
  unfolding is_known rationale_of
  vetted-Passes i p plain = record {
    named = p.named;
    path = p.path;
    confident = p.confident;
    argued = p.argued;
    cited = elim (relabel_cases i.severity (confidence_rank i.confidence) plain) [
      | inl e ↦ rw e p.cited
      | inr (b, e) ↦ rw (cited-merge_blocking byte_len known_paths file_contents i p b) refl
    ];
    real = still_real i p plain;
  }

  vetted_twice : (i : LlmIssue) → is_renamed i.severity ≡ false → vetted (vetted i) ≡ vetted i
  unfolding content_of
  vetted_twice i plain =
      rw
        (
          relabel_twice i.severity (confidence_rank i.confidence) plain,
          keep_fix-keep_fix (content_of byte_len known_paths file_contents i) i.replacement,
        )
        refl

  -- If no issue has the severity `blocking`, in any case of its letters, checking what was posted a
  -- second time drops and changes nothing.
  pub reverify_llm_issues-twice :
      (is : List LlmIssue)
      → All (λ (i : LlmIssue). is_renamed i.severity ≡ false) is
      → reverify_llm_issues byte_len known_paths file_contents
          (reverify_llm_issues byte_len known_paths file_contents is)
        ≡ reverify_llm_issues byte_len known_paths file_contents is
  unfolding reverify_llm_issues
  reverify_llm_issues-twice [] h = refl
  reverify_llm_issues-twice (i ∷ is) h =
      elim (Bool-cases (is_dropped byte_len known_paths file_contents i)) [
        | inl e ↦ rw e (reverify_llm_issues-twice is h.1)
        | inr e ↦
            let again = (is_dropped-Passes byte_len known_paths file_contents (vetted i)).1 (
              vetted-Passes i ((is_dropped-Passes byte_len known_paths file_contents i).0 e) h.0) in
            rw (e, again, vetted_twice i h.0, reverify_llm_issues-twice is h.1) refl
      ]
