-- ===== src/Provenance/Vouched.antt =====
-- src/bot/provenance.rs: what every posted issue of a language model has.
use codasaurus.Provenance.{
  LlmReplacement, LlmIssue, confidence_rank, lower_severity, merge_blocking, relabel, rationale_of,
  keep_fix, content_of, is_known, is_dropped, posted, invented, reverify_llm_issues,
}
use codasaurus.Prelude.{
  ℕ, ◌≤◌, Text, codes, text_eq, text_eq_iff, contains, to_ascii_lowercase, is_empty_text, List, [],
  ◌∷◌, Option, none, some, Bool, true, false, not, ◌&&◌, ◌||◌, ltb, ◌==◌, ==_iff, Bool-cases,
  length, All, ◌≡◌, refl, subst, ◌↔◌, inl, inr, arith,
}

pub or_false : (a b : Bool) → (a || b) ≡ false → (a ≡ false) × (b ≡ false)
or_false true b e = absurd (cc e)
or_false false b e = (refl, e)

not-false : (b : Bool) → not b ≡ false → b ≡ true
not-false true e = refl
not-false false e = absurd (cc e)

abbrev pub is_renamed : Text → Bool
is_renamed s = text_eq (to_ascii_lowercase s) (codes "blocking")

pub relabel-warning :
    (s : Text) (n : ℕ) → merge_blocking s ≡ true → ltb n 3 ≡ true → relabel s n ≡ codes "warning"
unfolding relabel
relabel-warning s n e l = elim (Bool-cases (is_renamed s)) [
  | inl q ↦ rw (e, l, q) refl
  | inr q ↦ rw (e, l, q) refl
]

pub relabel-other : (s : Text) (n : ℕ) → merge_blocking s ≡ false → relabel s n ≡ s
unfolding relabel
relabel-other s n e = let q = (or_false (is_renamed s) false (or_false _ _ e).1).0 in rw (e, q) refl

-- What is still called critical or blocking is certain.
pub relabel-merge_blocking : (s : Text) (n : ℕ) → merge_blocking (relabel s n) ≡ true → 3 ≤ n
relabel-merge_blocking s n e = elim (Bool-cases (ltb n 3)) [
  | inl l ↦ elim (Bool-cases (merge_blocking s)) [
    | inl b ↦ absurd (cc (rw (relabel-warning s n b l) at e))
    | inr b ↦ absurd (cc (rw (relabel-other s n b, b) at e))
  ]
  | inr l ↦ ground (arith, l)
]

pub info-other :
    (s : Text) → text_eq (to_ascii_lowercase s) (codes "info") ≡ true → merge_blocking s ≡ false
info-other s k = let e : to_ascii_lowercase s ≡ codes "info" = (text_eq_iff _ _).0 k in rw e refl

keep_fix-some :
    (o : Option Text) (r : Option LlmReplacement) (kept : LlmReplacement)
    → keep_fix o r ≡ some kept
    → (content : Text) × (o ≡ some content) × (contains kept.original content ≡ true)
unfolding keep_fix
keep_fix-some o none kept e = absurd (cc e)
keep_fix-some none (some r) kept e = absurd (cc e)
keep_fix-some (some content) (some r) kept e = elim (Bool-cases (contains r.original content)) [
  | inl q ↦
      let same : r ≡ kept = cc (rw q at e) in
      (content, refl, subst (λ x. contains x.original content ≡ true) same q)
  | inr q ↦ absurd (cc (rw q at e))
]

module _ (byte_len : Text → ℕ) (known_paths : List Text) (file_contents : List (Text × Text)) where
  -- An issue that is not dropped.
  pub record Passes (i : LlmIssue) : Type 0 where
    pub named : (is_empty_text i.file || text_eq i.file (codes "?")) ≡ false
    pub path : is_known byte_len known_paths file_contents i ≡ true
    pub confident : ltb (confidence_rank i.confidence) 2 ≡ false
    pub argued : ltb (length (rationale_of i)) 16 ≡ false
    pub cited : (i.line == 0 && not (text_eq (lower_severity i) (codes "info"))) ≡ false
    pub real : invented byte_len known_paths file_contents i ≡ false

  pub is_dropped-Passes :
      (i : LlmIssue) → (is_dropped byte_len known_paths file_contents i ≡ false) ↔ Passes i
  unfolding is_dropped
  is_dropped-Passes i = (
    λ e.
        let (named, e) = or_false _ _ e in
        let (known, e) = or_false _ _ e in
        let (confident, e) = or_false _ _ e in
        let (argued, e) = or_false _ _ e in
        let (cited, real) = or_false _ _ e in
        record {
          named = named;
          path = not-false (is_known byte_len known_paths file_contents i) known;
          confident = confident;
          argued = argued;
          cited = cited;
          real = real;
        },
    λ p. rw (p.named, p.path, p.confident, p.argued, p.cited, p.real) refl,
  )

  pub cited_lem :
      (i : LlmIssue) → Passes i → i.line ≡ 0 → text_eq (lower_severity i) (codes "info") ≡ true
  cited_lem i p e = let q = p.cited in ground (arith, q, e)

  pub cited-merge_blocking :
      (i : LlmIssue) → Passes i → merge_blocking i.severity ≡ true → (i.line == 0) ≡ false
  cited-merge_blocking i p b = elim (Bool-cases (i.line == 0)) [
    | inl q ↦ absurd (cc (info-other i.severity (cited_lem i p ((==_iff i.line 0).0 q)), b))
    | inr q ↦ q
  ]

  -- What a posted issue has: it names a changed path, its confidence is medium or high, its reason has
  -- sixteen characters, without a line it only informs, it is called critical or blocking only at a
  -- high confidence, and the text that its fix replaces stands in the file.
  pub record IsVouched (out : LlmIssue) : Type 0 where
    pub path : is_known byte_len known_paths file_contents out ≡ true
    pub confident : 2 ≤ confidence_rank out.confidence
    pub argued : 16 ≤ length (rationale_of out)
    pub cited : out.line ≡ 0 → text_eq (lower_severity out) (codes "info") ≡ true
    pub certain : merge_blocking out.severity ≡ true → 3 ≤ confidence_rank out.confidence
    pub applies :
        (fix : LlmReplacement)
        → out.replacement ≡ some fix
        → (content : Text) × (content_of byte_len known_paths file_contents out ≡ some content)
          × (contains fix.original content ≡ true)

  posted-IsVouched :
      (i : LlmIssue) → Passes i → IsVouched (posted byte_len known_paths file_contents i)
  unfolding is_known rationale_of content_of
  posted-IsVouched i p = record {
    path = p.path;
    confident = let q = p.confident in ground (arith, q);
    argued = let q = p.argued in ground (arith, q);
    cited = λ e.
        let k = cited_lem i p e in
        rw (relabel-other i.severity (confidence_rank i.confidence) (info-other i.severity k)) k;
    certain = relabel-merge_blocking i.severity (confidence_rank i.confidence);
    applies = keep_fix-some (content_of byte_len known_paths file_contents i) i.replacement;
  }

  -- Every issue of a language model that is posted names a changed path, has at least a medium
  -- confidence and sixteen characters of reason, only informs if it cites no line, is called critical
  -- or blocking only at a high confidence, and offers a fix only if the text it replaces stands in the
  -- first file that its path matches.
  pub reverify_llm_issues-IsVouched :
      (is : List LlmIssue)
      → All IsVouched (reverify_llm_issues byte_len known_paths file_contents is)
  unfolding reverify_llm_issues
  reverify_llm_issues-IsVouched [] = tt
  reverify_llm_issues-IsVouched (i ∷ is) =
      elim (Bool-cases (is_dropped byte_len known_paths file_contents i)) [
        | inl e ↦ rw e (reverify_llm_issues-IsVouched is)
        | inr e ↦
            rw e (posted-IsVouched i ((is_dropped-Passes i).0 e), reverify_llm_issues-IsVouched is)
      ]
