-- ===== src/Baseline/Saved.antt =====
-- src/baseline.rs: the lines that are saved for a pull request, and those that are found again.
use codasaurus.Baseline.{
  DiffLine, Tables, is_row, insert_lines, save_pr_diff_lines, clear_pr_diff_lines,
}
use codasaurus.Prelude.{
  ℕ, ◌^◌, Text, text_eq, text_eq_iff, text_eq_refl, List, [], ◌∷◌, some, true, false, not, ◌&&◌,
  ◌||◌, ltb, ◌==◌, if◌then◌else◌, ==_iff, Bool-cases, retain, any, all, if_true, ◌≡◌, refl, ◌∙◌,
  ◌⊎◌, inl, inr, arith,
}

module _ (repo : Text) (pr : ℕ) (f : Text) (l : ℕ) where
  insert_one :
      (file : Text) (x : ℕ) (rows : List DiffLine)
      → any (is_row repo pr f l) (
          if any (is_row repo pr file x) rows
          then rows
          else record { repo = repo; pr = pr; file = file; line = x } ∷ rows)
        ≡ (any (is_row repo pr f l) rows || (text_eq file f && x == l))
  insert_one file x rows = elim (Bool-cases (any (is_row repo pr file x) rows)) [
    | inl e ↦ rw e (there (Bool-cases (text_eq file f && x == l)) e)
    | inr e ↦
        let own : (pr == pr) ≡ true = (==_iff pr pr).1 refl in
        rw (e, text_eq_refl repo, own) (ground arith)
  ]
    where
      there :
          ((text_eq file f && x == l) ≡ true) ⊎ ((text_eq file f && x == l) ≡ false)
          → any (is_row repo pr file x) rows ≡ true
          → any (is_row repo pr f l) rows
            ≡ (any (is_row repo pr f l) rows || (text_eq file f && x == l))
      there (inl s) e =
          let same_file : file ≡ f = ground (arith, s, text_eq_iff file f) in
          let same_line : x ≡ l = ground (arith, s, ==_iff x l) in
          let found : any (is_row repo pr f l) rows ≡ true = rw (← same_file, ← same_line) e in
          rw (s, found)
      there (inr s) e = rw s (ground arith)

  insert_lines-row :
      (file : Text) (ls : List ℕ) (rows : List DiffLine)
      → any (is_row repo pr f l) (insert_lines repo pr file ls rows)
        ≡ (any (is_row repo pr f l) rows || (text_eq file f && any (λ x. x == l) ls))
  unfolding insert_lines
  insert_lines-row file [] rows = ground arith
  insert_lines-row file (x ∷ xs) rows =
      insert_lines-row file xs _ ∙ rw (insert_one file x rows) (ground arith)

  cleared :
      (rows : List DiffLine)
      → any (is_row repo pr f l) (retain (λ r. not (text_eq r.repo repo && r.pr == pr)) rows)
        ≡ false
  cleared [] = refl
  cleared (r ∷ rs) = elim (Bool-cases (text_eq r.repo repo && r.pr == pr)) [
    | inl e ↦ rw e (cleared rs)
    | inr e ↦ let rest = cleared rs in rw (e, rest) (ground (arith, e))
  ]

-- Clearing the lines of a pull request and saving those of a file, if they fit in the column,
-- succeeds, and afterwards a line of a file is recorded for the pull request exactly when it is of
-- that file and was saved, whatever was recorded before.
pub save-clear :
    (repo : Text) (pr : ℕ) (file : Text) (ls : List ℕ) (t : Tables)
    → all (λ x. ltb x (2 ^ 31)) ls ≡ true
    → (u : Tables) × (save_pr_diff_lines repo pr file ls (clear_pr_diff_lines repo pr t) ≡ some u)
      × ((f : Text) (l : ℕ)
          → any (is_row repo pr f l) u.diff_lines ≡ (text_eq file f && any (λ x. x == l) ls))
unfolding save_pr_diff_lines clear_pr_diff_lines
save-clear repo pr file [] t fit =
    (clear_pr_diff_lines repo pr t, refl, λ f l. cleared repo pr f l t.diff_lines ∙ ground arith)
save-clear repo pr file (x ∷ xs) t fit = (
  record t {
    diff_lines = insert_lines repo pr file (x ∷ xs) (clear_pr_diff_lines repo pr t).diff_lines;
  },
  if_true _ _ _ fit,
  λ f l. insert_lines-row repo pr f l file (x ∷ xs) _ ∙ rw (cleared repo pr f l t.diff_lines),
)
