-- ===== src/Baseline/Filtered.antt =====
-- src/baseline.rs: what the filter on new code keeps, and what it remembers.
use codasaurus.Finding.{Finding}
use codasaurus.Baseline.{
  DiffLine, Known, Tables, Filter, is_row, is_known, is_new, record_baselines, filter_one,
  filter_all, filter_new_code_findings,
}
use codasaurus.Prelude.{
  text_eq_sym, ℕ, ◌<◌, Text, text_eq, text_eq_iff, text_eq_refl, List, [], ◌∷◌, ◌++◌, map, Bool,
  true, false, ◌||◌, if◌then◌else◌, Bool-cases, retain, any, All, All_mono, any-append, ◌≡◌, refl,
  sym, ap, ◌∙◌, ◌≢◌, inl, inr, arith,
}

append_assoc {ℓ} : {A : Type ℓ} (xs ys zs : List A) → (xs ++ ys) ++ zs ≡ xs ++ (ys ++ zs)
append_assoc [] ys zs = refl
append_assoc (x ∷ xs) ys zs = ap (◌∷◌ x) (append_assoc xs ys zs)

append_nil {ℓ} : {A : Type ℓ} (xs : List A) → xs ++ [] ≡ xs
append_nil [] = refl
append_nil (x ∷ xs) = ap (◌∷◌ x) (append_nil xs)

known_self : (k : Text) (ks : List Text) → any (text_eq k) (k ∷ ks) ≡ true
known_self k ks = rw (text_eq_refl k)

module _ (fingerprint : Finding → Text) (repo : Text) (pr : ℕ) (rows : List DiffLine) where
  filter_one-out :
      (s : Filter) (f : Finding)
      → (filter_one fingerprint repo pr rows s f).out
        ≡ s.out ++ (if is_new repo pr rows f then f ∷ [] else [])
  unfolding filter_one
  filter_one-out s f = elim (Bool-cases (is_new repo pr rows f)) [
    | inl e ↦ rw e
    | inr e ↦ elim (Bool-cases (any (text_eq (fingerprint f)) s.known)) [
      | inl k ↦ rw (e, k) (sym (append_nil s.out))
      | inr k ↦ rw (e, k) (sym (append_nil s.out))
    ]
  ]

  filter_one-known :
      (k : Text) (s : Filter) (f : Finding)
      → any (text_eq k) s.known ≡ true
      → any (text_eq k) (filter_one fingerprint repo pr rows s f).known ≡ true
  unfolding filter_one
  filter_one-known k s f h = elim (Bool-cases (is_new repo pr rows f)) [
    | inl e ↦ rw e h
    | inr e ↦ elim (Bool-cases (any (text_eq (fingerprint f)) s.known)) [
      | inl o ↦ rw (e, o) h
      | inr o ↦ rw (e, o, h) (ground arith)
    ]
  ]

  filter_one-suppressed :
      (s : Filter) (f : Finding)
      → is_new repo pr rows f ≡ false
      → any (text_eq (fingerprint f)) (filter_one fingerprint repo pr rows s f).known ≡ true
  unfolding filter_one
  filter_one-suppressed s f e = elim (Bool-cases (any (text_eq (fingerprint f)) s.known)) [
    | inl o ↦ rw (e, o) o
    | inr o ↦ rw (e, o) (known_self (fingerprint f) s.known)
  ]

  -- Every fingerprint in the set is new or was in the table.
  abbrev Tracked : List Known → Filter → Type 0
  Tracked base s =
      (k : Text)
      → any (text_eq k) s.known ≡ true
      → (any (text_eq k) s.new_baselines || any (is_known repo k) base) ≡ true

  filter_one-Tracked :
      (base : List Known) (s : Filter) (f : Finding)
      → Tracked base s
      → Tracked base (filter_one fingerprint repo pr rows s f)
  unfolding filter_one
  filter_one-Tracked base s f t k = elim (Bool-cases (is_new repo pr rows f)) [
    | inl e ↦ rw e (t k)
    | inr e ↦ elim (Bool-cases (any (text_eq (fingerprint f)) s.known)) [
      | inl o ↦ rw (e, o) (t k)
      | inr o ↦ rw (e, o, any-append) (added (t k))
    ]
  ]
    where
      added :
          (any (text_eq k) s.known ≡ true
            → (any (text_eq k) s.new_baselines || any (is_known repo k) base) ≡ true)
          → (text_eq k (fingerprint f) || any (text_eq k) s.known) ≡ true
          → ((any (text_eq k) s.new_baselines || (text_eq k (fingerprint f) || false))
              || any (is_known repo k) base)
            ≡ true
      added old h = ground (arith, old)

  filter_all-out :
      (s : Filter) (fs : List Finding)
      → (filter_all fingerprint repo pr rows s fs).out ≡ s.out ++ retain (is_new repo pr rows) fs
  unfolding filter_all
  filter_all-out s [] = sym (append_nil s.out)
  filter_all-out s (f ∷ fs) =
      filter_all-out (filter_one fingerprint repo pr rows s f) fs
      ∙ ap (λ o. o ++ retain (is_new repo pr rows) fs) (filter_one-out s f)
      ∙ append_assoc s.out _ _
      ∙ ap (λ o. s.out ++ o) (joined (is_new repo pr rows f))
    where
      joined :
          (b : Bool)
          → (if b then f ∷ [] else []) ++ retain (is_new repo pr rows) fs
            ≡ (if b then f ∷ retain (is_new repo pr rows) fs else retain (is_new repo pr rows) fs)
      joined true = refl
      joined false = refl

  filter_all-known :
      (k : Text) (s : Filter) (fs : List Finding)
      → any (text_eq k) s.known ≡ true
      → any (text_eq k) (filter_all fingerprint repo pr rows s fs).known ≡ true
  unfolding filter_all
  filter_all-known k s [] h = h
  filter_all-known k s (f ∷ fs) h =
      filter_all-known k (filter_one fingerprint repo pr rows s f) fs (filter_one-known k s f h)

  filter_all-Tracked :
      (base : List Known) (s : Filter) (fs : List Finding)
      → Tracked base s
      → Tracked base (filter_all fingerprint repo pr rows s fs)
  unfolding filter_all
  filter_all-Tracked base s [] t = t
  filter_all-Tracked base s (f ∷ fs) t =
      filter_all-Tracked base (filter_one fingerprint repo pr rows s f) fs
        (filter_one-Tracked base s f t)

  -- Every finding that is suppressed has its fingerprint in the set at the end.
  filter_all-suppressed :
      (s : Filter) (fs : List Finding)
      → All
          (λ f.
            is_new repo pr rows f ≡ false
            → any (text_eq (fingerprint f)) (filter_all fingerprint repo pr rows s fs).known ≡ true)
          fs
  unfolding filter_all
  filter_all-suppressed s [] = tt
  filter_all-suppressed s (f ∷ fs) = (
    λ e.
        filter_all-known (fingerprint f) (filter_one fingerprint repo pr rows s f) fs
          (filter_one-suppressed s f e),
    filter_all-suppressed (filter_one fingerprint repo pr rows s f) fs,
  )

abbrev remember : Text → Text → List Known → List Known
remember repo fp base =
    if any (is_known repo fp) base then base else record { repo = repo; fingerprint = fp } ∷ base

remember-old :
    (repo fp k : Text) (base : List Known)
    → any (is_known repo k) base ≡ true
    → any (is_known repo k) (remember repo fp base) ≡ true
remember-old repo fp k base h = elim (Bool-cases (any (is_known repo fp) base)) [
  | inl e ↦ rw e h
  | inr e ↦ rw (e, h) (ground arith)
]

remember-new :
    (repo fp : Text) (base : List Known) → any (is_known repo fp) (remember repo fp base) ≡ true
remember-new repo fp base = elim (Bool-cases (any (is_known repo fp) base)) [
  | inl e ↦ rw e e
  | inr e ↦ rw (e, text_eq_refl repo, text_eq_refl fp)
]

-- The baseline after a run has what it had, and every fingerprint that was handed to it.
record_baselines-known :
    (repo k : Text) (fps : List Text) (base : List Known)
    → (any (text_eq k) fps || any (is_known repo k) base) ≡ true
    → any (is_known repo k) (record_baselines repo fps base) ≡ true
unfolding record_baselines
record_baselines-known repo k [] base h = h
record_baselines-known repo k (fp ∷ fps) base h =
    record_baselines-known repo k fps (remember repo fp base) (elim (Bool-cases (text_eq k fp)) [
      | inl e ↦
          let here = remember-new repo fp base in
          let same = (text_eq_iff k fp).0 e in
          let found : any (is_known repo k) (remember repo fp base) ≡ true = rw same here in
          ground (arith, found)
      | inr e ↦ elim (Bool-cases (any (is_known repo k) base)) [
        | inl b ↦ let found = remember-old repo fp k base b in ground (arith, found)
        | inr b ↦
            let later : any (text_eq k) fps ≡ true = ground (arith, h, e, b) in
            ground (arith, later)
      ]
    ])

known_in_base :
    (repo k : Text) (base : List Known)
    → any (text_eq k) (map (λ (b : Known). b.fingerprint) (retain (λ b. text_eq b.repo repo) base))
      ≡ true
    → any (is_known repo k) base ≡ true
known_in_base repo k [] h = h
known_in_base repo k (b ∷ bs) h = elim (Bool-cases (text_eq b.repo repo)) [
  | inl e ↦
      let rest = known_in_base repo k bs in
      let here = rw e at h in rw (e, text_eq_sym b.fingerprint k) (ground (arith, rest, here))
  | inr e ↦ let rest = known_in_base repo k bs (rw e at h) in ground (arith, rest)
]

-- The filter keeps, in their order, exactly the findings on the lines that the pull request changes,
-- and of each finding that it suppresses the fingerprint is in the baseline afterwards.
pub filter_new_code_findings-out :
    (fingerprint : Finding → Text) (repo : Text) (pr : ℕ) (fs : List Finding) (t : Tables)
    → let (after, out) = filter_new_code_findings fingerprint repo pr fs t in
      (out ≡ retain (is_new repo pr t.diff_lines) fs)
      × All
          (λ f.
            is_new repo pr t.diff_lines f ≡ false
            → any (is_known repo (fingerprint f)) after.baseline ≡ true)
          fs
unfolding filter_new_code_findings
filter_new_code_findings-out fingerprint repo pr fs t =
    let known = map (λ (k : Known). k.fingerprint) (retain (λ k. text_eq k.repo repo) t.baseline) in
    let s : Filter = record { out = []; known = known; new_baselines = [] } in
    let tracked =
      filter_all-Tracked fingerprint repo pr t.diff_lines t.baseline s fs
        (λ k h. known_in_base repo k t.baseline h) in
    (
      filter_all-out fingerprint repo pr t.diff_lines s fs,
      All_mono
          (λ f h e.
            record_baselines-known repo (fingerprint f) _ t.baseline
              (tracked (fingerprint f) (h e)))
          fs (filter_all-suppressed fingerprint repo pr t.diff_lines s fs),
    )

-- When no changed line has the number zero, no finding on line zero passes the filter: those that the
-- policy adds for the pull request as a whole are all dropped.
pub filter_new_code_findings-line_zero :
    (fingerprint : Finding → Text) (repo : Text) (pr : ℕ) (fs : List Finding) (t : Tables)
    → All (λ (r : DiffLine). 0 < r.line) t.diff_lines
    → All (λ f. f.line ≢ 0) (filter_new_code_findings fingerprint repo pr fs t).1
unfolding is_new
filter_new_code_findings-line_zero fingerprint repo pr fs t pos =
    rw (filter_new_code_findings-out fingerprint repo pr fs t).0 (go fs)
  where
    off : ◌≡◌ {A = Bool} true false → ⊥
    off h = cc

    nowhere :
        (file : Text) (rows : List DiffLine)
        → All (λ (r : DiffLine). 0 < r.line) rows
        → any (is_row repo pr file 0) rows ≡ false
    nowhere file [] h = refl
    nowhere file (r ∷ rs) h =
        let rest = nowhere file rs h.1 in let here = h.0 in ground (arith, rest, here)

    dropped : (g : Finding) → g.line ≡ 0 → is_new repo pr t.diff_lines g ≡ true → ⊥
    dropped g z e = off (sym (rw z at e) ∙ nowhere g.file t.diff_lines pos)

    go : (gs : List Finding) → All (λ f. f.line ≢ 0) (retain (is_new repo pr t.diff_lines) gs)
    go [] = tt
    go (g ∷ gs) = elim (Bool-cases (is_new repo pr t.diff_lines g)) [
      | inl e ↦ rw e ((λ z. dropped g z e), go gs)
      | inr e ↦ rw e (go gs)
    ]
