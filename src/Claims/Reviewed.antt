-- ===== src/Claims/Reviewed.antt =====
-- src/state.rs: a pull request after a review is recorded. A claim reads the row first and writes it
-- later, and anything may happen in between.
use codasaurus.Claims.{
  Commit, Commits, refuses, reviewed_row, put, set_reviewed_sha, is_released, repo_pr,
}
use codasaurus.Claims.Holding.{
  Op, claim_op, force_op, reviewed_op, release_op, apply, apply-Stands, Leaves,
}
use codasaurus.Prelude.{
  ℕ, Text, text_eq, text_eq_iff, text_eq_refl, List, [], ◌∷◌, ◌++◌, Option, none, some, true, false,
  ◌&&◌, if◌then◌else◌, Bool-cases, All, All-append, ◌≡◌, refl, ap, ◌≢◌, ◌⊎◌, inl, inr, arith,
}

-- What the last `SELECT` of a replica on a pull request saw, if it has made one.
abbrev pub Notes : Type 0
Notes = Text → Text → Option (Option Commit)

-- The `SELECT` of a claim of a replica, the rest of that claim, or any other statement.
pub data Step : Type 0 where
  look : Text → Text → ℕ → Step
  finish : Text → ℕ → ℕ → ℕ → Text → ℕ → Text → Step
  statement : Op → Step

unfoldable pub note : Text → Text → Option Commit → Notes → Notes
note replica key seen n r k = if text_eq replica r && text_eq key k then some seen else n r k

abbrev pub noted : Notes → Commits × List Text → (Commits × Notes) × List Text
noted n (t, won) = ((t, n), won)

-- The rest of a claim, with the names of the pull requests that it lets the replica in to. Without a
-- `SELECT` before it there is no claim.
abbrev pub finished :
    Option (Option Commit) → Text → ℕ → ℕ → ℕ → Text → ℕ → Text → Commits → Commits × List Text
finished none replica stale clock now repo pr sha t = (t, [])
finished (some seen) replica stale clock now repo pr sha t =
    apply (claim_op seen stale replica clock now repo pr sha) t

unfoldable pub step : Step → Commits × Notes → (Commits × Notes) × List Text
step (look replica repo pr) (t, n) =
    ((t, note replica (repo_pr repo pr) (t (repo_pr repo pr)) n), [])
step (finish replica stale clock now repo pr sha) (t, n) =
    noted n (finished (n replica (repo_pr repo pr)) replica stale clock now repo pr sha t)
step (statement o) (t, n) = noted n (apply o t)

unfoldable pub steps : List Step → Commits × Notes → (Commits × Notes) × List Text
steps [] s = (s, [])
steps (x ∷ xs) s = ((steps xs (step x s).0).0, (step x s).1 ++ (steps xs (step x s).0).1)

-- On the pull request: claims of the same commit, and releases.
abbrev pub IsOrdinary : Text → Text → Step → Type 0
IsOrdinary key sha (look replica repo pr) = Unit
IsOrdinary key sha (finish replica stale clock now repo pr s) = (repo_pr repo pr ≢ key) ⊎ (s ≡ sha)
IsOrdinary key sha (statement (claim_op seen stale owner clock now repo pr s)) =
    repo_pr repo pr ≢ key
IsOrdinary key sha (statement (force_op owner now repo pr s)) = repo_pr repo pr ≢ key
IsOrdinary key sha (statement (reviewed_op owner now repo pr s)) = repo_pr repo pr ≢ key
IsOrdinary key sha (statement (release_op stale owner now repo pr s)) = Unit

module _ (owner : Text) (at : ℕ) (key sha : Text) where
  abbrev row : Commit
  row = reviewed_row owner at sha

  -- The record stands, and whoever has looked has seen it.
  abbrev Recorded : Commits × Notes → Type 0
  Recorded s =
      (s.0 key ≡ some row) × ((r : Text) → (s.1 r key ≡ none) ⊎ (s.1 r key ≡ some (some row)))

  abbrev Kept : (Commits × Notes) × List Text → Type 0
  Kept x = Recorded x.0 × All (λ w. w ≢ key) x.1

  noted-Kept :
      (n : Notes) (x : Commits × List Text)
      → ((r : Text) → (n r key ≡ none) ⊎ (n r key ≡ some (some row)))
      → (x.0 key ≡ some row) × All (λ w. w ≢ key) x.1
      → Kept (noted n x)
  noted-Kept n (t, won) h k = ((k.0, h), k.1)

  look-Kept :
      (replica k : Text) (t : Commits) (n : Notes)
      → Recorded (t, n)
      → Recorded (t, note replica k (t k) n)
  unfolding note
  look-Kept replica k t n h = (
    h.0,
    λ r. elim (Bool-cases (text_eq replica r && text_eq k key)) [
      | inl e ↦ inr (rw e (ap some (here (ground (arith)))))
      | inr e ↦ rw e (h.1 r)
    ],
  )
    where
      here : text_eq k key ≡ true → t k ≡ some row
      here e = rw ((text_eq_iff k key).0 e) h.0

  refuses-reviewed_row :
      (stale : ℕ) (replica : Text) (clock : ℕ) → refuses stale replica clock sha (some row) ≡ true
  unfolding refuses reviewed_row
  refuses-reviewed_row stale replica clock = rw (text_eq_refl sha) refl

  is_released-reviewed_row :
      (stale : ℕ) (replica : Text) (now : ℕ) (s : Text)
      → is_released stale replica now s row ≡ false
  unfolding is_released reviewed_row
  is_released-reviewed_row stale replica now s = ground arith

  finished-Kept :
      (o : Option (Option Commit)) (replica : Text) (stale clock now : ℕ) (repo : Text) (pr : ℕ)
      (s : Text) (t : Commits)
      → t key ≡ some row
      → (repo_pr repo pr ≢ key) ⊎ ((s ≡ sha) × ((o ≡ none) ⊎ (o ≡ some (some row))))
      → (((finished o replica stale clock now repo pr s t).0 key ≡ some row)
          × All (λ w. w ≢ key) (finished o replica stale clock now repo pr s t).1)
  finished-Kept none replica stale clock now repo pr s t e c = (e, tt)
  finished-Kept (some seen) replica stale clock now repo pr s t e c =
      apply-Stands key row (claim_op seen stale replica clock now repo pr s) t (leaves c) e
    where
      leaves :
          (repo_pr repo pr ≢ key)
            ⊎ ((s ≡ sha) × ((some seen ≡ none) ⊎ (some seen ≡ some (some row))))
          → Leaves key row (claim_op seen stale replica clock now repo pr s)
      leaves (inl h) = inl h
      leaves (inr (same, inl h)) = absurd (cc h)
      leaves (inr (same, inr h)) =
          let saw : seen ≡ some row = cc h in
          inr (inl (rw (same, saw) (refuses-reviewed_row stale replica clock)))

  step-Kept :
      (x : Step) (t : Commits) (n : Notes)
      → IsOrdinary key sha x
      → Recorded (t, n)
      → Kept (step x (t, n))
  unfolding step
  step-Kept (look replica repo pr) t n o h = (look-Kept replica (repo_pr repo pr) t n h, tt)
  step-Kept (finish replica stale clock now repo pr s) t n o h =
      noted-Kept n (finished (n replica (repo_pr repo pr)) replica stale clock now repo pr s t) h.1
        (finished-Kept (n replica (repo_pr repo pr)) replica stale clock now repo pr s t h.0
          (saw o))
    where
      saw :
          (repo_pr repo pr ≢ key) ⊎ (s ≡ sha)
          → (repo_pr repo pr ≢ key)
            ⊎ ((s ≡ sha)
                × ((n replica (repo_pr repo pr) ≡ none)
                    ⊎ (n replica (repo_pr repo pr) ≡ some (some row))))
      saw (inl d) = inl d
      saw (inr d) = elim (Bool-cases (text_eq (repo_pr repo pr) key)) [
        | inl e ↦ inr (d, rw ((text_eq_iff (repo_pr repo pr) key).0 e) (h.1 replica))
        | inr e ↦ inl (λ same. cc (e, (text_eq_iff (repo_pr repo pr) key).1 same))
      ]
  step-Kept (statement (claim_op seen stale r clock now repo pr s)) t n o h =
      noted-Kept n (apply (claim_op seen stale r clock now repo pr s) t) h.1
        (apply-Stands key row (claim_op seen stale r clock now repo pr s) t (inl o) h.0)
  step-Kept (statement (force_op r now repo pr s)) t n o h =
      noted-Kept n (apply (force_op r now repo pr s) t) h.1
        (apply-Stands key row (force_op r now repo pr s) t o h.0)
  step-Kept (statement (reviewed_op r now repo pr s)) t n o h =
      noted-Kept n (apply (reviewed_op r now repo pr s) t) h.1
        (apply-Stands key row (reviewed_op r now repo pr s) t o h.0)
  step-Kept (statement (release_op stale r now repo pr s)) t n o h =
      noted-Kept n (apply (release_op stale r now repo pr s) t) h.1 (
        apply-Stands key row (release_op stale r now repo pr s) t
          (inr (is_released-reviewed_row stale r now s)) h.0)

  steps-Kept :
      (xs : List Step) (s : Commits × Notes)
      → All (IsOrdinary key sha) xs
      → Recorded s
      → Kept (steps xs s)
  unfolding steps
  steps-Kept [] s o h = (h, tt)
  steps-Kept (x ∷ xs) (t, n) o h =
      let (stays, nobody) = step-Kept x t n o.0 h in
      let (still, never) = steps-Kept xs (step x (t, n)).0 o.1 stays in
      (still, All-append (λ w. w ≢ key) (step x (t, n)).1 _ nobody never)

-- Once a commit is recorded as reviewed while no claim on its pull request is half done, nobody is let
-- in to review that pull request and the record stands, whatever follows, in whatever order the
-- reads and the writes of claims come, as long as on that pull request there are only claims of the
-- same commit and releases.
pub reviewed_once :
    (owner : Text) (at : ℕ) (repo : Text) (pr : ℕ) (sha : Text) (t : Commits) (n : Notes)
    (xs : List Step)
    → ((r : Text) → n r (repo_pr repo pr) ≡ none)
    → All (IsOrdinary (repo_pr repo pr) sha) xs
    → let after = steps xs (set_reviewed_sha owner at repo pr sha t, n) in
      All (λ w. w ≢ repo_pr repo pr) after.1
      × (after.0.0 (repo_pr repo pr) ≡ some (reviewed_row owner at sha))
unfolding set_reviewed_sha
reviewed_once owner at repo pr sha t n xs idle ordinary =
    let kept =
      steps-Kept owner at (repo_pr repo pr) sha xs (set_reviewed_sha owner at repo pr sha t, n)
        ordinary (there, λ r. inl (idle r)) in
    (kept.1, kept.0.0)
  where
    there :
        set_reviewed_sha owner at repo pr sha t (repo_pr repo pr) ≡ some (reviewed_row owner at sha)
    there = rw (set_reviewed_sha, put, text_eq_refl (repo_pr repo pr))
