-- ===== src/Claims/Holding.antt =====
-- src/state.rs: a row of `reviewed_commits` under the statements of all replicas, in the order in
-- which the database takes them.
use codasaurus.Claims.{
  Commit, Commits, refuses, gives_way, put, try_claim_seeing, upsert_claim, force_claim_sha,
  set_reviewed_sha, release_sha_claim, is_released, repo_pr,
}
use codasaurus.Prelude.{
  ℕ, Text, text_eq, text_eq_iff, List, [], ◌∷◌, ◌++◌, Option, none, some, Bool, true, false,
  Bool-cases, All, All-append, ◌≡◌, refl, ◌∙◌, ◌≢◌, ◌⊎◌, inl, inr,
}

-- `seen` is what the `SELECT` of the claim saw, at any time before its upsert.
pub data Op : Type 0 where
  claim_op :
      (seen : Option Commit) (stale : ℕ) (owner : Text) (clock now : ℕ) (repo : Text) (pr : ℕ)
      (sha : Text)
      → Op
  force_op : (owner : Text) (now : ℕ) (repo : Text) (pr : ℕ) (sha : Text) → Op
  reviewed_op : (owner : Text) (now : ℕ) (repo : Text) (pr : ℕ) (sha : Text) → Op
  release_op : (stale : ℕ) (owner : Text) (now : ℕ) (repo : Text) (pr : ℕ) (sha : Text) → Op

-- The table after a statement, and the pull requests that it lets somebody review.
abbrev pub granted : Text → Commits × Bool → Commits × List Text
granted key (t, true) = (t, key ∷ [])
granted key (t, false) = (t, [])

unfoldable pub apply : Op → Commits → Commits × List Text
apply (claim_op seen stale owner clock now repo pr sha) t =
    granted (repo_pr repo pr) (try_claim_seeing seen stale owner clock now (repo_pr repo pr) sha t)
apply (force_op owner now repo pr sha) t =
    granted (repo_pr repo pr) (force_claim_sha owner now repo pr sha t)
apply (reviewed_op owner now repo pr sha) t = (set_reviewed_sha owner now repo pr sha t, [])
apply (release_op stale owner now repo pr sha) t =
    (release_sha_claim stale owner now repo pr sha t, [])

unfoldable pub run : List Op → Commits → Commits × List Text
run [] t = (t, [])
run (o ∷ os) t = ((run os (apply o t).0).0, (apply o t).1 ++ (run os (apply o t).0).1)

module _ (k : Text) (c : Commit) where
  -- A statement leaves the row of a pull request as it is.
  abbrev pub Leaves : Op → Type 0
  Leaves (claim_op seen stale owner clock now repo pr sha) =
      (repo_pr repo pr ≢ k)
      ⊎ ((refuses stale owner clock sha seen ≡ true) ⊎ (gives_way stale owner now sha c ≡ false))
  Leaves (force_op owner now repo pr sha) = repo_pr repo pr ≢ k
  Leaves (reviewed_op owner now repo pr sha) = repo_pr repo pr ≢ k
  Leaves (release_op stale owner now repo pr sha) =
      (repo_pr repo pr ≢ k) ⊎ (is_released stale owner now sha c ≡ false)

  put_other : (key : Text) (r : Option Commit) (t : Commits) → key ≢ k → put key r t k ≡ t k
  unfolding put
  put_other key r t h = elim (Bool-cases (text_eq key k)) [
    | inl e ↦ absurd (h ((text_eq_iff key k).0 e))
    | inr e ↦ rw e
  ]

  -- The row stands, and nobody was let in.
  abbrev Stands : Commits × List Text → Type 0
  Stands r = (r.0 k ≡ some c) × All (λ w. w ≢ k) r.1

  written-Stands :
      (key : Text) (r : Option Commit) (t : Commits)
      → key ≢ k
      → t k ≡ some c
      → Stands (granted key (put key r t, true))
  written-Stands key r t h e = (put_other key r t h ∙ e, (h, tt))

  claim-Stands :
      (seen : Option Commit) (stale : ℕ) (owner : Text) (clock now : ℕ) (key sha : Text)
      (t : Commits)
      → (key ≢ k)
        ⊎ ((refuses stale owner clock sha seen ≡ true) ⊎ (gives_way stale owner now sha c ≡ false))
      → t k ≡ some c
      → Stands (granted key (try_claim_seeing seen stale owner clock now key sha t))
  unfolding try_claim_seeing upsert_claim
  claim-Stands seen stale owner clock now key sha t l e =
      elim (Bool-cases (refuses stale owner clock sha seen)) [
        | inl r ↦ rw r (e, tt)
        | inr r ↦ rw r (elim l [
          | inl h ↦ elsewhere h (t key) refl
          | inr (inl s) ↦ absurd (cc (r, s))
          | inr (inr g) ↦ elim (Bool-cases (text_eq key k)) [
            | inl same ↦ here ((text_eq_iff key k).0 same) g
            | inr other ↦ elsewhere (λ same. cc (other, (text_eq_iff key k).1 same)) (t key) refl
          ]
        ])
      ]
    where
      elsewhere :
          key ≢ k
          → (row : Option Commit) → t key ≡ row
          → Stands (granted key (upsert_claim stale owner now key sha t))
      elsewhere h none n = rw (upsert_claim, n) (written-Stands key _ t h e)
      elsewhere h (some d) n = elim (Bool-cases (gives_way stale owner now sha d)) [
        | inl g ↦ rw (upsert_claim, n, g) (written-Stands key _ t h e)
        | inr g ↦ rw (upsert_claim, n, g) (e, tt)
      ]

      here :
          key ≡ k
          → gives_way stale owner now sha c ≡ false
          → Stands (granted key (upsert_claim stale owner now key sha t))
      here same g = rw (upsert_claim, same, e, g) (e, tt)

  release-Stands :
      (stale : ℕ) (owner : Text) (now : ℕ) (repo : Text) (pr : ℕ) (sha : Text) (t : Commits)
      → (repo_pr repo pr ≢ k) ⊎ (is_released stale owner now sha c ≡ false)
      → t k ≡ some c
      → release_sha_claim stale owner now repo pr sha t k ≡ some c
  unfolding release_sha_claim
  release-Stands stale owner now repo pr sha t l e =
      elim (Bool-cases (text_eq (repo_pr repo pr) k)) [
        | inl same ↦ here ((text_eq_iff _ k).0 same)
        | inr other ↦
            elsewhere (λ same. cc (other, (text_eq_iff _ k).1 same)) (t (repo_pr repo pr)) refl
      ]
    where
      here : repo_pr repo pr ≡ k → release_sha_claim stale owner now repo pr sha t k ≡ some c
      here same = elim l [ inl h ↦ absurd (h same) | inr f ↦ rw (release_sha_claim, same, e, f) e ]

      elsewhere :
          repo_pr repo pr ≢ k
          → (row : Option Commit) → t (repo_pr repo pr) ≡ row
          → release_sha_claim stale owner now repo pr sha t k ≡ some c
      elsewhere h none n = rw (release_sha_claim, n) e
      elsewhere h (some d) n = elim (Bool-cases (is_released stale owner now sha d)) [
        | inl g ↦ rw (release_sha_claim, n, g) (put_other _ none t h ∙ e)
        | inr g ↦ rw (release_sha_claim, n, g) e
      ]

  pub apply-Stands : (o : Op) (t : Commits) → Leaves o → t k ≡ some c → Stands (apply o t)
  unfolding apply force_claim_sha set_reviewed_sha
  apply-Stands (claim_op seen stale owner clock now repo pr sha) t l e =
      claim-Stands seen stale owner clock now (repo_pr repo pr) sha t l e
  apply-Stands (force_op owner now repo pr sha) t l e = written-Stands _ _ t l e
  apply-Stands (reviewed_op owner now repo pr sha) t l e = (put_other _ _ t l ∙ e, tt)
  apply-Stands (release_op stale owner now repo pr sha) t l e =
      (release-Stands stale owner now repo pr sha t l e, tt)

  pub run-Stands : (os : List Op) (t : Commits) → All Leaves os → t k ≡ some c → Stands (run os t)
  unfolding run
  run-Stands [] t l e = (e, tt)
  run-Stands (o ∷ os) t l e =
      let (stays, nobody) = apply-Stands o t l.0 e in
      let (still, never) = run-Stands os (apply o t).0 l.1 stays in
      (still, All-append (λ w. w ≢ k) (apply o t).1 _ nobody never)
