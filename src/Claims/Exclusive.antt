-- ===== src/Claims/Exclusive.antt =====
-- src/state.rs: statements on one pull request after a claim.
use codasaurus.Claims.{
  Commit, Commits, second, refuses, gives_way, is_claim_stale, claim_row, put, try_claim_seeing,
  try_claim_sha, upsert_claim, is_released, repo_pr,
}
use codasaurus.Claims.Holding.{
  Op, claim_op, force_op, reviewed_op, release_op, run, Leaves, run-Stands,
}
use codasaurus.Prelude.{
  ℕ, ◌+◌, ◌-◌, ◌*◌, ◌/◌, ◌<◌, Text, text_eq, text_eq_iff, text_eq_refl, is_empty_text, List, some,
  true, false, leb, leb→le, Bool-cases, Option-cases, All, All_mono, ◌≡◌, refl, sym, ◌≢◌, ◌⊎◌, inl,
  inr, arith,
}

module _ (stale : ℕ) (holder : Text) (since : ℕ) (key sha : Text) where
  -- Statements that respect the claim of a replica since a time. Those on other pull requests all
  -- do. A claim does if it is for the same commit, and either is of another replica and comes before
  -- the lease is over for the database, or saw the row and comes before the lease is over for the
  -- process; a release does if it is for another commit, or of another replica before the lease is
  -- over for the database.
  abbrev pub Respects : Op → Type 0
  Respects (claim_op seen lease owner clock now repo pr s) =
      (repo_pr repo pr ≢ key)
      ⊎ ((s ≡ sha)
          × (lease ≡ stale)
          × (((owner ≢ holder) × (now < since + stale * second))
              ⊎ ((seen ≡ some (claim_row holder since sha)) × (clock < since + stale * second))))
  Respects (force_op owner now repo pr s) = repo_pr repo pr ≢ key
  Respects (reviewed_op owner now repo pr s) = repo_pr repo pr ≢ key
  Respects (release_op lease owner now repo pr s) =
      (repo_pr repo pr ≢ key)
      ⊎ (s ≢ sha)
      ⊎ ((lease ≡ stale) × (owner ≢ holder) × (now < since + stale * second))

  ne : {a b : Text} → a ≢ b → text_eq a b ≡ false
  ne {a} {b} h = elim (Bool-cases (text_eq a b)) [
    | inl e ↦ absurd (h ((text_eq_iff a b).0 e))
    | inr e ↦ e
  ]

  fresh :
      (now : ℕ)
      → 0 < stale
      → now < since + stale * second
      → leb stale ((now - since) / second) ≡ false
  fresh now pos h = elim (Bool-cases (leb stale ((now - since) / second))) [
    | inl e ↦ absurd (omega (arith, pos, h, leb→le stale ((now - since) / second) e))
    | inr e ↦ e
  ]

  other_refused :
      (owner : Text) (now : ℕ)
      → owner ≢ holder
      → now < since + stale * second
      → gives_way stale owner now sha (claim_row holder since sha) ≡ false
  unfolding gives_way claim_row
  other_refused owner now h early =
      let n = ne (λ e. h (sym e)) in rw (text_eq_refl sha, n) (ground arith)

  own_refused :
      (owner : Text) (now : ℕ)
      → 0 < stale
      → now < since + stale * second
      → refuses stale owner now sha (some (claim_row holder since sha)) ≡ true
  unfolding refuses is_claim_stale claim_row
  own_refused owner now pos early = rw (text_eq_refl sha, fresh now pos early) (ground arith)

  other_keeps :
      (owner : Text) (now : ℕ)
      → is_empty_text holder ≡ false
      → owner ≢ holder
      → now < since + stale * second
      → is_released stale owner now sha (claim_row holder since sha) ≡ false
  unfolding is_released claim_row
  other_keeps owner now named h early =
      let n = ne (λ e. h (sym e)) in rw (text_eq_refl sha, n, named) (ground arith)

  Respects→Leaves :
      0 < stale
      → is_empty_text holder ≡ false
      → (o : Op) → Respects o
      → Leaves key (claim_row holder since sha) o
  unfolding claim_row is_released
  Respects→Leaves pos named (claim_op seen lease owner clock now repo pr s) (inl h) = inl h
  Respects→Leaves pos named (claim_op seen lease owner clock now repo pr s)
        (inr (same, l, inl (other, early))) =
      rw (same, l) (inr (inr (other_refused owner now other early)))
  Respects→Leaves pos named (claim_op seen lease owner clock now repo pr s)
        (inr (same, l, inr (saw, early))) =
      rw (same, l, saw) (inr (inl (own_refused owner clock pos early)))
  Respects→Leaves pos named (force_op owner now repo pr s) h = h
  Respects→Leaves pos named (reviewed_op owner now repo pr s) h = h
  Respects→Leaves pos named (release_op lease owner now repo pr s) (inl h) = inl h
  Respects→Leaves pos named (release_op lease owner now repo pr s) (inr (inl h)) =
      inr (rw (ne (λ e. h (sym e))) refl)
  Respects→Leaves pos named (release_op lease owner now repo pr s) (inr (inr (l, other, early))) =
      rw l (
        inr (elim (Bool-cases (text_eq sha s)) [
          | inl e ↦ rw (sym ((text_eq_iff sha s).0 e)) (other_keeps owner now named other early)
          | inr e ↦ rw e refl
        ]))

-- A claim that succeeds leaves its row.
won_row :
    (stale : ℕ) (owner : Text) (clock now : ℕ) (repo : Text) (pr : ℕ) (sha : Text) (t : Commits)
    → (try_claim_sha stale owner clock now repo pr sha t).1 ≡ true
    → (try_claim_sha stale owner clock now repo pr sha t).0 (repo_pr repo pr)
      ≡ some (claim_row owner now sha)
unfolding try_claim_sha
won_row stale owner clock now repo pr sha t won = elim (Option-cases (t (repo_pr repo pr))) [
  | inl e ↦ rw (e, try_claim_seeing, refuses, upsert_claim, put, text_eq_refl (repo_pr repo pr))
  | inr (c, e) ↦ over c e
]
  where
    over :
        (c : Commit)
        → t (repo_pr repo pr) ≡ some c
        → (try_claim_sha stale owner clock now repo pr sha t).0 (repo_pr repo pr)
          ≡ some (claim_row owner now sha)
    over c e = elim (Bool-cases (refuses stale owner clock sha (some c))) [
      | inl r ↦ absurd (cc (rw (e, try_claim_seeing, r) at won))
      | inr r ↦ elim (Bool-cases (gives_way stale owner now sha c)) [
        | inl g ↦ rw (e, try_claim_seeing, r, upsert_claim, g, put, text_eq_refl (repo_pr repo pr))
        | inr g ↦ absurd (cc (rw (e, try_claim_seeing, r, upsert_claim, g) at won))
      ]
    ]

-- A replica with a name and a lease longer than zero that claims a commit of a pull request holds it
-- alone: whatever statements follow, as long as they respect its claim, nobody else is let in to
-- review that pull request, and the row of the claim stands at the end.
pub claim_alone :
    (stale : ℕ) (holder : Text) (clock since : ℕ) (repo : Text) (pr : ℕ) (sha : Text) (t : Commits)
    (os : List Op)
    → 0 < stale
    → is_empty_text holder ≡ false
    → (try_claim_sha stale holder clock since repo pr sha t).1 ≡ true
    → All (Respects stale holder since (repo_pr repo pr) sha) os
    → let after = run os (try_claim_sha stale holder clock since repo pr sha t).0 in
      All (λ w. w ≢ repo_pr repo pr) after.1
      × (after.0 (repo_pr repo pr) ≡ some (claim_row holder since sha))
claim_alone stale holder clock since repo pr sha t os pos named won keep =
    let leaves =
      All_mono (Respects→Leaves stale holder since (repo_pr repo pr) sha pos named) os keep in
    let (stands, nobody) =
      run-Stands (repo_pr repo pr) (claim_row holder since sha) os _ leaves
        (won_row stale holder clock since repo pr sha t won) in
    (nobody, stands)
