-- ===== src/Claims/Decision.antt =====
-- src/state.rs: when a claim on a commit succeeds.
use codasaurus.Claims.{
  ClaimStatus, Commit, Commits, in_progress, completed, is_in_progress, is_claim_stale, second,
  try_claim_seeing, try_claim_sha, upsert_claim, refuses, gives_way, repo_pr,
}
use codasaurus.Prelude.{
  ℕ, ◌+◌, ◌-◌, ◌*◌, ◌/◌, ◌≤◌, ◌<◌, Text, text_eq, text_eq_iff, Option, none, some, Bool, true,
  false, not, ◌&&◌, ◌||◌, ltb, leb, ltb→lt, lt→ltb, leb→le, le→leb, Bool-cases, Option-cases, ◌≡◌,
  refl, ◌≢◌, ◌↔◌, ◌⊎◌, inl, inr, arith,
}

-- The row that is in the way lets an owner claim `sha`: it is of another commit, or its claim is
-- stale by the clock of the process, and is the owner's own or past its lease by that of the database.
abbrev pub Free : ℕ → Text → ℕ → ℕ → Text → Commit → Type 0
Free stale owner clock now sha c =
    (c.head_sha ≢ sha)
    ⊎ ((c.status ≡ in_progress)
        × (stale ≤ (clock - c.created_at) / second)
        × ((c.lease_owner ≡ owner) ⊎ (c.created_at + stale * second < now)))

abbrev pub FreeRow : ℕ → Text → ℕ → ℕ → Text → Option Commit → Type 0
FreeRow stale owner clock now sha none = Unit
FreeRow stale owner clock now sha (some c) = Free stale owner clock now sha c

ne_iff : (a b : Text) → (text_eq a b ≡ false) ↔ (a ≢ b)
ne_iff a b = (
  λ h e. cc (h, (text_eq_iff a b).1 e),
  λ h. elim (Bool-cases (text_eq a b)) [ inl e ↦ absurd (h ((text_eq_iff a b).0 e)) | inr e ↦ e ],
)

status_iff : (s : ClaimStatus) → (is_in_progress s ≡ true) ↔ (s ≡ in_progress)
status_iff in_progress = (λ e. refl, λ e. refl)
status_iff completed = (λ e. cc, λ e. cc)

choices :
    (same running own old older : Bool)
    → ((not (
            same && (not running || running && (not own && not old) || running && (own && not old)))
          && (not same || not running || own || older))
        ≡ true)
      ↔ ((same ≡ false) ⊎ ((running ≡ true) × (old ≡ true) × ((own ≡ true) ⊎ (older ≡ true))))
choices same running own old older = ground arith

-- `Free` in the Booleans that the code computes.
abbrev Tested : ℕ → Text → ℕ → ℕ → Text → Commit → Type 0
Tested stale owner clock now sha c =
    (text_eq c.head_sha sha ≡ false)
    ⊎ ((is_in_progress c.status ≡ true)
        × (leb stale ((clock - c.created_at) / second) ≡ true)
        × ((text_eq c.lease_owner owner ≡ true) ⊎ (ltb (c.created_at + stale * second) now ≡ true)))

module _ (stale : ℕ) (owner : Text) (clock now : ℕ) (sha : Text) (c : Commit) where
  tested→Free : Tested stale owner clock now sha c → Free stale owner clock now sha c
  tested→Free (inl n) = inl ((ne_iff c.head_sha sha).0 n)
  tested→Free (inr (s, o, inl m)) =
      inr ((status_iff c.status).0 s, leb→le _ _ o, inl ((text_eq_iff _ _).0 m))
  tested→Free (inr (s, o, inr m)) =
      inr ((status_iff c.status).0 s, leb→le _ _ o, inr (ltb→lt _ _ m))

  Free→tested : Free stale owner clock now sha c → Tested stale owner clock now sha c
  Free→tested (inl n) = inl ((ne_iff c.head_sha sha).1 n)
  Free→tested (inr (s, o, inl m)) =
      inr ((status_iff c.status).1 s, le→leb _ _ o, inl ((text_eq_iff _ _).1 m))
  Free→tested (inr (s, o, inr m)) =
      inr ((status_iff c.status).1 s, le→leb _ _ o, inr (lt→ltb _ _ m))

  Free-iff :
      ((not (refuses stale owner clock sha (some c)) && gives_way stale owner now sha c) ≡ true)
      ↔ Free stale owner clock now sha c
  unfolding refuses gives_way is_claim_stale
  Free-iff =
      (λ e. tested→Free ((choices _ _ _ _ _).0 e), λ f. (choices _ _ _ _ _).1 (Free→tested f))

  claims_over :
      (key : Text) (t : Commits)
      → t key ≡ some c
      → (try_claim_seeing (some c) stale owner clock now key sha t).1
        ≡ (not (refuses stale owner clock sha (some c)) && gives_way stale owner now sha c)
  unfolding try_claim_seeing upsert_claim
  claims_over key t e = elim (Bool-cases (refuses stale owner clock sha (some c))) [
    | inl h ↦ rw h
    | inr h ↦
        rw (h, upsert_claim, e)
          (elim (Bool-cases (gives_way stale owner now sha c)) [ inl g ↦ rw g | inr g ↦ rw g ])
  ]

-- A claim that nobody interrupts succeeds exactly when the pull request has no row, or its row is of
-- another commit, or is a claim in progress that is stale by the clock of the process and either the
-- replica's own or past its lease by the clock of the database, whatever the two clocks say. The
-- commit of a row that says completed is not claimed.
pub try_claim_sha_iff :
    (stale : ℕ) (owner : Text) (clock now : ℕ) (repo : Text) (pr : ℕ) (sha : Text) (t : Commits)
    → ((try_claim_sha stale owner clock now repo pr sha t).1 ≡ true)
      ↔ FreeRow stale owner clock now sha (t (repo_pr repo pr))
unfolding try_claim_sha
try_claim_sha_iff stale owner clock now repo pr sha t = elim (Option-cases (t (repo_pr repo pr))) [
  | inl e ↦ rw (e, try_claim_seeing, refuses, upsert_claim) (λ h. tt, λ h. refl)
  | inr (c, e) ↦
      rw (e, claims_over stale owner clock now sha c (repo_pr repo pr) t e)
        (Free-iff stale owner clock now sha c)
]
