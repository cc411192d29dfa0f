-- ===== src/Claims.antt =====
-- src/state.rs: which commit of a pull request is being reviewed, or was, as the table
-- `reviewed_commits`. Replicas of the bot share the table; `lease_owner` names a replica. Times are
-- microseconds, as PostgreSQL keeps them. There are two clocks: `clock` is a time of the process that
-- claims, `now` and the times in the table are of the database.
pub mod Decision
pub mod Holding
pub mod Exclusive
pub mod Reviewed
use codasaurus.Prelude.{
  ℕ, ◌+◌, ◌-◌, ◌*◌, ◌/◌, ◌^◌, min, max, Text, codes, text_eq, decimal, is_empty_text, ◌++◌, Option,
  none, some, Bool, true, false, not, ◌&&◌, ◌||◌, ltb, leb, if◌then◌else◌,
}

pub data ClaimStatus : Type 0 where
  in_progress completed : ClaimStatus

pub record Commit : Type 0 where
  pub head_sha : Text
  pub status : ClaimStatus
  pub lease_owner : Text
  pub created_at : ℕ

-- The table, by its primary key `repo_pr`.
abbrev pub Commits : Type 0
Commits = Text → Option Commit

abbrev pub is_in_progress : ClaimStatus → Bool
is_in_progress in_progress = true
is_in_progress completed = false

abbrev pub second : ℕ
second = 1_000_000

-- The lease in seconds, for a timeout that `as i64` makes negative from 2 ^ 63 on.
unfoldable pub stale_claim_secs : ℕ → ℕ
stale_claim_secs timeout =
    if ltb timeout (2 ^ 63) then max (min (timeout + 120) (2 ^ 63 - 1)) 600 else 600

unfoldable pub repo_pr : Text → ℕ → Text
repo_pr repo pr_number = repo ++ (codes "/" ++ decimal pr_number)

unfoldable pub put : Text → Option Commit → Commits → Commits
put key c t k = if text_eq key k then c else t k

-- By the clock of the process.
unfoldable pub is_claim_stale : ℕ → ℕ → ℕ → Bool
is_claim_stale stale clock created_at = leb stale ((clock - created_at) / second)

-- The early returns of `try_claim_sha`, on the row that its `SELECT` saw, at a time of the process.
unfoldable pub refuses : ℕ → Text → ℕ → Text → Option Commit → Bool
unfolding is_claim_stale
refuses stale owner clock sha none = false
refuses stale owner clock sha (some c) =
    text_eq c.head_sha sha
    && (not (is_in_progress c.status)
        || (is_in_progress c.status
            && (not (text_eq c.lease_owner owner) && not (is_claim_stale stale clock c.created_at)))
        || (is_in_progress c.status
            && (text_eq c.lease_owner owner && not (is_claim_stale stale clock c.created_at))))

-- The `WHERE` of the upsert, on the row that is in the way, at a time of the database.
unfoldable pub gives_way : ℕ → Text → ℕ → Text → Commit → Bool
gives_way stale owner now sha c =
    not (text_eq c.head_sha sha)
    || not (is_in_progress c.status)
    || text_eq c.lease_owner owner
    || ltb (c.created_at + stale * second) now

unfoldable pub claim_row : Text → ℕ → Text → Commit
claim_row owner now sha = record {
  head_sha = sha;
  status = in_progress;
  lease_owner = owner;
  created_at = now;
}

unfoldable pub upsert_claim : ℕ → Text → ℕ → Text → Text → Commits → Commits × Bool
unfolding put gives_way claim_row
upsert_claim stale owner now key sha t = elim (t key) [
  | none ↦ (put key (some (claim_row owner now sha)) t, true)
  | some c ↦
      if gives_way stale owner now sha c
      then (put key (some (claim_row owner now sha)) t, true)
      else (t, false)
]

-- `try_claim_sha` when its `SELECT` saw the row `seen`, which may be gone by the time of the upsert.
unfoldable pub try_claim_seeing :
    Option Commit → ℕ → Text → ℕ → ℕ → Text → Text → Commits → Commits × Bool
unfolding refuses upsert_claim
try_claim_seeing seen stale owner clock now key sha t =
    if refuses stale owner clock sha seen
    then (t, false)
    else upsert_claim stale owner now key sha t

unfoldable pub try_claim_sha : ℕ → Text → ℕ → ℕ → Text → ℕ → Text → Commits → Commits × Bool
unfolding try_claim_seeing repo_pr
try_claim_sha stale owner clock now repo pr_number sha t =
    let key = repo_pr repo pr_number in try_claim_seeing (t key) stale owner clock now key sha t

unfoldable pub force_claim_sha : Text → ℕ → Text → ℕ → Text → Commits → Commits × Bool
unfolding put claim_row repo_pr
force_claim_sha owner now repo pr_number sha t =
    (put (repo_pr repo pr_number) (some (claim_row owner now sha)) t, true)

unfoldable pub reviewed_row : Text → ℕ → Text → Commit
reviewed_row owner now sha = record {
  head_sha = sha;
  status = completed;
  lease_owner = owner;
  created_at = now;
}

unfoldable pub set_reviewed_sha : Text → ℕ → Text → ℕ → Text → Commits → Commits
unfolding put repo_pr reviewed_row
set_reviewed_sha owner now repo pr_number sha t =
    put (repo_pr repo pr_number) (some (reviewed_row owner now sha)) t

unfoldable pub get_reviewed_sha : Text → ℕ → Commits → Option Text
unfolding repo_pr
get_reviewed_sha repo pr_number t = elim (t (repo_pr repo pr_number)) [
  | none ↦ none
  | some c ↦ some c.head_sha
]

-- The `WHERE` of the `DELETE`.
unfoldable pub is_released : ℕ → Text → ℕ → Text → Commit → Bool
is_released stale owner now sha c =
    text_eq c.head_sha sha
    && (is_in_progress c.status
        && (text_eq c.lease_owner owner
            || is_empty_text c.lease_owner
            || ltb (c.created_at + stale * second) now))

unfoldable pub release_sha_claim : ℕ → Text → ℕ → Text → ℕ → Text → Commits → Commits
unfolding put repo_pr is_released
release_sha_claim stale owner now repo pr_number sha t =
    let key = repo_pr repo pr_number in
    elim (t key) [
      | none ↦ t
      | some c ↦ if is_released stale owner now sha c then put key none t else t
    ]
