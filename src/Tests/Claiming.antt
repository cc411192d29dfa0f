-- ===== src/Tests/Claiming.antt =====
-- Claims on commits and a round of a worker at concrete inputs.
use codasaurus.Claims.{
  Commits, try_claim_sha, try_claim_seeing, refuses, is_claim_stale, upsert_claim, gives_way,
  set_reviewed_sha, repo_pr, claim_row, reviewed_row,
}
use codasaurus.Claims.Decision.{FreeRow, try_claim_sha_iff}
use codasaurus.Claims.Holding.{Op, claim_op, release_op, run}
use codasaurus.Claims.Exclusive.{claim_alone}
use codasaurus.Claims.Reviewed.{Step, look, finish, statement, Notes, steps, reviewed_once}
use codasaurus.Queue.{Row, ReviewJob, claim_next, claimed, to_job, update_where, has_id}
use codasaurus.Queue.Oldest.{claim_next-oldest, Claimable, Before}
use codasaurus.Worker.{Db, BotConfig, Outcome, completed, timed_out, Process, handle, settle}
use codasaurus.Worker.Settled.{handle-StatusOf, StatusOf, job_fate}
use codasaurus.Worker.Released.{settle-Unclaimed, Unclaimed}
use codasaurus.Tests.Jobs.{table, first, nobody, first_claim}
use codasaurus.Prelude.{
  Text, codes, text_eq_iff, List, [], ◌∷◌, Memᴰ, none, some, Bool, true, false, All, ◌≡◌, refl, ◌≢◌,
  ◌↔◌, inl, inr, arith,
}

abbrev empty : Commits
empty k = none

abbrev repo : Text
repo = codes "o/r"

abbrev sha : Text
sha = codes "abc"

-- Another replica tries the same commit a second later, and gives up.
abbrev rival : List Op
rival =
    claim_op none 600 (codes "b") 1_900_000 2_000_000 repo 7 sha
    ∷ claim_op (some (claim_row (codes "a") 1_000_000 sha)) 600 (codes "a") 2_900_000 3_000_000 repo
        7 sha
    ∷ []

names_differ : codes "b" ≢ codes "a"
names_differ e = not_true ((text_eq_iff (codes "b") (codes "a")).1 e)
  where
    not_true : ◌≡◌ {A = Bool} false true → ⊥
    not_true h = cc

claim_alone_example :
    let after = run rival (try_claim_sha 600 (codes "a") 900_000 1_000_000 repo 7 sha empty).0 in
    All (λ w. w ≢ repo_pr repo 7) after.1
    × (after.0 (repo_pr repo 7) ≡ some (claim_row (codes "a") 1_000_000 sha))
unfolding try_claim_sha
claim_alone_example =
    claim_alone 600 (codes "a") 900_000 1_000_000 repo 7 sha empty rival (omega arith) refl refl (
      inr (refl, refl, inl (names_differ, omega arith)),
      (inr (refl, refl, inr (refl, omega arith)), tt),
    )

-- Another replica reads the record, the reviewer releases, and the other replica goes on.
abbrev again : List Step
again =
    look (codes "b") repo 7
    ∷ statement (release_op 600 (codes "a") 6 repo 7 sha)
    ∷ finish (codes "b") 600 8_000_000 9_000_000 repo 7 sha
    ∷ []

abbrev no_notes : Notes
no_notes r k = none

reviewed_once_example :
    let after = steps again (set_reviewed_sha (codes "a") 5 repo 7 sha empty, no_notes) in
    All (λ w. w ≢ repo_pr repo 7) after.1
    × (after.0.0 (repo_pr repo 7) ≡ some (reviewed_row (codes "a") 5 sha))
reviewed_once_example =
    reviewed_once (codes "a") 5 repo 7 sha empty no_notes again (λ r. refl)
      (tt, (tt, (inr refl, tt)))

-- A claim of another replica, at a time when its lease is over for the process and not yet for the
-- database.
abbrev held : Commits
held k = some (claim_row (codes "b") 0 sha)

held_still : (try_claim_sha 600 (codes "a") 601_000_000 599_000_000 repo 7 sha held).1 ≡ false
unfolding try_claim_sha try_claim_seeing refuses is_claim_stale upsert_claim gives_way claim_row
held_still = refl

try_claim_sha_iff_example :
    ((try_claim_sha 600 (codes "a") 601_000_000 599_000_000 repo 7 sha held).1 ≡ true)
    ↔ FreeRow 600 (codes "a") 601_000_000 599_000_000 sha (held (repo_pr repo 7))
try_claim_sha_iff_example =
    try_claim_sha_iff 600 (codes "a") 601_000_000 599_000_000 repo 7 sha held

claim_next-oldest_example :
    (r : Row) × Memᴰ r table.rows
    × Claimable nobody 20 600 r
    × All (λ s. Claimable nobody 20 600 s → Before r s) table.rows
    × (first ≡ to_job (claimed 20 r))
    × ((claim_next nobody 20 600 table).0
        ≡ record table { rows = update_where (has_id r.id) (claimed 20) table.rows })
claim_next-oldest_example = claim_next-oldest nobody 20 600 table first_claim

abbrev app : BotConfig
app = record { app_id = codes "1"; private_key = codes "k" }

abbrev db : Db
db = record { jobs = table; commits = empty }

abbrev worker : Process
worker = record { owner = codes "a"; timeout_secs = 300; has_pool = true; has_permit = true }

abbrev fine : BotConfig → ReviewJob → Db → Db × Outcome
fine cfg job d = (d, completed)

handle-StatusOf_example :
    StatusOf first.id
      (job_fate fine worker (some app) first db)
      (handle fine worker (record { secs = 30; micros = 30_000_000 }) (some app) first db).jobs
handle-StatusOf_example =
    handle-StatusOf fine worker (record { secs = 30; micros = 30_000_000 }) (some app) first db refl
      refl

settle-Unclaimed_example :
    Unclaimed
      (codes "a")
      (repo_pr first.repo first.pr_number)
      first.head_sha
      (settle worker
        (record { secs = 30; micros = 30_000_000 })
        first
        timed_out
        (record db {
          commits = (try_claim_sha 600 (codes "a") 900_000 1_000_000 repo 7 sha empty).0;
        })).commits
settle-Unclaimed_example =
    settle-Unclaimed worker (record { secs = 30; micros = 30_000_000 }) first timed_out
      (record db { commits = (try_claim_sha 600 (codes "a") 900_000 1_000_000 repo 7 sha empty).0 })
      refl refl (λ e. cc)
