-- ===== src/Worker.antt =====
-- src/bot/worker.rs: what a worker does with the job that it claims. The review itself, and the
-- GitHub App's token and pull request that it fetches, are an argument: a function on the database
-- that ends in an outcome. A statement that fails on the database is ignored by the code, and is
-- not modelled.
pub mod Settled
pub mod Released
use codasaurus.Queue.{Table, ReviewJob, claim_next, mark_done, mark_failed, requeue_if_retryable}
use codasaurus.Claims.{Commits, stale_claim_secs, release_sha_claim}
use codasaurus.Prelude.{
  ℕ, min, max, Text, codes, is_empty_text, parse_usize, Option, none, some, Bool, not, ◌||◌,
  if◌then◌else◌,
}

-- The two tables of the database that a review is about.
pub record Db : Type 0 where
  pub jobs : Table
  pub commits : Commits

pub record BotConfig : Type 0 where
  pub app_id : Text
  pub private_key : Text

-- The result under `timeout`: `Ok(Ok(()))`, `Ok(Err(e))` or `Err(_)`.
pub data Outcome : Type 0 where
  completed timed_out : Outcome
  broke : (error : Text) → Outcome

abbrev asked : Option ℕ → ℕ → ℕ
asked none n = n
asked (some m) n = m

abbrev parsed : Option Text → Option ℕ
parsed none = none
parsed (some v) = parse_usize v

-- The number of workers, from the variable and the permits for reviews.
unfoldable pub worker_count : Option Text → ℕ → ℕ
worker_count var permits =
    let default_n = min (max permits 1) 4 in min (max (asked (parsed var) default_n) 1) 8

-- What a worker knows of itself: the owner of its leases, the timeout of a review, whether the pool
-- of the bot is set up, and whether the semaphore is open.
pub record Process : Type 0 where
  pub owner : Text
  pub timeout_secs : ℕ
  pub has_pool : Bool
  pub has_permit : Bool

-- Times of statements: of a queue statement in seconds, of one on commits in microseconds.
pub record Clock : Type 0 where
  pub secs : ℕ
  pub micros : ℕ

unfoldable pub release_claim_best_effort : Process → Clock → Text → ℕ → Text → Db → Db
release_claim_best_effort p at repo pr_number head_sha db =
    if is_empty_text head_sha then db else if not p.has_pool then db else record db {
      commits =
          release_sha_claim (stale_claim_secs p.timeout_secs) p.owner at.micros repo pr_number
            head_sha db.commits;
    }

-- `mark_failed`, and then `requeue_if_retryable` with three attempts.
unfoldable pub fail_and_requeue : ℕ → ReviewJob → Text → Db → Db
fail_and_requeue now job error db = record db {
  jobs = requeue_if_retryable now job.id job.attempts 3 (mark_failed now job.id error db.jobs);
}

unfoldable pub settle : Process → Clock → ReviewJob → Outcome → Db → Db
unfolding release_claim_best_effort fail_and_requeue
settle p at job completed db =
    if p.has_pool then record db { jobs = mark_done at.secs job.id db.jobs } else db
settle p at job (broke error) db =
    let released = release_claim_best_effort p at job.repo job.pr_number job.head_sha db in
    if p.has_pool then fail_and_requeue at.secs job error released else released
settle p at job timed_out db =
    let released = release_claim_best_effort p at job.repo job.pr_number job.head_sha db in
    if p.has_pool then fail_and_requeue at.secs job (codes "timeout") released else released

unfoldable pub process_queued_review :
    (BotConfig → ReviewJob → Db → Db × Outcome) → Process → Clock → BotConfig → ReviewJob → Db → Db
unfolding settle
process_queued_review review p at cfg job db =
    if p.has_permit
    then (let (after, outcome) = review cfg job db in settle p at job outcome after)
    else db

unfoldable pub handle :
    (BotConfig → ReviewJob → Db → Db × Outcome)
    → Process
    → Clock
    → Option BotConfig
    → ReviewJob
    → Db
    → Db
unfolding process_queued_review fail_and_requeue
handle review p at none job db = fail_and_requeue at.secs job (codes "bot config not configured") db
handle review p at (some cfg) job db =
    if is_empty_text cfg.app_id || is_empty_text cfg.private_key
    then fail_and_requeue at.secs job (codes "github app credentials incomplete") db
    else process_queued_review review p at cfg job db

-- One round of the loop of a worker: the claim at one time, and the rest at a later one.
unfoldable pub round :
    (BotConfig → ReviewJob → Db → Db × Outcome)
    → Process
    → (ℕ → Bool)
    → Clock
    → Clock
    → Option BotConfig
    → Db
    → Db
unfolding handle
round review p locked start end cfg db =
    let (jobs, job) = claim_next locked start.secs (stale_claim_secs p.timeout_secs) db.jobs in
    let claimed = record db { jobs = jobs } in
    elim job [ none ↦ claimed | some j ↦ handle review p end cfg j claimed ]

-- `run_webhook_review_inline`: a review that no job stands for.
unfoldable pub run_webhook_review_inline :
    (BotConfig → Db → Db × Outcome) → Process → Clock → BotConfig → Text → ℕ → Text → Db → Db
unfolding release_claim_best_effort
run_webhook_review_inline review p at cfg repo pr_number head_sha db =
    if p.has_permit
    then (let (after, outcome) = review cfg db in
        elim outcome [
          | completed ↦ after
          | timed_out ↦ release_claim_best_effort p at repo pr_number head_sha after
          | broke error ↦ release_claim_best_effort p at repo pr_number head_sha after
        ])
    else db
