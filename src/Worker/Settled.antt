-- ===== src/Worker/Settled.antt =====
-- src/bot/worker.rs: the status of a job when a worker is done with it.
use codasaurus.Queue.{
  Status, pending, done, failed, Row, Table, ReviewJob, mark_done, mark_failed,
  requeue_if_retryable, update_where, has_id, finished, broken, requeued, is_failed,
}
use codasaurus.Worker.{
  Db, BotConfig, Outcome, completed, timed_out, broke, Process, Clock, release_claim_best_effort,
  fail_and_requeue, settle, process_queued_review, handle,
}
use codasaurus.Prelude.{
  ℕ, Text, codes, is_empty_text, List, [], ◌∷◌, Option, none, some, Bool, true, false, not, ◌&&◌,
  ◌||◌, ltb, leb, ◌==◌, if◌then◌else◌, ==_iff, Bool-cases, All, ◌≡◌, refl, inl, inr, arith,
}

-- Every row with an id has a status.
abbrev pub StatusOf : ℕ → Status → Table → Type 0
StatusOf id s t = All (λ (r : Row). r.id ≡ id → r.status ≡ s) t.rows

module _ (id : ℕ) (s : Status) where
  -- An update of the rows with the id that writes a status leaves them all with it.
  written :
      (f : Row → Row) (rs : List Row)
      → ((r : Row) → (f r).status ≡ s)
      → All (λ (r : Row). r.id ≡ id → r.status ≡ s) (update_where (has_id id) f rs)
  unfolding update_where
  written f [] h = tt
  written f (r ∷ rs) h = elim (Bool-cases (r.id == id)) [
    | inl e ↦ rw e ((λ i. h r), written f rs h)
    | inr e ↦ rw e ((λ i. absurd (cc (e, (==_iff r.id id).1 i))), written f rs h)
  ]

requeued_all :
    (now id : ℕ) (rs : List Row)
    → All (λ (r : Row). r.id ≡ id → r.status ≡ failed) rs
    → All
        (λ (r : Row). r.id ≡ id → r.status ≡ pending)
        (update_where (λ r. has_id id r && is_failed r.status) (requeued now) rs)
unfolding update_where requeued
requeued_all now id [] h = tt
requeued_all now id (r ∷ rs) h = elim (Bool-cases (r.id == id)) [
  | inl e ↦ rw (e, h.0 ((==_iff r.id id).0 e)) ((λ i. refl), requeued_all now id rs h.1)
  | inr e ↦ rw e ((λ i. absurd (cc (e, (==_iff r.id id).1 i))), requeued_all now id rs h.1)
]

-- A job that was not reviewed: another try up to the third, and then none.
abbrev pub after_failure : ℕ → Status
after_failure attempts = if ltb attempts 3 then pending else failed

fail_and_requeue-StatusOf :
    (now : ℕ) (job : ReviewJob) (error : Text) (db : Db)
    → StatusOf job.id (after_failure job.attempts) (fail_and_requeue now job error db).jobs
unfolding fail_and_requeue requeue_if_retryable mark_failed broken
fail_and_requeue-StatusOf now job error db =
    let marked = written job.id failed (broken now error) db.jobs.rows (λ r. refl) in
    elim (Bool-cases (leb 3 job.attempts)) [
      | inl e ↦ let over : ltb job.attempts 3 ≡ false = ground arith in rw (e, over) marked
      | inr e ↦
          let again : ltb job.attempts 3 ≡ true = ground arith in
          rw (e, again) (requeued_all now job.id _ marked)
    ]

-- What becomes of a job, from the outcome of its review and the attempts so far.
abbrev pub fate : Outcome → ℕ → Status
fate completed attempts = done
fate timed_out attempts = after_failure attempts
fate (broke error) attempts = after_failure attempts

when :
    (id : ℕ) (s : Status) (b : Bool) (x y : Db)
    → b ≡ true
    → StatusOf id s x.jobs
    → StatusOf id s (if b then x else y).jobs
when id s true x y h k = k
when id s false x y h k = absurd (cc h)

settle-StatusOf :
    (p : Process) (at : Clock) (job : ReviewJob) (o : Outcome) (db : Db)
    → p.has_pool ≡ true
    → StatusOf job.id (fate o job.attempts) (settle p at job o db).jobs
unfolding settle mark_done finished
settle-StatusOf p at job completed db h =
    when _ _ p.has_pool (record db { jobs = mark_done at.secs job.id db.jobs }) db h
      (written job.id done (finished at.secs) db.jobs.rows (λ r. refl))
settle-StatusOf p at job timed_out db h =
    let released = release_claim_best_effort p at job.repo job.pr_number job.head_sha db in
    when _ _ p.has_pool _ released h
      (fail_and_requeue-StatusOf at.secs job (codes "timeout") released)
settle-StatusOf p at job (broke error) db h =
    let released = release_claim_best_effort p at job.repo job.pr_number job.head_sha db in
    when _ _ p.has_pool _ released h (fail_and_requeue-StatusOf at.secs job error released)

-- The credentials of the GitHub App are there.
abbrev pub complete : BotConfig → Bool
complete cfg = not (is_empty_text cfg.app_id || is_empty_text cfg.private_key)

module _ (review : BotConfig → ReviewJob → Db → Db × Outcome) (p : Process) where
  -- What becomes of a job under a configuration.
  abbrev pub job_fate : Option BotConfig → ReviewJob → Db → Status
  job_fate none job db = after_failure job.attempts
  job_fate (some cfg) job db =
      if complete cfg then fate (review cfg job db).1 job.attempts else after_failure job.attempts

  -- A worker with a pool and a permit never leaves a job as it was: after a review that ended well the
  -- job is done; after one that broke or timed out, and with credentials missing, it is pending again
  -- if fewer than three attempts were made, and failed if not.
  pub handle-StatusOf :
      (at : Clock) (cfg : Option BotConfig) (job : ReviewJob) (db : Db)
      → p.has_pool ≡ true
      → p.has_permit ≡ true
      → StatusOf job.id (job_fate cfg job db) (handle review p at cfg job db).jobs
  unfolding handle process_queued_review
  handle-StatusOf at none job db h k = fail_and_requeue-StatusOf at.secs job _ db
  handle-StatusOf at (some cfg) job db h k =
      elim (Bool-cases (is_empty_text cfg.app_id || is_empty_text cfg.private_key)) [
        | inl e ↦ rw e (fail_and_requeue-StatusOf at.secs job _ db)
        | inr e ↦ rw e (
            when _ _ p.has_permit (settle p at job (review cfg job db).1 (review cfg job db).0) db k
              (settle-StatusOf p at job (review cfg job db).1 (review cfg job db).0 h))
      ]
