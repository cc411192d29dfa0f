-- ===== src/Worker/Released.antt =====
-- src/bot/worker.rs and src/state.rs: the claim on a commit after a review that did not end well.
use codasaurus.Queue.{ReviewJob}
use codasaurus.Claims.{
  Commit, Commits, in_progress, stale_claim_secs, release_sha_claim, repo_pr, is_released, put,
}
use codasaurus.Worker.{
  Db, Outcome, completed, timed_out, broke, Process, Clock, release_claim_best_effort,
  fail_and_requeue, settle,
}
use codasaurus.Prelude.{
  if_false, ℕ, Text, text_eq_refl, is_empty_text, some, Bool, true, false, not, if◌then◌else◌,
  Bool-cases, Option-cases, ◌≡◌, refl, sym, ap, ◌∙◌, ◌≢◌, inl, inr,
}

-- No claim in progress of an owner on a commit is in the table.
abbrev pub Unclaimed : Text → Text → Text → Commits → Type 0
Unclaimed owner key sha t =
    (c : Commit)
    → t key ≡ some c
    → c.head_sha ≡ sha
    → c.status ≡ in_progress
    → c.lease_owner ≢ owner

own :
    (stale : ℕ) (owner : Text) (now : ℕ) (sha : Text) (c d : Commit)
    → some c ≡ some d
    → c.head_sha ≡ sha
    → c.status ≡ in_progress
    → c.lease_owner ≡ owner
    → is_released stale owner now sha d ≡ true
unfolding is_released
own stale owner now sha c d q same going mine =
    let r : c ≡ d = cc q in rw (← r, same, text_eq_refl sha, going, mine, text_eq_refl owner)

release_sha_claim-Unclaimed :
    (stale : ℕ) (owner : Text) (now : ℕ) (repo : Text) (pr : ℕ) (sha : Text) (t : Commits)
    → Unclaimed owner (repo_pr repo pr) sha (release_sha_claim stale owner now repo pr sha t)
unfolding release_sha_claim put
release_sha_claim-Unclaimed stale owner now repo pr sha t c there same going mine =
    elim (Option-cases (t (repo_pr repo pr))) [
      | inl e ↦ absurd (cc (e, rw (release_sha_claim, e) at there))
      | inr (d, e) ↦ elim (Bool-cases (is_released stale owner now sha d)) [
        | inl g ↦
            absurd (cc (rw (release_sha_claim, e, g, put, text_eq_refl (repo_pr repo pr)) at there))
        | inr g ↦
            let kept = rw (release_sha_claim, e, g) at there in
            absurd (cc (g, own stale owner now sha c d (sym kept ∙ e) same going mine))
      ]
    ]

same_commits :
    (b : Bool) (x y : Db) → x.commits ≡ y.commits → (if b then x else y).commits ≡ y.commits
same_commits true x y e = e
same_commits false x y e = refl

released_commits :
    (p : Process) (at : Clock) (job : ReviewJob) (db : Db)
    → p.has_pool ≡ true
    → is_empty_text job.head_sha ≡ false
    → (release_claim_best_effort p at job.repo job.pr_number job.head_sha db).commits
      ≡ release_sha_claim
          (stale_claim_secs p.timeout_secs)
          p.owner
          at.micros
          job.repo
          job.pr_number
          job.head_sha
          db.commits
unfolding release_claim_best_effort
released_commits p at job db h named =
    ap (λ (d : Db). d.commits)
      (if_false (is_empty_text job.head_sha) db _ named ∙ if_false (not p.has_pool) db _ (rw h))

-- After a review that broke or timed out, of a job with a commit and in a process with a pool,
-- no claim in progress of the process on that commit is left.
pub settle-Unclaimed :
    (p : Process) (at : Clock) (job : ReviewJob) (o : Outcome) (db : Db)
    → p.has_pool ≡ true
    → is_empty_text job.head_sha ≡ false
    → o ≢ completed
    → Unclaimed p.owner (repo_pr job.repo job.pr_number) job.head_sha (settle p at job o db).commits
unfolding settle fail_and_requeue
settle-Unclaimed p at job completed db h named bad = absurd (bad refl)
settle-Unclaimed p at job timed_out db h named bad =
    rw (same_commits p.has_pool, released_commits p at job db h named)
      (release_sha_claim-Unclaimed _ p.owner at.micros job.repo job.pr_number job.head_sha
        db.commits)
settle-Unclaimed p at job (broke error) db h named bad =
    rw (same_commits p.has_pool, released_commits p at job db h named)
      (release_sha_claim-Unclaimed _ p.owner at.micros job.repo job.pr_number job.head_sha
        db.commits)
