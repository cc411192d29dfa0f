-- ===== src/Queue/Trace.antt =====
-- src/bot/queue.rs: sequences of statements, as the workers and the webhook handlers interleave them.
use codasaurus.Queue.{
  Row, Table, ReviewJob, enqueue, claim_next, mark_done, mark_failed, requeue_if_retryable, refresh,
  fresh_row, claimed, finished, broken, requeued, is_eligible, is_failed, has_id, has_key, find_row,
}
use codasaurus.Queue.Choice.{claim_next-some, claim_next-none}
use codasaurus.Queue.Invariant.{
  IsValid, enqueue-IsValid, claim_next-IsValid, mark_done-IsValid, mark_failed-IsValid,
  requeue-IsValid, All-update_where,
}
use codasaurus.Prelude.{
  ℕ, ◌≤◌, Text, List, [], ◌∷◌, ◌++◌, Option, none, some, Bool, true, ◌&&◌, ltb, leb, Bool-cases,
  Option-cases, All, All-append, All-mem, ◌≡◌, inl, inr, arith,
}

pub data Op : Type 0 where
  enqueue_op : (now : ℕ) (repo : Text) (pr : ℕ) (sha : Text) (inst : Option ℕ) (action : Text) → Op
  claim_op : (locked : ℕ → Bool) (now stale : ℕ) → Op
  done_op : (now id : ℕ) → Op
  failed_op : (now id : ℕ) (error : Text) → Op
  requeue_op : (now id attempts most : ℕ) → Op

abbrev pub job_list : Option ReviewJob → List ReviewJob
job_list none = []
job_list (some j) = j ∷ []

-- One statement: the table after it, and the job that it hands out.
unfoldable pub apply : Op → Table → Table × List ReviewJob
apply (enqueue_op now repo pr sha inst action) t = ((enqueue now repo pr sha inst action t).0, [])
apply (claim_op locked now stale) t =
    ((claim_next locked now stale t).0, job_list (claim_next locked now stale t).1)
apply (done_op now id) t = (mark_done now id t, [])
apply (failed_op now id error) t = (mark_failed now id error t, [])
apply (requeue_op now id attempts most) t = (requeue_if_retryable now id attempts most t, [])

-- The table after a sequence, and the jobs handed out in it.
unfoldable pub run : List Op → Table → Table × List ReviewJob
run [] t = (t, [])
run (o ∷ os) t = ((run os (apply o t).0).0, (apply o t).1 ++ (run os (apply o t).0).1)

apply-IsValid : (o : Op) {t : Table} → IsValid t → IsValid (apply o t).0
unfolding apply
apply-IsValid (enqueue_op now repo pr sha inst action) v =
    enqueue-IsValid now repo pr sha inst action v
apply-IsValid (claim_op locked now stale) v = claim_next-IsValid locked now stale v
apply-IsValid (done_op now id) v = mark_done-IsValid now id v
apply-IsValid (failed_op now id error) v = mark_failed-IsValid now id error v
apply-IsValid (requeue_op now id attempts most) v = requeue-IsValid now id attempts most v

-- From a valid table, whatever statements are run, the table stays valid: ids are distinct, no two
-- rows have the same repository, pull request and commit, and the sequence is ahead of every id.
pub run-IsValid : (os : List Op) {t : Table} → IsValid t → IsValid (run os t).0
unfolding run
run-IsValid [] v = v
run-IsValid (o ∷ os) v = run-IsValid os (apply-IsValid o v)

module _ (P : Row → Type 0) where
  -- What a property of rows has to survive, to survive a statement.
  abbrev pub Survives : ℕ → Op → Type 0
  Survives next (enqueue_op now repo pr sha inst action) =
      ((r : Row) → P r → P (refresh now inst action r))
      × P (fresh_row next now repo pr sha inst action)
  Survives next (claim_op locked now stale) =
      (c r : Row)
      → is_eligible locked now stale c ≡ true
      → P c
      → P r
      → has_id c.id r ≡ true
      → P (claimed now r)
  Survives next (done_op now id) = (r : Row) → P r → has_id id r ≡ true → P (finished now r)
  Survives next (failed_op now id error) =
      (r : Row) → P r → has_id id r ≡ true → P (broken now error r)
  Survives next (requeue_op now id attempts most) =
      (r : Row)
      → P r
      → (has_id id r && is_failed r.status) ≡ true
      → ltb attempts most ≡ true
      → P (requeued now r)

  claim-All :
      (locked : ℕ → Bool) (now stale : ℕ) (t : Table)
      → Survives t.next_id (claim_op locked now stale)
      → All P t.rows
      → All P (claim_next locked now stale t).0.rows
  claim-All locked now stale t keep h = elim (Option-cases (claim_next locked now stale t).1) [
    | inl e ↦ rw (claim_next-none locked now stale t e).1 h
    | inr (j, e) ↦
        let (r, first, _, rest) = claim_next-some locked now stale t e in
        rw rest (
          All-update_where P (has_id r.id) (claimed now) t.rows
            (λ s p i. keep r s first.allowed (All-mem P t.rows h first.listed) p i) h)
  ]

  enqueue-All :
      (now : ℕ) (repo : Text) (pr : ℕ) (sha : Text) (inst : Option ℕ) (action : Text) (t : Table)
      → Survives t.next_id (enqueue_op now repo pr sha inst action)
      → All P t.rows
      → All P (enqueue now repo pr sha inst action t).0.rows
  unfolding enqueue
  enqueue-All now repo pr sha inst action t keep h =
      elim (Option-cases (find_row (has_key repo pr sha) t.rows)) [
        | inr (r, e) ↦
            rw (e, enqueue)
              (All-update_where P (has_key repo pr sha) (refresh now inst action) t.rows
                (λ s p i. keep.0 s p) h)
        | inl e ↦ rw (e, enqueue) (All-append P t.rows _ h (keep.1, tt))
      ]

  requeue-All :
      (now id attempts most : ℕ) (t : Table)
      → Survives t.next_id (requeue_op now id attempts most)
      → All P t.rows
      → All P (requeue_if_retryable now id attempts most t).rows
  unfolding requeue_if_retryable
  requeue-All now id attempts most t keep h = elim (Bool-cases (leb most attempts)) [
    | inl e ↦ rw e h
    | inr e ↦ rw e (
        All-update_where P (λ r. has_id id r && is_failed r.status) (requeued now) t.rows
          (λ s p i. keep s p i (ground arith)) h)
  ]

  pub apply-All :
      (o : Op) (t : Table) → Survives t.next_id o → All P t.rows → All P (apply o t).0.rows
  unfolding apply mark_done mark_failed
  apply-All (enqueue_op now repo pr sha inst action) t keep h =
      enqueue-All now repo pr sha inst action t keep h
  apply-All (claim_op locked now stale) t keep h = claim-All locked now stale t keep h
  apply-All (done_op now id) t keep h = All-update_where P (has_id id) (finished now) t.rows keep h
  apply-All (failed_op now id error) t keep h =
      All-update_where P (has_id id) (broken now error) t.rows keep h
  apply-All (requeue_op now id attempts most) t keep h = requeue-All now id attempts most t keep h

-- The sequence behind the ids never moves back.
pub next_id-apply : (o : Op) (t : Table) → t.next_id ≤ (apply o t).0.next_id
unfolding apply mark_done mark_failed enqueue requeue_if_retryable
next_id-apply (enqueue_op now repo pr sha inst action) t = moved
  where
    moved : t.next_id ≤ (enqueue now repo pr sha inst action t).0.next_id
    moved = elim (Option-cases (find_row (has_key repo pr sha) t.rows)) [
      | inr (r, e) ↦ rw (e, enqueue) (omega arith)
      | inl e ↦ rw (e, enqueue) (omega arith)
    ]
next_id-apply (claim_op locked now stale) t =
    elim (Option-cases (claim_next locked now stale t).1) [
      | inl e ↦ rw (claim_next-none locked now stale t e).1 (omega arith)
      | inr (j, e) ↦ rw (claim_next-some locked now stale t e).3 (omega arith)
    ]
next_id-apply (done_op now id) t = omega arith
next_id-apply (failed_op now id error) t = omega arith
next_id-apply (requeue_op now id attempts most) t = same
  where
    same : t.next_id ≤ (requeue_if_retryable now id attempts most t).next_id
    same = elim (Bool-cases (leb most attempts)) [
      | inl e ↦ rw (e, requeue_if_retryable) (omega arith)
      | inr e ↦ rw (e, requeue_if_retryable) (omega arith)
    ]
