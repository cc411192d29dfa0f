-- ===== src/Queue/Leases.antt =====
-- src/bot/queue.rs: a job after it was claimed, and after it was marked as done.
use codasaurus.Queue.{
  running, done, Row, Table, ReviewJob, is_eligible, refresh, fresh_row, claimed, to_job, has_id,
  update_where, claim_next, mark_done, finished, broken, requeued,
}
use codasaurus.Queue.Invariant.{IsValid, id_of}
use codasaurus.Queue.Choice.{claim_next-some}
use codasaurus.Queue.Trace.{
  Op, enqueue_op, claim_op, done_op, failed_op, requeue_op, apply, run, Survives, apply-All,
  next_id-apply,
}
use codasaurus.Prelude.{
  ℕ, ◌+◌, ◌≤◌, ◌<◌, List, [], ◌∷◌, map, Memᴰ, some, Bool, true, ◌==◌, ==_iff, Bool-cases,
  Option-cases, All, All-append, All-mem, ◌≡◌, refl, sym, ap, ◌∙◌, ◌≢◌, inl, inr, arith,
}

pub job-mem-next :
    (locked : ℕ → Bool) (now stale : ℕ) {t : Table} {j : ReviewJob}
    → IsValid t
    → (claim_next locked now stale t).1 ≡ some j
    → j.id < t.next_id
unfolding to_job claimed
job-mem-next locked now stale {t} {j} v e =
    let (r, first, same, _) = claim_next-some locked now stale t e in
    rw same (below t.rows v.below first.listed)
  where
    below :
        {r : Row} (rs : List Row)
        → All (λ i. i < t.next_id) (map id_of rs)
        → Memᴰ r rs
        → r.id < t.next_id
    below [] h m = elim m [ ]
    below (s ∷ rs) h (Memᴰ.head e) = rw e h.0
    below (s ∷ rs) h (Memᴰ.tail m) = below rs h.1 m

-- A property of the row with an id that no claim can meet keeps the job from being handed out.
module _ (P : Row → Type 0) (id : ℕ) (Keeps : Op → Type 0)
    (survives : (o : Op) (next : ℕ) → id < next → Keeps o → Survives P next o)
    (unclaimed : (locked : ℕ → Bool) (now stale : ℕ) (r : Row)
      → Keeps (claim_op locked now stale)
      → P r
      → is_eligible locked now stale r ≡ true
      → r.id ≢ id) where
  handed_out : (o : Op) (t : Table) → Keeps o → All P t.rows → All (λ j. j.id ≢ id) (apply o t).1
  unfolding apply to_job claimed
  handed_out (enqueue_op now repo pr sha inst action) t k h = tt
  handed_out (claim_op locked now stale) t k h =
      elim (Option-cases (claim_next locked now stale t).1) [
        | inl e ↦ rw e tt
        | inr (j, e) ↦
            let (r, first, same, _) = claim_next-some locked now stale t e in
            rw (e, same)
              (unclaimed locked now stale r k (All-mem P t.rows h first.listed) first.allowed, tt)
      ]
  handed_out (done_op now i) t k h = tt
  handed_out (failed_op now i error) t k h = tt
  handed_out (requeue_op now i attempts most) t k h = tt

  never_handed_out :
      (os : List Op) (t : Table)
      → id < t.next_id
      → All Keeps os
      → All P t.rows
      → All (λ j. j.id ≢ id) (run os t).1
  unfolding run
  never_handed_out [] t b k h = tt
  never_handed_out (o ∷ os) t b k h =
      All-append (λ j. j.id ≢ id) (apply o t).1 _ (handed_out o t k.0 h)
        (never_handed_out os (apply o t).0 (omega (arith, next_id-apply o t)) k.1
          (apply-All P o t (survives o t.next_id b k.0) h))

module _ (id : ℕ) where
  -- The row with the id is running, and was touched at `since` or later.
  abbrev Held : ℕ → Row → Type 0
  Held since r = r.id ≡ id → (r.status ≡ running) × (since ≤ r.updated_at)

  -- Statements that respect a lease since a time: time does not run backwards, no claim comes when
  -- the lease is stale, and nobody else settles the job.
  abbrev pub KeepsLease : ℕ → Op → Type 0
  KeepsLease since (enqueue_op now repo pr sha inst action) = since ≤ now
  KeepsLease since (claim_op locked now stale) = now ≤ since + stale
  KeepsLease since (done_op now i) = i ≢ id
  KeepsLease since (failed_op now i error) = i ≢ id
  KeepsLease since (requeue_op now i attempts most) = Unit

  Held-Survives :
      (since : ℕ) (o : Op) (next : ℕ)
      → id < next
      → KeepsLease since o
      → Survives (Held since) next o
  unfolding refresh fresh_row claimed finished broken requeued is_eligible
  Held-Survives since (enqueue_op now repo pr sha inst action) next b k =
      ((λ r h e. let old = h e in ground arith), λ e. absurd (omega (arith, e)))
  Held-Survives since (claim_op locked now stale) next b k =
      λ c r el hc h i e. absurd (not_stale c r el hc i e)
    where
      not_stale :
          (c r : Row)
          → is_eligible locked now stale c ≡ true
          → Held since c
          → has_id c.id r ≡ true
          → r.id ≡ id
          → ⊥
      not_stale c r el hc i e =
          let same : c.id ≡ id = sym ((==_iff r.id c.id).0 i) ∙ e in
          let old = hc same in ground arith
  Held-Survives since (done_op now i) next b k = λ r h t e. absurd (k (ground arith))
  Held-Survives since (failed_op now i error) next b k = λ r h t e. absurd (k (ground arith))
  Held-Survives since (requeue_op now i attempts most) next b k =
      λ r h t l e. let old = h e in ground arith

  Held-unclaimed :
      (since : ℕ) (locked : ℕ → Bool) (now stale : ℕ) (r : Row)
      → KeepsLease since (claim_op locked now stale)
      → Held since r
      → is_eligible locked now stale r ≡ true
      → r.id ≢ id
  unfolding is_eligible
  Held-unclaimed since locked now stale r k h el = λ e. let old = h e in ground arith

  Held-claimed :
      (now : ℕ) (rs : List Row) → All (Held now) (update_where (has_id id) (claimed now) rs)
  unfolding update_where claimed
  Held-claimed now [] = tt
  Held-claimed now (r ∷ rs) = elim (Bool-cases (r.id == id)) [
    | inl e ↦ rw e ((λ s. (refl, omega arith)), Held-claimed now rs)
    | inr e ↦ rw e ((λ s. absurd (cc (e, (==_iff r.id id).1 s))), Held-claimed now rs)
  ]

-- In a valid table, once a job is claimed, no claim hands it out again: whatever statements the
-- other workers and the webhook handlers run, as long as they leave its lease alone: no commit is
-- enqueued at an earlier time, no claim comes when the lease is stale, and nobody marks the job as
-- done or failed.
pub claim-exclusive :
    (locked : ℕ → Bool) (now stale : ℕ) (t : Table) (j : ReviewJob) (os : List Op)
    → IsValid t
    → (claim_next locked now stale t).1 ≡ some j
    → All (KeepsLease j.id now) os
    → All (λ k. k.id ≢ j.id) (run os (claim_next locked now stale t).0).1
unfolding to_job claimed
claim-exclusive locked now stale t j os v e k =
    let (r, first, same, rest) = claim_next-some locked now stale t e in
    let id : r.id ≡ j.id = ap (λ (x : ReviewJob). x.id) (sym same) in
    let bound = job-mem-next locked now stale v e in
    rw rest (
      never_handed_out (Held j.id now) j.id (KeepsLease j.id now) (Held-Survives j.id now)
        (Held-unclaimed j.id now) os _ bound k (rw id (Held-claimed j.id now t.rows)))

module _ (id : ℕ) where
  abbrev IsDone : Row → Type 0
  IsDone r = r.id ≡ id → r.status ≡ done

  -- Nobody marks the job as failed.
  abbrev pub NotFailed : Op → Type 0
  NotFailed (failed_op now i error) = i ≢ id
  NotFailed (enqueue_op now repo pr sha inst action) = Unit
  NotFailed (claim_op locked now stale) = Unit
  NotFailed (done_op now i) = Unit
  NotFailed (requeue_op now i attempts most) = Unit

  IsDone-Survives : (o : Op) (next : ℕ) → id < next → NotFailed o → Survives IsDone next o
  unfolding refresh fresh_row claimed finished broken requeued is_eligible
  IsDone-Survives (enqueue_op now repo pr sha inst action) next b k =
      ((λ r h e. let old = h e in ground arith), λ e. absurd (omega (arith, e)))
  IsDone-Survives (claim_op locked now stale) next b k =
      λ c r el hc h i e. absurd (not_done c r el hc i e)
    where
      not_done :
          (c r : Row)
          → is_eligible locked now stale c ≡ true
          → IsDone c
          → has_id c.id r ≡ true
          → r.id ≡ id
          → ⊥
      not_done c r el hc i e =
          let same : c.id ≡ id = sym ((==_iff r.id c.id).0 i) ∙ e in
          let old = hc same in ground arith
  IsDone-Survives (done_op now i) next b k = λ r h t e. refl
  IsDone-Survives (failed_op now i error) next b k = λ r h t e. absurd (k (ground arith))
  IsDone-Survives (requeue_op now i attempts most) next b k =
      λ r h t l e. let old = h e in ground arith

  IsDone-unclaimed :
      (locked : ℕ → Bool) (now stale : ℕ) (r : Row)
      → NotFailed (claim_op locked now stale)
      → IsDone r
      → is_eligible locked now stale r ≡ true
      → r.id ≢ id
  unfolding is_eligible
  IsDone-unclaimed locked now stale r k h el = λ e. let old = h e in ground arith

  IsDone-marked :
      (now : ℕ) (rs : List Row) → All IsDone (update_where (has_id id) (finished now) rs)
  unfolding update_where finished
  IsDone-marked now [] = tt
  IsDone-marked now (r ∷ rs) = elim (Bool-cases (r.id == id)) [
    | inl e ↦ rw e ((λ s. refl), IsDone-marked now rs)
    | inr e ↦ rw e ((λ s. absurd (cc (e, (==_iff r.id id).1 s))), IsDone-marked now rs)
  ]

-- A job with an id that the table has given out, once it is marked as done, is never handed out
-- again, whatever is run afterwards, as long as nobody marks it as failed. Enqueueing the same
-- commit again does not revive it.
pub done-final :
    (now id : ℕ) (t : Table) (os : List Op)
    → id < t.next_id
    → All (NotFailed id) os
    → All (λ k. k.id ≢ id) (run os (mark_done now id t)).1
unfolding mark_done
done-final now id t os b k =
    never_handed_out (IsDone id) id (NotFailed id) (IsDone-Survives id) (IsDone-unclaimed id) os _ b
      k (IsDone-marked id now t.rows)
