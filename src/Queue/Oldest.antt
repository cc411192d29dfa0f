-- ===== src/Queue/Oldest.antt =====
-- src/bot/queue.rs: which job a claim picks, in the terms of the table.
use codasaurus.Queue.{
  Status, pending, running, done, failed, Row, Table, ReviewJob, is_pending, is_running,
  is_eligible, claim_before, claim_next, claimed, to_job, update_where, has_id,
}
use codasaurus.Queue.Choice.{claim_next-some}
use codasaurus.Prelude.{
  ℕ, ◌+◌, ◌≤◌, ◌<◌, Memᴰ, some, Bool, true, false, not, ◌&&◌, ◌||◌, ltb→lt, lt→ltb, leb→le, All,
  All_mono, ◌≡◌, ◌↔◌, ◌⊎◌, inl, inr, arith,
}

-- A job may be claimed: nobody has locked its row, and it is pending, or running on a lease that is
-- over.
abbrev pub Claimable : (ℕ → Bool) → ℕ → ℕ → Row → Type 0
Claimable locked now stale s =
    (locked s.id ≡ false)
    × ((s.status ≡ pending) ⊎ ((s.status ≡ running) × (s.updated_at + stale < now)))

-- One job has its turn before another: pending jobs by the time at which they were created, and
-- before all that were taken over, which go by their last update.
abbrev pub Before : Row → Row → Type 0
Before r s =
    ((r.status ≡ pending) × ((s.status ≡ running) ⊎ (r.created_at ≤ s.created_at)))
    ⊎ ((r.status ≡ running) × (s.status ≡ running) × (r.updated_at ≤ s.updated_at))

eligible_of :
    (s : Status) (l old : Bool)
    → ((not l && (is_pending s || is_running s && old)) ≡ true)
      ↔ ((l ≡ false) × ((s ≡ pending) ⊎ ((s ≡ running) × (old ≡ true))))
eligible_of pending l old = ground arith
eligible_of running l old = ground arith
eligible_of done l old = ground arith
eligible_of failed l old = ground arith

module _ (locked : ℕ → Bool) (now stale : ℕ) where
  eligible→Claimable :
      (s : Row) → is_eligible locked now stale s ≡ true → Claimable locked now stale s
  unfolding is_eligible
  eligible→Claimable s e =
      let (free, ready) = (eligible_of s.status (locked s.id) _).0 e in
      (free, elim ready [ inl p ↦ inl p | inr (r, old) ↦ inr (r, ltb→lt _ _ old) ])

  Claimable→eligible :
      (s : Row) → Claimable locked now stale s → is_eligible locked now stale s ≡ true
  unfolding is_eligible
  Claimable→eligible s (free, inl p) = (eligible_of s.status (locked s.id) _).1 (free, inl p)
  Claimable→eligible s (free, inr (r, old)) =
      (eligible_of s.status (locked s.id) _).1 (free, inr (r, lt→ltb _ _ old))

  before→Before :
      (r s : Row)
      → Claimable locked now stale r
      → Claimable locked now stale s
      → claim_before r s ≡ true
      → Before r s
  unfolding claim_before
  before→Before r s (_, inl p) (_, inl q) e = inl (p, inr (leb→le _ _ (rw (p, q) at e)))
  before→Before r s (_, inl p) (_, inr (q, _)) e = inl (p, inl q)
  before→Before r s (_, inr (p, _)) (_, inl q) e = absurd (cc (rw (p, q) at e))
  before→Before r s (_, inr (p, _)) (_, inr (q, _)) e = inr (p, q, leb→le _ _ (rw (p, q) at e))

-- The job that a claim returns is that of a row which may be claimed, with one attempt more, and no
-- row that may be claimed has its turn before it; that row becomes running, and no other row changes.
pub claim_next-oldest :
    (locked : ℕ → Bool) (now stale : ℕ) (t : Table) {j : ReviewJob}
    → (claim_next locked now stale t).1 ≡ some j
    → (r : Row) × Memᴰ r t.rows
      × Claimable locked now stale r
      × All (λ s. Claimable locked now stale s → Before r s) t.rows
      × (j ≡ to_job (claimed now r))
      × ((claim_next locked now stale t).0
          ≡ record t { rows = update_where (has_id r.id) (claimed now) t.rows })
claim_next-oldest locked now stale t e =
    let (r, f, same, rest) = claim_next-some locked now stale t e in
    let may = eligible→Claimable locked now stale r f.allowed in
    (
      r,
      f.listed,
      may,
      All_mono
          (λ s h c.
            before→Before locked now stale r s may c (h (Claimable→eligible locked now stale s c)))
          t.rows f.first,
      same,
      rest,
    )
