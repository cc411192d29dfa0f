-- ===== src/Queue/Choice.antt =====
-- src/bot/queue.rs: the row that a claim picks, in the terms of the code.
use codasaurus.Queue.{
  Row, Table, ReviewJob, claim_before, better, first_eligible, is_eligible, claim_next, claimed,
  to_job, update_where, has_id,
}
use codasaurus.Prelude.{
  ℕ, List, [], ◌∷◌, Memᴰ, Option, none, some, Bool, true, false, if◌then◌else◌, Bool-cases,
  Option-cases, All, ◌≡◌, refl, inl, inr, arith,
}

claim_before_total : (a b : Row) → claim_before a b ≡ false → claim_before b a ≡ true
unfolding claim_before
claim_before_total a b h = ground arith

claim_before_refl : (a : Row) → claim_before a a ≡ true
unfolding claim_before
claim_before_refl a = ground arith

claim_before_trans :
    (a b c : Row) → claim_before a b ≡ true → claim_before b c ≡ true → claim_before a c ≡ true
unfolding claim_before
claim_before_trans a b c h k = ground arith

module _ (eligible : Row → Bool) where
  -- `r` is in the table, may be claimed, and no other that may be claimed comes before it.
  pub record IsFirst (rs : List Row) (r : Row) : Type 0 where
    pub listed : Memᴰ r rs
    pub allowed : eligible r ≡ true
    pub first : All (λ s. eligible s ≡ true → claim_before r s ≡ true) rs

  pub first_eligible-none :
      (rs : List Row) → first_eligible eligible rs ≡ none → All (λ s. eligible s ≡ false) rs
  unfolding first_eligible
  first_eligible-none [] e = tt
  first_eligible-none (r ∷ rs) e = elim (Bool-cases (eligible r)) [
    | inl h ↦ absurd (better-some r (first_eligible eligible rs) (rw h at e))
    | inr h ↦ (h, first_eligible-none rs (rw h at e))
  ]
    where
      better-some : (r : Row) (o : Option Row) → better r o ≡ none → ⊥
      better-some r none e = cc
      better-some r (some s) e = ground arith

  no_earlier :
      (r : Row) (rs : List Row)
      → All (λ s. eligible s ≡ false) rs
      → All (λ s. eligible s ≡ true → claim_before r s ≡ true) rs
  no_earlier r [] h = tt
  no_earlier r (s ∷ rs) h = ((λ e. absurd (cc (h.0, e))), no_earlier r rs h.1)

  earlier :
      (r s : Row) (rs : List Row)
      → claim_before r s ≡ true
      → All (λ t. eligible t ≡ true → claim_before s t ≡ true) rs
      → All (λ t. eligible t ≡ true → claim_before r t ≡ true) rs
  earlier r s [] h k = tt
  earlier r s (t ∷ rs) h k = ((λ e. claim_before_trans r s t h (k.0 e)), earlier r s rs h k.1)

  pub first_eligible-some :
      (rs : List Row) {r : Row} → first_eligible eligible rs ≡ some r → IsFirst rs r
  unfolding first_eligible
  first_eligible-some [] e = cc
  first_eligible-some (r ∷ rs) {r = x} e = elim (Bool-cases (eligible r)) [
    | inr h ↦ skip h (first_eligible-some rs (rw h at e))
    | inl h ↦ elim (Option-cases (first_eligible eligible rs)) [
      | inl n ↦
          let same : r ≡ x = cc (rw (h, n) at e) in
          rw (← same) (record {
            listed = Memᴰ.head refl;
            allowed = h;
            first = ((λ k. claim_before_refl r), no_earlier r rs (first_eligible-none rs n));
          })
      | inr (s, m) ↦ choose h s (first_eligible-some rs m) (rw (h, m) at e)
    ]
  ]
    where
      skip : eligible r ≡ false → IsFirst rs x → IsFirst (r ∷ rs) x
      skip h f = record {
        listed = Memᴰ.tail f.listed;
        allowed = f.allowed;
        first = ((λ k. absurd (cc (h, k))), f.first);
      }

      choose :
          eligible r ≡ true
          → (s : Row) → IsFirst rs s
          → (if claim_before r s then some r else some s) ≡ some x
          → IsFirst (r ∷ rs) x
      choose h s f e = elim (Bool-cases (claim_before r s)) [
        | inl b ↦
            let same : r ≡ x = cc (rw b at e) in
            rw (← same) (record {
              listed = Memᴰ.head refl;
              allowed = h;
              first = ((λ k. claim_before_refl r), earlier r s rs b f.first);
            })
        | inr b ↦
            let same : s ≡ x = cc (rw b at e) in
            rw (← same) (record {
              listed = Memᴰ.tail f.listed;
              allowed = f.allowed;
              first = ((λ k. claim_before_total r s b), f.first);
            })
      ]

-- When a claim comes back empty, no row is eligible and the table is as it was.
pub claim_next-none :
    (locked : ℕ → Bool) (now stale : ℕ) (t : Table)
    → (claim_next locked now stale t).1 ≡ none
    → All (λ s. is_eligible locked now stale s ≡ false) t.rows
      × ((claim_next locked now stale t).0 ≡ t)
unfolding claim_next
claim_next-none locked now stale t e =
    elim (Option-cases (first_eligible (is_eligible locked now stale) t.rows)) [
      | inl n ↦ (first_eligible-none _ t.rows n, rw (n, claim_next))
      | inr (r, m) ↦ absurd (cc (rw (m, claim_next) at e))
    ]

-- The job that a claim returns is an eligible row of the table that no other eligible row comes
-- before, with one attempt more; that row becomes running, and no other row changes.
pub claim_next-some :
    (locked : ℕ → Bool) (now stale : ℕ) (t : Table) {j : ReviewJob}
    → (claim_next locked now stale t).1 ≡ some j
    → (r : Row) × IsFirst (is_eligible locked now stale) t.rows r
      × (j ≡ to_job (claimed now r))
      × ((claim_next locked now stale t).0
          ≡ record t { rows = update_where (has_id r.id) (claimed now) t.rows })
unfolding claim_next
claim_next-some locked now stale t {j} e =
    elim (Option-cases (first_eligible (is_eligible locked now stale) t.rows)) [
      | inl n ↦ absurd (cc (rw (n, claim_next) at e))
      | inr (r, m) ↦
          (r, first_eligible-some _ t.rows m, cc (rw (m, claim_next) at e), rw (m, claim_next))
    ]
