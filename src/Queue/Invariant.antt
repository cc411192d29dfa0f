-- ===== src/Queue/Invariant.antt =====
-- src/bot/queue.rs and src/db/migrations.rs: the keys of the table and the sequence of its ids.
use codasaurus.Queue.{
  Row, Table, is_failed, finished, broken, requeued, has_key, refresh, fresh_row, update_where,
  find_row, enqueue, is_eligible, first_eligible, claimed, has_id, claim_next, mark_done,
  mark_failed, requeue_if_retryable,
}
use codasaurus.Prelude.{
  Distinct, Distinct-snoc, map-snoc, ℕ, ◌+◌, ◌≤◌, ◌<◌, Text, text_eq_iff, List, [], ◌∷◌, map,
  Option, none, Bool, true, ◌&&◌, leb, Bool-cases, Option-cases, All, All-append, ◌≡◌, refl, ap,
  ◌≢◌, inl, inr, arith,
}

abbrev pub id_of : Row → ℕ
id_of r = r.id

abbrev pub Key : Type 0
Key = record { repo : Text; pr : ℕ; sha : Text }

abbrev pub key_of : Row → Key
key_of r = record { repo = r.repo; pr = r.pr_number; sha = r.head_sha }

pub record IsValid (t : Table) : Type 0 where
  pub ids : Distinct (map id_of t.rows)
  pub below : All (λ i. i < t.next_id) (map id_of t.rows)
  pub keys : Distinct (map key_of t.rows)

-- An update that leaves a column alone leaves the list of that column alone.
pub map-update_where {ℓ} :
    {A : Type ℓ} (g : Row → A) (test : Row → Bool) (f : Row → Row) (rs : List Row)
    → ((r : Row) → g (f r) ≡ g r)
    → map g (update_where test f rs) ≡ map g rs
unfolding update_where
map-update_where g test f [] h = refl
map-update_where g test f (r ∷ rs) h = elim (Bool-cases (test r)) [
  | inl e ↦ rw (e, h r, map-update_where g test f rs h)
  | inr e ↦ rw (e, map-update_where g test f rs h)
]

pub All-update_where {ℓ} :
    (P : Row → Type ℓ) (test : Row → Bool) (f : Row → Row) (rs : List Row)
    → ((r : Row) → P r → test r ≡ true → P (f r))
    → All P rs
    → All P (update_where test f rs)
unfolding update_where
All-update_where P test f [] keep h = tt
All-update_where P test f (r ∷ rs) keep h = elim (Bool-cases (test r)) [
  | inl e ↦ rw e (keep r h.0 e, All-update_where P test f rs keep h.1)
  | inr e ↦ rw e (h.0, All-update_where P test f rs keep h.1)
]

-- The rows changed, and the columns that the invariant reads did not.
same_columns-IsValid :
    {t : Table} (rs : List Row) (n : ℕ)
    → IsValid t
    → map id_of rs ≡ map id_of t.rows
    → map key_of rs ≡ map key_of t.rows
    → t.next_id ≤ n
    → IsValid (record { rows = rs; next_id = n })
same_columns-IsValid {t} rs n v i k h = record {
  ids = rw i v.ids;
  below = rw i (widen (map id_of t.rows) v.below);
  keys = rw k v.keys;
}
  where
    widen : (is : List ℕ) → All (λ i. i < t.next_id) is → All (λ i. i < n) is
    widen [] b = tt
    widen (j ∷ js) b = (omega arith, widen js b.1)

pub claim_next-IsValid :
    (locked : ℕ → Bool) (now stale : ℕ) {t : Table}
    → IsValid t
    → IsValid (claim_next locked now stale t).0
unfolding claim_next claimed
claim_next-IsValid locked now stale {t} v =
    elim (Option-cases (first_eligible (is_eligible locked now stale) t.rows)) [
      | inl e ↦ rw (e, claim_next) v
      | inr (r, e) ↦
          rw (e, claim_next)
            (same_columns-IsValid _ _ v
              (map-update_where id_of (has_id r.id) (claimed now) t.rows (λ s. refl))
              (map-update_where key_of (has_id r.id) (claimed now) t.rows (λ s. refl))
              (omega arith))
    ]

pub mark_done-IsValid : (now id : ℕ) {t : Table} → IsValid t → IsValid (mark_done now id t)
unfolding mark_done finished
mark_done-IsValid now id {t} v =
    same_columns-IsValid _ _ v
      (map-update_where id_of (has_id id) (finished now) t.rows (λ s. refl))
      (map-update_where key_of (has_id id) (finished now) t.rows (λ s. refl)) (omega arith)

pub mark_failed-IsValid :
    (now id : ℕ) (error : Text) {t : Table} → IsValid t → IsValid (mark_failed now id error t)
unfolding mark_failed broken
mark_failed-IsValid now id error {t} v =
    same_columns-IsValid _ _ v
      (map-update_where id_of (has_id id) (broken now error) t.rows (λ s. refl))
      (map-update_where key_of (has_id id) (broken now error) t.rows (λ s. refl)) (omega arith)

pub requeue-IsValid :
    (now id attempts most : ℕ) {t : Table}
    → IsValid t
    → IsValid (requeue_if_retryable now id attempts most t)
unfolding requeue_if_retryable requeued
requeue-IsValid now id attempts most {t} v = elim (Bool-cases (leb most attempts)) [
  | inl e ↦ rw e v
  | inr e ↦ rw e (
      same_columns-IsValid _ _ v
        (map-update_where id_of (λ r. has_id id r && is_failed r.status) (requeued now) t.rows
          (λ s. refl))
        (map-update_where key_of (λ r. has_id id r && is_failed r.status) (requeued now) t.rows
          (λ s. refl))
        (omega arith))
]

module _ (repo : Text) (pr : ℕ) (sha : Text) where
  abbrev wanted : Key
  wanted = record { repo = repo; pr = pr; sha = sha }

  has_key_of_eq : (r : Row) → key_of r ≡ wanted → has_key repo pr sha r ≡ true
  has_key_of_eq r e = ground (
    arith,
    text_eq_iff r.repo repo,
    text_eq_iff r.head_sha sha,
    ap (λ (k : Key). k.repo) e,
    ap (λ (k : Key). k.pr) e,
    ap (λ (k : Key). k.sha) e,
  )

  -- No row has the key, so a row with it may be added.
  find_row-none :
      (rs : List Row)
      → find_row (has_key repo pr sha) rs ≡ none
      → All (λ k. k ≢ wanted) (map key_of rs)
  unfolding find_row
  find_row-none [] e = tt
  find_row-none (r ∷ rs) e = elim (Bool-cases (has_key repo pr sha r)) [
    | inl h ↦ absurd (cc (rw h at e))
    | inr h ↦ (λ same. absurd (cc (h, has_key_of_eq r same)), find_row-none rs (rw h at e))
  ]

below→ne : (n : ℕ) (is : List ℕ) → All (λ i. i < n) is → All (λ i. i ≢ n) is
below→ne n [] h = tt
below→ne n (i ∷ is) h = (λ e. absurd (omega arith), below→ne n is h.1)

below-suc : (n : ℕ) (is : List ℕ) → All (λ i. i < n) is → All (λ i. i < n + 1) is
below-suc n [] h = tt
below-suc n (i ∷ is) h = (omega arith, below-suc n is h.1)

pub enqueue-IsValid :
    (now : ℕ) (repo : Text) (pr : ℕ) (sha : Text) (inst : Option ℕ) (action : Text) {t : Table}
    → IsValid t
    → IsValid (enqueue now repo pr sha inst action t).0
unfolding enqueue refresh fresh_row
enqueue-IsValid now repo pr sha inst action {t} v =
    elim (Option-cases (find_row (has_key repo pr sha) t.rows)) [
      | inr (r, e) ↦
          rw (e, enqueue)
            (same_columns-IsValid _ _ v
              (map-update_where id_of _ (refresh now inst action) t.rows (λ s. refl))
              (map-update_where key_of _ (refresh now inst action) t.rows (λ s. refl))
              (omega arith))
      | inl e ↦
          rw (e, enqueue)
            (record {
              ids = rw (map-snoc id_of t.rows) (
                  Distinct-snoc (map id_of t.rows) t.next_id v.ids
                    (below→ne t.next_id (map id_of t.rows) v.below));
              below = rw (map-snoc id_of t.rows) (
                  All-append (λ i. i < t.next_id + 1) (map id_of t.rows) (t.next_id ∷ [])
                    (below-suc t.next_id (map id_of t.rows) v.below) (omega arith, tt));
              keys =
                  rw (map-snoc key_of t.rows) (
                    Distinct-snoc (map key_of t.rows) _ v.keys
                      (find_row-none repo pr sha t.rows e));
            })
    ]
