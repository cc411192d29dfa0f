-- ===== src/Queue.antt =====
-- src/bot/queue.rs: the durable queue of review jobs, as the table `review_jobs` and the effect of each
-- statement on it. Times are seconds; each function is one statement, which PostgreSQL runs
-- atomically, and takes the time that `NOW()` gives.
pub mod Invariant
pub mod Choice
pub mod Oldest
pub mod Trace
pub mod Leases
use codasaurus.Prelude.{
  ℕ, ◌+◌, Text, text_eq, List, [], ◌∷◌, ◌++◌, Option, none, some, Bool, true, false, not, ◌&&◌,
  ◌||◌, ltb, leb, ◌==◌, if◌then◌else◌, take, count_if,
}

pub data Status : Type 0 where
  pending running done failed : Status

pub record Row : Type 0 where
  pub id : ℕ
  pub repo : Text
  pub pr_number : ℕ
  pub head_sha : Text
  pub installation_id : Option ℕ
  pub action : Text
  pub status : Status
  pub attempts : ℕ
  pub last_error : Option Text
  pub created_at : ℕ
  pub updated_at : ℕ

-- `next_id` is the sequence behind the BIGSERIAL column.
pub record Table : Type 0 where
  pub rows : List Row
  pub next_id : ℕ

pub record ReviewJob : Type 0 where
  pub id : ℕ
  pub repo : Text
  pub pr_number : ℕ
  pub head_sha : Text
  pub installation_id : Option ℕ
  pub action : Text
  pub attempts : ℕ

abbrev pub is_pending : Status → Bool
is_pending pending = true
is_pending running = false
is_pending done = false
is_pending failed = false

abbrev pub is_running : Status → Bool
is_running pending = false
is_running running = true
is_running done = false
is_running failed = false

abbrev pub is_failed : Status → Bool
is_failed pending = false
is_failed running = false
is_failed done = false
is_failed failed = true

-- The unique index on `(repo, pr_number, head_sha)`.
abbrev pub has_key : Text → ℕ → Text → Row → Bool
has_key repo pr sha r = text_eq r.repo repo && (r.pr_number == pr && text_eq r.head_sha sha)

abbrev pub coalesce : Option ℕ → Option ℕ → Option ℕ
coalesce (some n) old = some n
coalesce none old = old

-- The `DO UPDATE` of `enqueue` on the row that is there.
unfoldable pub refresh : ℕ → Option ℕ → Text → Row → Row
refresh now installation_id action r = record r {
  status = if is_failed r.status then pending else r.status;
  installation_id = coalesce installation_id r.installation_id;
  action = if is_failed r.status then action else r.action;
  updated_at = now;
}

unfoldable pub fresh_row : ℕ → ℕ → Text → ℕ → Text → Option ℕ → Text → Row
fresh_row id now repo pr sha installation_id action = record {
  id = id;
  repo = repo;
  pr_number = pr;
  head_sha = sha;
  installation_id = installation_id;
  action = action;
  status = pending;
  attempts = 0;
  last_error = none;
  created_at = now;
  updated_at = now;
}

-- `UPDATE … WHERE test`.
unfoldable pub update_where : (Row → Bool) → (Row → Row) → List Row → List Row
update_where test f [] = []
update_where test f (r ∷ rs) = (if test r then f r else r) ∷ update_where test f rs

-- The row that a test picks first.
unfoldable pub find_row : (Row → Bool) → List Row → Option Row
find_row test [] = none
find_row test (r ∷ rs) = let rest = find_row test rs in if test r then some r else rest

-- The id that is returned is the one of the row that is there, or the new one. The sequence moves
-- on either way.
unfoldable pub enqueue : ℕ → Text → ℕ → Text → Option ℕ → Text → Table → Table × ℕ
enqueue now repo pr sha installation_id action t = elim (find_row (has_key repo pr sha) t.rows) [
  | some r ↦ (
    record {
      rows = update_where (has_key repo pr sha) (refresh now installation_id action) t.rows;
      next_id = t.next_id + 1;
    },
    r.id,
  )
  | none ↦ (
    record {
      rows = t.rows ++ fresh_row t.next_id now repo pr sha installation_id action ∷ [];
      next_id = t.next_id + 1;
    },
    t.next_id,
  )
]

-- `status = 'pending' OR (status = 'running' AND updated_at < NOW() - stale_secs)`, on the rows
-- that no other transaction has locked (`SKIP LOCKED`).
unfoldable pub is_eligible : (ℕ → Bool) → ℕ → ℕ → Row → Bool
is_eligible locked now stale_secs r =
    not (locked r.id)
    && (is_pending r.status || is_running r.status && ltb (r.updated_at + stale_secs) now)

-- `ORDER BY`: pending rows first, then by the time of creation or of the last update.
unfoldable pub claim_rank : Row → ℕ
claim_rank r = if is_pending r.status then 0 else 1

unfoldable pub claim_time : Row → ℕ
claim_time r = if is_pending r.status then r.created_at else r.updated_at

unfoldable pub claim_before : Row → Row → Bool
unfolding claim_rank claim_time
claim_before a b =
    if claim_rank a == claim_rank b
    then leb (claim_time a) (claim_time b)
    else ltb (claim_rank a) (claim_rank b)

abbrev pub better : Row → Option Row → Option Row
better r none = some r
better r (some s) = if claim_before r s then some r else some s

-- `LIMIT 1`. Which of two rows with the same time comes first is left to PostgreSQL; here it is the
-- one that stands first.
unfoldable pub first_eligible : (Row → Bool) → List Row → Option Row
unfolding claim_before
first_eligible eligible [] = none
first_eligible eligible (r ∷ rs) =
    let rest = first_eligible eligible rs in if eligible r then better r rest else rest

unfoldable pub claimed : ℕ → Row → Row
claimed now r = record r { status = running; attempts = r.attempts + 1; updated_at = now }

unfoldable pub to_job : Row → ReviewJob
to_job r = record {
  id = r.id;
  repo = r.repo;
  pr_number = r.pr_number;
  head_sha = r.head_sha;
  installation_id = r.installation_id;
  action = r.action;
  attempts = r.attempts;
}

abbrev pub has_id : ℕ → Row → Bool
has_id id r = r.id == id

unfoldable pub claim_next : (ℕ → Bool) → ℕ → ℕ → Table → Table × Option ReviewJob
claim_next locked now stale_secs t =
    elim (first_eligible (is_eligible locked now stale_secs) t.rows) [
      | none ↦ (t, none)
      | some r ↦ (
        record t { rows = update_where (has_id r.id) (claimed now) t.rows },
        some (to_job (claimed now r)),
      )
    ]

unfoldable pub finished : ℕ → Row → Row
finished now r = record r { status = done; updated_at = now; last_error = none }

unfoldable pub broken : ℕ → Text → Row → Row
broken now error r = record r {
  status = failed;
  updated_at = now;
  last_error = some (take 500 error);
}

unfoldable pub requeued : ℕ → Row → Row
requeued now r = record r { status = pending; updated_at = now }

unfoldable pub mark_done : ℕ → ℕ → Table → Table
mark_done now id t = record t { rows = update_where (has_id id) (finished now) t.rows }

unfoldable pub mark_failed : ℕ → ℕ → Text → Table → Table
mark_failed now id error t = record t { rows = update_where (has_id id) (broken now error) t.rows }

unfoldable pub requeue_if_retryable : ℕ → ℕ → ℕ → ℕ → Table → Table
requeue_if_retryable now id attempts max_attempts t =
    if leb max_attempts attempts then t else record t {
      rows = update_where (λ r. has_id id r && is_failed r.status) (requeued now) t.rows;
    }

unfoldable pub queue_depth : Table → ℕ × ℕ
queue_depth t =
    (count_if (λ r. is_pending r.status) t.rows, count_if (λ r. is_running r.status) t.rows)
