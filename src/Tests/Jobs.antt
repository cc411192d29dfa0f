-- ===== src/Tests/Jobs.antt =====
-- The job queue at concrete inputs.
use codasaurus.Queue.{
  Row, Table, ReviewJob, pending, claim_next, mark_done, claimed, is_eligible, to_job,
  first_eligible,
}
use codasaurus.Queue.Invariant.{IsValid}
use codasaurus.Queue.Trace.{Op, enqueue_op, claim_op, run, run-IsValid}
use codasaurus.Queue.Leases.{claim-exclusive, done-final}
use codasaurus.Prelude.{
  ℕ, codes, List, [], ◌∷◌, none, some, Bool, false, All, ◌≡◌, refl, ◌≢◌, arith,
}

abbrev job : Row
job = record {
  id = 0;
  repo = codes "o/r";
  pr_number = 7;
  head_sha = codes "abc";
  installation_id = none;
  action = codes "opened";
  status = pending;
  attempts = 0;
  last_error = none;
  created_at = 10;
  updated_at = 10;
}

abbrev pub table : Table
table = record { rows = job ∷ []; next_id = 1 }

abbrev pub nobody : ℕ → Bool
nobody id = false

abbrev pub first : ReviewJob
first = record {
  id = 0;
  repo = codes "o/r";
  pr_number = 7;
  head_sha = codes "abc";
  installation_id = none;
  action = codes "opened";
  attempts = 1;
}

pub first_claim : (claim_next nobody 20 600 table).1 ≡ some first
unfolding claim_next first_eligible is_eligible claimed to_job
first_claim = refl

table-IsValid : IsValid table
table-IsValid = record { ids = (tt, tt); below = (omega arith, tt); keys = (tt, tt) }

abbrev later : List Op
later =
    enqueue_op 30 (codes "o/r") 7 (codes "abc") none (codes "synchronize")
    ∷ claim_op nobody 40 600
    ∷ []

run-IsValid_example : IsValid (run later table).0
run-IsValid_example = run-IsValid later table-IsValid

claim-exclusive_example : All (λ k. k.id ≢ 0) (run later (claim_next nobody 20 600 table).0).1
claim-exclusive_example =
    claim-exclusive nobody 20 600 table first later table-IsValid first_claim
      (omega arith, (omega arith, tt))

done-final_example : All (λ k. k.id ≢ 0) (run later (mark_done 25 0 table)).1
done-final_example = done-final 25 0 table later (omega arith) (tt, (tt, tt))
