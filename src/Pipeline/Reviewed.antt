-- ===== src/Pipeline/Reviewed.antt =====
-- src/bot/review/pipeline.rs: what reaches the verdict of what was found.
use codasaurus.Finding.{Finding, is_blocking}
use codasaurus.Confidence.{apply_base, with_base, retain_grounded, is_grounded}
use codasaurus.Quality.{SignalBudget, apply_signal_budget, rank_le}
use codasaurus.Quality as Quality
use codasaurus.Quality.Budget.{apply_signal_budget-keeps_first}
use codasaurus.Strictness.{ReviewStrictness, lenient, balanced, strict, nitpick, signal_budget}
use codasaurus.Baseline.{Tables, DiffLine}
use codasaurus.Baseline.Filtered.{filter_new_code_findings-line_zero}
use codasaurus.AgentMode.{detect_agent_pr, agent_signal_budget}
use codasaurus.Pipeline.Stages.{
  JudgeOutcome, PullRequest, ReviewConfig, update_at, judged, apply_verdicts, judge_findings,
  gated_findings, review_budget, on_new_code, review_findings,
}
use codasaurus.Prelude.{
  ℕ, zero, suc, ◌<◌, Text, List, [], ◌∷◌, Option, none, some, Bool, true, false, not, ◌||◌,
  if◌then◌else◌, Bool-cases, Option-cases, take, is_nil, retain, any, All, if_false, any-sort_by,
  All-retain, sort_by, ◌≡◌, refl, sym, ap, ◌∙◌, ◌≢◌, inl, inr, arith,
}

-- A property of findings that scores do not touch survives the scoring.
module _ (P : Finding → Type 0) (based : (f : Finding) → P f → P (with_base f))
    (scored : (v : JudgeOutcome) (f : Finding) → P f → P (judged v f)) where
  apply_base-All : (fs : List Finding) → All P fs → All P (apply_base fs)
  unfolding apply_base
  apply_base-All [] h = tt
  apply_base-All (f ∷ fs) h = (based f h.0, apply_base-All fs h.1)

  update_at-All :
      (i : ℕ) (v : JudgeOutcome) (fs : List Finding) → All P fs → All P (update_at i (judged v) fs)
  update_at-All i v [] h = tt
  update_at-All zero v (f ∷ fs) h = (scored v f h.0, h.1)
  update_at-All (suc i) v (f ∷ fs) h = (h.0, update_at-All i v fs h.1)

  apply_verdicts-All :
      (vs : List JudgeOutcome) (fs : List Finding) → All P fs → All P (apply_verdicts vs fs)
  unfolding apply_verdicts
  apply_verdicts-All [] fs h = h
  apply_verdicts-All (v ∷ vs) fs h =
      apply_verdicts-All vs (update_at v.index (judged v) fs) (update_at-All v.index v fs h)

  judge_findings-All :
      (judge : Option (List Finding → Option (List JudgeOutcome))) (fs : List Finding)
      → All P fs
      → All P (judge_findings judge fs)
  unfolding judge_findings
  judge_findings-All none fs h = h
  judge_findings-All (some judge) fs h = elim (Option-cases (judge fs)) [
    | inl e ↦ rw e h
    | inr (vs, e) ↦ rw e (apply_verdicts-All vs fs h)
  ]

  grounded-All :
      (b : Bool) (fs : List Finding) → All P fs → All P (if b then retain_grounded fs else fs)
  unfolding retain_grounded
  grounded-All true fs h = All-retain P is_grounded fs h
  grounded-All false fs h = h

-- In a review with a database whose changed lines are numbered from one, no finding on line zero
-- reaches the verdict. The findings that the caps on counts and the gates on the title and the
-- description add stand on line zero: none of them ever blocks a pull request.
pub review_findings-line_zero :
    (fingerprint : Finding → Text) (pr : PullRequest) (cfg : ReviewConfig) (t : Tables)
    (found : List Finding)
    → All (λ (r : DiffLine). 0 < r.line) t.diff_lines
    → All (λ f. f.line ≢ 0) (review_findings fingerprint pr cfg (some t) found).1
unfolding review_findings on_new_code with_base
review_findings-line_zero fingerprint pr cfg t found pos =
    let budgeted = apply_signal_budget (gated_findings pr cfg found) (review_budget pr cfg) in
    let kept = filter_new_code_findings-line_zero fingerprint pr.repo pr.number budgeted t pos in
    let based = apply_base-All (λ f. f.line ≢ 0) (λ f h. h) (λ v f h. h) _ kept in
    let scored = judge_findings-All (λ f. f.line ≢ 0) (λ f h. h) (λ v f h. h) cfg.judge _ based in
    grounded-All (λ f. f.line ≢ 0) (λ f h. h) (λ v f h. h) cfg.drop_ungrounded _ scored

apply_base-blocking : (fs : List Finding) → any is_blocking (apply_base fs) ≡ any is_blocking fs
unfolding apply_base with_base
apply_base-blocking [] = refl
apply_base-blocking (f ∷ fs) = ap (λ b. is_blocking f || b) (apply_base-blocking fs)

any_nil {ℓ} : {A : Type ℓ} (p : A → Bool) (xs : List A) → any p xs ≡ not (is_nil (retain p xs))
any_nil p [] = refl
any_nil p (x ∷ xs) = elim (Bool-cases (p x)) [ inl e ↦ rw e | inr e ↦ rw (e, any_nil p xs) ]

take_nil {ℓ} : {A : Type ℓ} (n : ℕ) (xs : List A) → 0 < n → is_nil (take n xs) ≡ is_nil xs
take_nil zero xs h = absurd (omega arith)
take_nil (suc n) [] h = refl
take_nil (suc n) (x ∷ xs) h = refl

-- A budget that has room for one blocking finding keeps one if there is one.
budget-blocking :
    (fs : List Finding) (b : SignalBudget)
    → 0 < b.max_blocking
    → any is_blocking (apply_signal_budget fs b) ≡ any is_blocking fs
budget-blocking fs b h =
    any_nil is_blocking (apply_signal_budget fs b)
    ∙ ap (λ xs. not (is_nil xs)) (apply_signal_budget-keeps_first fs b).0
    ∙ ap not (take_nil b.max_blocking (retain is_blocking (sort_by rank_le fs)) h)
    ∙ sym (any_nil is_blocking (sort_by rank_le fs))
    ∙ any-sort_by rank_le is_blocking fs

roomy : (pr : PullRequest) (cfg : ReviewConfig) → 0 < (review_budget pr cfg).max_blocking
unfolding review_budget signal_budget Quality.default agent_signal_budget
roomy pr cfg =
    room (detect_agent_pr pr.title pr.body pr.commit_messages pr.author).is_agent cfg.strictness
  where
    room :
        (b : Bool) (s : ReviewStrictness)
        → 0
          < (if b
              then agent_signal_budget (signal_budget s Quality.default)
              else signal_budget s Quality.default).max_blocking
    room true lenient = omega arith
    room true balanced = omega arith
    room true strict = omega arith
    room true nitpick = omega arith
    room false lenient = omega arith
    room false balanced = omega arith
    room false strict = omega arith
    room false nitpick = omega arith

unjudged :
    (judge : Option (List Finding → Option (List JudgeOutcome))) (fs : List Finding)
    → judge ≡ none
    → judge_findings judge fs ≡ fs
unfolding judge_findings
unjudged none fs e = refl
unjudged (some judge) fs e = absurd (cc e)

-- In a review with no database, whose findings are not dropped by confidence and not judged, what is
-- surfaced has a blocking finding exactly when what was found has one after the floor of severities
-- and with the findings of the policy: the budget never hides that something blocks.
pub review_findings-blocking :
    (fingerprint : Finding → Text) (pr : PullRequest) (cfg : ReviewConfig) (found : List Finding)
    → cfg.drop_ungrounded ≡ false
    → cfg.judge ≡ none
    → any is_blocking (review_findings fingerprint pr cfg none found).1
      ≡ any is_blocking (gated_findings pr cfg found)
unfolding review_findings on_new_code
review_findings-blocking fingerprint pr cfg found kept no_judge =
    let budgeted = apply_signal_budget (gated_findings pr cfg found) (review_budget pr cfg) in
    ap (any is_blocking) (if_false cfg.drop_ungrounded _ _ kept ∙ unjudged cfg.judge _ no_judge)
    ∙ apply_base-blocking budgeted
    ∙ budget-blocking (gated_findings pr cfg found) (review_budget pr cfg) (roomy pr cfg)
