-- ===== src/Pipeline/Stages.antt =====
-- src/bot/review/pipeline.rs: the findings of a review, from what the detectors found to what the
-- gate, the comments and the verdict are read off. The judge is a language model: an argument that
-- may fail.
use codasaurus.Finding.{Finding}
use codasaurus.Confidence.{apply_base, retain_grounded}
use codasaurus.Quality.{SignalBudget, apply_signal_budget}
use codasaurus.Quality as Quality
use codasaurus.Strictness.{ReviewStrictness, signal_budget, apply_to_pack}
use codasaurus.Policy.Pack.{PolicyPack}
use codasaurus.Policy.Forbidden.{forbidden_path_findings}
use codasaurus.Policy.Caps.{enforce_count_caps}
use codasaurus.Policy.Titles.{PreMergeConfig, enforce_pr_metadata}
use codasaurus.Baseline.{Tables, filter_new_code_findings}
use codasaurus.AgentMode.{detect_agent_pr, agent_signal_budget}
use codasaurus.Pipeline.Merge.{severity_at_least}
use codasaurus.Prelude.{
  ℕ, zero, suc, Text, List, [], ◌∷◌, ◌++◌, Option, none, some, Bool, if◌then◌else◌, retain,
}

pub record JudgeOutcome : Type 0 where
  pub index : ℕ
  pub confidence : ℕ
  pub rationale : Text

pub record PullRequest : Type 0 where
  pub repo : Text
  pub number : ℕ
  pub title : Text
  pub body : Text
  pub commit_messages : List Text
  pub author : Text
  pub changed_paths : List Text

-- The pack is as the settings make it; the preset is applied here.
pub record ReviewConfig : Type 0 where
  pub pack : PolicyPack
  pub pre_merge : PreMergeConfig
  pub strictness : ReviewStrictness
  pub drop_ungrounded : Bool
  pub judge : Option (List Finding → Option (List JudgeOutcome))

-- `findings.get_mut(v.index)`.
abbrev pub update_at : ℕ → (Finding → Finding) → List Finding → List Finding
update_at i f [] = []
update_at zero f (x ∷ xs) = f x ∷ xs
update_at (suc i) f (x ∷ xs) = x ∷ update_at i f xs

abbrev pub judged : JudgeOutcome → Finding → Finding
judged v f = record f { confidence = some v.confidence; judge_rationale = some v.rationale }

unfoldable pub apply_verdicts : List JudgeOutcome → List Finding → List Finding
apply_verdicts [] fs = fs
apply_verdicts (v ∷ vs) fs = apply_verdicts vs (update_at v.index (judged v) fs)

unfoldable pub judge_findings :
    Option (List Finding → Option (List JudgeOutcome)) → List Finding → List Finding
unfolding apply_verdicts
judge_findings none fs = fs
judge_findings (some judge) fs = elim (judge fs) [ none ↦ fs | some vs ↦ apply_verdicts vs fs ]

-- All that was found, over the floor, with the findings of the policy.
unfoldable pub gated_findings : PullRequest → ReviewConfig → List Finding → List Finding
gated_findings pr cfg found =
    let pack = apply_to_pack cfg.strictness cfg.pack in
    let collected = found ++ forbidden_path_findings pr.changed_paths pack.forbidden_paths in
    let floored = retain (λ f. severity_at_least f.severity pack.min_severity) collected in
    enforce_count_caps (enforce_pr_metadata floored cfg.pre_merge pr.title pr.body) pack

unfoldable pub review_budget : PullRequest → ReviewConfig → SignalBudget
review_budget pr cfg =
    let budget = signal_budget cfg.strictness Quality.default in
    if (detect_agent_pr pr.title pr.body pr.commit_messages pr.author).is_agent
    then agent_signal_budget budget
    else budget

-- `filter_new_code_findings`, where there is a database.
unfoldable pub on_new_code :
    (Finding → Text) → PullRequest → Option Tables → List Finding → Option Tables × List Finding
on_new_code fingerprint pr none fs = (none, fs)
on_new_code fingerprint pr (some t) fs =
    let (after, kept) = filter_new_code_findings fingerprint pr.repo pr.number fs t in
    (some after, kept)

unfoldable pub review_findings :
    (Finding → Text)
    → PullRequest
    → ReviewConfig
    → Option Tables
    → List Finding
    → Option Tables × List Finding
unfolding gated_findings review_budget on_new_code judge_findings
review_findings fingerprint pr cfg database found =
    let budgeted = apply_signal_budget (gated_findings pr cfg found) (review_budget pr cfg) in
    let (after, kept) = on_new_code fingerprint pr database budgeted in
    let scored = judge_findings cfg.judge (apply_base kept) in
    (after, if cfg.drop_ungrounded then retain_grounded scored else scored)
