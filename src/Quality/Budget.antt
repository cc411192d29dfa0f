-- ===== src/Quality/Budget.antt =====
-- src/bot/quality.rs: what the budget lets through.
use codasaurus.Prelude.{
  ℕ, ◌+◌, ◌-◌, Bool, true, false, not, ◌&&◌, List, [], ◌∷◌, if◌then◌else◌, leb, sort_by, ◌≡◌, refl,
  arith, retain, take, Bool-cases, inl, inr, ap, sym, ◌∙◌, take-sub, take-nil,
}
use mathlib.Core.List.{Sublistᴰ}
use codasaurus.Finding.Laws.{blocking→not_warning}
use codasaurus.Finding.{Finding, is_blocking, is_warning}
use codasaurus.Quality.{SignalBudget, rank_le, keep_within, apply_signal_budget}

-- Every severity but "blocking" and "warning" counts against `max_info`.
abbrev pub is_other : Finding → Bool
is_other f = not (is_blocking f) && not (is_warning f)

kept_or_dropped :
    (b : Bool) {f : Finding} {kept fs : List Finding}
    → Sublistᴰ kept fs
    → Sublistᴰ (if b then f ∷ kept else kept) (f ∷ fs)
kept_or_dropped true h = Sublistᴰ.cons-cons refl h
kept_or_dropped false h = Sublistᴰ.cons h

module _ (budget : SignalBudget) where
  keep_within-blocking :
      (nb nw ni : ℕ) (fs : List Finding)
      → retain is_blocking (keep_within budget nb nw ni fs)
        ≡ take (budget.max_blocking - nb) (retain is_blocking fs)
  unfolding keep_within
  keep_within-blocking nb nw ni [] = sym (take-nil _)
  keep_within-blocking nb nw ni (f ∷ fs) = ground (
    arith,
    take-sub budget.max_blocking nb f (retain is_blocking fs),
    keep_within-blocking (nb + 1) nw ni fs,
    keep_within-blocking nb (nw + 1) ni fs,
    keep_within-blocking nb nw (ni + 1) fs,
  )

  keep_within-warning :
      (nb nw ni : ℕ) (fs : List Finding)
      → retain is_warning (keep_within budget nb nw ni fs)
        ≡ take (budget.max_warning - nw) (retain is_warning fs)
  unfolding keep_within
  keep_within-warning nb nw ni [] = sym (take-nil _)
  keep_within-warning nb nw ni (f ∷ fs) = ground (
    arith,
    blocking→not_warning f,
    take-sub budget.max_warning nw f (retain is_warning fs),
    keep_within-warning (nb + 1) nw ni fs,
    keep_within-warning nb (nw + 1) ni fs,
    keep_within-warning nb nw (ni + 1) fs,
  )

  keep_within-other :
      (nb nw ni : ℕ) (fs : List Finding)
      → retain is_other (keep_within budget nb nw ni fs)
        ≡ take (budget.max_info - ni) (retain is_other fs)
  unfolding keep_within
  keep_within-other nb nw ni [] = sym (take-nil _)
  keep_within-other nb nw ni (f ∷ fs) = ground (
    arith,
    blocking→not_warning f,
    take-sub budget.max_info ni f (retain is_other fs),
    keep_within-other (nb + 1) nw ni fs,
    keep_within-other nb (nw + 1) ni fs,
    keep_within-other nb nw (ni + 1) fs,
  )

  keep_within-sublist :
      (nb nw ni : ℕ) (fs : List Finding) → Sublistᴰ (keep_within budget nb nw ni fs) fs
  unfolding keep_within
  keep_within-sublist nb nw ni [] = Sublistᴰ.slnil
  keep_within-sublist nb nw ni (f ∷ fs) = elim (Bool-cases (is_blocking f)) [
    | inl b ↦
        rw b (
          kept_or_dropped (leb (nb + 1) budget.max_blocking)
            (keep_within-sublist (nb + 1) nw ni fs))
    | inr b ↦ rw b (elim (Bool-cases (is_warning f)) [
      | inl w ↦ rw w (
          kept_or_dropped (leb (nw + 1) budget.max_warning) (keep_within-sublist nb (nw + 1) ni fs))
      | inr w ↦
          rw w
            (kept_or_dropped (leb (ni + 1) budget.max_info) (keep_within-sublist nb nw (ni + 1) fs))
    ])
  ]

-- Of each severity the budget keeps exactly the first findings in rank order, up to its cap.
pub apply_signal_budget-keeps_first :
    (fs : List Finding) (budget : SignalBudget)
    → let sorted = sort_by rank_le fs in
      let kept = apply_signal_budget fs budget in
      (retain is_blocking kept ≡ take budget.max_blocking (retain is_blocking sorted))
      × (retain is_warning kept ≡ take budget.max_warning (retain is_warning sorted))
      × (retain is_other kept ≡ take budget.max_info (retain is_other sorted))
unfolding apply_signal_budget
apply_signal_budget-keeps_first fs budget =
    let sorted = sort_by rank_le fs in
    (
      keep_within-blocking budget 0 0 0 sorted
          ∙ no_sub budget.max_blocking (retain is_blocking sorted),
      keep_within-warning budget 0 0 0 sorted
          ∙ no_sub budget.max_warning (retain is_warning sorted),
      keep_within-other budget 0 0 0 sorted ∙ no_sub budget.max_info (retain is_other sorted),
    )
  where
    no_sub : (n : ℕ) (xs : List Finding) → take (n - 0) xs ≡ take n xs
    no_sub n xs = ap (λ k. take k xs) (omega arith)

-- What is surfaced is taken from the findings sorted by rank, in that order.
pub apply_signal_budget-sublist :
    (fs : List Finding) (budget : SignalBudget)
    → Sublistᴰ (apply_signal_budget fs budget) (sort_by rank_le fs)
unfolding apply_signal_budget
apply_signal_budget-sublist fs budget = keep_within-sublist budget 0 0 0 (sort_by rank_le fs)
