-- ===== src/Concern/Verdict.antt =====
-- src/bot/concern.rs: when a review asks for changes, approves, or is only advisory.
use codasaurus.Finding.{Finding}
use codasaurus.Concern.{is_hard, is_soft, overall_confidence, review_event, is_advisory_draft}
use codasaurus.Prelude.{
  str_eq, List, [], ◌∷◌, Bool, true, false, not, ◌&&◌, ltb, is_nil, all, count_if, All, ◌≡◌, refl,
  ◌↔◌, arith,
}

-- Changes are requested exactly when something blocks, and a review approves exactly when nothing
-- blocks, nothing was found and approval is on.
pub review_event_flags :
    (blocking empty auto : Bool)
    → (str_eq (review_event blocking empty auto) "REQUEST_CHANGES" ≡ blocking)
      × (str_eq (review_event blocking empty auto) "APPROVE" ≡ (not blocking && (empty && auto)))
unfolding review_event
review_event_flags true empty auto = (refl, refl)
review_event_flags false true true = (refl, refl)
review_event_flags false true false = (refl, refl)
review_event_flags false false auto = (refl, refl)

no_hard :
    (fs : List Finding) → ltb 0 (count_if is_hard fs) ≡ false → All (λ f. is_hard f ≡ false) fs
no_hard [] h = tt
no_hard (f ∷ fs) h = (ground arith, no_hard fs (ground arith))

all_soft : (fs : List Finding) → all is_soft fs ≡ true → All (λ f. is_soft f ≡ true) fs
all_soft [] h = tt
all_soft (f ∷ fs) h = (ground arith, all_soft fs (ground arith))

hard_none : (fs : List Finding) → All (λ f. is_hard f ≡ false) fs → count_if is_hard fs ≡ 0
hard_none [] h = refl
hard_none (f ∷ fs) h = ground (arith, hard_none fs h.1)

soft_all : (fs : List Finding) → All (λ f. is_soft f ≡ true) fs → all is_soft fs ≡ true
soft_all [] h = refl
soft_all (f ∷ fs) h = ground (arith, soft_all fs h.1)

-- A review is an advisory draft exactly when something was found, nothing blocks, and every finding
-- is soft and none is hard.
pub is_advisory_draft_iff :
    (fs : List Finding) (blocking : Bool)
    → (is_advisory_draft fs blocking ≡ true) ↔ (
        (blocking ≡ false)
        × (is_nil fs ≡ false)
        × All (λ f. is_hard f ≡ false) fs
        × All (λ f. is_soft f ≡ true) fs)
unfolding is_advisory_draft overall_confidence
is_advisory_draft_iff fs blocking = (to, from)
  where
    to :
        is_advisory_draft fs blocking ≡ true
        → (blocking ≡ false)
          × (is_nil fs ≡ false)
          × All (λ f. is_hard f ≡ false) fs
          × All (λ f. is_soft f ≡ true) fs
    to e = (ground arith, ground arith, no_hard fs (ground arith), all_soft fs (ground arith))

    from :
        (blocking ≡ false)
          × (is_nil fs ≡ false)
          × All (λ f. is_hard f ≡ false) fs
          × All (λ f. is_soft f ≡ true) fs
        → is_advisory_draft fs blocking ≡ true
    from h = ground (arith, h.0, h.1, hard_none fs h.2, soft_all fs h.3)
