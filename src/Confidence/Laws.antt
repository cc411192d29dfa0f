-- ===== src/Confidence/Laws.antt =====
-- src/confidence.rs: what scoring changes, and what the floor drops.
use codasaurus.Prelude.{
  ℕ, String, Bool, true, List, [], ◌∷◌, Option, none, some, if◌then◌else◌, leb→le, le→leb, ◌≡◌,
  refl, ap, ◌≤◌, All, arith, ◌↔◌, Memᴰ, mem-retain, mem-retain_of,
}
use codasaurus.Finding.{Finding, is_blocking}
use codasaurus.Confidence.{
  base_confidence, filled, with_base, apply_base, confidence_or_zero, is_grounded, retain_grounded,
}

graded :
    (p q r : Bool)
    → let n : ℕ = if p then 5 else if q then 3 else if r then 3 else 4 in (3 ≤ n) × (n ≤ 5)
graded p q r = ground arith

pub base_confidence_bounds : (d : String) → (3 ≤ base_confidence d) × (base_confidence d ≤ 5)
unfolding base_confidence
base_confidence_bounds d = graded _ _ _

with_base_idem : (f : Finding) → with_base (with_base f) ≡ with_base f
unfolding with_base
with_base_idem f = ground arith

-- Scoring a second time changes nothing.
pub apply_base_idem : (fs : List Finding) → apply_base (apply_base fs) ≡ apply_base fs
unfolding apply_base
apply_base_idem [] = refl
apply_base_idem (f ∷ fs) = cc (with_base_idem f, apply_base_idem fs)

-- A score that a finding carries is kept; a missing one becomes the base score of its detector.
pub apply_base-scored :
    (fs : List Finding) → All (λ f. (c : ℕ) × (f.confidence ≡ some c)) (apply_base fs)
unfolding apply_base with_base
apply_base-scored [] = tt
apply_base-scored (f ∷ fs) = (scored f.confidence, apply_base-scored fs)
  where
    scored : (o : Option ℕ) → (c : ℕ) × (filled (base_confidence f.detector) o ≡ some c)
    scored none = (base_confidence f.detector, refl)
    scored (some c) = (c, refl)

fresh-is_grounded : (f : Finding) → f.confidence ≡ none → is_grounded (with_base f) ≡ true
unfolding is_grounded with_base
fresh-is_grounded f e = ground (arith, base_confidence_bounds f.detector)

-- Findings that no judge has scored all pass the floor: the base score of every detector is 3 or
-- more.
pub retain_grounded-apply_base :
    (fs : List Finding)
    → All (λ f. f.confidence ≡ none) fs
    → retain_grounded (apply_base fs) ≡ apply_base fs
unfolding retain_grounded apply_base
retain_grounded-apply_base [] h = refl
retain_grounded-apply_base (f ∷ fs) h =
    rw (fresh-is_grounded f h.0) (ap (◌∷◌ (with_base f)) (retain_grounded-apply_base fs h.1))

-- A finding passes the floor exactly when it is listed, and scored 3 or more if it is blocking,
-- 2 or more if not.
pub mem-retain_grounded :
    (fs : List Finding) (f : Finding)
    → Memᴰ f (retain_grounded fs)
      ↔ (Memᴰ f fs × ((if is_blocking f then 3 else 2) ≤ confidence_or_zero f.confidence))
unfolding retain_grounded is_grounded
mem-retain_grounded fs f = (
  λ m. let (h, e) = mem-retain is_grounded fs m in (h, leb→le _ _ e),
  λ h. mem-retain_of is_grounded fs h.0 (le→leb _ _ h.1),
)
