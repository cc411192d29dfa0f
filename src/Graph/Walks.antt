-- ===== src/Graph/Walks.antt =====
-- src/graph/mod.rs: the walks that the search follows, and how many nodes it has yet to see.
use codasaurus.Graph.{mark}
use codasaurus.Prelude.{
  ℕ, zero, suc, ◌+◌, ◌≤◌, ◌<◌, List, Memᴰ, Bool, false, ◌==◌, if◌then◌else◌, ==_iff, Bool-cases,
  ◌≡◌, refl, inl, inr, arith,
}

pub data Walk (neighbors : ℕ → List ℕ) (start : ℕ) : ℕ → ℕ → Type 0 where
  here : Walk neighbors start 0 start
  step :
      {k u v : ℕ} → Walk neighbors start k u → Memᴰ v (neighbors u) → Walk neighbors start (suc k) v

-- How many of the first `n` nodes are not seen.
abbrev pub unseen : ℕ → (ℕ → Bool) → ℕ
unseen zero seen = 0
unseen (suc n) seen = (if seen n then 0 else 1) + unseen n seen

unseen-mark_above : (n v : ℕ) (seen : ℕ → Bool) → n ≤ v → unseen n (mark v seen) ≡ unseen n seen
unseen-mark_above zero v seen h = refl
unseen-mark_above (suc n) v seen h = ground (arith, unseen-mark_above n v seen)

pub unseen-mark :
    (n v : ℕ) (seen : ℕ → Bool)
    → v < n
    → seen v ≡ false
    → suc (unseen n (mark v seen)) ≡ unseen n seen
unseen-mark zero v seen h e = elim h [ ]
unseen-mark (suc n) v seen h e = elim (Bool-cases (n == v)) [
  | inl q ↦
      let same = (==_iff n v).0 q in
      let here' : seen n ≡ false = rw same e in
      rw (q, here') (omega (arith, unseen-mark_above n v seen (omega arith)))
  | inr q ↦ rw q (omega (arith, unseen-mark n v seen (ground arith) e))
]

pub unseen-none : (n : ℕ) → unseen n (λ w. false) ≡ n
unseen-none zero = refl
unseen-none (suc n) = omega (arith, unseen-none n)
