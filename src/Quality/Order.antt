-- ===== src/Quality/Order.antt =====
-- src/bot/quality.rs: the order in which findings are surfaced.
use codasaurus.Prelude.{
  ℕ, ◌+◌, ◌≤◌, String, true, false, List, Text, sort_by, sort_by-IsSorted, IsSorted, ◌≡◌, arith,
  text_eq_iff, text_le_total, text_le_trans, text_le_antisym,
}
use codasaurus.Finding.{Finding}
use codasaurus.Quality.{severity_rank, detector_rank, noise_rank, key_le, rank_le}

detector_rank-le : (d : String) → detector_rank d ≤ 11
unfolding detector_rank
detector_rank-le d = ground arith

key_le_total :
    (r : ℕ) (s : Text) (l r' : ℕ) (s' : Text) (l' : ℕ)
    → key_le r s l r' s' l' ≡ false
    → key_le r' s' l' r s l ≡ true
unfolding key_le
key_le_total r s l r' s' l' h =
    ground (arith, text_eq_iff s s', text_eq_iff s' s, text_le_total s s')

key_le_trans :
    (r : ℕ) (s : Text) (l r' : ℕ) (s' : Text) (l' r'' : ℕ) (s'' : Text) (l'' : ℕ)
    → key_le r s l r' s' l' ≡ true
    → key_le r' s' l' r'' s'' l'' ≡ true
    → key_le r s l r'' s'' l'' ≡ true
unfolding key_le
key_le_trans r s l r' s' l' r'' s'' l'' h k = ground (
  arith,
  text_eq_iff s s',
  text_eq_iff s' s'',
  text_eq_iff s s'',
  text_le_trans s s' s'',
  text_le_antisym s s',
)

pub rank_le_total : (a b : Finding) → rank_le a b ≡ false → rank_le b a ≡ true
unfolding rank_le
rank_le_total a b h = key_le_total (noise_rank a) a.file a.line (noise_rank b) b.file b.line h

pub rank_le_trans : (a b c : Finding) → rank_le a b ≡ true → rank_le b c ≡ true → rank_le a c ≡ true
unfolding rank_le
rank_le_trans a b c h k =
    key_le_trans (noise_rank a) a.file a.line (noise_rank b) b.file b.line (noise_rank c) c.file
      c.line h k

-- Sorting by rank orders the findings by rank, then path, then line.
pub sort_by-rank_le-IsSorted : (fs : List Finding) → IsSorted rank_le (sort_by rank_le fs)
sort_by-rank_le-IsSorted fs = sort_by-IsSorted rank_le rank_le_total rank_le_trans fs

-- A detector's rank never lifts a finding over a whole severity further down than the next.
pub noise_rank_bounds :
    (f : Finding)
    → (severity_rank f.severity ≤ noise_rank f) × (noise_rank f ≤ severity_rank f.severity + 11)
unfolding noise_rank
noise_rank_bounds f = omega (arith, detector_rank-le f.detector)
