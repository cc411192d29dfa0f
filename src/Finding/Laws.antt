-- ===== src/Finding/Laws.antt =====
-- src/detectors/mod.rs and src/gates.rs: what the collection of findings counts.
use codasaurus.Prelude.{
  ℕ, ◌+◌, String, str_eq, str_eq_iff, List, [], ◌∷◌, ◌||◌, true, false, count_if, ◌≡◌, refl, arith,
  any, any-append, any_iff_count, str_eq_other, if◌then◌else◌, ◌↔◌, ◌<◌,
}
use codasaurus.Finding.{
  Finding, Findings, is_blocking, is_warning, bump, tally, count_by_severity, get_count,
  has_blocking, extend,
}

pub get_count-bump :
    (k j : String) (m : List (String × ℕ))
    → get_count j (bump k m) ≡ get_count j m + (if str_eq k j then 1 else 0)
unfolding get_count bump
get_count-bump k j [] = ground (arith, str_eq_iff k j)
get_count-bump k j ((i, n) ∷ m) =
    ground (arith, str_eq_iff k j, str_eq_iff i k, str_eq_iff i j, get_count-bump k j m)

pub get_count-tally :
    (k : String) (m : List (String × ℕ)) (fs : List Finding)
    → get_count k (tally m fs) ≡ get_count k m + count_if (λ f. str_eq f.severity k) fs
unfolding tally
get_count-tally k m [] = ground arith
get_count-tally k m (f ∷ fs) =
    ground (arith, get_count-tally k (bump f.severity m) fs, get_count-bump f.severity k m)

-- The counter of a severity is the number of findings of that severity.
pub get_count-count_by_severity :
    (k : String) (self : Findings)
    → get_count k (count_by_severity self) ≡ count_if (λ f. str_eq f.severity k) self.findings
unfolding count_by_severity get_count
get_count-count_by_severity k self = ground (arith, get_count-tally k [] self.findings)

pub has_blocking-extend :
    (self : Findings) (more : List Finding)
    → has_blocking (extend self more) ≡ (has_blocking self || any is_blocking more)
unfolding has_blocking extend
has_blocking-extend self more = any-append is_blocking self.findings more

-- The findings have a blocking one exactly when their count by severity has one for "blocking".
pub has_blocking_iff_count :
    (self : Findings)
    → (has_blocking self ≡ true) ↔ (0 < get_count "blocking" (count_by_severity self))
unfolding has_blocking
has_blocking_iff_count self =
    rw get_count-count_by_severity (any_iff_count is_blocking self.findings)

pub blocking→not_warning : (f : Finding) → is_blocking f ≡ true → is_warning f ≡ false
blocking→not_warning f h = str_eq_other f.severity "blocking" "warning" refl h
