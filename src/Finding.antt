-- ===== src/Finding.antt =====
-- src/detectors/mod.rs: findings and collections of findings. Severities and detector names are
-- tags that the program only compares; paths and messages are texts that it walks.
pub mod Laws
use codasaurus.Prelude.{
  ℕ, ◌+◌, String, Text, codes, str_eq, List, [], ◌∷◌, ◌++◌, Option, none, some, Bool, true, false,
  if◌then◌else◌, any, is_nil, ◌/◌, ◌%◌, zero, suc, ltb,
}

pub record Finding : Type 0 where
  pub detector : String
  pub severity : String
  pub file : Text
  pub line : ℕ
  pub column : ℕ
  pub message : Text
  pub suggestion : Option Text
  pub evidence : Option Text
  pub codemod : Option Text
  pub confidence : Option ℕ
  pub judge_rationale : Option Text
  pub reachability : Option String

pub record Findings : Type 0 where
  pub findings : List Finding

abbrev pub is_blocking : Finding → Bool
is_blocking f = str_eq f.severity "blocking"

abbrev pub is_warning : Finding → Bool
is_warning f = str_eq f.severity "warning"

unfoldable pub new : Findings
new = record { findings = [] }

-- `debug_assert!` is compiled out of the release build, so the registry is not consulted here.
unfoldable pub extend : Findings → List Finding → Findings
extend self more = record { findings = self.findings ++ more }

unfoldable pub is_empty : Findings → Bool
is_empty self = is_nil self.findings

unfoldable pub has_blocking : Findings → Bool
has_blocking self = any is_blocking self.findings

-- A `HashMap` of counters, in order of first use; `entry(k).or_insert(0) += 1`.
unfoldable pub bump : String → List (String × ℕ) → List (String × ℕ)
bump k [] = (k, 1) ∷ []
bump k ((j, n) ∷ m) = if str_eq j k then (j, n + 1) ∷ m else (j, n) ∷ bump k m

unfoldable pub tally : List (String × ℕ) → List Finding → List (String × ℕ)
unfolding bump
tally counts [] = counts
tally counts (f ∷ fs) = tally (bump f.severity counts) fs

unfoldable pub count_by_severity : Findings → List (String × ℕ)
unfolding tally
count_by_severity self = tally [] self.findings

-- `counts.get(k).unwrap_or(&0)`.
unfoldable pub get_count : String → List (String × ℕ) → ℕ
get_count k [] = 0
get_count k ((j, n) ∷ m) = if str_eq j k then n else get_count k m

-- `as_bytes` of a text: its UTF-8 encoding.
unfoldable pub utf8_char : ℕ → List ℕ
utf8_char c =
    if ltb c 0x80
    then c ∷ []
    else if ltb c 0x800
    then (0xc0 + c / 64) ∷ (0x80 + c % 64) ∷ []
    else if ltb c 0x10000
    then (0xe0 + c / 4096) ∷ (0x80 + c / 64 % 64) ∷ (0x80 + c % 64) ∷ []
    else (0xf0 + c / 262144) ∷ (0x80 + c / 4096 % 64) ∷ (0x80 + c / 64 % 64) ∷ (0x80 + c % 64) ∷ []

unfoldable pub utf8 : Text → List ℕ
unfolding utf8_char
utf8 [] = []
utf8 (c ∷ s) = utf8_char c ++ utf8 s

-- `usize::to_le_bytes` on a 64-bit target.
unfoldable pub le_bytes : ℕ → ℕ → List ℕ
le_bytes zero n = []
le_bytes (suc k) n = (n % 256) ∷ le_bytes k (n / 256)

-- What `fingerprint` feeds to the hash, one update after the other.
unfoldable pub fingerprint_input : Finding → List ℕ
unfolding utf8 le_bytes
fingerprint_input f =
    utf8 (codes f.detector) ++ (utf8 f.file ++ (le_bytes 8 f.line ++ utf8 f.message))

-- SHA-256 with hexadecimal output is a parameter.
unfoldable pub fingerprint : (List ℕ → Text) → Finding → Text
unfolding fingerprint_input
fingerprint sha256_hex f = sha256_hex (fingerprint_input f)
