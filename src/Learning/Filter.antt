-- ===== src/Learning/Filter.antt =====
-- src/learning/store.rs: `filter_findings_async`, which drops what was dismissed and applies the
-- learned rules to the rest.
use codasaurus.Finding.{Finding, fingerprint}
use codasaurus.Learning.{scope_chain}
use codasaurus.Learning.Store.{
  Dismissed, Rule, Store, in_scopes, rule_scope, precedes, first_of, none_or, file_matches,
}
use codasaurus.Prelude.{
  ℕ, ◌+◌, String, Text, str_eq, text_eq, contains, List, [], ◌∷◌, map, Option, none, some, Bool,
  true, ◌&&◌, leb, ◌==◌, if◌then◌else◌, length, take, is_nil, retain, any, count_if, sort_by,
}

-- `entry(fp.len()).or_default().insert(fp)`: the stored prefixes, by their length.
abbrev pub bucket : Text → List (ℕ × List Text) → List (ℕ × List Text)
bucket fp [] = (length fp, fp ∷ []) ∷ []
bucket fp ((n, set) ∷ m) = if n == length fp then (n, fp ∷ set) ∷ m else (n, set) ∷ bucket fp m

unfoldable pub buckets : List Text → List (ℕ × List Text)
buckets [] = []
buckets (fp ∷ fps) = bucket fp (buckets fps)

-- `is_char_boundary(len)`, for a text of one byte to a character, and the look-up of the prefix.
abbrev pub prefix_stored : Text → ℕ × List Text → Bool
prefix_stored fp (n, set) = leb n (length fp) && any (text_eq (take n fp)) set

abbrev pub min_prefix_len : ℕ
min_prefix_len = 12

-- One less than the 64 hexadecimal digits of a fingerprint.
abbrev pub max_prefix_len : ℕ
max_prefix_len = 63

abbrev pub fingerprints_in : List Text → List Dismissed → List Text
fingerprints_in scopes rows =
    map (λ (d : Dismissed). d.fingerprint) (retain (λ d. in_scopes scopes d.repo_full_name) rows)

-- The query for whole fingerprints, as a test on the set that it returns.
unfoldable pub dismissed_set : List Text → List Text → List Dismissed → List Text
dismissed_set fingerprints scopes rows =
    retain (λ fp. any (text_eq fp) fingerprints) (fingerprints_in scopes rows)

unfoldable pub prefixes : List Text → List Dismissed → List Text
prefixes scopes rows =
    retain (λ fp. leb min_prefix_len (length fp) && leb (length fp) max_prefix_len)
      (fingerprints_in scopes rows)

abbrev pub applies : List Text → Rule → Bool
applies scopes r = str_eq r.status "approved" && in_scopes scopes (rule_scope r)

abbrev pub message_matches : Text → Rule → Bool
message_matches message r = none_or (λ pat. contains pat message) r.message_pattern

abbrev pub is_ignore : Rule → Bool
is_ignore r = str_eq r.action "ignore"

abbrev pub lowered : String → String
lowered severity =
    if str_eq severity "blocking"
    then "warning"
    else if str_eq severity "warning"
    then "info"
    else severity

abbrev pub raised : String → String
raised severity = if str_eq severity "info" then "warning" else severity

-- The severity under at most one rule.
abbrev pub adjusted : Option Rule → Finding → Finding
adjusted none f = f
adjusted (some r) f =
    if str_eq r.action "downgrade"
    then record f { severity = lowered f.severity }
    else if str_eq r.action "always_warn"
    then record f { severity = raised f.severity }
    else f

-- What becomes of a finding, and the rule that fired.
pub record Judged : Type 0 where
  pub kept : Option Finding
  pub fired : Option Rule

module _ (id_le : Text → Text → Bool) (to_lowercase : Text → Text)
    (sha256_hex : List ℕ → Text) where
  abbrev pub matches : Finding → Rule → Bool
  matches f r = file_matches to_lowercase f.file r && message_matches f.message r

  -- The rules of a finding's detector, in their order of precedence.
  abbrev pub candidates : Finding → List Rule → List Rule
  candidates f rules = retain (matches f) (retain (λ r. str_eq r.detector f.detector) rules)

  abbrev pub after_ignore : Option Rule → List Rule → Finding → Judged
  after_ignore (some r) matching f = record { kept = none; fired = some r }
  after_ignore none matching f =
      let applied = first_of (λ (r : Rule). true) matching in
      record { kept = some (adjusted applied f); fired = applied }

  unfoldable pub judge : List Text → List (ℕ × List Text) → List Rule → Finding → Judged
  judge dismissed by_len rules f =
      let fp = fingerprint sha256_hex f in
      if any (text_eq fp) dismissed
      then record { kept = none; fired = none }
      else if any (prefix_stored fp) by_len
      then record { kept = none; fired = none }
      else after_ignore (first_of is_ignore (candidates f rules)) (candidates f rules) f

  abbrev pub judged : Option Text → Store → List Finding → List Judged
  judged repo s findings =
      let scopes = scope_chain repo in
      map
        (judge (dismissed_set (map (fingerprint sha256_hex) findings) scopes s.dismissed_findings)
          (buckets (prefixes scopes s.dismissed_findings))
          (sort_by (precedes id_le) (retain (applies scopes) s.learned_rules)))
        findings

  abbrev pub kept_of : List Judged → List Finding
  kept_of [] = []
  kept_of (j ∷ js) = elim j.kept [ none ↦ kept_of js | some f ↦ f ∷ kept_of js ]

  abbrev pub fired_of : List Judged → List Text
  fired_of [] = []
  fired_of (j ∷ js) = elim j.fired [ none ↦ fired_of js | some r ↦ r.id ∷ fired_of js ]

  -- `UPDATE … FROM UNNEST(ids, counts)`; it is not run when no rule fired.
  abbrev pub record_hits : ℕ → List Text → Rule → Rule
  record_hits now hits r =
      if any (text_eq r.id) hits
      then record r {
        match_count = r.match_count + count_if (text_eq r.id) hits;
        last_matched_at = some now;
      }
      else r

  unfoldable pub filter_findings_async :
      ℕ → List Finding → Option Text → Store → List Finding × Store
  filter_findings_async now findings repo s = if is_nil findings then ([], s) else (
    kept_of (judged repo s findings),
    record s {
      learned_rules = map (record_hits now (fired_of (judged repo s findings))) s.learned_rules;
    },
  )
